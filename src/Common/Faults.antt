-- ===== src/Common/Faults.antt =====
-- What a call comes to: a value, or the fault that stops the program. The asserts of the source are
-- read as they run in a build without NDEBUG.
use mathlib.Core.Bool.{Bool, true, false}
use mathlib.Core.Path.{◌≡◌, refl}

-- `assert_failed` is abort() from assert; `length_error` is thrown by vector::resize;
-- `bad_function_call` is thrown by the call of an empty std::function, `null_pointer` is the use of
-- an empty unique_ptr or a null pointer, `dangling_pointer` of one to a destroyed object,
-- `out_of_range` an index past the end of a vector, `signed_overflow` an int that is counted past its
-- largest value, which is undefined, and `no_return` the end of a function that should return a value
-- and has no return statement.
pub data Fault : Type 0 where
  assert_failed length_error bad_function_call null_pointer dangling_pointer out_of_range
        signed_overflow no_return :
      Fault

pub data Result {u} (T : Type u) : Type u where
  ok : (value : T) → Result T
  err : (fault : Fault) → Result T

-- A fault ends the function that calls.
abbrev pub ◌>>=◌ {u v} : {S : Type u} {T : Type v} (r : Result S) (next : S → Result T) → Result T
err fault >>= next = err fault
ok value >>= next = next value

infixl 5 ◌>>=◌
-- An assertion in front of a statement.
abbrev pub ◌>>◌ {v} : {T : Type v} (test : Result (Unit {0})) (next : Result T) → Result T
test >> next = test >>= λ _. next

infixl 5 ◌>>◌
abbrev pub assert : Bool → Result (Unit {0})
assert true = ok tt
assert false = err assert_failed

-- An assertion that holds does nothing.
pub assert_passes {ℓ} : {T : Type ℓ} (b : Bool) (r : Result T) → b ≡ true → (assert b >> r) ≡ r
assert_passes b r h = rw h refl

pub assert_fails {ℓ} :
    {T : Type ℓ} (b : Bool) (r : Result T) → b ≡ false → (assert b >> r) ≡ err assert_failed
assert_fails b r h = rw h refl

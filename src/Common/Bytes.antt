-- ===== src/Common/Bytes.antt =====
-- std::find on bytes.
use Prim.Native.Nat.{ℕ}
use mathlib.Core.Path.{◌≡◌, refl}
use mathlib.Core.Logic.{◌≢◌}
use mathlib.Core.List.{List, [], ◌∷◌, ◌++◌}
use chaonet.Common.Tests.{◌==◌, if◌then◌else◌, eq→==, ne→==-eq-false}

-- What stands before the byte, and what starts at it, which is empty if there is none.
unfoldable pub find_byte : ℕ → List ℕ → List ℕ × List ℕ
find_byte b [] = ([], [])
find_byte b (x ∷ xs) =
    let rest = find_byte b xs in if x == b then ([], x ∷ xs) else (x ∷ rest.0, rest.1)

-- The byte does not stand in the list.
abbrev pub Without : ℕ → List ℕ → Type 0
Without b [] = Unit {0}
Without b (x ∷ xs) = (x ≢ b) × Without b xs

pub find_byte-found :
    (b : ℕ) (xs ys : List ℕ) → Without b xs → find_byte b (xs ++ b ∷ ys) ≡ (xs, b ∷ ys)
unfolding find_byte
find_byte-found b [] ys w = rw (eq→== b b refl) refl
find_byte-found b (x ∷ xs) ys (ne, w) =
    rw (ne→==-eq-false x b ne) (rw (find_byte-found b xs ys w) refl)

pub find_byte-none : (b : ℕ) (xs : List ℕ) → Without b xs → find_byte b xs ≡ (xs, [])
unfolding find_byte
find_byte-none b [] w = refl
find_byte-none b (x ∷ xs) (ne, w) = rw (ne→==-eq-false x b ne) (rw (find_byte-none b xs w) refl)

-- ===== src/Pool/Turns.antt =====
-- The loops take turns.
use chaonet.Common.{
  ℕ, suc, ◌≡◌, refl, ap, ◌∙◌, sym, List, [], ◌∷◌, ◌++◌, append_assoc, some, ok, leb, le→leb,
  lt→leb-eq-false, if◌then◌else◌, length, get_elem?, get_elem?-append, length-append, arith,
}
use chaonet.Pool.{Pool, next_of, next_in, get_next_loop, calls}

one_call :
    (p : Pool) (xs : List ℕ) (y : ℕ) (ys : List ℕ)
    → p.loops ≡ xs ++ y ∷ ys
    → p.next ≡ length xs
    → get_next_loop p ≡ next_of p (some y)
unfolding get_next_loop next_in
one_call p xs y ys e i =
    ap (next_in p) e
    ∙ there xs
    ∙ ap (λ n. next_of p (get_elem? (xs ++ y ∷ ys) n)) i
    ∙ ap (next_of p) (get_elem?-append xs ys y)
  where
    there : (zs : List ℕ) → next_in p (zs ++ y ∷ ys) ≡ next_of p (get_elem? (zs ++ y ∷ ys) p.next)
    there [] = refl
    there (z ∷ zs) = refl

then_calls :
    (n y : ℕ) (ys : List ℕ) (p p' q : Pool)
    → get_next_loop p ≡ ok (y, p')
    → calls n p' ≡ ok (ys, q)
    → calls (suc n) p ≡ ok (y ∷ ys, q)
unfolding calls
then_calls n y ys p p' q e f = rw e (rw f refl)

step_to :
    (p : Pool) (y next : ℕ)
    → (if leb (length p.loops) (suc p.next) then 0 else suc p.next) ≡ next
    → next_of p (some y) ≡ ok (y, record p { next = next })
unfolding next_of
step_to p y next e = ap (λ n. ok (y, record p { next = n })) e

-- From the loop whose turn it is, the calls give out it and all the loops behind it, each once and in
-- order, and then it is the turn of the first loop again.
pub calls-turns :
    (p : Pool) (xs : List ℕ) (y : ℕ) (ys : List ℕ)
    → p.loops ≡ xs ++ y ∷ ys
    → p.next ≡ length xs
    → calls (length (y ∷ ys)) p ≡ ok (y ∷ ys, record p { next = 0 })
unfolding calls
calls-turns p xs y [] e i =
    then_calls 0 y [] p (record p { next = 0 }) (record p { next = 0 })
      (one_call p xs y [] e i
        ∙ step_to p y 0 (
            rw
              (le→leb (length p.loops) (suc p.next)
                (omega (arith, ap length e, length-append xs (y ∷ []), i)))
              refl))
      refl
calls-turns p xs y (z ∷ zs) e i =
    let p' = record p { next = suc p.next } in
    then_calls (length (z ∷ zs)) y (z ∷ zs) p p' (record p { next = 0 })
      (one_call p xs y (z ∷ zs) e i
        ∙ step_to p y (suc p.next) (
            rw
              (lt→leb-eq-false (length p.loops) (suc p.next)
                (omega (arith, ap length e, length-append xs (y ∷ z ∷ zs), i)))
              refl))
      (calls-turns p' (xs ++ y ∷ []) z zs (e ∙ sym (append_assoc xs (y ∷ []) (z ∷ zs)))
        (omega (arith, i, length-append xs (y ∷ []))))

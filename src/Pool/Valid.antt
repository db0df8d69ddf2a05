-- ===== src/Pool/Valid.antt =====
-- The index of the next loop stays inside.
use chaonet.Common.{
  ℕ, zero, suc, ◌<◌, ◌≡◌, ◌⊎◌, inl, inr, List, [], ◌∷◌, some, ok, refl, ap, ◌∙◌, Bool-cases, leb,
  leb-eq-false, if◌then◌else◌, length, get_elem?, arith,
}
use chaonet.Pool.{Pool, next_of, next_in, get_next_loop}

-- Without loops the index is not used.
abbrev pub Valid : Pool → Type 0
Valid p = (p.loops ≡ []) ⊎ (p.next < length p.loops)

-- getNextLoop returns a loop.
pub record Turn (p : Pool) : Type 0 where
  pub loop : ℕ
  pub pool : Pool
  pub run : get_next_loop p ≡ ok (loop, pool)
  pub valid : Valid pool
  pub base : pool.base_loop ≡ p.base_loop

inside : {A : Type 0} (xs : List A) (i : ℕ) → i < length xs → (x : A) × (get_elem? xs i ≡ some x)
inside [] i h = absurd (omega arith)
inside (x ∷ xs) zero h = (x, refl)
inside (x ∷ xs) (suc i) h = inside xs i (omega arith)

pub get_next_loop-Turn : (p : Pool) → Valid p → Turn p
unfolding get_next_loop next_in next_of
get_next_loop-Turn p (inl e) = record {
  loop = p.base_loop;
  pool = p;
  run = ap (next_in p) e;
  valid = inl e;
  base = refl;
}
get_next_loop-Turn p (inr h) = by_loops p.loops refl
  where
    after : ℕ → Pool
    after n = record p { next = n }

    next_index : ℕ
    next_index = if leb (length p.loops) (suc p.next) then 0 else suc p.next

    smaller : next_index < length p.loops
    smaller = elim (Bool-cases (leb (length p.loops) (suc p.next))) [
      | inl y ↦ rw y (omega (arith, h))
      | inr n ↦ rw n (leb-eq-false _ _ n)
    ]

    by_loops : (xs : List ℕ) → p.loops ≡ xs → Turn p
    by_loops [] e = absurd (omega (arith, h, ap length e))
    by_loops (x ∷ xs) e =
        let (y, there) = inside (x ∷ xs) p.next (omega (arith, h, ap length e)) in
        record {
          loop = y;
          pool = after next_index;
          run = ap (next_in p) e ∙ ap (next_of p) there;
          valid = inr smaller;
          base = refl;
        }

-- ===== src/Buffer/Crlf.antt =====
-- The search for CRLF in the readable bytes (findCRLF in chaonet/include/Buffer.h).
use chaonet.Common.{
  ℕ, suc, ◌+◌, ◌≡◌, refl, ap, ◌∙◌, ◌⊎◌, inl, inr, true, false, ◌&&◌, Option, none, some, List, [],
  ◌∷◌, ◌++◌, ◌==◌, if◌then◌else◌, Bool-cases, if_false, length, arith,
}

-- std::search for "\r\n"; `at` is the offset of the first byte.
unfoldable pub search_crlf : ℕ → List ℕ → Option ℕ
search_crlf at [] = none
search_crlf at (x ∷ []) = none
search_crlf at (x ∷ y ∷ rest) =
    if x == 13 && y == 10 then some at else search_crlf (suc at) (y ∷ rest)

-- No byte 13 with a byte 10 right behind it.
abbrev pub NoCrlf : List ℕ → Type 0
NoCrlf [] = Unit {0}
NoCrlf (x ∷ []) = Unit {0}
NoCrlf (x ∷ y ∷ rest) = ¬ ((x ≡ 13) × (y ≡ 10)) × NoCrlf (y ∷ rest)

-- The first CRLF of `xs` is behind `line`.
pub record LineEnd (xs line rest : List ℕ) : Type 0 where
  pub split : xs ≡ line ++ 13 ∷ 10 ∷ rest
  pub first : NoCrlf (line ++ 13 ∷ [])

abbrev Search : ℕ → List ℕ → Option ℕ → Type 0
Search at xs r =
    ((line : List ℕ) × (rest : List ℕ) × (r ≡ some (at + length line)) × LineEnd xs line rest)
    ⊎ ((r ≡ none) × NoCrlf xs)

hit-bytes : (x y : ℕ) → (x == 13 && y == 10) ≡ true → (x ≡ 13) × (y ≡ 10)
hit-bytes x y h = ground arith

miss-bytes : (x y : ℕ) → (x == 13 && y == 10) ≡ false → ¬ ((x ≡ 13) × (y ≡ 10))
miss-bytes x y h (p, q) = ground arith

not-hit : (x y : ℕ) → ¬ ((x ≡ 13) × (y ≡ 10)) → (x == 13 && y == 10) ≡ false
not-hit x y h = elim (Bool-cases (x == 13 && y == 10)) [
  | inl hit ↦ absurd (h (hit-bytes x y hit))
  | inr miss ↦ miss
]

NoCrlf-cons :
    (x y : ℕ) (line rest ys : List ℕ)
    → ¬ ((x ≡ 13) × (y ≡ 10))
    → y ∷ ys ≡ line ++ 13 ∷ rest
    → NoCrlf (line ++ 13 ∷ [])
    → NoCrlf (x ∷ line ++ 13 ∷ [])
NoCrlf-cons x y [] rest ys h e n = (λ p. absurd (omega arith), tt)
NoCrlf-cons x y (z ∷ line) rest ys h e n = (λ p. h (p.0, ground arith), n)

-- What the search returns.
pub search_crlf-Search : (at : ℕ) (xs : List ℕ) → Search at xs (search_crlf at xs)
unfolding search_crlf
search_crlf-Search at [] = inr (refl, tt)
search_crlf-Search at (x ∷ []) = inr (refl, tt)
search_crlf-Search at (x ∷ y ∷ ys) = elim (Bool-cases (x == 13 && y == 10)) [
  | inl hit ↦ inl ([], ys, rw hit (ap some (omega arith)), found hit)
  | inr miss ↦ rw miss (later (miss-bytes x y miss) (search_crlf-Search (suc at) (y ∷ ys)))
]
  where
    found : (x == 13 && y == 10) ≡ true → LineEnd (x ∷ y ∷ ys) [] ys
    found hit = record { split = ground (arith, hit-bytes x y hit); first = tt }

    later :
        ¬ ((x ≡ 13) × (y ≡ 10))
        → {r : Option ℕ} → Search (suc at) (y ∷ ys) r
        → Search at (x ∷ y ∷ ys) r
    later h (inl (line, rest, e, l)) = inl (
      x ∷ line,
      rest,
      e ∙ ap some (omega arith),
      record {
        split = ap (◌∷◌ x) l.split;
        first = NoCrlf-cons x y line (10 ∷ rest) ys h l.split l.first;
      },
    )
    later h (inr (e, n)) = inr (e, (h, n))

-- The search finds the first CRLF.
pub search_crlf-found :
    (at : ℕ) (line rest : List ℕ)
    → NoCrlf (line ++ 13 ∷ [])
    → search_crlf at (line ++ 13 ∷ 10 ∷ rest) ≡ some (at + length line)
unfolding search_crlf
search_crlf-found at [] rest n = ap some (omega arith)
search_crlf-found at (x ∷ []) rest (h, n) =
    if_false _ _ _ (not-hit x 13 h) ∙ search_crlf-found (suc at) [] rest n ∙ ap some (omega arith)
search_crlf-found at (x ∷ y ∷ line) rest (h, n) =
    if_false _ _ _ (not-hit x y h)
    ∙ search_crlf-found (suc at) (y ∷ line) rest n
    ∙ ap some (omega arith)

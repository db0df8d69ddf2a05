-- ===== src/HttpResponse/Digits.antt =====
-- Digits that are printed are read back.
use chaonet.Common.{
  ℕ, zero, suc, ◌+◌, ◌-◌, ◌*◌, ◌/◌, ◌%◌, ◌≤◌, ◌<◌, ◌≡◌, inl, inr, List, [], ◌∷◌, ◌++◌, refl, ap,
  ◌∙◌, arith, ◌==◌, ltb, ltb→lt, ltb-eq-false, lt→ltb, le→ltb-eq-false, ne→==-eq-false,
  if◌then◌else◌, if_true, if_false, Bool-cases,
}
use chaonet.HttpResponse.{digit, digits, hex}

abbrev digit_value : ℕ → ℕ
digit_value c = if ltb c 58 then c - 48 else c - 87

-- A number in base 16, up to the carriage return.
abbrev pub read_size : ℕ → List ℕ → ℕ × List ℕ
read_size total [] = (total, [])
read_size total (c ∷ cs) =
    let rest = read_size (total * 16 + digit_value c) cs in
    if c == 13 then (total, c ∷ cs) else rest

-- The value of digits alone.
abbrev value : ℕ → List ℕ → ℕ
value total [] = total
value total (c ∷ cs) = value (total * 16 + digit_value c) cs

abbrev AllDigits : List ℕ → Type 0
AllDigits [] = Unit {0}
AllDigits (c ∷ cs) = (48 ≤ c) × AllDigits cs

AllDigits-append : (xs : List ℕ) (c : ℕ) → AllDigits xs → 48 ≤ c → AllDigits (xs ++ c ∷ [])
AllDigits-append [] c a h = (h, tt)
AllDigits-append (x ∷ xs) c (l, a) h = (l, AllDigits-append xs c a h)

digit-le : (d : ℕ) → 48 ≤ digit d
digit-le d = elim (Bool-cases (ltb d 10)) [
  | inl y ↦ rw y (omega arith)
  | inr n ↦ rw n (omega arith)
]

digit_value-digit : (d : ℕ) → d < 16 → digit_value (digit d) ≡ d
digit_value-digit d h = elim (Bool-cases (ltb d 10)) [
  | inl y ↦
      let small = ltb→lt d 10 y in
      ap digit_value (if_true (ltb d 10) (d + 48) (d + 87) y)
      ∙ if_true (ltb (d + 48) 58) (d + 48 - 48) (d + 48 - 87) (lt→ltb _ _ (omega (arith, small)))
      ∙ omega arith
  | inr n ↦
      let big = ltb-eq-false d 10 n in
      ap digit_value (if_false (ltb d 10) (d + 48) (d + 87) n)
      ∙ if_false (ltb (d + 87) 58) (d + 87 - 48) (d + 87 - 87)
          (le→ltb-eq-false _ _ (omega (arith, big)))
      ∙ omega arith
]

digits-AllDigits : (fuel base n : ℕ) → AllDigits (digits fuel base n)
unfolding digits
digits-AllDigits zero base n = tt
digits-AllDigits (suc fuel) base n = elim (Bool-cases (ltb n base)) [
  | inl y ↦ rw y (digit-le n, tt)
  | inr m ↦ rw m (
      AllDigits-append (digits fuel base (n / base)) (digit (n % base))
        (digits-AllDigits fuel base (n / base)) (digit-le (n % base)))
]

value-append :
    (total : ℕ) (xs : List ℕ) (c : ℕ)
    → value total (xs ++ c ∷ []) ≡ value total xs * 16 + digit_value c
value-append total [] c = refl
value-append total (x ∷ xs) c = value-append (total * 16 + digit_value x) xs c

value-digits : (fuel n : ℕ) → n < fuel → value 0 (digits fuel 16 n) ≡ n
unfolding digits
value-digits zero n h = absurd (omega arith)
value-digits (suc fuel) n h = elim (Bool-cases (ltb n 16)) [
  | inl y ↦
      ap (value 0)
        (if_true (ltb n 16) (digit n ∷ []) (digits fuel 16 (n / 16) ++ digit (n % 16) ∷ []) y)
      ∙ omega (arith, digit_value-digit n (ltb→lt n 16 y))
  | inr m ↦
      let big = ltb-eq-false n 16 m in
      ap (value 0)
        (if_false (ltb n 16) (digit n ∷ []) (digits fuel 16 (n / 16) ++ digit (n % 16) ∷ []) m)
      ∙ value-append 0 (digits fuel 16 (n / 16)) (digit (n % 16))
      ∙ omega (
        arith,
        value-digits fuel (n / 16) (omega (arith, h, big)),
        digit_value-digit (n % 16) (omega arith),
      )
]

read_size-value :
    (total : ℕ) (xs rest : List ℕ)
    → AllDigits xs
    → read_size total (xs ++ 13 ∷ rest) ≡ (value total xs, 13 ∷ rest)
read_size-value total [] rest a = refl
read_size-value total (x ∷ xs) rest (l, a) =
    if_false (x == 13) _ _ (ne→==-eq-false x 13 (λ e. omega (arith, e, l)))
    ∙ read_size-value (total * 16 + digit_value x) xs rest a

pub read_size-hex : (n : ℕ) (rest : List ℕ) → read_size 0 (hex n ++ 13 ∷ rest) ≡ (n, 13 ∷ rest)
read_size-hex n rest =
    read_size-value 0 (hex n) rest (digits-AllDigits (suc n) 16 n)
    ∙ ap (λ v. (v, 13 ∷ rest)) (value-digits (suc n) n (omega arith))

-- ===== src/Http/Headers.antt =====
-- The headers that a request has, by their fields (examples/http/HttpRequest.h).
use chaonet.Common.{
  ℕ, ◌⊎◌, ◌≡◌, refl, sym, ap, ◌∙◌, Bool, true, false, List, [], ◌∷◌, Option, none, some, ◌==◌,
  ==_iff, eq→==, and_left, and_right, Bool-cases, inl, inr, if◌then◌else◌,
}
use chaonet.Http.{eq_bytes, put_header}

pub eq_bytes-eq : (xs ys : List ℕ) → eq_bytes xs ys ≡ true → xs ≡ ys
eq_bytes-eq [] [] h = refl
eq_bytes-eq [] (y ∷ ys) h = absurd (cc (h))
eq_bytes-eq (x ∷ xs) [] h = absurd (cc (h))
eq_bytes-eq (x ∷ xs) (y ∷ ys) h =
    let first = (==_iff x y).0 (and_left (x == y) _ h) in
    let rest = eq_bytes-eq xs ys (and_right (x == y) _ h) in rw (first, rest) refl

pub eq_bytes_self : (xs : List ℕ) → eq_bytes xs xs ≡ true
eq_bytes_self [] = refl
eq_bytes_self (x ∷ xs) = rw (eq→== x x refl) (eq_bytes_self xs)

-- The value of the first header with the field.
abbrev pub value_of : List ℕ → List (List ℕ × List ℕ) → Option (List ℕ)
value_of f [] = none
value_of f ((g, v) ∷ rest) = let later = value_of f rest in if eq_bytes g f then some v else later

abbrev pub or_else : Option (List ℕ) → Option (List ℕ) → Option (List ℕ)
or_else (some v) other = some v
or_else none other = other

-- The value of the last header with the field.
abbrev pub last_value : List ℕ → List (List ℕ × List ℕ) → Option (List ℕ)
last_value f [] = none
last_value f ((g, v) ∷ rest) = or_else (last_value f rest) (if eq_bytes g f then some v else none)

-- No field stands twice.
abbrev pub Distinct : List (List ℕ × List ℕ) → Type 0
Distinct [] = Unit {0}
Distinct ((f, v) ∷ rest) = (value_of f rest ≡ none) × Distinct rest

pub value_of-put_header :
    (f g v : List ℕ) (hs : List (List ℕ × List ℕ))
    → value_of f (put_header g v hs) ≡ (if eq_bytes g f then some v else value_of f hs)
value_of-put_header f g v [] = refl
value_of-put_header f g v ((h, w) ∷ rest) = elim (Bool-cases (eq_bytes h g)) [
  | inl y ↦
      let e = eq_bytes-eq h g y in
      rw y (rw e (twice (eq_bytes g f) (some v) (some w) (value_of f rest)))
  | inr n ↦ rw n (
      rw (value_of-put_header f g v rest) (
        swap (eq_bytes h f) (eq_bytes g f) (some w) (some v) (value_of f rest)
          (λ a b. cc (n, a, eq_bytes-eq g f b))))
]
  where
    twice :
        (b : Bool) (x y z : Option (List ℕ))
        → (if b then x else z) ≡ (if b then x else (if b then y else z))
    twice true x y z = refl
    twice false x y z = refl

    swap :
        (a b : Bool) (x y z : Option (List ℕ))
        → (a ≡ true → b ≡ true → ⊥)
        → (if a then x else (if b then y else z)) ≡ (if b then y else (if a then x else z))
    swap true true x y z f = absurd (f refl refl)
    swap true false x y z f = refl
    swap false true x y z f = refl
    swap false false x y z f = refl

pub put_header-Distinct :
    (g v : List ℕ) (hs : List (List ℕ × List ℕ)) → Distinct hs → Distinct (put_header g v hs)
put_header-Distinct g v [] d = (refl, tt)
put_header-Distinct g v ((h, w) ∷ rest) (new, d) = elim (Bool-cases (eq_bytes h g)) [
  | inl y ↦ rw y (ap (λ x. value_of x rest) (sym (eq_bytes-eq h g y)) ∙ new, d)
  | inr n ↦ rw n (
    value_of-put_header h g v rest ∙ other (Bool-cases (eq_bytes g h)) n,
    put_header-Distinct g v rest d,
  )
]
  where
    other :
        (eq_bytes g h ≡ true) ⊎ (eq_bytes g h ≡ false)
        → eq_bytes h g ≡ false
        → (if eq_bytes g h then some v else value_of h rest) ≡ none
    other (inl y) n = absurd (cc (n, y, eq_bytes-eq g h y))
    other (inr m) n = rw m new

-- The headers behind each other, as parseRequest adds them.
unfoldable pub add_headers :
    List (List ℕ × List ℕ) → List (List ℕ × List ℕ) → List (List ℕ × List ℕ)
add_headers have [] = have
add_headers have (h ∷ hs) = add_headers (put_header h.0 h.1 have) hs

pub value_of-add_headers :
    (f : List ℕ) (have hs : List (List ℕ × List ℕ))
    → value_of f (add_headers have hs) ≡ or_else (last_value f hs) (value_of f have)
unfolding add_headers
value_of-add_headers f have [] = refl
value_of-add_headers f have ((g, v) ∷ hs) =
    value_of-add_headers f (put_header g v have) hs
    ∙ ap (or_else (last_value f hs)) (value_of-put_header f g v have)
    ∙ joins (last_value f hs) (eq_bytes g f)
  where
    joins :
        (o : Option (List ℕ)) (b : Bool)
        → or_else o (if b then some v else value_of f have)
          ≡ or_else (or_else o (if b then some v else none)) (value_of f have)
    joins (some w) b = refl
    joins none true = refl
    joins none false = refl

pub add_headers-Distinct :
    (have hs : List (List ℕ × List ℕ)) → Distinct have → Distinct (add_headers have hs)
unfolding add_headers
add_headers-Distinct have [] d = d
add_headers-Distinct have ((g, v) ∷ hs) d =
    add_headers-Distinct (put_header g v have) hs (put_header-Distinct g v have d)

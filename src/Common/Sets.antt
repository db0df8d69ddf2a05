-- ===== src/Common/Sets.antt =====
-- std::set of pairs of numbers, as the list of its elements in order.
use Prim.Native.Nat.{ℕ, suc}
use mathlib.Core.Path.{◌≡◌, refl, ◌∙◌, sym, ap}
use mathlib.Core.Logic.{◌⊎◌, inl, inr, ◌≢◌}
use mathlib.Core.Bool.{Bool, true, false, not, ◌&&◌, ◌||◌}
use mathlib.Core.List.{List, [], ◌∷◌, ◌++◌}
use native.Mathlib.Omega.{arith}
use chaonet.Common.Tests.{◌==◌, ltb, if◌then◌else◌, or_true, Bool-cases}
use chaonet.Common.Lists.{length}

abbrev pub Pair : Type 0
Pair = ℕ × ℕ

-- operator< of std::pair.
abbrev pub before : Pair → Pair → Bool
before p q = ltb p.0 q.0 || (p.0 == q.0 && ltb p.1 q.1)

abbrev pub same : Pair → Pair → Bool
same p q = p.0 == q.0 && p.1 == q.1

abbrev pub has : Pair → List Pair → Bool
has p [] = false
has p (q ∷ qs) = same p q || has p qs

-- What is there already is not inserted again.
abbrev pub insert_pair : Pair → List Pair → List Pair
insert_pair p [] = p ∷ []
insert_pair p (q ∷ qs) =
    let rest = insert_pair p qs in
    if before p q then p ∷ q ∷ qs else (if before q p then q ∷ rest else q ∷ qs)

abbrev pub erase_pair : Pair → List Pair → List Pair
erase_pair p [] = []
erase_pair p (q ∷ qs) = let rest = erase_pair p qs in if same p q then qs else q ∷ rest

-- Whether something follows `p`: the iterator that erase returns is not end().
abbrev pub is_followed : Pair → List Pair → Bool
is_followed p [] = false
is_followed p (q ∷ qs) = before p q || is_followed p qs

-- The elements in front of lower_bound, and those from there on.
abbrev pub split_at : Pair → List Pair → List Pair × List Pair
split_at p [] = ([], [])
split_at p (q ∷ qs) =
    let rest = split_at p qs in if before q p then (q ∷ rest.0, rest.1) else ([], q ∷ qs)

abbrev pub Above : Pair → List Pair → Type 0
Above p [] = Unit {0}
Above p (q ∷ qs) = (before p q ≡ true) × Above p qs

abbrev pub Sorted : List Pair → Type 0
Sorted [] = Unit {0}
Sorted (p ∷ ps) = Above p ps × Sorted ps

pub same-eq : (p q : Pair) → same p q ≡ true → p ≡ q
same-eq (a, b) (c, d) h =
    let first : a ≡ c = ground arith in let second : b ≡ d = ground arith in rw (first, second)

pub same_self : (p : Pair) → same p p ≡ true
same_self (a, b) = ground arith

same_sym : (p q : Pair) → same p q ≡ same q p
same_sym (a, b) (c, d) = ground arith

before_trans : (p q r : Pair) → before p q ≡ true → before q r ≡ true → before p r ≡ true
before_trans (a, b) (c, d) (e, f) h k = ground arith

before-not_same : (p q : Pair) → before p q ≡ true → same p q ≡ false
before-not_same (a, b) (c, d) h = ground arith

before_total : (p q : Pair) → before p q ≡ false → before q p ≡ false → same p q ≡ true
before_total (a, b) (c, d) h k = ground arith

Above-before : (p q : Pair) (qs : List Pair) → before p q ≡ true → Above q qs → Above p qs
Above-before p q [] h a = tt
Above-before p q (r ∷ rs) h (b, a) = (before_trans p q r h b, Above-before p q rs h a)

pub Above-has : (p : Pair) (qs : List Pair) → Above p qs → has p qs ≡ false
Above-has p [] a = refl
Above-has p (q ∷ qs) (b, a) = rw (before-not_same p q b) (Above-has p qs a)

or_left : (a b : Bool) → (a || b) ≡ false → a ≡ false
or_left a b h = ground arith

or_right : (a b : Bool) → (a || b) ≡ false → b ≡ false
or_right a b h = ground arith

pub Above-before-has :
    (p r : Pair) (qs : List Pair) → Above p qs → has r qs ≡ true → before p r ≡ true
Above-before-has p r [] a h = absurd (cc (h))
Above-before-has p r (q ∷ qs) (b, a) h = elim (Bool-cases (same r q)) [
  | inl y ↦ rw (same-eq r q y) b
  | inr n ↦ Above-before-has p r qs a (sym (ap (λ t. t || has r qs) n) ∙ h)
]

-- Insertion.
pub has-insert_pair :
    (r p : Pair) (qs : List Pair) → has r (insert_pair p qs) ≡ (same r p || has r qs)
has-insert_pair r p [] = refl
has-insert_pair r p (q ∷ qs) = elim (Bool-cases (before p q)) [
  | inl b ↦ rw b refl
  | inr n ↦ elim (Bool-cases (before q p)) [
    | inl b ↦ rw (n, b) (rw (has-insert_pair r p qs) (swap (same r q) (same r p) (has r qs)))
    | inr m ↦ rw (n, m) (absorb (same-eq p q (before_total p q n m)))
  ]
]
  where
    swap : (x y z : Bool) → (x || (y || z)) ≡ (y || (x || z))
    swap x y z = ground arith

    twice : (x z : Bool) → (x || z) ≡ (x || (x || z))
    twice x z = ground arith

    absorb : p ≡ q → (same r q || has r qs) ≡ (same r p || (same r q || has r qs))
    absorb e = rw e (twice (same r q) (has r qs))

pub length-insert_pair :
    (p : Pair) (qs : List Pair) → has p qs ≡ false → length (insert_pair p qs) ≡ suc (length qs)
length-insert_pair p [] h = refl
length-insert_pair p (q ∷ qs) h = elim (Bool-cases (before p q)) [
  | inl b ↦ rw b refl
  | inr n ↦ elim (Bool-cases (before q p)) [
    | inl b ↦ rw (n, b) (ap suc (length-insert_pair p qs (or_right (same p q) _ h)))
    | inr m ↦ absurd (clash (before_total p q n m) (or_left (same p q) _ h))
  ]
]
  where
    clash : {b : Bool} → b ≡ true → b ≡ false → ⊥
    clash x y = cc

insert-Above :
    (r p : Pair) (qs : List Pair) → before r p ≡ true → Above r qs → Above r (insert_pair p qs)
insert-Above r p [] b a = (b, tt)
insert-Above r p (q ∷ qs) b (c, a) = elim (Bool-cases (before p q)) [
  | inl h ↦ rw h (b, (c, a))
  | inr n ↦ elim (Bool-cases (before q p)) [
    | inl h ↦ rw (n, h) (c, insert-Above r p qs b a)
    | inr m ↦ rw (n, m) (c, a)
  ]
]

pub insert-Sorted : (p : Pair) (qs : List Pair) → Sorted qs → Sorted (insert_pair p qs)
insert-Sorted p [] s = (tt, tt)
insert-Sorted p (q ∷ qs) (a, s) = elim (Bool-cases (before p q)) [
  | inl h ↦ rw h ((h, Above-before p q qs h a), (a, s))
  | inr n ↦ elim (Bool-cases (before q p)) [
    | inl h ↦ rw (n, h) (insert-Above q p qs h a, insert-Sorted p qs s)
    | inr m ↦ rw (n, m) (a, s)
  ]
]

-- Removal.
pub has-erase_pair :
    (r p : Pair) (qs : List Pair)
    → Sorted qs
    → has r (erase_pair p qs) ≡ (not (same r p) && has r qs)
has-erase_pair r p [] s = ground arith
has-erase_pair r p (q ∷ qs) (a, s) = elim (Bool-cases (same p q)) [
  | inl h ↦ rw h (at_head (same-eq p q h) (Bool-cases (same r p)))
  | inr n ↦ rw n (rw (has-erase_pair r p qs s) (further n (Bool-cases (same r p))))
]
  where
    at_head :
        p ≡ q
        → (same r p ≡ true) ⊎ (same r p ≡ false)
        → has r qs ≡ (not (same r p) && (same r q || has r qs))
    at_head e (inl y) = rw y (rw (same-eq r p y ∙ e) (Above-has q qs a))
    at_head e (inr y) = rw y (rw (sym (ap (same r) e) ∙ y) refl)

    differ : same p q ≡ false → r ≡ p → same r q ≡ false
    differ n e = rw e n

    further :
        same p q ≡ false
        → (same r p ≡ true) ⊎ (same r p ≡ false)
        → (same r q || (not (same r p) && has r qs)) ≡ (not (same r p) && (same r q || has r qs))
    further n (inl y) = rw (y, differ n (same-eq r p y)) refl
    further n (inr y) = rw y refl

pub length-erase_pair :
    (p : Pair) (qs : List Pair) → has p qs ≡ true → suc (length (erase_pair p qs)) ≡ length qs
length-erase_pair p [] h = absurd (cc (h))
length-erase_pair p (q ∷ qs) h = elim (Bool-cases (same p q)) [
  | inl e ↦ rw e refl
  | inr n ↦ rw n (ap suc (length-erase_pair p qs (sym (ap (λ b. b || has p qs) n) ∙ h)))
]

erase-Above : (r p : Pair) (qs : List Pair) → Above r qs → Above r (erase_pair p qs)
erase-Above r p [] a = tt
erase-Above r p (q ∷ qs) (b, a) = elim (Bool-cases (same p q)) [
  | inl e ↦ rw e a
  | inr n ↦ rw n (b, erase-Above r p qs a)
]

pub erase-Sorted : (p : Pair) (qs : List Pair) → Sorted qs → Sorted (erase_pair p qs)
erase-Sorted p [] s = tt
erase-Sorted p (q ∷ qs) (a, s) = elim (Bool-cases (same p q)) [
  | inl e ↦ rw e s
  | inr n ↦ rw n (erase-Above q p qs a, erase-Sorted p qs s)
]

-- What insertion and removal do, element by element.
pub insert_pair_cases :
    (r p : Pair) (qs : List Pair) → has r (insert_pair p qs) ≡ true → (r ≡ p) ⊎ (has r qs ≡ true)
insert_pair_cases r p qs h = elim (Bool-cases (same r p)) [
  | inl y ↦ inl (same-eq r p y)
  | inr n ↦ inr (sym (has-insert_pair r p qs ∙ ap (λ t. t || has r qs) n) ∙ h)
]

pub has-insert_self : (p : Pair) (qs : List Pair) → has p (insert_pair p qs) ≡ true
has-insert_self p qs = has-insert_pair p p qs ∙ ap (λ t. t || has p qs) (same_self p)

pub has-insert_keep :
    (r p : Pair) (qs : List Pair) → has r qs ≡ true → has r (insert_pair p qs) ≡ true
has-insert_keep r p qs h = has-insert_pair r p qs ∙ ap (λ t. same r p || t) h ∙ or_true (same r p)

pub erase_pair_cases :
    (r p : Pair) (qs : List Pair)
    → Sorted qs
    → has r (erase_pair p qs) ≡ true
    → (r ≢ p) × (has r qs ≡ true)
erase_pair_cases r p qs s h =
    let (differ, there) = both (same r p) (has r qs) (sym (has-erase_pair r p qs s) ∙ h) in
    (λ e. cc (differ, same_self p, ap (λ t. same t p) e), there)
  where
    both : (a b : Bool) → (not a && b) ≡ true → (a ≡ false) × (b ≡ true)
    both a b h = ground arith

pub has-erase_keep :
    (r p : Pair) (qs : List Pair)
    → Sorted qs
    → r ≢ p
    → has r qs ≡ true
    → has r (erase_pair p qs) ≡ true
has-erase_keep r p qs s ne h = elim (Bool-cases (same r p)) [
  | inl y ↦ absurd (ne (same-eq r p y))
  | inr n ↦ has-erase_pair r p qs s ∙ ap (λ t. not t && has r qs) n ∙ h
]

-- The part below a bound.
pub append-split_at : (p : Pair) (qs : List Pair) → (split_at p qs).0 ++ (split_at p qs).1 ≡ qs
append-split_at p [] = refl
append-split_at p (q ∷ qs) = elim (Bool-cases (before q p)) [
  | inl b ↦ rw b (rw (append-split_at p qs) refl)
  | inr n ↦ rw n refl
]

pub has-append : (r : Pair) (xs ys : List Pair) → has r (xs ++ ys) ≡ (has r xs || has r ys)
has-append r [] ys = refl
has-append r (x ∷ xs) ys = rw (has-append r xs ys) (assoc (same r x) (has r xs) (has r ys))
  where
    assoc : (a b c : Bool) → (a || (b || c)) ≡ ((a || b) || c)
    assoc a b c = ground arith

pub front-before :
    (r p : Pair) (qs : List Pair) → has r (split_at p qs).0 ≡ true → before r p ≡ true
front-before r p [] h = absurd (cc (h))
front-before r p (q ∷ qs) h = elim (Bool-cases (before q p)) [
  | inl b ↦ from_rest (front-before r p qs) b (Bool-cases (same r q))
  | inr n ↦ absurd (cc (sym (ap (λ b. has r (taken b).0) n) ∙ h))
]
  where
    taken : Bool → List Pair × List Pair
    taken b = if b then (q ∷ (split_at p qs).0, (split_at p qs).1) else ([], q ∷ qs)

    from_rest :
        (has r (split_at p qs).0 ≡ true → before r p ≡ true)
        → before q p ≡ true
        → (same r q ≡ true) ⊎ (same r q ≡ false)
        → before r p ≡ true
    from_rest go b (inl y) = rw (same-eq r q y) b
    from_rest go b (inr y) =
        go (sym (ap (λ t. has r (taken t).0) b ∙ ap (λ t. t || has r (split_at p qs).0) y) ∙ h)

Above-append : (p : Pair) (xs ys : List Pair) → Above p (xs ++ ys) → Above p xs × Above p ys
Above-append p [] ys a = (tt, a)
Above-append p (x ∷ xs) ys (b, a) = let (l, r) = Above-append p xs ys a in ((b, l), r)

pub Sorted-append : (xs ys : List Pair) → Sorted (xs ++ ys) → Sorted xs × Sorted ys
Sorted-append [] ys s = (tt, s)
Sorted-append (x ∷ xs) ys (a, s) =
    let (l, r) = Sorted-append xs ys s in (((Above-append x xs ys a).0, l), r)

pub rest-not_before :
    (r p : Pair) (qs : List Pair) → Sorted qs → has r (split_at p qs).1 ≡ true → before r p ≡ false
rest-not_before r p [] s h = absurd (cc (h))
rest-not_before r p (q ∷ qs) (a, s) h = elim (Bool-cases (before q p)) [
  | inl b ↦ rest-not_before r p qs s (sym (ap (λ t. has r (taken t).1) b) ∙ h)
  | inr n ↦ elim (Bool-cases (before r p)) [
    | inl b ↦ below n b (Bool-cases (same r q)) (sym (ap (λ t. has r (taken t).1) n) ∙ h)
    | inr m ↦ m
  ]
]
  where
    taken : Bool → List Pair × List Pair
    taken b = if b then (q ∷ (split_at p qs).0, (split_at p qs).1) else ([], q ∷ qs)

    below :
        before q p ≡ false
        → before r p ≡ true
        → (same r q ≡ true) ⊎ (same r q ≡ false)
        → has r (q ∷ qs) ≡ true
        → before r p ≡ false
    below n b (inl y) k = absurd (cc (n, sym (ap (λ t. before t p) (same-eq r q y)) ∙ b))
    below n b (inr y) k =
        let above = Above-before-has q r qs a (sym (ap (λ t. t || has r qs) y) ∙ k) in
        absurd (cc (n, before_trans q r p above b))

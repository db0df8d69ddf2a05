-- ===== src/Sudoku/Place.antt =====
-- One digit put on a board and taken away again.
use mathlib.Core.Path.{fun_ext}
use chaonet.Common.{
  ℕ, ◌+◌, ◌-◌, ◌*◌, ◌/◌, ◌≤◌, ◌<◌, ◌≡◌, ◌≢◌, ◌⊎◌, inl, inr, Bool, true, false, ◌&&◌, ◌||◌, arith,
  refl, sym, ◌∙◌, ◌==◌, if◌then◌else◌, Bool-cases, eq→==, ==_iff, and_left, and_right,
}
use chaonet.Sudoku.{Kind, row, col, block, unit_of, Board, Marks, dot, put_cell, put_marks, marked}
use chaonet.Sudoku.Spec.{Distinct, Holder, Inv}

-- Either it is that cell, or the test of the update fails.
pub Cell-cases :
    (x y i j : ℕ) → ((x ≡ i) × (y ≡ j)) ⊎ (((x == i && y == j) ≡ false) × ¬ ((x ≡ i) × (y ≡ j)))
Cell-cases x y i j = elim (Bool-cases (x == i && y == j)) [
  | inl here ↦
      inl ((==_iff x i).0 (and_left (x == i) _ here), (==_iff y j).0 (and_right (x == i) _ here))
  | inr away ↦ inr (away, λ h. cc (sym away ∙ both h.0 h.1))
]
  where
    both : x ≡ i → y ≡ j → (x == i && y == j) ≡ true
    both p q = rw (eq→== x i p, eq→== y j q) refl

module _ (b : Board) (i j c : ℕ) where
  pub put_cell_self : put_cell b i j c i j ≡ c
  put_cell_self = rw (eq→== i i refl, eq→== j j refl) refl

  pub put_cell-ne : (x y : ℕ) → (x == i && y == j) ≡ false → put_cell b i j c x y ≡ b x y
  put_cell-ne x y e = rw e refl

  -- Taking the digit away restores the board.
  pub put_cell-undo : b i j ≡ dot → put_cell (put_cell b i j c) i j dot ≡ b
  put_cell-undo e = fun_ext (λ x. fun_ext (λ y. elim (Cell-cases x y i j) [
    | inl (p, q) ↦ rw (p, q) (put_cell_dot ∙ sym e)
    | inr (away, _) ↦ rw away refl
  ]))
    where
      put_cell_dot : put_cell (put_cell b i j c) i j dot i j ≡ dot
      put_cell_dot = rw (eq→== i i refl, eq→== j j refl) refl

or3-eq-false : (a b c : Bool) → (a || b || c) ≡ false → (a ≡ false) × (b ≡ false) × (c ≡ false)
or3-eq-false false false false h = (refl, refl, refl)
or3-eq-false true b c h = cc
or3-eq-false false true c h = cc
or3-eq-false false false true h = cc

unmarked :
    (m : Marks) (i j idx : ℕ)
    → marked m i j idx ≡ false
    → (kind : Kind) → m kind (unit_of kind i j) idx ≡ false
unmarked m i j idx e kind = pick kind
  where
    all : (m row i idx ≡ false) × (m col j idx ≡ false) × (m block (i / 3 * 3 + j / 3) idx ≡ false)
    all = or3-eq-false (m row i idx) (m col j idx) (m block (i / 3 * 3 + j / 3) idx) e

    pick : (kind : Kind) → m kind (unit_of kind i j) idx ≡ false
    pick row = all.0
    pick col = all.1
    pick block = all.2

pub marked-cases :
    (m : Marks) (i j idx : ℕ)
    → marked m i j idx ≡ true
    → (kind : Kind) × (m kind (unit_of kind i j) idx ≡ true)
marked-cases m i j idx e =
    pick (m row i idx) (m col j idx) (m block (i / 3 * 3 + j / 3) idx) refl refl refl e
  where
    pick :
        (x y z : Bool)
        → m row i idx ≡ x
        → m col j idx ≡ y
        → m block (i / 3 * 3 + j / 3) idx ≡ z
        → (x || y || z) ≡ true
        → (kind : Kind) × (m kind (unit_of kind i j) idx ≡ true)
    pick true y z p q r e = (row, p)
    pick false true z p q r e = (col, q)
    pick false false true p q r e = (block, r)
    pick false false false p q r e = cc

module _ (b : Board) (m : Marks) (i j idx : ℕ) (free : marked m i j idx ≡ false) where
  pub put_marks-undo : put_marks (put_marks m i j idx true) i j idx false ≡ m
  put_marks-undo = fun_ext (λ kind. fun_ext (λ x. fun_ext (λ y.
      elim (Cell-cases x y (unit_of kind i j) idx) [
        | inl (p, q) ↦ rw (p, q) (cleared kind ∙ sym (unmarked m i j idx free kind))
        | inr (away, _) ↦ rw away refl
      ])))
    where
      cleared :
          (kind : Kind)
          → put_marks (put_marks m i j idx true) i j idx false kind (unit_of kind i j) idx ≡ false
      cleared kind = rw (eq→== (unit_of kind i j) (unit_of kind i j) refl, eq→== idx idx refl) refl

  module _ (v : Inv b m) (p : i < 9) (q : j < 9) (small : idx < 9) (empty : b i j ≡ dot) where
    -- A cell that holds a digit is another one.
    elsewhere : (x y : ℕ) → b x y ≢ dot → (x == i && y == j) ≡ false
    elsewhere x y ne = elim (Cell-cases x y i j) [
      | inl (g, k) ↦ absurd (ne (rw (g, k) empty))
      | inr (off, _) ↦ off
    ]

    kept : (x y : ℕ) → b x y ≢ dot → put_cell b i j (idx + 49) x y ≡ b x y
    kept x y ne = put_cell-ne b i j (idx + 49) x y (elsewhere x y ne)

    here : (x y : ℕ) → x ≡ i → y ≡ j → put_cell b i j (idx + 49) x y ≡ idx + 49
    here x y g k = rw (g, k) (put_cell_self b i j (idx + 49))

    put-real :
        (kind : Kind) (x y : ℕ)
        → put_marks m i j idx true kind x y ≡ true
        → Holder (put_cell b i j (idx + 49)) kind x y
    put-real kind x y h = elim (Cell-cases x y (unit_of kind i j) idx) [
      | inl (e, f) ↦ (i, j, p, q, sym e, put_cell_self b i j (idx + 49) ∙ omega (arith, f))
      | inr (away, _) ↦
          let old : m kind x y ≡ true = sym (rw away refl) ∙ h in
          let (i', j', p', q', u, e) = v.real kind x y old in
          (i', j', p', q', u, kept i' j' (λ z. omega (arith, z, e)) ∙ e)
    ]

    put-shown :
        (kind : Kind) (x y : ℕ)
        → x < 9
        → y < 9
        → put_cell b i j (idx + 49) x y ≢ dot
        → put_marks m i j idx true kind (unit_of kind x y) (put_cell b i j (idx + 49) x y - 49)
          ≡ true
    put-shown kind x y p' q' ne = elim (Cell-cases x y i j) [
      | inl (g, k) ↦
          let e : put_cell b i j (idx + 49) x y - 49 ≡ idx = omega (arith, here x y g k) in
          rw (e, g, k, eq→== (unit_of kind i j) (unit_of kind i j) refl, eq→== idx idx refl) refl
      | inr (off, _) ↦
          let e = put_cell-ne b i j (idx + 49) x y off in
          rw e (either _ _ (v.shown kind x y p' q' (λ z. ne (e ∙ z))))
    ]
      where
        either : (t old : Bool) → old ≡ true → (if t then true else old) ≡ true
        either true old h = refl
        either false old h = h

    -- The digit stands in no other cell of the units.
    alone :
        (kind : Kind) (x y : ℕ)
        → x < 9
        → y < 9
        → unit_of kind x y ≡ unit_of kind i j
        → b x y ≢ idx + 49
    alone kind x y p' q' u e =
        let shown = v.shown kind x y p' q' (λ z. omega (arith, z, e)) in
        let same : b x y - 49 ≡ idx = omega (arith, e) in
        cc (sym (unmarked m i j idx free kind), rw (u, same) at shown)

    put-range :
        (x y : ℕ)
        → x < 9
        → y < 9
        → (put_cell b i j (idx + 49) x y ≡ dot)
          ⊎ ((49 ≤ put_cell b i j (idx + 49) x y) × (put_cell b i j (idx + 49) x y ≤ 57))
    put-range x y p' q' = elim (Cell-cases x y i j) [
      | inl (g, k) ↦ inr (omega (arith, here x y g k), omega (arith, here x y g k))
      | inr (off, _) ↦ rw (put_cell-ne b i j (idx + 49) x y off) (v.range x y p' q')
    ]

    put-Distinct : Distinct (put_cell b i j (idx + 49))
    put-Distinct kind x y x' y' l k l' k' u ne e = elim (Cell-cases x y i j) [
      | inl (g, h) ↦ elim (Cell-cases x' y' i j) [
        | inl (g', h') ↦ (g ∙ sym g', h ∙ sym h')
        | inr (off, _) ↦ absurd (
            alone kind x' y' l' k' (sym u ∙ rw (g, h) refl)
              (sym (put_cell-ne b i j (idx + 49) x' y' off) ∙ sym e ∙ here x y g h))
      ]
      | inr (off, _) ↦
          let at : put_cell b i j (idx + 49) x y ≡ b x y = put_cell-ne b i j (idx + 49) x y off in
          elim (Cell-cases x' y' i j) [
            | inl (g', h') ↦
                absurd (alone kind x y l k (u ∙ rw (g', h') refl) (sym at ∙ e ∙ here x' y' g' h'))
            | inr (off', _) ↦
                v.distinct kind x y x' y' l k l' k' u (λ z. ne (at ∙ z))
                  (sym at ∙ e ∙ put_cell-ne b i j (idx + 49) x' y' off')
          ]
    ]

    pub put-Inv : Inv (put_cell b i j (idx + 49)) (put_marks m i j idx true)
    put-Inv = record {
      range = put-range;
      shown = put-shown;
      real = put-real;
      distinct = put-Distinct;
    }

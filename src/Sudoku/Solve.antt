-- ===== src/Sudoku/Solve.antt =====
-- traceback and solveSudoku.
use chaonet.Common.{
  ℕ, zero, suc, ◌+◌, ◌*◌, ◌≤◌, ◌<◌, ◌≡◌, ◌⊎◌, inl, inr, true, false, arith, refl, sym, ◌∙◌, ap, ok,
  ◌==◌, ltb, if◌then◌else◌, if_true, if_false, Bool-cases, ==_iff, eq→==, ne→==-eq-false, ltb→lt,
  ltb-eq-false,
}
use chaonet.Sudoku.{Marks, Sudoku, dot, tries, traceback, digits, solve_sudoku}
use chaonet.Sudoku.Spec.{Completes, Inv}
use chaonet.Sudoku.Check.{WellFormed, is_valid_sudoku-Verdict}
use chaonet.Sudoku.Search.{Hopeless, Found, Answer, FullTo, Among, tries-Answer}

Among-digits : (c : ℕ) → 49 ≤ c → c ≤ 57 → Among c digits
Among-digits c low high = ground arith

Completes-self : (s : Sudoku) → Inv s.board s.marks → FullTo 81 s.board → Completes s.board s.board
Completes-self s v full = record {
  keeps = λ x y p q ne. refl;
  digit = λ x y p q. elim (v.range x y p q) [
    | inl e ↦ absurd (full x y p q (omega arith) e)
    | inr d ↦ d
  ];
  distinct = v.distinct;
}

-- What the search starts from at a cell.
record Ready (s : Sudoku) (i j : ℕ) : Type 0 where
  pub inv : Inv s.board s.marks
  pub unsolved : s.solved ≡ false
  pub full : FullTo (i * 9 + j) s.board

-- A cell, or the end.
Position : ℕ → ℕ → Type 0
Position i j = ((i < 9) × (j < 9)) ⊎ ((i ≡ 9) × (j ≡ 0))

-- The call for the next cell.
abbrev next : ℕ → ℕ → ℕ → Sudoku → Sudoku
next fuel i j =
    if ltb j 8 then (λ t. traceback fuel t i (suc j)) else (λ t. traceback fuel t (suc i) 0)

Answer-eq : {s t u : Sudoku} → u ≡ t → Answer s t → Answer s u
Answer-eq e (inl (a, b)) = inl (ap (λ x. x.solved) e ∙ a, rw e b)
Answer-eq e (inr (a, b)) = inr (e ∙ a, b)

module _ (fuel i j : ℕ) where
  traceback-inside :
      (s : Sudoku)
      → s.solved ≡ false
      → i < 9
      → traceback (suc fuel) s i j
        ≡ (if s.board i j == dot then tries (next fuel i j) i j digits s else next fuel i j s)
  unfolding traceback
  traceback-inside s unsolved p =
      if_false s.solved _ _ unsolved ∙ if_false (i == 9) _ _ (ne→==-eq-false i 9 (omega arith))

  traceback-end :
      (s : Sudoku)
      → s.solved ≡ false
      → i ≡ 9
      → traceback (suc fuel) s i j ≡ record s { solved = true }
  unfolding traceback
  traceback-end s unsolved e = if_false s.solved _ _ unsolved ∙ if_true (i == 9) _ _ (eq→== i 9 e)

  module _ (p : i < 9) (q : j < 9) (enough : 81 < suc fuel + (i * 9 + j))
      (rest : (t : Sudoku) (x y : ℕ)
        → Ready t x y
        → Position x y
        → 81 < fuel + (x * 9 + y)
        → Answer t (traceback fuel t x y)) where
    next-Answer :
        (t : Sudoku)
        → Inv t.board t.marks
        → t.solved ≡ false
        → FullTo (suc (i * 9 + j)) t.board
        → Answer t (next fuel i j t)
    unfolding Position
    next-Answer t v unsolved full = elim (Bool-cases (ltb j 8)) [
      | inl more ↦
          let h = ltb→lt j 8 more in
          Answer-eq (ap (λ f. f t) (if_true {A = Sudoku → Sudoku} (ltb j 8) _ _ more)) (
            rest t i (suc j)
              (record {
                inv = v;
                unsolved = unsolved;
                full = λ x y l r b. full x y l r (omega (arith, b));
              })
              (inl (p, omega (arith, h))) (omega (arith, enough)))
      | inr last ↦
          let h = ltb-eq-false j 8 last in
          Answer-eq (ap (λ f. f t) (if_false {A = Sudoku → Sudoku} (ltb j 8) _ _ last)) (
            rest t (suc i) 0
              (record {
                inv = v;
                unsolved = unsolved;
                full = λ x y l r b. full x y l r (omega (arith, b, h, q));
              })
              (row_after p) (omega (arith, enough, h, q)))
    ]
      where
        row_after : i < 9 → ((suc i < 9) × (0 < 9)) ⊎ ((suc i ≡ 9) × (◌≡◌ {A = ℕ} 0 0))
        row_after l = ground arith

    cell-Answer : (s : Sudoku) → Ready s i j → Answer s (traceback (suc fuel) s i j)
    cell-Answer s r = elim (Bool-cases (s.board i j == dot)) [
      | inl empty ↦
          let e : s.board i j ≡ dot = (==_iff _ _).0 empty in
          Answer-eq (traceback-inside s r.unsolved p ∙ if_true (s.board i j == dot) _ _ empty)
            (elim (tries-Answer i j p q (next fuel i j) next-Answer s r.inv r.unsolved e r.full
              digits (omega arith)) [
                | inl found ↦ inl found
                | inr (a, b) ↦ inr (
                  a,
                  λ c done.
                      b c done (Among-digits (c i j) (done.digit i j p q).0 (done.digit i j p q).1),
                )
              ])
      | inr held ↦
          Answer-eq (traceback-inside s r.unsolved p ∙ if_false (s.board i j == dot) _ _ held)
            (next-Answer s r.inv r.unsolved (longer s r held))
    ]
      where
        longer :
            (s : Sudoku)
            → Ready s i j
            → (s.board i j == dot) ≡ false
            → FullTo (suc (i * 9 + j)) s.board
        longer s r held x y l k below z = elim (Bool-cases (ltb (x * 9 + y) (i * 9 + j))) [
          | inl less ↦ r.full x y l k (ltb→lt _ _ less) z
          | inr more ↦
              let least = ltb-eq-false _ _ more in
              let g : x ≡ i = omega (arith, least, below, l, k, p, q) in
              let h : y ≡ j = omega (arith, least, below, l, k, p, q) in
              cc (sym held, eq→== (s.board i j) dot (sym (rw (g, h) refl) ∙ z))
        ]

-- With enough fuel, traceback finds a board that completes the given one, or leaves all as it was and
-- there is none.
traceback-Answer :
    (fuel : ℕ) (s : Sudoku) (i j : ℕ)
    → Ready s i j
    → Position i j
    → 81 < fuel + (i * 9 + j)
    → Answer s (traceback fuel s i j)
unfolding Position
traceback-Answer zero s i j r (inl (p, q)) enough = absurd (omega arith)
traceback-Answer zero s i j r (inr (e, f)) enough = absurd (omega arith)
traceback-Answer (suc fuel) s i j r (inr (e, f)) enough =
    let run = traceback-end fuel i j s r.unsolved e in
    inl (
      ap (λ t. t.solved) run,
      rw run
          (Completes-self s r.inv (λ x y p q below. r.full x y p q (omega (arith, e, f, below)))),
    )
traceback-Answer (suc fuel) s i j r (inl (p, q)) enough =
    cell-Answer fuel i j p q enough (λ t x y. traceback-Answer fuel t x y) s r

start-Answer : (s : Sudoku) → s.solved ≡ false → Inv s.board s.marks → Answer s (traceback 82 s 0 0)
unfolding Position
start-Answer s unsolved v =
    traceback-Answer 82 s 0 0
      (record { inv = v; unsolved = unsolved; full = λ x y p q h. absurd (omega (arith, h)) })
      (inl (omega arith, omega arith)) (omega arith)

-- solveSudoku returns on every unsolved well-formed board: either with `solved_` set and a board that
-- fills every cell with a digit, keeps the digits given and repeats none in a row, a column or a block,
-- or with `solved_` unset and the board as it was, and then there is no such board.
pub solve_sudoku-Answer :
    (s : Sudoku)
    → s.solved ≡ false
    → WellFormed s.board
    → (t : Sudoku) × (solve_sudoku s ≡ ok t)
      × (Found s t ⊎ ((t.board ≡ s.board) × (t.solved ≡ false) × Hopeless s.board))
unfolding solve_sudoku
solve_sudoku-Answer s unsolved w = elim (is_valid_sudoku-Verdict s w) [
  | inl (m, run, v) ↦
      let start = record s { marks = m } in
      (
        traceback 82 start 0 0,
        if_false s.solved _ _ unsolved ∙ rw run refl,
        outcome start unsolved (from_start m v),
      )
  | inr ((m, run), hopeless) ↦ (
    record s { marks = m },
    if_false s.solved _ _ unsolved ∙ rw run refl,
    inr (refl, unsolved, hopeless),
  )
]
  where
    from_start :
        (m : Marks)
        → Inv s.board m
        → Answer (record s { marks = m }) (traceback 82 (record s { marks = m }) 0 0)
    from_start m v = start-Answer (record s { marks = m }) unsolved v

    outcome :
        (s : Sudoku) {t : Sudoku}
        → s.solved ≡ false
        → Answer s t
        → Found s t ⊎ ((t.board ≡ s.board) × (t.solved ≡ false) × Hopeless s.board)
    outcome s u (inl found) = inl found
    outcome s u (inr (same, hopeless)) =
        inr (ap (λ x. x.board) same, ap (λ x. x.solved) same ∙ u, hopeless)

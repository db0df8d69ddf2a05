-- ===== src/Sudoku/Check.antt =====
-- isValidSudoku builds the records of a board without repeats, and refuses one with a repeat.
use chaonet.Common.{
  ℕ, zero, suc, ◌+◌, ◌-◌, ◌*◌, ◌/◌, ◌%◌, ◌≤◌, ◌<◌, ◌≡◌, ◌≢◌, ◌⊎◌, inl, inr, Bool, true, false, ◌||◌,
  arith, refl, sym, ◌∙◌, ap, Result, ok, err, out_of_range, ◌==◌, ltb, if◌then◌else◌, if_true,
  if_false, Bool-cases, ==_iff, ne→==-eq-false, lt→ltb, ltb→lt, ltb-eq-false, le→ltb-eq-false,
}
use chaonet.Sudoku.{
  unit_of, Board, Marks, Sudoku, dot, put_cell, put_marks, marked, set_marks, no_marks, check_cell,
  check_from, is_valid_sudoku,
}
use chaonet.Sudoku.Spec.{Inv, Inv-ext}
use chaonet.Sudoku.Place.{put_cell_self, put_cell-ne, put-Inv, marked-cases, Cell-cases}
use chaonet.Sudoku.Search.{Hopeless}

-- Every cell holds a dot or a digit.
abbrev pub WellFormed : Board → Type 0
WellFormed b = (i j : ℕ) → i < 9 → j < 9 → (b i j ≡ dot) ⊎ ((49 ≤ b i j) × (b i j ≤ 57))

-- The board without the cells from the `n`-th on.
abbrev first_cells : ℕ → Board → Board
first_cells n b = λ x y. if ltb (x * 9 + y) n then b x y else dot

-- What a check makes of the records: they fit the cells so far, or the board repeats a digit.
abbrev Checked : ℕ → Sudoku → Result (Bool × Sudoku) → Type 0
Checked n s o =
    (((m : Marks) × (o ≡ ok (true, record s { marks = m })) × Inv (first_cells n s.board) m))
    ⊎ (((m : Marks) × (o ≡ ok (false, record s { marks = m }))) × Hopeless s.board)

module _ (b : Board) (n : ℕ) where
  first_cells-lt : (x y : ℕ) → x * 9 + y < n → first_cells n b x y ≡ b x y
  first_cells-lt x y h = if_true (ltb (x * 9 + y) n) _ _ (lt→ltb _ _ h)

  first_cells-ge : (x y : ℕ) → n ≤ x * 9 + y → first_cells n b x y ≡ dot
  first_cells-ge x y h = if_false (ltb (x * 9 + y) n) _ _ (le→ltb-eq-false _ _ h)

  -- One more cell is one digit put.
  first_cells-suc :
      (x y : ℕ)
      → x < 9
      → y < 9
      → put_cell (first_cells n b) (n / 9) (n % 9) (b (n / 9) (n % 9)) x y
        ≡ first_cells (suc n) b x y
  first_cells-suc x y p q = elim (Cell-cases x y (n / 9) (n % 9)) [
    | inl (g, h) ↦
        rw (g, h)
          (put_cell_self (first_cells n b) (n / 9) (n % 9) (b (n / 9) (n % 9))
            ∙ sym (if_true (ltb (n / 9 * 9 + n % 9) (suc n)) _ _ (lt→ltb _ _ (omega arith))))
    | inr (off, away) ↦
        put_cell-ne (first_cells n b) (n / 9) (n % 9) (b (n / 9) (n % 9)) x y off ∙ same away
  ]
    where
      same :
          ¬ ((x ≡ n / 9) × (y ≡ n % 9))
          → first_cells n b x y ≡ (if ltb (x * 9 + y) (suc n) then b x y else dot)
      same away = elim (Bool-cases (ltb (x * 9 + y) n)) [
        | inl less ↦
            let h = ltb→lt _ _ less in
            if_true (ltb (x * 9 + y) n) _ _ less
            ∙ sym (if_true (ltb (x * 9 + y) (suc n)) _ _ (lt→ltb _ _ (omega (arith, h))))
        | inr more ↦
            let h = ltb-eq-false _ _ more in
            let further : n ≢ x * 9 + y =
              λ e. away (omega (arith, e, p, q), omega (arith, e, p, q)) in
            if_false (ltb (x * 9 + y) n) _ _ more
            ∙ sym (
                if_false (ltb (x * 9 + y) (suc n)) _ _
                  (le→ltb-eq-false _ _ (omega (arith, h, further))))
      ]

  -- A cell with a dot adds nothing.
  first_cells-dot :
      b (n / 9) (n % 9) ≡ dot
      → (x y : ℕ) → x < 9
      → y < 9
      → first_cells n b x y ≡ first_cells (suc n) b x y
  first_cells-dot e x y p q = elim (Cell-cases x y (n / 9) (n % 9)) [
    | inl (g, h) ↦
        first_cells-ge x y (omega (arith, g, h))
        ∙ sym e
        ∙ sym (
            rw (g, h)
              (if_true (ltb (n / 9 * 9 + n % 9) (suc n)) (b (n / 9) (n % 9)) dot
                (lt→ltb _ _ (omega arith))))
    | inr (off, _) ↦
        sym (put_cell-ne (first_cells n b) (n / 9) (n % 9) (b (n / 9) (n % 9)) x y off)
        ∙ first_cells-suc x y p q
  ]

module _ (s : Sudoku) (n : ℕ) (inside : n < 81) (v : Inv (first_cells n s.board) s.marks) where
  abbrev i : ℕ
  i = n / 9

  abbrev j : ℕ
  j = n % 9

  abbrev c : ℕ
  c = s.board i j

  abbrev idx : ℕ
  idx = c - 49

  -- A digit that the records show stands twice, so no board completes this one.
  repeated : 49 ≤ c → marked s.marks i j idx ≡ true → Hopeless s.board
  repeated low shown d done =
      let (kind, m) = marked-cases s.marks i j idx shown in
      let (x, y, l, k, u, at) = v.real kind (unit_of kind i j) idx m in
      elim (Bool-cases (ltb (x * 9 + y) n)) [
        | inl less ↦
            let h = ltb→lt _ _ less in
            let given : s.board x y ≡ c =
              omega (arith, sym (first_cells-lt s.board n x y h) ∙ at) in
            let kept : d x y ≡ c = done.keeps x y l k (λ z. omega (arith, z, given)) ∙ given in
            let (g, f) =
              done.distinct kind x y i j l k (omega arith) (omega arith) u
                (λ z. omega (arith, z, kept))
                (kept ∙ sym (done.keeps i j (omega arith) (omega arith) (λ z. omega arith))) in
            omega (arith, h, g, f)
        | inr more ↦ omega (arith, sym (first_cells-ge s.board n x y (ltb-eq-false _ _ more)) ∙ at)
      ]

  check_cell-Checked : (c ≡ dot) ⊎ ((49 ≤ c) × (c ≤ 57)) → Checked (suc n) s (check_cell s i j)
  unfolding check_cell
  check_cell-Checked (inl e) = inl (
    s.marks,
    if_true (c == dot) _ _ ((==_iff c dot).1 e),
    Inv-ext (first_cells-dot s.board n e) v,
  )
  check_cell-Checked (inr (low, high)) =
      let held : (c == dot) ≡ false = ne→==-eq-false c dot (omega arith) in
      let digit : (ltb c 49 || ltb 57 c) ≡ false =
        rw (le→ltb-eq-false c 49 low, le→ltb-eq-false 57 c high) refl in
      let branch : Result (Bool × Sudoku) =
        if marked s.marks i j idx then ok (false, s) else ok (true, set_marks s i j idx true) in
      let run : check_cell s i j ≡ branch =
        if_false (c == dot) (ok (true, s))
          (if ltb c 49 || ltb 57 c then err out_of_range else branch) held
        ∙ if_false (ltb c 49 || ltb 57 c) (err out_of_range) branch digit in
      let back : idx + 49 ≡ c = omega (arith, low) in
      elim (Bool-cases (marked s.marks i j idx)) [
        | inl shown ↦ inr (
          (
            s.marks,
            run
                ∙ if_true (marked s.marks i j idx) (ok (false, s))
                    (ok (true, set_marks s i j idx true)) shown,
          ),
          repeated low shown,
        )
        | inr free ↦ inl (
          put_marks s.marks i j idx true,
          run
              ∙ if_false (marked s.marks i j idx) (ok (false, s))
                  (ok (true, set_marks s i j idx true)) free,
          Inv-ext
              (λ x y p q.
                ap (λ z. put_cell (first_cells n s.board) i j z x y) back
                ∙ first_cells-suc s.board n x y p q)
              (put-Inv (first_cells n s.board) s.marks i j idx free v (omega arith) (omega arith)
                (omega (arith, low, high)) (first_cells-ge s.board n i j (omega arith))),
        )
      ]

-- The records fit the board, or it repeats a digit and no board completes it.
abbrev pub Verdict : Sudoku → Result (Bool × Sudoku) → Type 0
Verdict s o =
    ((m : Marks) × (o ≡ ok (true, record s { marks = m })) × Inv s.board m)
    ⊎ (((m : Marks) × (o ≡ ok (false, record s { marks = m }))) × Hopeless s.board)

check_from-Verdict :
    (left n : ℕ) (s : Sudoku)
    → left + n ≡ 81
    → WellFormed s.board
    → Inv (first_cells n s.board) s.marks
    → Verdict s (check_from left n s)
unfolding check_from
check_from-Verdict zero n s e w v =
    inl (s.marks, refl, Inv-ext (λ x y p q. first_cells-lt s.board n x y (omega (arith, e))) v)
check_from-Verdict (suc left) n s e w v =
    elim (check_cell-Checked s n (omega (arith, e)) v
      (w (n / 9) (n % 9) (omega (arith, e)) (omega arith))) [
        | inl (m, run, v') ↦
            rw run
              (check_from-Verdict left (suc n) (record s { marks = m }) (omega (arith, e)) w v')
        | inr ((m, run), hopeless) ↦ inr ((m, rw run refl), hopeless)
      ]

-- isValidSudoku fails no index on a well-formed board. It returns true with the records of the board,
-- which then repeats no digit in a unit, or false, and then no board completes it.
pub is_valid_sudoku-Verdict :
    (s : Sudoku) → WellFormed s.board → Verdict s (is_valid_sudoku (record s { marks = no_marks }))
unfolding is_valid_sudoku
is_valid_sudoku-Verdict s w =
    check_from-Verdict 81 0 (record s { marks = no_marks }) refl w
      (record {
        range = λ x y p q. inl (first_cells-ge s.board 0 x y (omega arith));
        shown = λ kind x y p q ne. absurd (ne (first_cells-ge s.board 0 x y (omega arith)));
        real = λ kind x y h. cc;
        distinct = λ kind x y x' y' p q p' q' u ne e.
            absurd (ne (first_cells-ge s.board 0 x y (omega arith)));
      })

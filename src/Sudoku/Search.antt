-- ===== src/Sudoku/Search.antt =====
-- The search: it finds a completed board if there is one, and otherwise leaves everything as it was.
use chaonet.Common.{
  ℕ, suc, ◌+◌, ◌-◌, ◌*◌, ◌≤◌, ◌<◌, ◌≡◌, ◌≢◌, ◌⊎◌, inl, inr, Bool, true, false, not, List, [], ◌∷◌,
  arith, refl, sym, ◌∙◌, ap, ltb, if◌then◌else◌, if_true, if_false, Bool-cases, ltb→lt,
  ltb-eq-false,
}
use chaonet.Sudoku.{
  unit_of, Board, Sudoku, dot, put_cell, marked, set_cell, update_record, cancel_record,
  cur_ele_valid, tries,
}
use chaonet.Sudoku.Spec.{Completes, Inv}
use chaonet.Sudoku.Place.{
  put_cell_self, put_cell-ne, put_cell-undo, put_marks-undo, put-Inv, marked-cases, Cell-cases,
}

abbrev pub Hopeless : Board → Type 0
Hopeless b = (c : Board) → Completes b c → ⊥

-- It is solved, by a board that completes the first one.
abbrev pub Found : Sudoku → Sudoku → Type 0
Found s t = (t.solved ≡ true) × Completes s.board t.board

-- It is solved, or it is as before and there is none.
abbrev pub Answer : Sudoku → Sudoku → Type 0
Answer s t = Found s t ⊎ ((t ≡ s) × Hopeless s.board)

-- The cells with a number below `n` are filled.
abbrev pub FullTo : ℕ → Board → Type 0
FullTo n b = (x y : ℕ) → x < 9 → y < 9 → x * 9 + y < n → b x y ≢ dot

abbrev pub Among : ℕ → List ℕ → Type 0
Among c [] = ⊥
Among c (k ∷ ks) = (c ≡ k + 48) ⊎ Among c ks

abbrev pub AreDigits : List ℕ → Type 0
AreDigits [] = Unit {0}
AreDigits (k ∷ ks) = (1 ≤ k) × (k ≤ 9) × AreDigits ks

not-true : (b : Bool) → b ≡ true → not b ≡ false
not-true b h = rw h

not-false : (b : Bool) → b ≡ false → not b ≡ true
not-false b h = rw h

not-eq-true : (b : Bool) → not b ≡ true → b ≡ false
not-eq-true true h = cc
not-eq-true false h = refl

not-eq-false : (b : Bool) → not b ≡ false → b ≡ true
not-eq-false true h = refl
not-eq-false false h = cc

-- What completes a board completes it without one of its digits, too.
Completes-weaken :
    {a b c : Board}
    → ((x y : ℕ) → x < 9 → y < 9 → a x y ≢ dot → b x y ≡ a x y)
    → Completes b c
    → Completes a c
Completes-weaken {a} same k = record {
  keeps = λ x y p q ne. k.keeps x y p q (λ z. ne (sym (same x y p q ne) ∙ z)) ∙ same x y p q ne;
  digit = k.digit;
  distinct = k.distinct;
}

module _ (i j : ℕ) (p : i < 9) (q : j < 9) (go : Sudoku → Sudoku)
    (searched : (t : Sudoku)
      → Inv t.board t.marks
      → t.solved ≡ false
      → FullTo (suc (i * 9 + j)) t.board
      → Answer t (go t)) where
  module _ (s : Sudoku) (v : Inv s.board s.marks) (unsolved : s.solved ≡ false)
      (empty : s.board i j ≡ dot) (full : FullTo (i * 9 + j) s.board) where
    placed : ℕ → Sudoku
    placed k = update_record (set_cell s i j (k + 48)) i j k

    module _ (k : ℕ) (low : 1 ≤ k) (high : k ≤ 9) where
      -- A digit that a record shows stands in no completion.
      not_valid : cur_ele_valid s i j k ≡ false → (c : Board) → Completes s.board c → c i j ≢ k + 48
      not_valid shown c done e =
          let (kind, m) = marked-cases s.marks i j (k - 1) (not-eq-false _ shown) in
          let (x, y, l, r, u, at) = v.real kind (unit_of kind i j) (k - 1) m in
          let held : s.board x y ≢ dot = λ z. omega (arith, z, at) in
          let same : c x y ≡ k + 48 = done.keeps x y l r held ∙ omega (arith, at) in
          let (g, h) =
            done.distinct kind x y i j l r p q u (λ z. omega (arith, z, same)) (same ∙ sym e) in
          held (rw (g, h) empty)

      module _ (valid : cur_ele_valid s i j k ≡ true) where
        free : marked s.marks i j (k - 1) ≡ false
        free = not-eq-true _ valid

        placed-Inv : Inv (placed k).board (placed k).marks
        unfolding placed
        placed-Inv =
            let e : k + 48 ≡ k - 1 + 49 = omega arith in
            rw e (put-Inv s.board s.marks i j (k - 1) free v p q (omega arith) empty)

        placed-FullTo : FullTo (suc (i * 9 + j)) (placed k).board
        unfolding placed
        placed-FullTo x y l r below z = elim (Cell-cases x y i j) [
          | inl (g, h) ↦
              let at : put_cell s.board i j (k + 48) x y ≡ k + 48 =
                rw (g, h) (put_cell_self s.board i j (k + 48)) in
              omega (arith, z, at)
          | inr (off, away) ↦
              full x y l r (before x y l r away below)
                (sym (put_cell-ne s.board i j (k + 48) x y off) ∙ z)
        ]
          where
            before :
                (x y : ℕ)
                → x < 9
                → y < 9
                → ¬ ((x ≡ i) × (y ≡ j))
                → x * 9 + y < suc (i * 9 + j)
                → x * 9 + y < i * 9 + j
            before x y l r away below = elim (Bool-cases (ltb (x * 9 + y) (i * 9 + j))) [
              | inl less ↦ ltb→lt _ _ less
              | inr more ↦
                  let least = ltb-eq-false _ _ more in
                  absurd (
                    away (
                      omega (arith, least, below, l, r, p, q),
                      omega (arith, least, below, l, r, p, q),
                    ))
            ]

        placed-keeps :
            (x y : ℕ) → x < 9 → y < 9 → s.board x y ≢ dot → (placed k).board x y ≡ s.board x y
        unfolding placed
        placed-keeps x y l r ne = elim (Cell-cases x y i j) [
          | inl (g, h) ↦ absurd (ne (rw (g, h) empty))
          | inr (off, _) ↦ put_cell-ne s.board i j (k + 48) x y off
        ]

        -- Taking the digit back restores the board and the records.
        undone : cancel_record (set_cell (placed k) i j dot) i j k ≡ s
        unfolding placed
        undone =
            let b = put_cell-undo s.board i j (k + 48) empty in
            let m = put_marks-undo s.board s.marks i j (k - 1) free in
            λ n. record s { board = b n; marks = m n }

        -- A completion with that digit completes the new board.
        Completes-placed :
            (c : Board) → Completes s.board c → c i j ≡ k + 48 → Completes (placed k).board c
        unfolding placed
        Completes-placed c done e = record {
          keeps = λ x y l r ne. elim (Cell-cases x y i j) [
            | inl (g, h) ↦ rw (g, h) (e ∙ sym (put_cell_self s.board i j (k + 48)))
            | inr (off, _) ↦
                let at = put_cell-ne s.board i j (k + 48) x y off in
                done.keeps x y l r (λ z. ne (at ∙ z)) ∙ sym at
          ];
          digit = done.digit;
          distinct = done.distinct;
        }

        -- The digit is tried, and the search stops there or takes it back.
        tried :
            (ks : List ℕ)
            → Found s (tries go i j (k ∷ ks) s)
              ⊎ ((tries go i j (k ∷ ks) s ≡ tries go i j ks s)
                  × ((c : Board) → Completes s.board c → c i j ≢ k + 48))
        unfolding tries placed
        tried ks =
            let run : tries go i j (k ∷ ks) s ≡ (
                if (go (placed k)).solved
                then go (placed k)
                else tries go i j ks (cancel_record (set_cell (go (placed k)) i j dot) i j k)) =
              if_false s.solved _ _ unsolved ∙ if_true (cur_ele_valid s i j k) _ _ valid in
            elim (searched (placed k) placed-Inv unsolved placed-FullTo) [
              | inl (solved, done) ↦
                  let e = run ∙ if_true (go (placed k)).solved _ _ solved in
                  inl (ap (λ t. t.solved) e ∙ solved, rw e (Completes-weaken placed-keeps done))
              | inr (same, hopeless) ↦ inr (
                run
                    ∙ if_false (go (placed k)).solved _ _ (ap (λ t. t.solved) same ∙ unsolved)
                    ∙ ap (λ t. tries go i j ks (cancel_record (set_cell t i j dot) i j k)) same
                    ∙ ap (tries go i j ks) undone,
                λ c done e. hopeless c (Completes-placed c done e),
              )
            ]

    -- The loop over the digits: a completed board, or none with any of them.
    pub tries-Answer :
        (ks : List ℕ)
        → AreDigits ks
        → Found s (tries go i j ks s)
          ⊎ ((tries go i j ks s ≡ s) × ((c : Board) → Completes s.board c → ¬ Among (c i j) ks))
    unfolding tries
    tries-Answer [] d = inr (refl, λ c done h. h)
    tries-Answer (k ∷ ks) (low, high, d) =
        let go_on : (tries go i j (k ∷ ks) s ≡ tries go i j ks s)
            → ((c : Board) → Completes s.board c → c i j ≢ k + 48)
            → Found s (tries go i j (k ∷ ks) s)
              ⊎ ((tries go i j (k ∷ ks) s ≡ s)
                  × ((c : Board) → Completes s.board c → ¬ Among (c i j) (k ∷ ks))) =
          λ same none_. later k ks _ _ same none_ (tries-Answer ks d) in
        elim (Bool-cases (cur_ele_valid s i j k)) [
          | inl valid ↦ elim (tried k low high valid ks) [
            | inl found ↦ inl found
            | inr (same, none_) ↦ go_on same none_
          ]
          | inr shown ↦
              go_on (if_false s.solved _ _ unsolved ∙ if_false (cur_ele_valid s i j k) _ _ shown)
                (not_valid k low high shown)
        ]
      where
        later :
            (k : ℕ) (ks : List ℕ) (t u : Sudoku)
            → t ≡ u
            → ((c : Board) → Completes s.board c → c i j ≢ k + 48)
            → (Found s u ⊎ ((u ≡ s) × ((c : Board) → Completes s.board c → ¬ Among (c i j) ks)))
            → Found s t ⊎ ((t ≡ s) × ((c : Board) → Completes s.board c → ¬ Among (c i j) (k ∷ ks)))
        later k ks t u e none_ (inl (a, b)) = inl (ap (λ x. x.solved) e ∙ a, rw e b)
        later k ks t u e none_ (inr (a, b)) =
            inr (e ∙ a, λ c done m. elim m [ inl h ↦ none_ c done h | inr h ↦ b c done h ])

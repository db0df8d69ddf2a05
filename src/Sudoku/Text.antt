-- ===== src/Sudoku/Text.antt =====
-- From the text of a sudoku to the text of its solution.
use chaonet.Common.{
  ℕ, zero, suc, ◌+◌, ◌*◌, ◌/◌, ◌%◌, ◌≤◌, ◌<◌, ◌≡◌, ◌≢◌, ◌⊎◌, inl, inr, true, false, List, [], ◌∷◌,
  arith, refl, sym, ◌∙◌, ap, ok, ◌==◌, ltb, if_true, if_false, Bool-cases, ==_iff, ne→==-eq-false,
  lt→ltb, le→ltb-eq-false, length, get_or, tabulate, get_or-tabulate,
}
use chaonet.Sudoku.{Board, Sudoku, dot, stored, update, result, solve_sudoku}
use chaonet.Sudoku.Spec.{Completes}
use chaonet.Sudoku.Check.{WellFormed}
use chaonet.Sudoku.Search.{Hopeless, Found}
use chaonet.Sudoku.Solve.{solve_sudoku-Answer}

-- A dot, or a digit; both '.' and '0' stand for an empty cell.
abbrev pub IsCell : ℕ → Type 0
IsCell c = (c ≡ dot) ⊎ ((48 ≤ c) × (c ≤ 57))

abbrev pub AreCells : List ℕ → Type 0
AreCells [] = Unit {0}
AreCells (c ∷ cs) = IsCell c × AreCells cs

get_or-IsCell : (cs : List ℕ) (n : ℕ) → AreCells cs → n < length cs → IsCell (get_or cs n 0)
get_or-IsCell [] n a h = absurd (omega arith)
get_or-IsCell (c ∷ cs) zero (a, b) h = a
get_or-IsCell (c ∷ cs) (suc n) (a, b) h = get_or-IsCell cs n b (omega arith)

stored-digit : (c : ℕ) → IsCell c → (stored c ≡ dot) ⊎ ((49 ≤ stored c) × (stored c ≤ 57))
unfolding stored
stored-digit c a = elim (Bool-cases (c == 48)) [
  | inl e ↦ inl (if_true (c == 48) dot c e)
  | inr e ↦ elim a [
    | inl d ↦ inl (if_false (c == 48) dot c e ∙ d)
    | inr (l, h) ↦
        let same = if_false (c == 48) dot c e in
        let more : c ≢ 48 = λ z. cc (sym e, (==_iff c 48).1 z) in
        inr (omega (arith, same, more), omega (arith, same))
  ]
]

module _ (s : Sudoku) (text : List ℕ) (long : 81 ≤ length text) where
  update-board :
      (i j : ℕ) → i < 9 → j < 9 → (update s text).board i j ≡ stored (get_or text (i * 9 + j) 0)
  unfolding update
  update-board i j p q =
      ap (λ t. t.board i j) (if_false (ltb (length text) 81) s _ (le→ltb-eq-false _ _ long))
      ∙ rw (lt→ltb i 9 p, lt→ltb j 9 q) refl

  update-unsolved : (update s text).solved ≡ false
  unfolding update
  update-unsolved =
      ap (λ t. t.solved) (if_false (ltb (length text) 81) s _ (le→ltb-eq-false _ _ long))

  update-WellFormed : AreCells text → WellFormed (update s text).board
  update-WellFormed a i j p q = rw (update-board i j p q) (
      stored-digit (get_or text (i * 9 + j) 0)
        (get_or-IsCell text (i * 9 + j) a (omega (arith, long, p, q))))

-- The board that a text of 81 characters shows.
abbrev pub board_of : List ℕ → Board
board_of text = λ i j. get_or text (i * 9 + j) 0

result-board :
    (t : Sudoku)
    → t.solved ≡ true
    → (i j : ℕ) → i < 9
    → j < 9
    → board_of (result t) i j ≡ t.board i j
unfolding result
result-board t e i j p q =
    ap (λ r. get_or r (i * 9 + j) 0)
      (if_true t.solved (tabulate 81 (λ n. t.board (n / 9) (n % 9))) [] e)
    ∙ get_or-tabulate 81 (λ n. t.board (n / 9) (n % 9)) (i * 9 + j) 0 (omega (arith, p, q))
    ∙ ap (λ x. t.board x ((i * 9 + j) % 9)) (omega (arith, p, q))
    ∙ ap (t.board i) (omega (arith, p, q))

result_unsolved : (t : Sudoku) → t.solved ≡ false → result t ≡ []
unfolding result
result_unsolved t e = if_false t.solved (tabulate 81 (λ n. t.board (n / 9) (n % 9))) [] e

Completes-ext :
    {a b c : Board} → ((i j : ℕ) → i < 9 → j < 9 → c i j ≡ b i j) → Completes a b → Completes a c
Completes-ext same k = record {
  keeps = λ i j p q ne. same i j p q ∙ k.keeps i j p q ne;
  digit = λ i j p q. rw (same i j p q) (k.digit i j p q);
  distinct = λ kind i j i' j' p q p' q' u ne e.
      k.distinct kind i j i' j' p q p' q' u (λ z. ne (same i j p q ∙ z))
        (sym (same i j p q) ∙ e ∙ same i' j' p' q');
}

-- The board that a text stands for, row after row: a digit from 1 to 9 is itself, and a dot or a zero
-- is an empty cell.
pub record Shows (text : List ℕ) (b : Board) : Type 0 where
  pub digits : (i j c : ℕ) → i < 9 → j < 9 → board_of text i j ≡ c → 49 ≤ c → c ≤ 57 → b i j ≡ c
  pub blanks :
      (i j : ℕ) → i < 9 → j < 9 → (board_of text i j ≡ dot) ⊎ (board_of text i j ≡ 48) → b i j ≡ dot

stored_digit : (c : ℕ) → 49 ≤ c → stored c ≡ c
unfolding stored
stored_digit c l =
    let more : c ≢ 48 = λ z. omega (arith, l, z) in
    if_false (c == 48) dot c (ne→==-eq-false c 48 more)

stored_blank : (c : ℕ) → (c ≡ dot) ⊎ (c ≡ 48) → stored c ≡ dot
unfolding stored
stored_blank c (inl d) = ap stored d
stored_blank c (inr z) = ap stored z

update-Shows : (s : Sudoku) (text : List ℕ) → 81 ≤ length text → Shows text (update s text).board
update-Shows s text long = record {
  digits = λ i j c p q e l h. update-board s text long i j p q ∙ ap stored e ∙ stored_digit c l;
  blanks = λ i j p q e. update-board s text long i j p q ∙ stored_blank _ e;
}

-- A text of at least 81 digits and dots is read, solved and written: the result is the text of a board
-- that completes the one that the text shows, or it is empty, and no board completes that one.
pub result-solve_sudoku :
    (s : Sudoku) (text : List ℕ)
    → 81 ≤ length text
    → AreCells text
    → (shown : Board) × Shows text shown
      × ((t : Sudoku) × (solve_sudoku (update s text) ≡ ok t)
          × (Completes shown (board_of (result t)) ⊎ ((result t ≡ []) × Hopeless shown)))
result-solve_sudoku s text long a =
    let (t, run, answer) =
      solve_sudoku-Answer (update s text) (update-unsolved s text long)
        (update-WellFormed s text long a) in
    ((update s text).board, update-Shows s text long, (t, run, written (update s text) t answer))
  where
    written :
        (u t : Sudoku)
        → (Found u t ⊎ ((t.board ≡ u.board) × (t.solved ≡ false) × Hopeless u.board))
        → Completes u.board (board_of (result t)) ⊎ ((result t ≡ []) × Hopeless u.board)
    written u t (inl (solved, done)) = inl (Completes-ext (result-board t solved) done)
    written u t (inr (same, unsolved, hopeless)) = inr (result_unsolved t unsolved, hopeless)

-- ===== src/Sudoku/Tests.antt =====
-- The solver on concrete boards.
use chaonet.Common.{
  ℕ, zero, suc, ◌≡◌, refl, ◌⊎◌, inl, inr, false, ◌&&◌, List, [], ◌∷◌, arith, ok, ◌==◌,
  if◌then◌else◌, replicate,
}
use chaonet.Sudoku.{Board, Sudoku, dot, empty, no_marks, update, result, solve_sudoku}
use chaonet.Sudoku.Spec.{Completes}
use chaonet.Sudoku.Search.{Hopeless, Found}
use chaonet.Sudoku.Check.{WellFormed}
use chaonet.Sudoku.Solve.{solve_sudoku-Answer}
use chaonet.Sudoku.Text.{AreCells, board_of, Shows, result-solve_sudoku}

-- A five in the first cell.
abbrev one_five : Sudoku
one_five = record {
  board = λ i j. if i == 0 && j == 0 then 53 else dot;
  marks = no_marks;
  solved = false;
}

one_five-WellFormed : WellFormed one_five.board
one_five-WellFormed i j p q = ground arith

abbrev text : List ℕ
text = 53 ∷ replicate 80 dot

AreCells-replicate : (n : ℕ) → AreCells (replicate n dot)
AreCells-replicate zero = tt
AreCells-replicate (suc n) = (inl refl, AreCells-replicate n)

solve_sudoku-Answer_example :
    (t : Sudoku) × (solve_sudoku one_five ≡ ok t)
    × (Found one_five t
        ⊎ ((t.board ≡ one_five.board) × (t.solved ≡ false) × Hopeless one_five.board))
solve_sudoku-Answer_example = solve_sudoku-Answer one_five refl one_five-WellFormed

result-solve_sudoku_example :
    (shown : Board) × Shows text shown
    × ((t : Sudoku) × (solve_sudoku (update empty text) ≡ ok t)
        × (Completes shown (board_of (result t)) ⊎ ((result t ≡ []) × Hopeless shown)))
result-solve_sudoku_example =
    result-solve_sudoku empty text (omega arith)
      (inr (omega arith, omega arith), AreCells-replicate 80)

-- ===== src/Sudoku.antt =====
-- examples/sudoku/Sudoku.h: the solver. The 81 cells and the marks are functions, which are only used
-- below 9; the digit k has the character k + 48.
pub mod Spec
pub mod Place
pub mod Search
pub mod Check
pub mod Solve
pub mod Text
mod Tests
use chaonet.Common.{
  ℕ, zero, suc, ◌+◌, ◌-◌, ◌*◌, ◌/◌, ◌%◌, Bool, true, false, not, ◌&&◌, ◌||◌, List, [], ◌∷◌, Option,
  none, some, Result, ok, err, out_of_range, ◌>>=◌, ◌==◌, ltb, leb, if◌then◌else◌, length, get_or,
  tabulate,
}

-- rows_, cols_ and blocks_
pub data Kind : Type 0 where
  row col block : Kind

-- `marks kind x idx` is whether the record of that kind has 'v' at [x][idx].
pub record Sudoku : Type 0 where
  pub board : ℕ → ℕ → ℕ
  pub marks : Kind → ℕ → ℕ → Bool
  pub solved : Bool

-- Which row, column or block a cell lies in.
abbrev pub unit_of : Kind → ℕ → ℕ → ℕ
unit_of row i j = i
unit_of col i j = j
unit_of block i j = i / 3 * 3 + j / 3

abbrev pub no_marks : Kind → ℕ → ℕ → Bool
no_marks kind x idx = false

abbrev pub empty : Sudoku
empty = record { board = λ i j. 48; marks = no_marks; solved = false }

abbrev pub digits : List ℕ
digits = 1 ∷ 2 ∷ 3 ∷ 4 ∷ 5 ∷ 6 ∷ 7 ∷ 8 ∷ 9 ∷ []

abbrev pub dot : ℕ
dot = 46

-- The character that update stores for one of the string.
abbrev stored : ℕ → ℕ
stored c = if c == 48 then dot else c

pub update : Sudoku → List ℕ → Sudoku
update s text = if ltb (length text) 81 then s else record s {
  solved = false;
  board = λ i j. if ltb i 9 && ltb j 9 then stored (get_or text (i * 9 + j) 0) else s.board i j;
}

-- The empty string if it is not solved.
pub result : Sudoku → List ℕ
result s = if s.solved then tabulate 81 (λ n. s.board (n / 9) (n % 9)) else []

abbrev pub Board : Type 0
Board = ℕ → ℕ → ℕ

abbrev pub Marks : Type 0
Marks = Kind → ℕ → ℕ → Bool

abbrev pub put_cell : Board → ℕ → ℕ → ℕ → Board
put_cell b i j c = λ x y. if x == i && y == j then c else b x y

-- The three records at the cell's units.
abbrev pub put_marks : Marks → ℕ → ℕ → ℕ → Bool → Marks
put_marks m i j idx v = λ kind x y. if x == unit_of kind i j && y == idx then v else m kind x y

abbrev pub set_cell : Sudoku → ℕ → ℕ → ℕ → Sudoku
set_cell s i j c = record s { board = put_cell s.board i j c }

abbrev pub set_marks : Sudoku → ℕ → ℕ → ℕ → Bool → Sudoku
set_marks s i j idx v = record s { marks = put_marks s.marks i j idx v }

abbrev pub marked : Marks → ℕ → ℕ → ℕ → Bool
marked m i j idx = m row i idx || m col j idx || m block (i / 3 * 3 + j / 3) idx

abbrev pub cur_ele_valid : Sudoku → ℕ → ℕ → ℕ → Bool
cur_ele_valid s i j k = not (marked s.marks i j (k - 1))

abbrev pub update_record : Sudoku → ℕ → ℕ → ℕ → Sudoku
update_record s i j k = set_marks s i j (k - 1) true

abbrev pub cancel_record : Sudoku → ℕ → ℕ → ℕ → Sudoku
cancel_record s i j k = set_marks s i j (k - 1) false

-- The body of both loops of isValidSudoku, at the cell of row `i` and column `j`.
check_cell : Sudoku → ℕ → ℕ → Result (Bool × Sudoku)
check_cell s i j =
    let c = s.board i j in
    if c == dot
    then ok (true, s)
    else if ltb c 49 || ltb 57 c
    then err out_of_range
    else if marked s.marks i j (c - 49)
    then ok (false, s)
    else ok (true, set_marks s i j (c - 49) true)

-- The loops, from the cell with the number `n`; `left` cells are to come.
check_from : ℕ → ℕ → Sudoku → Result (Bool × Sudoku)
unfolding check_cell
check_from zero n s = ok (true, s)
check_from (suc left) n s = do
  (valid, s') ← check_cell s (n / 9) (n % 9)
  (elim valid [ true ↦ check_from left (suc n) s' | false ↦ ok (false, s') ])

pub is_valid_sudoku : Sudoku → Result (Bool × Sudoku)
unfolding check_from
is_valid_sudoku s = check_from 81 0 s

-- The loop over the digits; `go` is the recursive call of traceback for the next cell.
pub tries : (Sudoku → Sudoku) → ℕ → ℕ → List ℕ → Sudoku → Sudoku
tries go i j [] s = s
tries go i j (k ∷ ks) s =
    let t = go (update_record (set_cell s i j (k + 48)) i j k) in
    let undone = tries go i j ks (cancel_record (set_cell t i j dot) i j k) in
    let skipped = tries go i j ks s in
    if s.solved
    then s
    else (if cur_ele_valid s i j k then (if t.solved then t else undone) else skipped)

-- Recursion on fuel; a call without fuel changes nothing.
pub traceback : ℕ → Sudoku → ℕ → ℕ → Sudoku
unfolding tries
traceback zero s i j = s
traceback (suc fuel) s i j =
    let right = λ (t : Sudoku). traceback fuel t i (suc j) in
    let down = λ (t : Sudoku). traceback fuel t (suc i) 0 in
    let go = if ltb j 8 then right else down in
    if s.solved
    then s
    else (if i == 9
        then record s { solved = true }
        else (if s.board i j == dot then tries go i j digits s else go s))

-- 82 calls are nested at most.
pub solve_sudoku : Sudoku → Result Sudoku
solve_sudoku s = if s.solved then ok s else (do
  (valid, t) ← is_valid_sudoku (record s { marks = no_marks })
  ok (if valid then traceback 82 t 0 0 else t))

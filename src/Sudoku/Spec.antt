-- ===== src/Sudoku/Spec.antt =====
-- What a completed sudoku is, and what the records say of a board.
use chaonet.Common.{ℕ, ◌+◌, ◌-◌, ◌≤◌, ◌<◌, ◌≡◌, ◌≢◌, ◌⊎◌, true, sym, ◌∙◌}
use chaonet.Sudoku.{Kind, unit_of, Board, Marks, dot}

-- Two cells that share a row, a column or a block and hold the same are one cell.
abbrev pub Distinct : Board → Type 0
Distinct b =
    (kind : Kind) (i j i' j' : ℕ)
    → i < 9
    → j < 9
    → i' < 9
    → j' < 9
    → unit_of kind i j ≡ unit_of kind i' j'
    → b i j ≢ dot
    → b i j ≡ b i' j'
    → (i ≡ i') × (j ≡ j')

-- `b` fills the board `a` with digits, keeps what `a` holds, and repeats no digit in a row, a column or
-- a block.
pub record Completes (a b : Board) : Type 0 where
  pub keeps : (i j : ℕ) → i < 9 → j < 9 → a i j ≢ dot → b i j ≡ a i j
  pub digit : (i j : ℕ) → i < 9 → j < 9 → (49 ≤ b i j) × (b i j ≤ 57)
  pub distinct : Distinct b

-- The cell of that unit that holds the digit with that index.
abbrev pub Holder : Board → Kind → ℕ → ℕ → Type 0
Holder b kind x idx =
    (i : ℕ) × (j : ℕ) × (i < 9) × (j < 9) × (unit_of kind i j ≡ x) × (b i j ≡ idx + 49)

-- The records mark exactly the digits of the board, and no digit stands twice in a unit.
pub record Inv (b : Board) (m : Marks) : Type 0 where
  pub range : (i j : ℕ) → i < 9 → j < 9 → (b i j ≡ dot) ⊎ ((49 ≤ b i j) × (b i j ≤ 57))
  pub shown :
      (kind : Kind) (i j : ℕ)
      → i < 9
      → j < 9
      → b i j ≢ dot
      → m kind (unit_of kind i j) (b i j - 49) ≡ true
  pub real : (kind : Kind) (x idx : ℕ) → m kind x idx ≡ true → Holder b kind x idx
  pub distinct : Distinct b

-- Only the cells below 9 count.
pub Inv-ext :
    {b c : Board} {m : Marks} → ((i j : ℕ) → i < 9 → j < 9 → b i j ≡ c i j) → Inv b m → Inv c m
Inv-ext {b} {c} {m} same v = record {
  range = λ i j p q. rw (← same i j p q) (v.range i j p q);
  shown = λ kind i j p q ne.
      rw (← same i j p q) (v.shown kind i j p q (λ e. ne (sym (same i j p q) ∙ e)));
  real = λ kind x idx h.
      let (i, j, p, q, u, e) = v.real kind x idx h in (i, j, p, q, u, sym (same i j p q) ∙ e);
  distinct = λ kind i j i' j' p q p' q' u ne e.
      v.distinct kind i j i' j' p q p' q' u (λ z. ne (sym (same i j p q) ∙ z))
        (same i j p q ∙ e ∙ sym (same i' j' p' q'));
}

-- ===== src/SudokuServer/Answers.antt =====
-- What is replied to one line, on every branch (examples/sudoku/server.cpp).
use chaonet.Common.{
  ℕ, ◌≤◌, ◌<◌, ◌≡◌, refl, sym, ap, ◌∙◌, inl, inr, Bool, true, false, Bool-cases, List, [], ◌∷◌,
  ◌++◌, Result, ok, err, ◌>>=◌, length, leb, le→leb, lt→leb-eq-false, leb→le, leb-eq-false, Fault,
  ◌⊎◌, subst, if_true, if_false, find_byte, find_byte-found, find_byte-none, Without, ◌==◌, ==_iff,
  eq→==, ◌≢◌,
}
use chaonet.SudokuServer.{
  Reply, sends, shuts, cells, bad_request, send_reply, shutdown_reply, split_id, reply_text,
  reply_to, answer,
}
use chaonet.Sudoku

-- The id before the first colon, and the request behind it; without a colon all is the request.
pub data Parsed (line : List ℕ) : List ℕ → List ℕ → Type 0 where
  plain : Without 58 line → Parsed line [] line
  with_id :
      {id request : List ℕ} → Without 58 id → line ≡ id ++ 58 ∷ request → Parsed line id request

-- "Bad Request!" and a line break
abbrev refusal : List ℕ
refusal = 66 ∷ 97 ∷ 100 ∷ 32 ∷ 82 ∷ 101 ∷ 113 ∷ 117 ∷ 101 ∷ 115 ∷ 116 ∷ 33 ∷ 13 ∷ 10 ∷ []

-- The reply to a line, and whether the connection is still kConnected; once it is not, nothing is sent.
pub data Answers : Bool → List ℕ → Result (List Reply × Bool) → Type 0 where
  refuses :
      {line id request : List ℕ}
      → Parsed line id request
      → length request < 81
      → Answers true line (ok (sends refusal ∷ shuts ∷ [], false))
  refuses_silently :
      {line id request : List ℕ}
      → Parsed line id request
      → length request < 81
      → Answers false line (ok ([], false))
  solves :
      {line request : List ℕ} (t : Sudoku.Sudoku)
      → Parsed line [] request
      → 81 ≤ length request
      → Sudoku.solve_sudoku (Sudoku.update Sudoku.empty request) ≡ ok t
      → Answers true line (ok (sends (Sudoku.result t ++ 13 ∷ 10 ∷ []) ∷ [], true))
  sends_back :
      {line request id : List ℕ} {x : ℕ} (t : Sudoku.Sudoku)
      → Parsed line (x ∷ id) request
      → 81 ≤ length request
      → Sudoku.solve_sudoku (Sudoku.update Sudoku.empty request) ≡ ok t
      → Answers true line (ok (sends ((x ∷ id) ++ (request ++ 13 ∷ 10 ∷ [])) ∷ [], true))
  solves_silently :
      {line id request : List ℕ} (t : Sudoku.Sudoku)
      → Parsed line id request
      → 81 ≤ length request
      → Sudoku.solve_sudoku (Sudoku.update Sudoku.empty request) ≡ ok t
      → Answers false line (ok ([], false))
  faults :
      {connected : Bool} {line id request : List ℕ} {f : Fault}
      → Parsed line id request
      → 81 ≤ length request
      → Sudoku.solve_sudoku (Sudoku.update Sudoku.empty request) ≡ err f
      → Answers connected line (err f)

-- Every line has a colon that is its first, or none.
colon_in :
    (line : List ℕ)
    → (Without 58 line)
      ⊎ ((id : List ℕ) × (request : List ℕ) × Without 58 id × (line ≡ id ++ 58 ∷ request))
colon_in [] = inl tt
colon_in (x ∷ xs) = elim (Bool-cases (x == 58)) [
  | inl y ↦ inr ([], xs, tt, ap (λ z. z ∷ xs) ((==_iff x 58).0 y))
  | inr n ↦
      let ne : x ≢ 58 = λ z. cc (n, eq→== x 58 z) in
      elim (colon_in xs) [
        | inl none_in ↦ inl (ne, none_in)
        | inr (id, request, w, e) ↦ inr (x ∷ id, request, (ne, w), ap (λ z. x ∷ z) e)
      ]
]

module _ (line id request : List ℕ) (p : Parsed line id request) where
  refused :
      (connected : Bool)
      → length request < 81
      → Answers connected line (reply_to connected id request)
  unfolding reply_to send_reply shutdown_reply
  refused connected short =
      subst (Answers connected line)
        (sym (if_false (leb cells (length request)) _ _ (lt→leb-eq-false _ _ short))) (by connected)
    where
      by : (b : Bool) → Answers b line (ok (send_reply b bad_request ++ shutdown_reply b, false))
      by true = refuses p short
      by false = refuses_silently p short

  solved :
      (connected : Bool)
      → 81 ≤ length request
      → Answers connected line (reply_to connected id request)
  unfolding reply_to send_reply reply_text
  solved connected long =
      subst (Answers connected line)
        (sym (if_true (leb cells (length request)) _ _ (le→leb _ _ long)))
        (by connected id p (Sudoku.solve_sudoku (Sudoku.update Sudoku.empty request)) refl)
    where
      by :
          (b : Bool) (i : List ℕ)
          → Parsed line i request
          → (o : Result Sudoku.Sudoku)
          → Sudoku.solve_sudoku (Sudoku.update Sudoku.empty request) ≡ o
          → Answers b line (o >>= λ t. ok (send_reply b (reply_text i request t), b))
      by b i q (err f) e = faults q long e
      by true [] q (ok t) e = solves t q long e
      by true (x ∷ i) q (ok t) e = sends_back t q long e
      by false i q (ok t) e = solves_silently t q long e

  reply_to-Answers : (connected : Bool) → Answers connected line (reply_to connected id request)
  reply_to-Answers connected = elim (Bool-cases (leb 81 (length request))) [
    | inl y ↦ solved connected (leb→le 81 (length request) y)
    | inr n ↦ refused connected (leb-eq-false 81 (length request) n)
  ]

pub answer-Answers :
    (connected : Bool) (line : List ℕ) → Answers connected line (answer connected line)
unfolding answer split_id
answer-Answers connected line = elim (colon_in line) [
  | inl none_in ↦
      subst
        (λ (s : List ℕ × List ℕ).
          Answers connected line (reply_to connected (split_id line s).0 (split_id line s).1))
        (sym (find_byte-none 58 line none_in))
        (reply_to-Answers line [] line (plain none_in) connected)
  | inr (id, request, w, e) ↦
      subst
        (λ (s : List ℕ × List ℕ).
          Answers connected line (reply_to connected (split_id line s).0 (split_id line s).1))
        (sym (ap (find_byte 58) e ∙ find_byte-found 58 id request w))
        (reply_to-Answers line id request (with_id w e) connected)
]

-- Later replies behind those to a line.
abbrev pub behind : List Reply → Result (List Reply × Bool) → Result (List Reply × Bool)
behind now later = later >>= λ r. ok (now ++ r.0, r.1)

-- The replies to lines, one after the other; the first fault ends the program.
pub data AllAnswers : Bool → List (List ℕ) → Result (List Reply × Bool) → Type 0 where
  no_lines : {connected : Bool} → AllAnswers connected [] (ok ([], connected))
  stops :
      {connected : Bool} {line : List ℕ} {lines : List (List ℕ)} {f : Fault}
      → Answers connected line (err f)
      → AllAnswers connected (line ∷ lines) (err f)
  goes_on_with :
      {connected still : Bool} {line : List ℕ} {lines : List (List ℕ)} {now : List Reply}
      {later : Result (List Reply × Bool)}
      → Answers connected line (ok (now, still))
      → AllAnswers still lines later
      → AllAnswers connected (line ∷ lines) (behind now later)

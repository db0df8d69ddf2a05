-- ===== src/SudokuServer/Lines.antt =====
-- The server takes the whole lines of its buffer, one after the other.
use chaonet.Common.{
  ℕ, zero, suc, ◌+◌, ◌≤◌, ◌<◌, ◌≡◌, refl, sym, Bool, ap, ◌∙◌, inl, inr, List, [], ◌∷◌, Option, some,
  Result, ok, err, ◌>>=◌, arith, subst, length, take, take-append, length-append, leb, le→leb,
  if_true,
}
use chaonet.Buffer.{Buffer, contents, retrieve_until, readable_bytes}
use chaonet.Buffer.Crlf.{NoCrlf, LineEnd}
use chaonet.Buffer.Layout.{IsValid}
use chaonet.Buffer.Lines.{find_crlf_lem, take_line}
use chaonet.SudokuServer.Answers.{
  Answers, answer-Answers, AllAnswers, behind, no_lines, stops, goes_on_with,
}
use chaonet.SudokuServer.{
  Reply, Outcome, goes_on, answer, line_to, pass_at, follow, prepend_replies, loop, on_message,
  cells,
}

-- The whole lines of a text, and what follows the last of them.
pub data Splits : List ℕ → List (List ℕ) → List ℕ → Type 0 where
  rest_only : {xs : List ℕ} → NoCrlf xs → Splits xs [] xs
  line_first :
      {xs line rest end : List ℕ} {lines : List (List ℕ)}
      → LineEnd xs line rest
      → Splits rest lines end
      → Splits xs (line ∷ lines) end

-- What the loop leaves of a buffer.
pub record Served (connected : Bool) (b : Buffer) (o : Option Outcome) : Type 0 where
  pub lines : List (List ℕ)
  pub left : Buffer
  pub split : Splits (contents b) lines (contents left)
  pub valid : IsValid left
  pub answers : Result (List Reply × Bool)
  pub answered : AllAnswers connected lines answers
  pub run : o ≡ some (answers >>= λ r. ok (r.0, r.1, left))

pass_at-line :
    (connected : Bool) (b c : Buffer) (line rest : List ℕ)
    → LineEnd (contents b) line rest
    → retrieve_until b (b.reader_index + length line + 2) ≡ ok c
    → pass_at connected b (some (b.reader_index + length line))
      ≡ (answer connected line >>= λ r. ok (goes_on r.0 r.1 c))
unfolding pass_at
pass_at-line connected b c line rest l taken =
    rw taken (ap (λ m. answer connected m >>= λ r. ok (goes_on r.0 r.1 c)) front)
  where
    front : line_to b (b.reader_index + length line) ≡ line
    front =
        ap (λ n. take n (contents b)) (omega arith)
        ∙ ap (take (length line)) l.split
        ∙ take-append (length line) line (13 ∷ 10 ∷ rest) refl

prepend_replies-ok :
    (now : List Reply) (left : Buffer) (later : Result (List Reply × Bool))
    → prepend_replies now (some (later >>= λ r. ok (r.0, r.1, left)))
      ≡ some (behind now later >>= λ r. ok (r.0, r.1, left))
unfolding prepend_replies
prepend_replies-ok now left (err f) = refl
prepend_replies-ok now left (ok later) = refl

-- One line in front of what the loop does with the rest.
follow-Served :
    (rest_of : Bool → Buffer → Option Outcome) (connected : Bool) (b c : Buffer)
    (line rest : List ℕ)
    → LineEnd (contents b) line rest
    → contents c ≡ rest
    → ((still : Bool) → Served still c (rest_of still c))
    → (o : Result (List Reply × Bool)) → Answers connected line o
    → Served connected b (follow rest_of connected b (o >>= λ r. ok (goes_on r.0 r.1 c)))
unfolding follow
follow-Served rest_of connected b c line rest l after next (err f) a =
    let s = next connected in
    record {
      lines = line ∷ s.lines;
      left = s.left;
      split = line_first l (subst (λ xs. Splits xs s.lines (contents s.left)) after s.split);
      valid = s.valid;
      answers = err f;
      answered = stops a;
      run = refl;
    }
follow-Served rest_of connected b c line rest l after next (ok (now, still)) a =
    let s = next still in
    record {
      lines = line ∷ s.lines;
      left = s.left;
      split = line_first l (subst (λ xs. Splits xs s.lines (contents s.left)) after s.split);
      valid = s.valid;
      answers = behind now s.answers;
      answered = goes_on_with a s.answered;
      run = ap (prepend_replies now) s.run ∙ prepend_replies-ok now s.left s.answers;
    }

pub loop-Served :
    (fuel : ℕ) (connected : Bool) (b : Buffer)
    → IsValid b
    → length (contents b) < fuel
    → Served connected b (loop fuel connected b)
unfolding loop
loop-Served zero connected b v enough = absurd (omega arith)
loop-Served (suc fuel) connected b v enough = elim (find_crlf_lem b) [
  | inl (line, rest, found, l) ↦
      let (c, taken, valid, after) = take_line b line rest v l in
      let count : length (contents b) ≡ length line + 2 + length rest =
        omega (arith, ap length l.split, length-append line (13 ∷ 10 ∷ rest)) in
      let next = λ (still : Bool).
        loop-Served fuel still c valid (omega (arith, ap length after, count, enough)) in
      subst (Served connected b)
        (sym (
          ap (λ o. follow (loop fuel) connected b (pass_at connected b o)) found
          ∙ ap (follow (loop fuel) connected b) (pass_at-line connected b c line rest l taken)))
        (follow-Served (loop fuel) connected b c line rest l after next (answer connected line)
          (answer-Answers connected line))
  | inr (missing, no_line) ↦ record {
    lines = [];
    left = b;
    split = rest_only no_line;
    valid = v;
    answers = ok ([], connected);
    answered = no_lines;
    run =
        ap (λ o. follow (loop fuel) connected b (pass_at connected b o)) missing
        ∙ unfold pass_at follow in refl;
  }
]

-- With 83 readable bytes or more the loop ends. The whole lines of the buffer are answered in order; what
-- follows the last line stays in the buffer. A request of fewer than 81 characters gets "Bad Request!"
-- and the connection is shut down, and from there nothing more is sent. A longer one is answered with the
-- solver's text, or, if an id stands before it, with the id and the request. A puzzle that makes the
-- solver read past its records ends the program.
pub on_message-Served :
    (fuel : ℕ) (connected : Bool) (b : Buffer)
    → IsValid b
    → cells + 2 ≤ readable_bytes b
    → length (contents b) < fuel
    → Served connected b (on_message fuel connected b)
unfolding on_message
on_message-Served fuel connected b v big enough =
    subst (Served connected b)
      (sym (if_true (leb (cells + 2) (readable_bytes b)) _ _ (le→leb _ _ big)))
      (loop-Served fuel connected b v enough)

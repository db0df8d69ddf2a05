-- ===== src/SudokuServer.antt =====
-- examples/sudoku/server.cpp: lines of puzzles in, lines of answers out.
pub mod Answers
pub mod Lines
mod Tests
use chaonet.Common.{
  ℕ, zero, suc, ◌+◌, ◌-◌, Bool, true, false, List, [], ◌∷◌, ◌++◌, Option, none, some, Result, ok,
  err, ◌>>=◌, leb, if◌then◌else◌, length, take, find_byte,
}
use chaonet.Buffer.{Buffer, contents, readable_bytes, find_crlf, retrieve_until}
use chaonet.Sudoku

pub data Reply : Type 0 where
  sends : List ℕ → Reply
  shuts : Reply

abbrev pub cells : ℕ
cells = 81

abbrev crlf_bytes : List ℕ
crlf_bytes = 13 ∷ 10 ∷ []

-- "Bad Request!\r\n"
abbrev bad_request : List ℕ
bad_request = 66 ∷ 97 ∷ 100 ∷ 32 ∷ 82 ∷ 101 ∷ 113 ∷ 117 ∷ 101 ∷ 115 ∷ 116 ∷ 33 ∷ crlf_bytes

-- What stands before the colon, and the request behind it.
split_id : List ℕ → List ℕ × List ℕ → List ℕ × List ℕ
split_id line (id, []) = ([], line)
split_id line (id, colon ∷ request) = (id, request)

-- The reply to a puzzle; with an id, the request is sent back.
reply_text : List ℕ → List ℕ → Sudoku.Sudoku → List ℕ
reply_text [] request t = Sudoku.result t ++ crlf_bytes
reply_text (x ∷ id) request t = (x ∷ id) ++ (request ++ crlf_bytes)

-- conn->send, which does nothing once the connection is not kConnected.
send_reply : Bool → List ℕ → List Reply
send_reply connected text = if connected then sends text ∷ [] else []

-- conn->shutdown, which leaves kConnected.
shutdown_reply : Bool → List Reply
shutdown_reply connected = if connected then shuts ∷ [] else []

-- `connected` is whether the connection is kConnected; it comes back with the replies.
reply_to : Bool → List ℕ → List ℕ → Result (List Reply × Bool)
unfolding reply_text send_reply shutdown_reply
reply_to connected id request =
    if leb cells (length request)
    then (Sudoku.solve_sudoku (Sudoku.update Sudoku.empty request) >>= λ t.
        ok (send_reply connected (reply_text id request t), connected))
    else ok (send_reply connected bad_request ++ shutdown_reply connected, false)

-- The body of the loop, for one line.
pub answer : Bool → List ℕ → Result (List Reply × Bool)
unfolding reply_to split_id
answer connected line =
    let (id, request) = split_id line (find_byte 58 line) in reply_to connected id request

abbrev Outcome : Type 0
Outcome = Result (List Reply × Bool × Buffer)

-- One pass of the loop: the replies, the connection and the buffer behind the line, or the end.
pub data Pass : Type 0 where
  goes_on : List Reply → Bool → Buffer → Pass
  ends : Pass

-- The line from peek() to the CRLF.
abbrev pub line_to : Buffer → ℕ → List ℕ
line_to b crlf = take (crlf - b.reader_index) (contents b)

pass_at : Bool → Buffer → Option ℕ → Result Pass
unfolding answer
pass_at connected b none = ok ends
pass_at connected b (some crlf) = do
  b' ← retrieve_until b (crlf + 2)
  (replies, still) ← answer connected (line_to b crlf)
  ok (goes_on replies still b')

prepend_replies : List Reply → Option Outcome → Option Outcome
prepend_replies before none = none
prepend_replies before (some o) = some (o >>= λ r. ok (before ++ r.0, r.1, r.2))

follow : (Bool → Buffer → Option Outcome) → Bool → Buffer → Result Pass → Option Outcome
follow rest connected b (err f) = some (err f)
follow rest connected b (ok ends) = some (ok ([], connected, b))
follow rest connected b (ok (goes_on replies still b')) = prepend_replies replies (rest still b')

-- The loop on fuel: its test reads a length that does not change. `none` if the fuel was used up.
pub loop : ℕ → Bool → Buffer → Option Outcome
unfolding pass_at follow prepend_replies
loop zero connected b = none
loop (suc fuel) connected b = follow (loop fuel) connected b (pass_at connected b (find_crlf b))

pub on_message : ℕ → Bool → Buffer → Option Outcome
unfolding loop
on_message fuel connected b =
    if leb (cells + 2) (readable_bytes b)
    then loop fuel connected b
    else some (ok ([], connected, b))

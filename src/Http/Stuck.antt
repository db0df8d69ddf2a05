-- ===== src/Http/Stuck.antt =====
-- Two inputs that parseRequest does not survive (examples/http/HttpContext.cpp).
use chaonet.Common.{
  find_byte, append_assoc, ◌+◌, ℕ, zero, suc, ◌≡◌, refl, ap, ◌∙◌, Bool, true, false, ◌&&◌, List, [],
  ◌∷◌, ◌++◌, Option, none, some, Result, ok, err, Fault, assert_failed, ◌==◌, if◌then◌else◌, length,
  take, drop,
}
use chaonet.Buffer.{Buffer, contents, find_crlf}
use chaonet.Buffer.Crlf.{NoCrlf}
use chaonet.Buffer.Layout.{IsValid}
use chaonet.Buffer.Lines.{next_line}
use chaonet.Http.{
  Request, Method, invalid, get, post, head, put, delete, Context, expect_request_line,
  expect_headers, is_invalid, method_string, set_method, set_target, store_target, set_version,
  after_method, split_target, process_request_line, take_request_line, line_to, pass, pass_in,
  parse_request, Pass, again, done, eq_bytes, http_1, http10,
}
use chaonet.Http.Line.{Known, process_request_line-method}

-- What the loop does with the result of a pass.
abbrev follow : ℕ → ℕ → Result Pass → Option (Result (Bool × Context × Buffer))
follow fuel time (err f) = some (err f)
follow fuel time (ok (again c b)) = parse_request fuel c b time
follow fuel time (ok (done good c b)) = some (ok (good, c, b))

module _ (c : Context) (b : Buffer) (time : ℕ) where
  -- The three ways in which a pass goes on.
  pub then_again :
      (fuel : ℕ) (c' : Context) (b' : Buffer)
      → pass c b time ≡ ok (again c' b')
      → parse_request (suc fuel) c b time ≡ parse_request fuel c' b' time
  unfolding parse_request
  then_again fuel c' b' e = ap (follow fuel time) e

  pub then_done :
      (fuel : ℕ) (good : Bool) (c' : Context) (b' : Buffer)
      → pass c b time ≡ ok (done good c' b')
      → parse_request (suc fuel) c b time ≡ some (ok (good, c', b'))
  unfolding parse_request
  then_done fuel good c' b' e = ap (follow fuel time) e

  then_err :
      (fuel : ℕ) (f : Fault)
      → pass c b time ≡ err f
      → parse_request (suc fuel) c b time ≡ some (err f)
  unfolding parse_request
  then_err fuel f e = ap (follow fuel time) e

  pass-headers : c.state ≡ expect_headers → find_crlf b ≡ none → pass c b time ≡ ok (again c b)
  unfolding pass pass_in
  pass-headers s e =
      ap (λ t. pass_in t c b time (find_crlf b)) s ∙ ap (pass_in expect_headers c b time) e

  pub pass-line :
      (crlf : ℕ)
      → c.state ≡ expect_request_line
      → find_crlf b ≡ some crlf
      → pass c b time ≡ take_request_line c b time crlf
  unfolding pass pass_in
  pass-line crlf s e =
      ap (λ t. pass_in t c b time (find_crlf b)) s ∙ ap (pass_in expect_request_line c b time) e

  pass-refused :
      (crlf : ℕ) (r : Request)
      → process_request_line c.request (line_to b crlf) ≡ ok (false, r)
      → take_request_line c b time crlf ≡ ok (done false (record c { request = r }) b)
  unfolding take_request_line
  pass-refused crlf r e = rw e refl

  pass-aborts :
      (crlf : ℕ) (f : Fault)
      → process_request_line c.request (line_to b crlf) ≡ err f
      → take_request_line c b time crlf ≡ err f
  unfolding take_request_line
  pass-aborts crlf f e = rw e refl

-- While headers are expected and no whole line is there, as when a request comes in two pieces, the loop
-- of parseRequest never ends: no number of passes is enough.
pub partial_headers_spin :
    (fuel : ℕ) (c : Context) (b : Buffer) (time : ℕ)
    → c.state ≡ expect_headers
    → find_crlf b ≡ none
    → parse_request fuel c b time ≡ none
unfolding parse_request
partial_headers_spin zero c b time s e = refl
partial_headers_spin (suc fuel) c b time s e =
    then_again c b time fuel c b (pass-headers c b time s e)
    ∙ partial_headers_spin fuel c b time s e

set_target-method : (r : Request) (p : List ℕ × List ℕ) → (store_target r p).method ≡ r.method
unfolding store_target
set_target-method r (path, []) = refl
set_target-method r (path, q ∷ query) = refl

-- A choice between two results keeps the method that both have.
if-method :
    (b : Bool) (p q : Bool × Request) (m : Method)
    → p.1.method ≡ m
    → q.1.method ≡ m
    → (if◌then◌else◌ {A = Bool × Request} b p q).1.method ≡ m
if-method true p q m x y = x
if-method false p q m x y = y

set_version-method : (r : Request) (v : List ℕ) → (set_version r v).1.method ≡ r.method
unfolding set_version
set_version-method r v =
    if-method (length v == 8 && eq_bytes (take 7 v) http_1) _ _ r.method
      (if-method (eq_bytes (drop 7 v) (49 ∷ [])) _ _ r.method refl (
        if-method (eq_bytes (drop 7 v) (48 ∷ [])) (true, record r { version = http10 }) (false, r)
          r.method refl refl))
      refl

after_method-method : (r : Request) (xs : List ℕ) → (after_method r xs).1.method ≡ r.method
unfolding after_method split_target set_target
after_method-method r xs = go (find_byte 32 xs)
  where
    go : (p : List ℕ × List ℕ) → (split_target r p).1.method ≡ r.method
    go (target, []) = refl
    go (target, s ∷ version) =
        set_version-method _ version ∙ set_target-method r (find_byte 63 target)

-- setMethod asserts that the method is not set yet.
process_request_line-again :
    (r : Request) (m : Method) (rest : List ℕ)
    → is_invalid r.method ≡ false
    → Known m
    → process_request_line r (method_string m ++ 32 ∷ rest) ≡ err assert_failed
unfolding process_request_line find_byte set_method
process_request_line-again r invalid rest e k = cc
process_request_line-again r get rest e k = rw e refl
process_request_line-again r post rest e k = rw e refl
process_request_line-again r head rest e k = rw e refl
process_request_line-again r put rest e k = rw e refl
process_request_line-again r delete rest e k = rw e refl

-- A request line with a known method whose rest is refused, say for its version, makes parseRequest
-- return false and stays in the buffer. The next call on the connection, at any later time and whatever
-- bytes have come behind it, none included, reads the line again and fails the assertion of setMethod.
pub refused_line_aborts :
    (c : Context) (b b' : Buffer) (time later fuel : ℕ) (m : Method) (rest behind more : List ℕ)
    → c.state ≡ expect_request_line
    → c.request.method ≡ invalid
    → IsValid b
    → contents b ≡ (method_string m ++ 32 ∷ rest) ++ 13 ∷ 10 ∷ behind
    → NoCrlf ((method_string m ++ 32 ∷ rest) ++ 13 ∷ [])
    → IsValid b'
    → contents b' ≡ contents b ++ more
    → Known m
    → (after_method (record c.request { method = m }) rest).0 ≡ false
    → (c' : Context) × (parse_request (suc fuel) c b time ≡ some (ok (false, c', b)))
      × (parse_request (suc fuel) c' b' later ≡ some (err assert_failed))
refused_line_aborts c b b' time later fuel m rest behind more s fresh v holds one v' grown k
      refused =
    let (e', l', _) =
      next_line b' (method_string m ++ 32 ∷ rest) (behind ++ more) v'
        (grown
          ∙ ap (λ xs. xs ++ more) holds
          ∙ append_assoc (method_string m ++ 32 ∷ rest) (13 ∷ 10 ∷ behind) more)
        one in
    let asked = method_string m ++ 32 ∷ rest in
    let (e, l, _) = next_line b asked behind v holds one in
    let crlf = b.reader_index + length asked in
    let named = record c.request { method = m } in
    let r = (after_method named rest).1 in
    let first : process_request_line c.request (line_to b crlf) ≡ ok (false, r) =
      ap (process_request_line c.request) l
      ∙ process_request_line-method c.request m rest fresh k
      ∙ ap (λ z. ok (z, r)) refused in
    let c' = record c { request = r } in
    let second : process_request_line r asked ≡ err assert_failed =
      process_request_line-again r m rest (ap is_invalid (after_method-method named rest) ∙ k) k in
    (
      c',
      then_done c b time fuel false c' b
          (pass-line c b time crlf s e ∙ pass-refused c b time crlf r first),
      then_err c' b' later fuel assert_failed (
          pass-line c' b' later _ s e'
          ∙ pass-aborts c' b' later _ assert_failed (ap (process_request_line r) l' ∙ second)),
    )

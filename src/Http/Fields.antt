-- ===== src/Http/Fields.antt =====
-- The header lines of a request, and the empty line behind them (examples/http/HttpContext.cpp).
use chaonet.Common.{
  ℕ, zero, suc, ◌+◌, ◌<◌, ◌≡◌, refl, ap, ◌∙◌, true, false, List, [], ◌∷◌, ◌++◌, append_assoc, some,
  Result, ok, ◌>>=◌, length, find_byte, find_byte-found, Without, arith, if_false, if◌then◌else◌,
}
use chaonet.Buffer.{Buffer, contents, find_crlf, retrieve_until}
use chaonet.Buffer.Crlf.{NoCrlf}
use chaonet.Buffer.Layout.{IsValid}
use chaonet.Buffer.Lines.{next_line}
use chaonet.Http.{
  Request, Context, expect_headers, got_all, is_space, skip_spaces, drop_spaces, put_header,
  add_header, take_header, line_to, pass, pass_in, parse_request, Pass, again, done,
}
use chaonet.Http.Headers.{add_headers}
use chaonet.Http.Stuck.{then_again, then_done}

-- Texts without spaces at their ends.
abbrev pub StartsClean : List ℕ → Type 0
StartsClean [] = Unit {0}
StartsClean (x ∷ xs) = is_space x ≡ false

abbrev pub EndsClean : List ℕ → Type 0
EndsClean [] = Unit {0}
EndsClean (x ∷ []) = is_space x ≡ false
EndsClean (x ∷ y ∷ xs) = EndsClean (y ∷ xs)

skip_spaces-clean : (v : List ℕ) → StartsClean v → skip_spaces v ≡ v
skip_spaces-clean [] h = refl
skip_spaces-clean (x ∷ xs) h = if_false _ _ _ h

drop_spaces-clean : (v : List ℕ) → EndsClean v → drop_spaces v ≡ v
drop_spaces-clean [] h = refl
drop_spaces-clean (x ∷ []) h = if_false _ _ _ h
drop_spaces-clean (x ∷ y ∷ xs) h =
    ap (λ rest. elim rest [ [] ↦ if is_space x then [] else x ∷ [] | z ∷ zs ↦ x ∷ z ∷ zs ])
      (drop_spaces-clean (y ∷ xs) h)

-- A header as a client writes it: "field: value".
abbrev pub header_line : List ℕ × List ℕ → List ℕ
header_line (field, value) = field ++ 58 ∷ 32 ∷ value

pub record IsHeader (h : List ℕ × List ℕ) : Type 0 where
  pub no_colon : Without 58 h.0
  pub starts : StartsClean h.1
  pub ends : EndsClean h.1
  pub one_line : NoCrlf (header_line h ++ 13 ∷ [])

-- All headers, with the empty line behind them.
unfoldable pub headers_text : List (List ℕ × List ℕ) → List ℕ
headers_text [] = 13 ∷ 10 ∷ []
headers_text (h ∷ hs) = header_line h ++ 13 ∷ 10 ∷ headers_text hs

unfoldable pub AreHeaders : List (List ℕ × List ℕ) → Type 0
AreHeaders [] = Unit {0}
AreHeaders (h ∷ hs) = IsHeader h × AreHeaders hs

abbrev pub with_headers : Context → List (List ℕ × List ℕ) → Context
with_headers c hs = record c { request = record c.request { headers = hs } }

add_header-clean :
    (r : Request) (h : List ℕ × List ℕ)
    → IsHeader h
    → add_header r h.0 (32 ∷ h.1) ≡ record r { headers = put_header h.0 h.1 r.headers }
unfolding add_header
add_header-clean r h w =
    ap (λ v. record r { headers = put_header h.0 v r.headers })
      (ap drop_spaces (skip_spaces-clean h.1 w.starts) ∙ drop_spaces-clean h.1 w.ends)

-- One pass in the headers.
pass-header_line :
    (c : Context) (b : Buffer) (time crlf : ℕ)
    → c.state ≡ expect_headers
    → find_crlf b ≡ some crlf
    → pass c b time ≡ take_header c b crlf
unfolding pass pass_in
pass-header_line c b time crlf s e =
    ap (λ t. pass_in t c b time (find_crlf b)) s ∙ ap (pass_in expect_headers c b time) e

take_header-some :
    (c : Context) (b b' : Buffer) (crlf : ℕ) (h : List ℕ × List ℕ)
    → line_to b crlf ≡ header_line h
    → retrieve_until b (crlf + 2) ≡ ok b'
    → IsHeader h
    → take_header c b crlf ≡ ok (again (with_headers c (put_header h.0 h.1 c.request.headers)) b')
unfolding take_header
take_header-some c b b' crlf h l taken w =
    ap store (ap (find_byte 58) l ∙ find_byte-found 58 h.0 (32 ∷ h.1) w.no_colon)
    ∙ ap (λ o. o >>= λ d. ok (again (record c { request = add_header c.request h.0 (32 ∷ h.1) }) d))
        taken
    ∙ ap (λ r. ok (again (record c { request = r }) b')) (add_header-clean c.request h w)
  where
    store : List ℕ × List ℕ → Result Pass
    store p = retrieve_until b (crlf + 2) >>= λ d. ok (elim p.1 [
      | [] ↦ done true (record c { state = got_all }) d
      | _ ∷ value ↦ again (record c { request = add_header c.request p.0 value }) d
    ])

take_header-none :
    (c : Context) (b b' : Buffer) (crlf : ℕ)
    → line_to b crlf ≡ []
    → retrieve_until b (crlf + 2) ≡ ok b'
    → take_header c b crlf ≡ ok (done true (record c { state = got_all }) b')
unfolding take_header find_byte
take_header-none c b b' crlf l taken =
    ap
      (λ p. retrieve_until b (crlf + 2) >>= λ d. ok (elim p.1 [
        | [] ↦ done true (record c { state = got_all }) d
        | _ ∷ value ↦ again (record c { request = add_header c.request p.0 value }) d
      ]))
      (ap (find_byte 58) l)
    ∙ ap (λ o. o >>= λ d. ok (done true (record c { state = got_all }) d)) taken

-- The headers of a request, and the empty line behind them.
pub parse_request-headers :
    (hs : List (List ℕ × List ℕ)) (fuel : ℕ) (c : Context) (b : Buffer) (time : ℕ) (rest : List ℕ)
    → length hs < fuel
    → c.state ≡ expect_headers
    → IsValid b
    → AreHeaders hs
    → contents b ≡ headers_text hs ++ rest
    → (b' : Buffer) × (parse_request fuel c b time
        ≡ some (
            ok (
              true,
              record (with_headers c (add_headers c.request.headers hs)) { state = got_all },
              b',
            )))
      × IsValid b'
      × (contents b' ≡ rest)
unfolding headers_text AreHeaders add_headers
parse_request-headers hs zero c b time rest n s v a e = absurd (omega arith)
parse_request-headers [] (suc fuel) c b time rest n s v a e =
    let (found, line, (b', taken, valid, left)) = next_line b [] rest v e tt in
    (
      b',
      then_done c b time fuel true (record c { state = got_all }) b'
          (pass-header_line c b time _ s found ∙ take_header-none c b b' _ line taken),
      valid,
      left,
    )
parse_request-headers (h ∷ hs) (suc fuel) c b time rest n s v (w, a) e =
    let (found, line, (b', taken, valid, left)) =
      next_line b (header_line h) (headers_text hs ++ rest) v
        (e ∙ append_assoc (header_line h) (13 ∷ 10 ∷ headers_text hs) rest) w.one_line in
    let c' = with_headers c (put_header h.0 h.1 c.request.headers) in
    let (b2, run, valid2, left2) =
      parse_request-headers hs fuel c' b' time rest (omega arith) s valid a left in
    (
      b2,
      then_again c b time fuel c' b'
            (pass-header_line c b time _ s found ∙ take_header-some c b b' _ h line taken w)
          ∙ run,
      valid2,
      left2,
    )

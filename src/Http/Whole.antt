-- ===== src/Http/Whole.antt =====
-- A whole request in the buffer is parsed to its parts.
use chaonet.Common.{
  ℕ, zero, suc, ◌+◌, ◌<◌, ◌≡◌, ◌≢◌, refl, ap, ◌∙◌, Bool, true, false, List, [], ◌∷◌, ◌++◌,
  append_assoc, Option, none, some, Result, ok, ◌>>=◌, length, Without, arith, if◌then◌else◌,
}
use chaonet.Buffer.{Buffer, contents, retrieve_until}
use chaonet.Buffer.Crlf.{NoCrlf}
use chaonet.Buffer.Layout.{IsValid}
use chaonet.Buffer.Lines.{next_line}
use chaonet.Http.{
  Request, Method, Version, unknown, Context, new_context, expect_headers, got_all, method_string,
  process_request_line, take_request_line, line_to, parse_request, Pass, again, done,
}
use chaonet.Http.Headers.{
  value_of, or_else, last_value, Distinct, add_headers, value_of-add_headers, add_headers-Distinct,
}
use chaonet.Http.Line.{Known, query_string, version_string, process_request_line-string}
use chaonet.Http.Stuck.{then_again, pass-line}
use chaonet.Http.Fields.{headers_text, AreHeaders, parse_request-headers}

-- The parts of a request, and how a client writes them.
pub record Parts : Type 0 where
  pub method : Method
  pub path : List ℕ
  pub query : Option (List ℕ)
  pub version : Version
  pub headers : List (List ℕ × List ℕ)

abbrev pub line_text : Parts → List ℕ
line_text p =
    method_string p.method
    ++ 32 ∷ ((p.path ++ query_string p.query) ++ 32 ∷ version_string p.version)

abbrev pub request_text : Parts → List ℕ
request_text p = line_text p ++ 13 ∷ 10 ∷ headers_text p.headers

pub record IsWritten (p : Parts) : Type 0 where
  pub known : Known p.method
  pub no_question : Without 63 p.path
  pub no_space : Without 32 (p.path ++ query_string p.query)
  pub has_version : p.version ≢ unknown
  pub one_line : NoCrlf (line_text p ++ 13 ∷ [])
  pub headers_written : AreHeaders p.headers

-- What the parser makes of it.
abbrev pub parsed_context : Parts → ℕ → Context
parsed_context p time = record {
  state = got_all;
  request = record {
    method = p.method;
    version = p.version;
    path = p.path;
    query = query_string p.query;
    receive_time = time;
    headers = add_headers [] p.headers;
  };
}

take_request_line-some :
    (b b' : Buffer) (time crlf : ℕ) (p : Parts)
    → line_to b crlf ≡ line_text p
    → retrieve_until b (crlf + 2) ≡ ok b'
    → IsWritten p
    → take_request_line new_context b time crlf
      ≡ ok (
          again
            (record (parsed_context p time) {
              state = expect_headers;
              request = record (parsed_context p time).request { headers = [] };
            })
            b')
unfolding take_request_line
take_request_line-some b b' time crlf p l taken w =
    ap go (
      ap (process_request_line new_context.request) l
      ∙ process_request_line-string new_context.request p.method p.path p.query p.version refl refl
          w.known w.no_question w.no_space w.has_version)
    ∙ ap (λ o. o >>= λ d. ok (again (record { state = expect_headers; request = read_ }) d)) taken
  where
    read_ : Request
    read_ = record (parsed_context p time).request { headers = [] }

    go : Result (Bool × Request) → Result Pass
    go o = do
      (good, r) ← o
      (if good
          then (do
            d ← retrieve_until b (crlf + 2)
            ok (
                again
                  (record { state = expect_headers; request = record r { receive_time = time } })
                  d))
          else ok (done false (record new_context { request = r }) b))

-- The request at the front of a buffer, in the parser's own terms.
pub parse_request-parsed :
    (p : Parts) (fuel : ℕ) (b : Buffer) (time : ℕ) (rest : List ℕ)
    → length p.headers + 1 < fuel
    → IsWritten p
    → IsValid b
    → contents b ≡ request_text p ++ rest
    → (b' : Buffer) × (parse_request fuel new_context b time
        ≡ some (ok (true, parsed_context p time, b')))
      × IsValid b'
      × (contents b' ≡ rest)
parse_request-parsed p zero b time rest n w v e = absurd (omega arith)
parse_request-parsed p (suc fuel) b time rest n w v e =
    let (found, line, (b1, taken, valid, left)) =
      next_line b (line_text p) (headers_text p.headers ++ rest) v
        (e ∙ append_assoc (line_text p) (13 ∷ 10 ∷ headers_text p.headers) rest) w.one_line in
    let (b2, run, valid2, left2) =
      parse_request-headers p.headers fuel _ b1 time rest (omega arith) refl valid w.headers_written
        left in
    (
      b2,
      then_again new_context b time fuel _ b1 (
            pass-line new_context b time _ refl found
            ∙ take_request_line-some b b1 time _ p line taken w)
          ∙ run,
      valid2,
      left2,
    )

-- A request that has the parts: of two headers with the same field it has the last one only.
pub record Reads (p : Parts) (time : ℕ) (r : Request) : Type 0 where
  pub method : r.method ≡ p.method
  pub version : r.version ≡ p.version
  pub path : r.path ≡ p.path
  pub query : r.query ≡ query_string p.query
  pub receive_time : r.receive_time ≡ time
  pub header : (field : List ℕ) → value_of field r.headers ≡ last_value field p.headers
  pub distinct : Distinct r.headers

pub parsed_context-Reads : (p : Parts) (time : ℕ) → Reads p time (parsed_context p time).request
unfolding add_headers
parsed_context-Reads p time = record {
  method = refl;
  version = refl;
  path = refl;
  query = refl;
  receive_time = refl;
  header = λ f. value_of-add_headers f [] p.headers ∙ or_none (last_value f p.headers);
  distinct = add_headers-Distinct [] p.headers tt;
}
  where
    or_none : (o : Option (List ℕ)) → or_else o none ≡ o
    or_none (some v) = refl
    or_none none = refl

-- A whole request that is in the buffer when a connection's parser is new is parsed to its parts with as
-- many passes as it has lines, or more fuel, whatever follows it; that stays in the buffer. Of two
-- headers with the same field the last one counts.
pub parse_request-text :
    (p : Parts) (fuel : ℕ) (b : Buffer) (time : ℕ) (rest : List ℕ)
    → length p.headers + 1 < fuel
    → IsWritten p
    → IsValid b
    → contents b ≡ request_text p ++ rest
    → (b' : Buffer) × (r : Request) × (parse_request fuel new_context b time
        ≡ some (ok (true, record { state = got_all; request = r }, b')))
      × Reads p time r
      × IsValid b'
      × (contents b' ≡ rest)
parse_request-text p fuel b time rest n w v e =
    let (b', run, valid, left) = parse_request-parsed p fuel b time rest n w v e in
    (b', (parsed_context p time).request, run, parsed_context-Reads p time, valid, left)

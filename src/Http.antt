-- ===== src/Http.antt =====
-- examples/http/HttpRequest.h, HttpContext.h and HttpContext.cpp: the parser of HTTP requests. A request
-- and its parts are lists of bytes.
pub mod Line
pub mod Stuck
pub mod Headers
pub mod Fields
pub mod Whole
mod Tests
use chaonet.Common.{
  ℕ, zero, suc, ◌+◌, ◌-◌, Bool, true, false, not, ◌&&◌, ◌||◌, List, [], ◌∷◌, ◌++◌, Option, none,
  some, Result, ok, err, ◌>>=◌, ◌>>◌, assert, ◌==◌, leb, if◌then◌else◌, length, take, drop,
  find_byte,
}
use chaonet.Buffer.{Buffer, contents, find_crlf, retrieve_until}

pub data Method : Type 0 where
  invalid get post head put delete : Method

pub data Version : Type 0 where
  unknown http10 http11 : Version

-- A request; a header's name stands at most once.
pub record Request : Type 0 where
  pub method : Method
  pub version : Version
  pub path : List ℕ
  pub query : List ℕ
  pub receive_time : ℕ
  pub headers : List (List ℕ × List ℕ)

abbrev pub eq_bytes : List ℕ → List ℕ → Bool
eq_bytes [] [] = true
eq_bytes (x ∷ xs) (y ∷ ys) = x == y && eq_bytes xs ys
eq_bytes _ _ = false

abbrev pub is_invalid : Method → Bool
is_invalid invalid = true
is_invalid _ = false

abbrev pub method_string : Method → List ℕ
method_string invalid = 85 ∷ 78 ∷ 75 ∷ 78 ∷ 79 ∷ 87 ∷ 78 ∷ []
method_string get = 71 ∷ 69 ∷ 84 ∷ []
method_string post = 80 ∷ 79 ∷ 83 ∷ 84 ∷ []
method_string head = 72 ∷ 69 ∷ 65 ∷ 68 ∷ []
method_string put = 80 ∷ 85 ∷ 84 ∷ []
method_string delete = 68 ∷ 69 ∷ 76 ∷ 69 ∷ 84 ∷ 69 ∷ []

abbrev method_of : List ℕ → Method
method_of m =
    if eq_bytes m (71 ∷ 69 ∷ 84 ∷ [])
    then get
    else if eq_bytes m (80 ∷ 79 ∷ 83 ∷ 84 ∷ [])
    then post
    else if eq_bytes m (72 ∷ 69 ∷ 65 ∷ 68 ∷ [])
    then head
    else if eq_bytes m (80 ∷ 85 ∷ 84 ∷ [])
    then put
    else if eq_bytes m (68 ∷ 69 ∷ 76 ∷ 69 ∷ 84 ∷ 69 ∷ [])
    then delete
    else invalid

-- setMethod stores the method also when it is invalid.
pub set_method : Request → List ℕ → Result (Bool × Request)
set_method r m = do
  assert (is_invalid r.method)
  ok (not (is_invalid (method_of m)), record r { method = method_of m })

-- What stands before the question mark, and what starts at it: the query keeps it.
store_target : Request → List ℕ × List ℕ → Request
store_target r (path, []) = record r { path = path }
store_target r (path, q ∷ query) = record r { path = path; query = q ∷ query }

pub set_target : Request → List ℕ → Request
unfolding store_target
set_target r target = store_target r (find_byte 63 target)

-- "HTTP/1."
abbrev http_1 : List ℕ
http_1 = 72 ∷ 84 ∷ 84 ∷ 80 ∷ 47 ∷ 49 ∷ 46 ∷ []

pub set_version : Request → List ℕ → Bool × Request
set_version r v =
    if length v == 8 && eq_bytes (take 7 v) http_1
    then (if eq_bytes (drop 7 v) (49 ∷ [])
        then (true, record r { version = http11 })
        else if eq_bytes (drop 7 v) (48 ∷ [])
        then (true, record r { version = http10 })
        else (false, r))
    else (false, r)

-- The target, and what starts at the space behind it.
split_target : Request → List ℕ × List ℕ → Bool × Request
unfolding set_target set_version
split_target r (target, []) = (false, r)
split_target r (target, _ ∷ version) = set_version (set_target r target) version

pub after_method : Request → List ℕ → Bool × Request
unfolding split_target
after_method r xs = split_target r (find_byte 32 xs)

pub process_request_line : Request → List ℕ → Result (Bool × Request)
unfolding set_method after_method find_byte
process_request_line r line =
    let (word, at) = find_byte 32 line in
    elim at [
      | [] ↦ ok (false, r)
      | _ ∷ rest ↦ do
        (good, r') ← set_method r word
        ok (if good then after_method r' rest else (false, r'))
    ]

abbrev is_space : ℕ → Bool
is_space x = x == 32 || (leb 9 x && leb x 13)

abbrev skip_spaces : List ℕ → List ℕ
skip_spaces [] = []
skip_spaces (x ∷ xs) = if is_space x then skip_spaces xs else x ∷ xs

-- Without the spaces at the end.
abbrev drop_spaces : List ℕ → List ℕ
drop_spaces [] = []
drop_spaces (x ∷ xs) =
    let rest = drop_spaces xs in
    elim rest [ [] ↦ if is_space x then [] else x ∷ [] | y ∷ ys ↦ x ∷ y ∷ ys ]

abbrev put_header : List ℕ → List ℕ → List (List ℕ × List ℕ) → List (List ℕ × List ℕ)
put_header field value [] = (field, value) ∷ []
put_header field value ((f, v) ∷ rest) =
    let later = put_header field value rest in
    if eq_bytes f field then (field, value) ∷ rest else (f, v) ∷ later

-- `value` is what follows the colon.
pub add_header : Request → List ℕ → List ℕ → Request
add_header r field value = record r {
  headers = put_header field (drop_spaces (skip_spaces value)) r.headers;
}

pub data ParseState : Type 0 where
  expect_request_line expect_headers expect_body got_all : ParseState

pub record Context : Type 0 where
  pub state : ParseState
  pub request : Request

abbrev pub new_context : Context
new_context = record {
  state = expect_request_line;
  request = record {
    method = invalid;
    version = unknown;
    path = [];
    query = [];
    receive_time = 0;
    headers = [];
  };
}

-- What one pass of the loop of parseRequest comes to.
pub data Pass : Type 0 where
  again : Context → Buffer → Pass
  done : Bool → Context → Buffer → Pass

-- From peek() to the CRLF.
abbrev line_to : Buffer → ℕ → List ℕ
line_to b crlf = take (crlf - b.reader_index) (contents b)

pub take_request_line : Context → Buffer → ℕ → ℕ → Result Pass
unfolding process_request_line
take_request_line c b time crlf = do
  (good, r) ← process_request_line c.request (line_to b crlf)
  (if good
      then (do
        b' ← retrieve_until b (crlf + 2)
        ok (
            again (record { state = expect_headers; request = record r { receive_time = time } })
              b'))
      else ok (done false (record c { request = r }) b))

take_header : Context → Buffer → ℕ → Result Pass
unfolding add_header find_byte
take_header c b crlf = do
  let (field, at) = find_byte 58 (line_to b crlf)
  b' ← retrieve_until b (crlf + 2)
  ok (elim at [
    | [] ↦ done true (record c { state = got_all }) b'
    | _ ∷ value ↦ again (record c { request = add_header c.request field value }) b'
  ])

-- The branches of the loop's body, with the result of findCRLF.
pass_in : ParseState → Context → Buffer → ℕ → Option ℕ → Result Pass
unfolding take_request_line take_header
pass_in expect_request_line c b time none = ok (done true c b)
pass_in expect_request_line c b time (some crlf) = take_request_line c b time crlf
pass_in expect_headers c b time none = ok (again c b)
pass_in expect_headers c b time (some crlf) = take_header c b crlf
pass_in expect_body c b time crlf = ok (again c b)
pass_in got_all c b time crlf = ok (again c b)

pub pass : Context → Buffer → ℕ → Result Pass
unfolding pass_in
pass c b time = pass_in c.state c b time (find_crlf b)

-- The loop on fuel; `none` if it was used up.
pub parse_request : ℕ → Context → Buffer → ℕ → Option (Result (Bool × Context × Buffer))
unfolding pass
parse_request zero c b time = none
parse_request (suc fuel) c b time = elim (pass c b time) [
  | err f ↦ some (err f)
  | ok p ↦ elim p [
    | again c' b' ↦ parse_request fuel c' b' time
    | done good c' b' ↦ some (ok (good, c', b'))
  ]
]

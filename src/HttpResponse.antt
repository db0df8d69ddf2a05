-- ===== src/HttpResponse.antt =====
-- examples/http/HttpResponse.h and HttpResponse.cpp: the text of a response.
pub mod Digits
pub mod Written
mod Tests
use chaonet.Common.{
  ℕ, zero, suc, ◌+◌, ◌-◌, ◌*◌, ◌/◌, ◌%◌, Bool, true, false, not, ◌&&◌, ◌||◌, List, [], ◌∷◌, ◌++◌,
  Option, none, some, Result, ok, err, ◌>>=◌, ◌==◌, ltb, if◌then◌else◌, length, take, drop,
}
use chaonet.Buffer.{Buffer, append}
use chaonet.Http.{eq_bytes}

abbrev pub crlf : List ℕ
crlf = 13 ∷ 10 ∷ []

-- The digits of a number, most significant first; `fuel` is above the number.
abbrev digit : ℕ → ℕ
digit d = if ltb d 10 then d + 48 else d + 87

pub digits : ℕ → ℕ → ℕ → List ℕ
digits zero base n = []
digits (suc fuel) base n =
    let rest = digits fuel base (n / base) in
    if ltb n base then digit n ∷ [] else rest ++ digit (n % base) ∷ []

abbrev decimal : ℕ → List ℕ
decimal n = digits (suc n) 10 n

abbrev pub hex : ℕ → List ℕ
hex n = digits (suc n) 16 n

pub data StatusCode : Type 0 where
  unknown_status ok_200 moved_permanently bad_request not_found : StatusCode

status_number : StatusCode → ℕ
status_number unknown_status = 0
status_number ok_200 = 200
status_number moved_permanently = 301
status_number bad_request = 400
status_number not_found = 404

-- `headers` is the std::map, in the order of its keys.
pub record Response : Type 0 where
  pub headers : List (List ℕ × List ℕ)
  pub status_code : StatusCode
  pub status_message : List ℕ
  pub close_connection : Bool
  pub body : List ℕ

abbrev pub new_response : Bool → Response
new_response close = record {
  headers = [];
  status_code = unknown_status;
  status_message = [];
  close_connection = close;
  body = [];
}

-- operator< of std::string.
less_bytes : List ℕ → List ℕ → Bool
less_bytes xs [] = false
less_bytes [] (y ∷ ys) = true
less_bytes (x ∷ xs) (y ∷ ys) = ltb x y || (x == y && less_bytes xs ys)

put : List ℕ → List ℕ → List (List ℕ × List ℕ) → List (List ℕ × List ℕ)
unfolding less_bytes
put key value [] = (key, value) ∷ []
put key value ((k, v) ∷ rest) =
    let later = put key value rest in
    if less_bytes key k
    then (key, value) ∷ (k, v) ∷ rest
    else (if eq_bytes key k then (k, value) ∷ rest else (k, v) ∷ later)

pub add_header : Response → List ℕ → List ℕ → Response
unfolding put
add_header r key value = record r { headers = put key value r.headers }

-- "HTTP/1.1 "
abbrev http_1_1 : List ℕ
http_1_1 = 72 ∷ 84 ∷ 84 ∷ 80 ∷ 47 ∷ 49 ∷ 46 ∷ 49 ∷ 32 ∷ []

-- "Connection: close\r\n"
abbrev connection_close : List ℕ
connection_close =
    67 ∷ 111 ∷ 110 ∷ 110 ∷ 101 ∷ 99 ∷ 116 ∷ 105 ∷ 111 ∷ 110 ∷ 58 ∷ 32 ∷ 99 ∷ 108 ∷ 111 ∷ 115 ∷ 101
    ∷ 13 ∷ 10 ∷ []

-- "Content-Length: "
abbrev content_length : List ℕ
content_length =
    67 ∷ 111 ∷ 110 ∷ 116 ∷ 101 ∷ 110 ∷ 116 ∷ 45 ∷ 76 ∷ 101 ∷ 110 ∷ 103 ∷ 116 ∷ 104 ∷ 58 ∷ 32 ∷ []

-- "Connection: Keep-Alive\r\n"
abbrev keep_alive_line : List ℕ
keep_alive_line =
    67 ∷ 111 ∷ 110 ∷ 110 ∷ 101 ∷ 99 ∷ 116 ∷ 105 ∷ 111 ∷ 110 ∷ 58 ∷ 32 ∷ 75 ∷ 101 ∷ 101 ∷ 112 ∷ 45
    ∷ 65 ∷ 108 ∷ 105 ∷ 118 ∷ 101 ∷ 13 ∷ 10 ∷ []

-- snprintf into 32 bytes.
abbrev printed : List ℕ → List ℕ
printed text = take 31 text

header_lines : List (List ℕ × List ℕ) → List (List ℕ)
header_lines [] = []
header_lines ((k, v) ∷ rest) = k ∷ (58 ∷ 32 ∷ []) ∷ v ∷ crlf ∷ header_lines rest

-- The texts that appendToBuffer appends, one after the other.
pub response_texts : Response → List (List ℕ)
unfolding status_number header_lines digits
response_texts r =
    (printed (http_1_1 ++ decimal (status_number r.status_code) ++ 32 ∷ [])
      ∷ r.status_message
      ∷ crlf
      ∷ [])
    ++ ((if r.close_connection
          then connection_close ∷ []
          else printed (content_length ++ decimal (length r.body) ++ crlf) ∷ keep_alive_line ∷ [])
        ++ (header_lines r.headers ++ crlf ∷ r.body ∷ []))

pub append_all : Buffer → List (List ℕ) → Result Buffer
append_all b [] = ok b
append_all b (text ∷ texts) = append b text >>= λ c. append_all c texts

pub append_to_buffer : Response → Buffer → Result Buffer
unfolding append_all response_texts
append_to_buffer r b = append_all b (response_texts r)

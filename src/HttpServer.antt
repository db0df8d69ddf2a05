-- ===== src/HttpServer.antt =====
-- examples/http/HttpServer.cpp and the accessors of HttpRequest.h: the
-- answer to a request. What a connection is told is a list; the calls of fopen(3) and fread(3) come with
-- their results.
pub mod Chunks
pub mod Closing
pub mod Answer
mod Tests
use chaonet.Common.{
  ℕ, zero, suc, ◌+◌, ◌-◌, ◌*◌, ◌/◌, ◌%◌, Bool, true, false, not, ◌&&◌, ◌||◌, List, [], ◌∷◌, ◌++◌,
  Option, none, some, Result, ok, err, ◌>>=◌, ◌==◌, ltb, if◌then◌else◌, length, take, drop,
}
use chaonet.Buffer.{Buffer, fresh, append, contents}
use chaonet.Http.{
  Request, Version, http10, eq_bytes, ParseState, got_all, Context, new_context, parse_request,
}
use chaonet.HttpResponse.{
  Response, StatusCode, ok_200, not_found, new_response, add_header, append_to_buffer, crlf, hex,
  digits,
}

-- HttpRequest::getHeader, empty if there is none.
get_header : List (List ℕ × List ℕ) → List ℕ → List ℕ
get_header [] field = []
get_header ((f, v) ∷ rest) field =
    let later = get_header rest field in if eq_bytes f field then v else later

abbrev file_types : List (List ℕ × List ℕ)
file_types =
    (116 ∷ 120 ∷ 116 ∷ [], 116 ∷ 101 ∷ 120 ∷ 116 ∷ 47 ∷ 112 ∷ 108 ∷ 97 ∷ 105 ∷ 110 ∷ [])
    ∷ (99 ∷ [], 116 ∷ 101 ∷ 120 ∷ 116 ∷ 47 ∷ 112 ∷ 108 ∷ 97 ∷ 105 ∷ 110 ∷ [])
    ∷ (104 ∷ [], 116 ∷ 101 ∷ 120 ∷ 116 ∷ 47 ∷ 112 ∷ 108 ∷ 97 ∷ 105 ∷ 110 ∷ [])
    ∷ (104 ∷ 116 ∷ 109 ∷ 108 ∷ [], 116 ∷ 101 ∷ 120 ∷ 116 ∷ 47 ∷ 104 ∷ 116 ∷ 109 ∷ 108 ∷ [])
    ∷ (104 ∷ 116 ∷ 109 ∷ [], 116 ∷ 101 ∷ 120 ∷ 116 ∷ 47 ∷ 104 ∷ 116 ∷ 109 ∷ [])
    ∷ (99 ∷ 115 ∷ 115 ∷ [], 116 ∷ 101 ∷ 120 ∷ 116 ∷ 47 ∷ 99 ∷ 115 ∷ 115 ∷ [])
    ∷ (103 ∷ 105 ∷ 102 ∷ [], 105 ∷ 109 ∷ 97 ∷ 103 ∷ 101 ∷ 47 ∷ 103 ∷ 105 ∷ 102 ∷ [])
    ∷ (106 ∷ 112 ∷ 103 ∷ [], 105 ∷ 109 ∷ 97 ∷ 103 ∷ 101 ∷ 47 ∷ 106 ∷ 112 ∷ 101 ∷ 103 ∷ [])
    ∷ (106 ∷ 112 ∷ 101 ∷ 103 ∷ [], 105 ∷ 109 ∷ 97 ∷ 103 ∷ 101 ∷ 47 ∷ 106 ∷ 112 ∷ 101 ∷ 103 ∷ [])
    ∷ (112 ∷ 110 ∷ 103 ∷ [], 105 ∷ 109 ∷ 97 ∷ 103 ∷ 101 ∷ 47 ∷ 112 ∷ 110 ∷ 103 ∷ [])
    ∷ (
      112 ∷ 100 ∷ 102 ∷ [],
      97 ∷ 112 ∷ 112 ∷ 108 ∷ 105 ∷ 99 ∷ 97 ∷ 116 ∷ 105 ∷ 111 ∷ 110 ∷ 47 ∷ 112 ∷ 100 ∷ 102 ∷ [],
    )
    ∷ (
      112 ∷ 115 ∷ [],
      97 ∷ 112 ∷ 112 ∷ 108 ∷ 105 ∷ 99 ∷ 97 ∷ 116 ∷ 105 ∷ 111 ∷ 110 ∷ 47 ∷ 112 ∷ 111 ∷ 115 ∷ 116
          ∷ 115 ∷ 99 ∷ 114 ∷ 105 ∷ 112 ∷ 116 ∷ [],
    )
    ∷ []

-- "text/plain"
abbrev text_plain : List ℕ
text_plain = 116 ∷ 101 ∷ 120 ∷ 116 ∷ 47 ∷ 112 ∷ 108 ∷ 97 ∷ 105 ∷ 110 ∷ []

-- "text/html"
abbrev text_html : List ℕ
text_html = 116 ∷ 101 ∷ 120 ∷ 116 ∷ 47 ∷ 104 ∷ 116 ∷ 109 ∷ 108 ∷ []

type_of : List (List ℕ × List ℕ) → List ℕ → List ℕ
type_of [] suffix = text_plain
type_of ((s, t) ∷ rest) suffix =
    let later = type_of rest suffix in if eq_bytes s suffix then t else later

last_dot : List ℕ → Option ℕ
last_dot [] = none
last_dot (x ∷ xs) = elim (last_dot xs) [
  | some k ↦ some (suc k)
  | none ↦ (if x == 46 then some 0 else none)
]

file_type_at : List ℕ → Option ℕ → List ℕ
unfolding type_of
file_type_at path none = type_of file_types path
file_type_at path (some zero) = text_plain
file_type_at path (some (suc i)) = type_of file_types (drop (i + 2) path)

-- HttpRequest::getFileType
pub get_file_type : List ℕ → List ℕ
unfolding file_type_at last_dot
get_file_type path =
    if eq_bytes path (47 ∷ []) then text_html else file_type_at path (last_dot path)

-- What the connection is told.
pub data Effect : Type 0 where
  sends : List ℕ → Effect
  shuts_down : Effect

-- sendPageFile; the bytes that the calls of fread(3) give, none of them at the end of the file.
pub send_page_file : List (List ℕ) → List Effect
send_page_file [] = sends (hex 0 ++ crlf) ∷ sends crlf ∷ sends (48 ∷ crlf) ∷ sends crlf ∷ []
send_page_file ([] ∷ reads) =
    sends (hex 0 ++ crlf) ∷ sends crlf ∷ sends (48 ∷ crlf) ∷ sends crlf ∷ []
send_page_file ((x ∷ xs) ∷ reads) =
    sends (hex (length (x ∷ xs)) ++ crlf) ∷ sends ((x ∷ xs) ++ crlf) ∷ send_page_file reads

-- "Not Found"
abbrev not_found_message : List ℕ
not_found_message = 78 ∷ 111 ∷ 116 ∷ 32 ∷ 70 ∷ 111 ∷ 117 ∷ 110 ∷ 100 ∷ []

-- "Connection"
abbrev connection_field : List ℕ
connection_field = 67 ∷ 111 ∷ 110 ∷ 110 ∷ 101 ∷ 99 ∷ 116 ∷ 105 ∷ 111 ∷ 110 ∷ []

-- "close"
abbrev close_value : List ℕ
close_value = 99 ∷ 108 ∷ 111 ∷ 115 ∷ 101 ∷ []

-- "Keep-Alive"
abbrev keep_alive_value : List ℕ
keep_alive_value = 75 ∷ 101 ∷ 101 ∷ 112 ∷ 45 ∷ 65 ∷ 108 ∷ 105 ∷ 118 ∷ 101 ∷ []

-- "OK"
abbrev ok_message : List ℕ
ok_message = 79 ∷ 75 ∷ []

-- "Content-Type"
abbrev content_type : List ℕ
content_type = 67 ∷ 111 ∷ 110 ∷ 116 ∷ 101 ∷ 110 ∷ 116 ∷ 45 ∷ 84 ∷ 121 ∷ 112 ∷ 101 ∷ []

-- "Transfer-Encoding"
abbrev transfer_encoding : List ℕ
transfer_encoding =
    84 ∷ 114 ∷ 97 ∷ 110 ∷ 115 ∷ 102 ∷ 101 ∷ 114 ∷ 45 ∷ 69 ∷ 110 ∷ 99 ∷ 111 ∷ 100 ∷ 105 ∷ 110 ∷ 103
    ∷ []

-- "chunked"
abbrev chunked : List ℕ
chunked = 99 ∷ 104 ∷ 117 ∷ 110 ∷ 107 ∷ 101 ∷ 100 ∷ []

-- "Server"
abbrev server_field : List ℕ
server_field = 83 ∷ 101 ∷ 114 ∷ 118 ∷ 101 ∷ 114 ∷ []

-- "Chaonet"
abbrev server_name : List ℕ
server_name = 67 ∷ 104 ∷ 97 ∷ 111 ∷ 110 ∷ 101 ∷ 116 ∷ []

-- "HTTP/1.1 400 Bad Request\r\n\r\n"
abbrev bad_request_reply : List ℕ
bad_request_reply =
    72 ∷ 84 ∷ 84 ∷ 80 ∷ 47 ∷ 49 ∷ 46 ∷ 49 ∷ 32 ∷ 52 ∷ 48 ∷ 48 ∷ 32 ∷ 66 ∷ 97 ∷ 100 ∷ 32 ∷ 82 ∷ 101
    ∷ 113 ∷ 117 ∷ 101 ∷ 115 ∷ 116 ∷ 13 ∷ 10 ∷ 13 ∷ 10 ∷ []

pub default_http_callback : Request → Response → Response
default_http_callback req r = record r {
  status_code = not_found;
  status_message = not_found_message;
  close_connection = true;
}

is_http10 : Version → Bool
is_http10 http10 = true
is_http10 _ = false

abbrev wants_close : Request → Bool
wants_close req =
    let connection = get_header req.headers connection_field in
    eq_bytes connection close_value
    || (is_http10 req.version && not (eq_bytes connection keep_alive_value))

page_response : Request → Response
unfolding get_file_type
page_response req =
    let found = record (new_response (wants_close req)) {
      status_code = ok_200;
      status_message = ok_message;
    } in
    add_header
      (add_header (add_header found content_type (get_file_type req.path)) transfer_encoding
        chunked)
      server_field server_name

abbrev when_closing : Response → List Effect
when_closing r = if r.close_connection then shuts_down ∷ [] else []

-- `page` are the reads of the file, or `none` if it could not be opened; `callback` is httpCallback_.
pub on_request :
    (Request → Response → Response) → Request → Option (List (List ℕ)) → Result (List Effect)
unfolding page_response send_page_file
on_request callback req (some reads) = do
  out ← append_to_buffer (page_response req) fresh
  ok (sends (contents out) ∷ (send_page_file reads ++ when_closing (page_response req)))
on_request callback req none = do
  let r = callback req (new_response (wants_close req))
  out ← append_to_buffer r fresh
  ok (sends (contents out) ∷ when_closing r)

abbrev is_got_all : ParseState → Bool
is_got_all got_all = true
is_got_all _ = false

-- onMessage behind parseRequest.
pub after_parse :
    (Request → Response → Response)
    → Option (List (List ℕ))
    → Bool × Context × Buffer
    → Result (List Effect × Context × Buffer)
unfolding on_request
after_parse callback page (good, c, b) =
    let refused = if good then [] else sends bad_request_reply ∷ shuts_down ∷ [] in
    elim (is_got_all c.state) [
      | true ↦ on_request callback c.request page >>= λ es. ok (refused ++ es, new_context, b)
      | false ↦ ok (refused, c, b)
    ]

-- onMessage; `none` if the fuel of parseRequest was used up.
pub on_message :
    ℕ
    → (Request → Response → Response)
    → Option (List (List ℕ))
    → Context
    → Buffer
    → ℕ
    → Option (Result (List Effect × Context × Buffer))
unfolding after_parse
on_message fuel callback page c b time = elim (parse_request fuel c b time) [
  | none ↦ none
  | some o ↦ some (o >>= after_parse callback page)
]

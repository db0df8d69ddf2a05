-- ===== src/HttpServer/Tests.antt =====
-- A page of two reads, and a request for which there is none.
use chaonet.Common.{
  ℕ, Bool, suc, ◌+◌, List, [], ◌∷◌, ◌++◌, ◌≡◌, refl, none, some, length, replicate, arith,
}
use chaonet.Buffer.{Buffer, contents}
use chaonet.Buffer.Layout.{IsValid}
use chaonet.Http.{Request, get, http11, new_context}
use chaonet.Http.Fields.{AreHeaders, headers_text}
use chaonet.Http.Whole.{Parts, IsWritten, request_text, Reads}
use chaonet.HttpResponse.Written.{field_lines, status_text}
use chaonet.HttpServer.Answer.{empty_response, Answered, IsWritable, on_message-text}
use chaonet.HttpResponse.{crlf}
use chaonet.HttpServer.{send_page_file, default_http_callback, on_message}
use chaonet.HttpServer.Chunks.{wire, page_of, decode, decode-send_page_file}

abbrev reads : List (List ℕ)
reads = (72 ∷ 101 ∷ []) ∷ (121 ∷ []) ∷ [] ∷ []

decode-send_page_file_example :
    decode (suc (length reads)) (wire (send_page_file reads))
    ≡ some (page_of reads, 48 ∷ (crlf ++ crlf))
decode-send_page_file_example = decode-send_page_file reads

-- GET /a HTTP/1.1, with one header "b: c".
abbrev parts : Parts
parts = record {
  method = get;
  path = 47 ∷ 97 ∷ [];
  query = none;
  version = http11;
  headers = (98 ∷ [], 99 ∷ []) ∷ [];
}

parts-IsWritten : IsWritten parts
parts-IsWritten = record {
  known = refl;
  no_question = omega arith;
  no_space = omega arith;
  has_version = λ e. cc;
  one_line = omega arith;
  headers_written =
      unfold AreHeaders in
      (record { no_colon = omega arith; starts = refl; ends = refl; one_line = omega arith }, tt);
}

-- The request, and a byte behind it.
abbrev asked : Buffer
asked = record {
  storage = replicate 8 0 ++ (request_text parts ++ 71 ∷ []);
  reader_index = 8;
  writer_index = 9 + length (request_text parts);
}

asked-contents : contents asked ≡ request_text parts ++ 71 ∷ []
unfolding headers_text
asked-contents = refl

asked-IsValid : IsValid asked
unfolding headers_text
asked-IsValid = omega arith

default_http_callback-IsWritable :
    (req : Request) (close : Bool)
    → Reads parts 0 req
    → IsWritable (default_http_callback req (empty_response close))
unfolding default_http_callback field_lines status_text
default_http_callback-IsWritable req close r = record { short = omega arith; room = omega arith }

on_message-text_example :
    Answered default_http_callback parts 0
      (71 ∷ [])
      (on_message 3 default_http_callback none new_context asked 0)
on_message-text_example =
    on_message-text default_http_callback parts 3 asked 0 (71 ∷ []) (omega arith) parts-IsWritten
      asked-IsValid asked-contents default_http_callback-IsWritable

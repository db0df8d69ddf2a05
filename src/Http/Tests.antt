-- ===== src/Http/Tests.antt =====
-- Requests on concrete bytes.
use chaonet.Common.{
  find_byte, ℕ, ◌+◌, ◌≡◌, refl, true, false, List, [], ◌∷◌, ◌++◌, none, some, ok, err,
  assert_failed, length, replicate, arith,
}
use chaonet.Buffer.{Buffer, contents, find_crlf}
use chaonet.Buffer.Crlf.{search_crlf}
use chaonet.Http.{
  Request, got_all, get, http11, Context, new_context, expect_headers, method_string, parse_request,
  after_method, split_target, set_target, store_target, set_version,
}
use chaonet.Http.Fields.{AreHeaders, headers_text}
use chaonet.Http.Whole.{Parts, IsWritten, request_text, Reads, parse_request-text}
use chaonet.Buffer.Layout.{IsValid}
use chaonet.Http.Stuck.{partial_headers_spin, refused_line_aborts}

abbrev buffer_of : List ℕ → Buffer
buffer_of xs = record {
  storage = replicate 8 0 ++ xs;
  reader_index = 8;
  writer_index = 8 + length xs;
}

-- GET /a?b HTTP/1.1, with the headers "c: d e" and "c:".
abbrev parts : Parts
parts = record {
  method = get;
  path = 47 ∷ 97 ∷ [];
  query = some (98 ∷ []);
  version = http11;
  headers = (99 ∷ [], 100 ∷ 32 ∷ 101 ∷ []) ∷ (99 ∷ [], []) ∷ [];
}

parts-IsWritten : IsWritten parts
parts-IsWritten = record {
  known = refl;
  no_question = omega arith;
  no_space = omega arith;
  has_version = λ e. cc;
  one_line = omega arith;
  headers_written =
      unfold AreHeaders in
      (
        record { no_colon = omega arith; starts = refl; ends = refl; one_line = omega arith },
        (record { no_colon = omega arith; starts = tt; ends = tt; one_line = omega arith }, tt),
      );
}

parts-contents :
    contents (buffer_of (request_text parts ++ 71 ∷ [])) ≡ request_text parts ++ 71 ∷ []
unfolding headers_text
parts-contents = refl

parts-IsValid : IsValid (buffer_of (request_text parts ++ 71 ∷ []))
unfolding headers_text
parts-IsValid = omega arith

parse_request-text_example :
    (b' : Buffer) × (r : Request) × (parse_request 4 new_context
        (buffer_of (request_text parts ++ 71 ∷ []))
        7
      ≡ some (ok (true, record { state = got_all; request = r }, b')))
    × Reads parts 7 r
    × IsValid b'
    × (contents b' ≡ 71 ∷ [])
parse_request-text_example =
    parse_request-text parts 4 (buffer_of (request_text parts ++ 71 ∷ [])) 7 (71 ∷ []) (omega arith)
      parts-IsWritten parts-IsValid parts-contents

-- "Ho"
abbrev half_header : Buffer
half_header = buffer_of (72 ∷ 111 ∷ [])

half_header-none : find_crlf half_header ≡ none
unfolding find_crlf search_crlf
half_header-none = refl

partial_headers_spin_example :
    parse_request 1000 (record new_context { state = expect_headers }) half_header 0 ≡ none
partial_headers_spin_example =
    partial_headers_spin 1000 (record new_context { state = expect_headers }) half_header 0 refl
      half_header-none

-- "/ HTTP/2.0"
abbrev bad_rest : List ℕ
bad_rest = 47 ∷ 32 ∷ 72 ∷ 84 ∷ 84 ∷ 80 ∷ 47 ∷ 50 ∷ 46 ∷ 48 ∷ []

abbrev bad_line : Buffer
bad_line = buffer_of (method_string get ++ 32 ∷ (bad_rest ++ 13 ∷ 10 ∷ []))

bad_rest-refused : (after_method (record new_context.request { method = get }) bad_rest).0 ≡ false
unfolding after_method split_target set_target store_target set_version find_byte
bad_rest-refused = refl

-- The same with one more byte.
abbrev longer_line : Buffer
longer_line = buffer_of ((method_string get ++ 32 ∷ (bad_rest ++ 13 ∷ 10 ∷ [])) ++ 71 ∷ [])

refused_line_aborts_example :
    (c' : Context) × (parse_request 3 new_context bad_line 0 ≡ some (ok (false, c', bad_line)))
    × (parse_request 3 c' longer_line 1 ≡ some (err assert_failed))
refused_line_aborts_example =
    refused_line_aborts new_context bad_line longer_line 0 1 2 get bad_rest [] (71 ∷ []) refl refl
      (omega arith) refl (omega arith) (omega arith) refl refl bad_rest-refused

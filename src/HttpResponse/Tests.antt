-- ===== src/HttpResponse/Tests.antt =====
-- A response on concrete texts.
use chaonet.Common.{◌≡◌, refl, ap, false, [], ◌∷◌, ok, arith, length, replicate}
use chaonet.Buffer.{Buffer}
use chaonet.Buffer.Layout.{IsValid}
use chaonet.Buffer.Append.{Grew}
use chaonet.HttpResponse.{Response, ok_200, append_to_buffer, digits}
use chaonet.HttpResponse.Written.{message_text, field_lines, status_text, append_to_buffer-Grew}

abbrev empty : Buffer
empty = record { storage = replicate 16 0; reader_index = 8; writer_index = 8 }

empty-IsValid : IsValid empty
empty-IsValid = omega arith

-- "OK", kept open, with a header "a: b" and a body of three bytes.
abbrev short : Response
short = record {
  headers = (97 ∷ [], 98 ∷ []) ∷ [];
  status_code = ok_200;
  status_message = 79 ∷ 75 ∷ [];
  close_connection = false;
  body = 120 ∷ 121 ∷ 122 ∷ [];
}

-- "HTTP/1.1 200 OK\r\nContent-Length: 3\r\nConnection: Keep-Alive\r\na: b\r\n\r\nxyz"
short_text :
    message_text short
    ≡ 72 ∷ 84 ∷ 84 ∷ 80 ∷ 47 ∷ 49 ∷ 46 ∷ 49 ∷ 32 ∷ 50 ∷ 48 ∷ 48 ∷ 32 ∷ 79 ∷ 75 ∷ 13 ∷ 10 ∷ 67 ∷ 111
      ∷ 110 ∷ 116 ∷ 101 ∷ 110 ∷ 116 ∷ 45 ∷ 76 ∷ 101 ∷ 110 ∷ 103 ∷ 116 ∷ 104 ∷ 58 ∷ 32 ∷ 51 ∷ 13 ∷ 10
      ∷ 67 ∷ 111 ∷ 110 ∷ 110 ∷ 101 ∷ 99 ∷ 116 ∷ 105 ∷ 111 ∷ 110 ∷ 58 ∷ 32 ∷ 75 ∷ 101 ∷ 101 ∷ 112
      ∷ 45 ∷ 65 ∷ 108 ∷ 105 ∷ 118 ∷ 101 ∷ 13 ∷ 10 ∷ 97 ∷ 58 ∷ 32 ∷ 98 ∷ 13 ∷ 10 ∷ 13 ∷ 10 ∷ 120
      ∷ 121 ∷ 122 ∷ []
unfolding field_lines status_text digits
short_text = refl

append_to_buffer-Grew_example :
    (c : Buffer) × (append_to_buffer short empty ≡ ok c) × Grew empty (message_text short) c
append_to_buffer-Grew_example =
    append_to_buffer-Grew short empty empty-IsValid (omega arith)
      (omega (arith, ap length short_text))

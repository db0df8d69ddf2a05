-- ===== src/Buffer/Tests.antt =====
-- Buffers on concrete bytes.
use chaonet.Common.{
  ℕ, ◌≡◌, refl, List, [], ◌∷◌, ◌++◌, some, ok, err, assert_failed, arith, replicate,
}
use chaonet.Buffer.{
  Buffer, fresh, contents, find_crlf, retrieve, ensure_writable_bytes, append, read_fd, failed,
  received, make_space,
}
use chaonet.Buffer.Bytes.{write_at}
use chaonet.Buffer.Crlf.{search_crlf}
use chaonet.Buffer.Layout.{IsValid}
use chaonet.Buffer.Append.{Grew, append_lem, read_fd_lem}

-- "GET\r\na" at offset 8 of 16.
abbrev request : Buffer
request = record {
  storage = replicate 8 0 ++ 71 ∷ 69 ∷ 84 ∷ 13 ∷ 10 ∷ 97 ∷ 0 ∷ 0 ∷ [];
  reader_index = 8;
  writer_index = 14;
}

abbrev request_line : List ℕ
request_line = 71 ∷ 69 ∷ 84 ∷ []

abbrev body : List ℕ
body = 98 ∷ 99 ∷ 100 ∷ []

-- All but two bytes of 16 were consumed.
abbrev consumed : Buffer
consumed = record { storage = replicate 16 7; reader_index = 14; writer_index = 16 }

request-IsValid : IsValid request
request-IsValid = omega arith

consumed-IsValid : IsValid consumed
consumed-IsValid = omega arith

fresh-IsValid : IsValid fresh
fresh-IsValid = omega arith

contents-request : contents request ≡ request_line ++ 13 ∷ 10 ∷ 97 ∷ []
contents-request = refl

append_moves :
    append consumed body
    ≡ ok (record {
      storage = replicate 8 7 ++ 7 ∷ 7 ∷ 98 ∷ 99 ∷ 100 ∷ 7 ∷ 7 ∷ 7 ∷ [];
      reader_index = 8;
      writer_index = 13;
    })
unfolding append ensure_writable_bytes make_space write_at
append_moves = refl

find_crlf-request : find_crlf request ≡ some 11
unfolding find_crlf search_crlf
find_crlf-request = refl

retrieve_too_much : retrieve request 7 ≡ err assert_failed
unfolding retrieve
retrieve_too_much = refl

append_lem_example : (c : Buffer) × (append request body ≡ ok c) × Grew request body c
append_lem_example = append_lem request body request-IsValid (omega arith)

read_fd_lem_example :
    ((c : Buffer) × (read_fd request (received body) ≡ ok c) × Grew request body c)
    × ((errno : ℕ) → read_fd request (failed errno) ≡ ok request)
read_fd_lem_example = read_fd_lem request body request-IsValid (omega arith)

-- ===== src/HttpServer/Chunks.antt =====
-- The chunks of a page are decoded.
use chaonet.Common.{
  ℕ, zero, suc, ◌≡◌, List, [], ◌∷◌, ◌++◌, append_assoc, Option, none, some, refl, ap, ◌∙◌, arith,
  ◌==◌, if◌then◌else◌, if_false, ne→==-eq-false, length, take, drop, take-append, drop-append,
}
use chaonet.HttpResponse.{crlf, hex}
use chaonet.HttpResponse.Digits.{read_size, read_size-hex}
use chaonet.HttpServer.{Effect, sends, shuts_down, send_page_file}

-- The bytes on the wire.
abbrev pub wire : List Effect → List ℕ
wire [] = []
wire (sends bytes ∷ es) = bytes ++ wire es
wire (shuts_down ∷ es) = wire es

-- The bytes that were read, up to the first empty read.
abbrev pub page_of : List (List ℕ) → List ℕ
page_of [] = []
page_of ([] ∷ reads) = []
page_of ((x ∷ xs) ∷ reads) = (x ∷ xs) ++ page_of reads

-- The result behind a first part.
abbrev in_front : List ℕ → Option (List ℕ × List ℕ) → Option (List ℕ × List ℕ)
in_front xs none = none
in_front xs (some (body, rest)) = some (xs ++ body, rest)

-- A chunk whose size is known: its bytes, a CRLF, and the other chunks.
abbrev decode_sized : (List ℕ → Option (List ℕ × List ℕ)) → ℕ × List ℕ → Option (List ℕ × List ℕ)
decode_sized go (size, line) =
    let bytes = drop 2 line in
    let later = go (drop 2 (drop size bytes)) in
    if size == 0 then some ([], drop 2 bytes) else in_front (take size bytes) later

-- A decoder of the chunked coding (RFC 9112, section 7.1) without extensions and trailers: the body, and
-- what follows it. A size line, so many bytes and a CRLF, until the size is 0, on fuel.
abbrev pub decode : ℕ → List ℕ → Option (List ℕ × List ℕ)
decode zero xs = none
decode (suc fuel) xs = decode_sized (decode fuel) (read_size 0 xs)

-- One chunk in front of others.
decode-chunk :
    (fuel size : ℕ) (bytes rest : List ℕ)
    → length bytes ≡ suc size
    → decode (suc fuel) ((hex (suc size) ++ crlf) ++ ((bytes ++ crlf) ++ rest))
      ≡ in_front bytes (decode fuel rest)
decode-chunk fuel size bytes rest l =
    ap (decode (suc fuel)) (
      append_assoc (hex (suc size)) crlf ((bytes ++ crlf) ++ rest)
      ∙ ap (λ xs. hex (suc size) ++ (crlf ++ xs)) (append_assoc bytes crlf rest))
    ∙ ap (decode_sized (decode fuel)) (read_size-hex (suc size) (10 ∷ (bytes ++ (crlf ++ rest))))
    ∙ if_false (suc size == 0) _ _ (ne→==-eq-false (suc size) 0 (omega arith))
    ∙ ap (λ xs. in_front xs (decode fuel (drop 2 (drop (suc size) (bytes ++ (crlf ++ rest))))))
        (take-append (suc size) bytes (crlf ++ rest) l)
    ∙ ap (λ xs. in_front bytes (decode fuel (drop 2 xs)))
        (drop-append (suc size) bytes (crlf ++ rest) l)

decode-last :
    (fuel : ℕ) (rest : List ℕ)
    → decode (suc fuel) ((hex 0 ++ crlf) ++ (crlf ++ rest)) ≡ some ([], rest)
decode-last fuel rest =
    ap (decode (suc fuel)) (append_assoc (hex 0) crlf (crlf ++ rest))
    ∙ ap (decode_sized (decode fuel)) (read_size-hex 0 (10 ∷ (crlf ++ rest)))

-- A decoder of the chunked coding reads what sendPageFile sends as the bytes of the file; five bytes,
-- another last chunk, are left over.
pub decode-send_page_file :
    (reads : List (List ℕ))
    → decode (suc (length reads)) (wire (send_page_file reads))
      ≡ some (page_of reads, 48 ∷ (crlf ++ crlf))
unfolding send_page_file
decode-send_page_file [] = decode-last 0 (48 ∷ (crlf ++ crlf))
decode-send_page_file ([] ∷ reads) = decode-last (suc (length reads)) (48 ∷ (crlf ++ crlf))
decode-send_page_file ((x ∷ xs) ∷ reads) =
    decode-chunk (suc (length reads)) (length xs) (x ∷ xs) (wire (send_page_file reads)) refl
    ∙ ap (in_front (x ∷ xs)) (decode-send_page_file reads)

-- ===== src/HttpResponse/Written.antt =====
-- The text that appendToBuffer writes, against the message format: no number is cut off.
use chaonet.Common.{
  ℕ, zero, suc, ◌+◌, ◌*◌, ◌/◌, ◌%◌, ◌≤◌, ◌<◌, ◌≡◌, refl, sym, ap, ◌∙◌, subst, inl, inr, Bool, true,
  false, List, [], ◌∷◌, ◌++◌, append_assoc, append-nil, ok, ltb, lt→ltb, if◌then◌else◌, if_true,
  if_false, Bool-cases, length, take-all, length-append, arith,
}
use chaonet.Buffer.{Buffer, max_size}
use chaonet.Buffer.Layout.{IsValid}
use chaonet.Buffer.Append.{Grew, append_lem, Grew-nil, Grew-append}
use chaonet.HttpResponse.{
  StatusCode, unknown_status, ok_200, moved_permanently, bad_request, not_found, status_number,
  Response, digit, digits, decimal, http_1_1, connection_close, content_length, keep_alive_line,
  crlf, printed, header_lines, response_texts, append_all, append_to_buffer,
}

-- The lines of the message, as the format has them: each ends with CRLF.
unfoldable pub status_text : StatusCode → List ℕ
status_text unknown_status = 48 ∷ []
status_text ok_200 = 50 ∷ 48 ∷ 48 ∷ []
status_text moved_permanently = 51 ∷ 48 ∷ 49 ∷ []
status_text bad_request = 52 ∷ 48 ∷ 48 ∷ []
status_text not_found = 52 ∷ 48 ∷ 52 ∷ []

abbrev pub status_line : Response → List ℕ
status_line r = http_1_1 ++ (status_text r.status_code ++ (32 ∷ (r.status_message ++ crlf)))

abbrev pub connection_lines : Response → List ℕ
connection_lines r =
    if r.close_connection
    then connection_close
    else (content_length ++ (decimal (length r.body) ++ (crlf ++ keep_alive_line)))

unfoldable pub field_lines : List (List ℕ × List ℕ) → List ℕ
field_lines [] = []
field_lines ((key, value) ∷ rest) = key ++ (58 ∷ 32 ∷ (value ++ (crlf ++ field_lines rest)))

abbrev pub message_text : Response → List ℕ
message_text r =
    status_line r ++ (connection_lines r ++ (field_lines r.headers ++ (crlf ++ r.body)))

flat : List (List ℕ) → List ℕ
flat [] = []
flat (text ∷ texts) = text ++ flat texts

flat-append : (xs ys : List (List ℕ)) → flat (xs ++ ys) ≡ flat xs ++ flat ys
unfolding flat
flat-append [] ys = refl
flat-append (x ∷ xs) ys =
    ap (λ m. x ++ m) (flat-append xs ys) ∙ sym (append_assoc x (flat xs) (flat ys))

flat-header_lines : (hs : List (List ℕ × List ℕ)) → flat (header_lines hs) ≡ field_lines hs
unfolding flat header_lines field_lines
flat-header_lines [] = refl
flat-header_lines ((key, value) ∷ rest) =
    ap (λ m. key ++ (58 ∷ 32 ∷ (value ++ (crlf ++ m)))) (flat-header_lines rest)

-- 10 to the power of one more.
abbrev pub power : ℕ → ℕ
power zero = 10
power (suc k) = 10 * power k

length-digits : (fuel k n : ℕ) → n < power k → length (digits fuel 10 n) ≤ suc k
unfolding digits
length-digits zero k n h = omega arith
length-digits (suc fuel) zero n h = omega (
  arith,
  ap length (
      if_true (ltb n 10) (digit n ∷ []) (digits fuel 10 (n / 10) ++ digit (n % 10) ∷ [])
        (lt→ltb n 10 h)),
)
length-digits (suc fuel) (suc k) n h = elim (Bool-cases (ltb n 10)) [
  | inl small ↦ omega (
    arith,
    ap length
        (if_true (ltb n 10) (digit n ∷ []) (digits fuel 10 (n / 10) ++ digit (n % 10) ∷ []) small),
  )
  | inr big ↦ omega (
    arith,
    ap length
        (if_false (ltb n 10) (digit n ∷ []) (digits fuel 10 (n / 10) ++ digit (n % 10) ∷ []) big),
    length-append (digits fuel 10 (n / 10)) (digit (n % 10) ∷ []),
    length-digits fuel k (n / 10) (omega (arith, h)),
  )
]

printed_status :
    (s : StatusCode)
    → printed (http_1_1 ++ decimal (status_number s) ++ 32 ∷ [])
      ≡ http_1_1 ++ (status_text s ++ 32 ∷ [])
unfolding status_number digits status_text
printed_status unknown_status = refl
printed_status ok_200 = refl
printed_status moved_permanently = refl
printed_status bad_request = refl
printed_status not_found = refl

-- A body of fewer than 10^13 bytes has a length that the 32 bytes of `buf` hold.
printed_length :
    (n : ℕ)
    → n < power 12
    → printed (content_length ++ decimal n ++ crlf) ≡ content_length ++ (decimal n ++ crlf)
printed_length n h =
    take-all 31 _ (
      omega (
        arith,
        length-append (content_length ++ decimal n) crlf,
        length-append content_length (decimal n),
        length-digits (suc n) 12 n h,
      ))
    ∙ append_assoc content_length (decimal n) crlf

-- The lines about the connection, whatever the flag is.
flat-connection :
    (close : Bool) (n : ℕ)
    → n < power 12
    → flat (
        if close
        then connection_close ∷ []
        else printed (content_length ++ decimal n ++ crlf) ∷ keep_alive_line ∷ [])
      ≡ (if close
          then connection_close
          else (content_length ++ (decimal n ++ (crlf ++ keep_alive_line))))
unfolding flat
flat-connection true n h = append-nil connection_close
flat-connection false n h =
    ap (λ m. m ++ (keep_alive_line ++ [])) (printed_length n h)
    ∙ append_assoc content_length (decimal n ++ crlf) (keep_alive_line ++ [])
    ∙ ap (λ m. content_length ++ m) (append_assoc (decimal n) crlf (keep_alive_line ++ []))

flat-response_texts :
    (r : Response) → length r.body < power 12 → flat (response_texts r) ≡ message_text r
unfolding flat response_texts
flat-response_texts r h =
    ap (λ m. m ++ (r.status_message ++ (crlf ++ flat after))) (printed_status r.status_code)
    ∙ append_assoc http_1_1 (status_text r.status_code ++ 32 ∷ []) _
    ∙ ap (λ m. http_1_1 ++ m) (append_assoc (status_text r.status_code) (32 ∷ []) _)
    ∙ ap (λ m. http_1_1 ++ (status_text r.status_code ++ (32 ∷ (r.status_message ++ (crlf ++ m)))))
        rest
    ∙ sym (
        ap (λ m. http_1_1 ++ m)
          (append_assoc (status_text r.status_code) (32 ∷ (r.status_message ++ crlf)) behind
            ∙ ap (λ m. status_text r.status_code ++ (32 ∷ m))
                (append_assoc r.status_message crlf behind)))
  where
    behind : List ℕ
    behind = connection_lines r ++ (field_lines r.headers ++ (crlf ++ r.body))

    connection : List (List ℕ)
    connection =
        if r.close_connection
        then connection_close ∷ []
        else printed (content_length ++ decimal (length r.body) ++ crlf) ∷ keep_alive_line ∷ []

    after : List (List ℕ)
    after = connection ++ (header_lines r.headers ++ crlf ∷ r.body ∷ [])

    rest : flat after ≡ connection_lines r ++ (field_lines r.headers ++ (crlf ++ r.body))
    rest =
        flat-append connection (header_lines r.headers ++ crlf ∷ r.body ∷ [])
        ∙ ap (λ m. m ++ flat (header_lines r.headers ++ crlf ∷ r.body ∷ []))
            (flat-connection r.close_connection (length r.body) h)
        ∙ ap (λ m. connection_lines r ++ m)
            (flat-append (header_lines r.headers) (crlf ∷ r.body ∷ [])
              ∙ ap (λ m. m ++ (crlf ++ (r.body ++ []))) (flat-header_lines r.headers)
              ∙ ap (λ m. field_lines r.headers ++ (crlf ++ m)) (append-nil r.body))

-- Appending texts one after the other appends all of them.
append_all-Grew :
    (b : Buffer) (texts : List (List ℕ))
    → IsValid b
    → b.writer_index + length (flat texts) ≤ max_size
    → (c : Buffer) × (append_all b texts ≡ ok c) × Grew b (flat texts) c
unfolding append_all flat
append_all-Grew b [] v fits = (b, refl, Grew-nil b v)
append_all-Grew b (text ∷ texts) v fits =
    let (b1, e, g) = append_lem b text v (omega (arith, fits, length-append text (flat texts))) in
    let (c, run, h) =
      append_all-Grew b1 texts g.valid
        (omega (arith, fits, g.end, length-append text (flat texts))) in
    (c, rw e run, Grew-append g h)

-- appendToBuffer writes the text of the message behind the readable bytes of a valid buffer, and cuts no
-- number off, for a body of fewer than 10^13 bytes, whenever it fits below max_size().
pub append_to_buffer-Grew :
    (r : Response) (b : Buffer)
    → IsValid b
    → length r.body < power 12
    → b.writer_index + length (message_text r) ≤ max_size
    → (c : Buffer) × (append_to_buffer r b ≡ ok c) × Grew b (message_text r) c
unfolding append_to_buffer
append_to_buffer-Grew r b v short fits =
    let e = flat-response_texts r short in
    let (c, run, g) = append_all-Grew b (response_texts r) v (omega (arith, fits, ap length e)) in
    (c, run, subst (λ m. Grew b m c) e g)

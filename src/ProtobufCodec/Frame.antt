-- ===== src/ProtobufCodec/Frame.antt =====
-- What fillEmptyBuffer writes, and what validateChecksum and parse find in it.
use chaonet.Common.{
  ◌>>=◌, ℕ, ◌+◌, ◌-◌, ◌^◌, ◌≤◌, ◌<◌, ◌≡◌, refl, sym, ap, ◌∙◌, true, some, List, [], Result, ◌∷◌,
  ◌++◌, append_assoc, append-nil, ok, ◌>>◌, assert, assert_passes, ◌==◌, eq→==, if_true, arith,
  length, take, drop, length-append, take-append, drop-append,
}
use chaonet.Buffer.{prepend, Buffer, max_size, readable_bytes, contents, peek_int32, has_written}
use chaonet.Buffer.Bytes.{store32, swap32, length-store32, load-store, write_at}
use chaonet.Buffer.Layout.{IsValid}
use chaonet.Buffer.Append.{Grew, append_lem, reserve_lem, written}
use chaonet.Buffer.Consume.{readable-length, prepend-Prefixed}
use chaonet.Buffer.Words.{append_int32_lem, peek_int32-store}
use chaonet.ProtobufCodec.{
  Library, Codec, checksum_len, checksum, validate_checksum, as_int32, starts_with, parsed,
  parse_error_of, serialize_to_buffer, fill_empty_buffer, no_error,
}

-- What the codec asks of the library for one message: that it can be written, has the size that was
-- computed, and can be read back.
pub record Serializes {M : Type 0} (lib : Library M) (message : M) : Type 0 where
  pub initialized : lib.is_initialized message ≡ true
  pub sized : length (lib.serialize message) ≡ lib.byte_size message
  pub reads_back : lib.parse_from_array (lib.serialize message) ≡ some message

starts_with-append : (tag rest : List ℕ) → starts_with tag (tag ++ rest) ≡ true
unfolding starts_with
starts_with-append [] rest = refl
starts_with-append (x ∷ tag) rest = rw (eq→== x x refl) (starts_with-append tag rest)

-- A word behind some bytes.
as_int32-store : (x : ℕ) → x < 2 ^ 32 → as_int32 (store32 (swap32 x)) ≡ x
unfolding as_int32
as_int32-store x small = ap as_int32 (sym (append-nil (store32 (swap32 x)))) ∙ load-store x [] small

module _ {M : Type 0} (lib : Library M) where
  -- The tag, the message and the checksum of both.
  abbrev pub body : Codec → M → List ℕ
  body codec message =
      let text = codec.tag ++ lib.serialize message in text ++ store32 (swap32 (checksum lib text))

  pub length-body :
      (codec : Codec) (message : M)
      → length (body codec message) ≡ length codec.tag + length (lib.serialize message) + 4
  length-body codec message = omega (
    arith,
    length-append (codec.tag ++ lib.serialize message)
        (store32 (swap32 (checksum lib (codec.tag ++ lib.serialize message)))),
    length-append codec.tag (lib.serialize message),
    length-store32 (swap32 (checksum lib (codec.tag ++ lib.serialize message))),
  )

  checksum-lt : (bytes : List ℕ) → checksum lib bytes < 2 ^ 32
  unfolding checksum
  checksum-lt bytes = omega arith

  validate_checksum-append :
      (bytes : List ℕ) (n : ℕ)
      → n ≡ length bytes + 4
      → validate_checksum lib (bytes ++ store32 (swap32 (checksum lib bytes))) n ≡ true
  unfolding validate_checksum
  validate_checksum-append bytes n e =
      ap (λ s. checksum lib s == as_int32 (drop (n - checksum_len) whole)) front
      ∙ ap (λ s. checksum lib bytes == as_int32 s) back
      ∙ eq→== _ _ (sym (as_int32-store (checksum lib bytes) (checksum-lt bytes)))
    where
      whole : List ℕ
      whole = bytes ++ store32 (swap32 (checksum lib bytes))

      at : length bytes ≡ n - checksum_len
      at = omega (arith, e)

      front : take (n - checksum_len) whole ≡ bytes
      front = take-append (n - checksum_len) bytes _ at

      back : drop (n - checksum_len) whole ≡ store32 (swap32 (checksum lib bytes))
      back = drop-append (n - checksum_len) bytes _ at

  -- parse computes kNoError and the message from a body.
  pub parse_error_of-body :
      (codec : Codec) (message : M)
      → Serializes lib message
      → parse_error_of lib codec (body codec message) (length (body codec message))
        ≡ (no_error, some message)
  unfolding parse_error_of parsed
  parse_error_of-body codec message s =
      if_true _ _ _ (
        validate_checksum-append (codec.tag ++ lib.serialize message) (length (body codec message))
          (omega
            (arith, length-body codec message, length-append codec.tag (lib.serialize message))))
      ∙ if_true _ _ _ (ap (starts_with codec.tag) split ∙ starts_with-append codec.tag _)
      ∙ ap (λ bytes. parsed lib (lib.parse_from_array bytes)) inner
      ∙ ap (parsed lib) s.reads_back
    where
      sum : List ℕ
      sum = store32 (swap32 (checksum lib (codec.tag ++ lib.serialize message)))

      split : body codec message ≡ codec.tag ++ (lib.serialize message ++ sum)
      split = append_assoc codec.tag (lib.serialize message) sum

      size : ℕ
      size = length (body codec message) - checksum_len - length codec.tag

      inner : take size (drop (length codec.tag) (body codec message)) ≡ lib.serialize message
      inner =
          ap (λ b. take size (drop (length codec.tag) b)) split
          ∙ ap (take size) (drop-append (length codec.tag) codec.tag _ refl)
          ∙ take-append size (lib.serialize message) sum (omega (arith, length-body codec message))

  serialize_to_buffer-Grew :
      (b : Buffer) (message : M)
      → IsValid b
      → Serializes lib message
      → b.writer_index + (lib.byte_size message + 4) ≤ max_size
      → (c : Buffer) × (serialize_to_buffer lib message b ≡ ok (lib.byte_size message, c))
        × Grew b (lib.serialize message) c
  unfolding serialize_to_buffer written has_written
  serialize_to_buffer-Grew b message v s fits =
      let (c, e, g) =
        reserve_lem b (lib.serialize message) (lib.byte_size message + 4) v (omega (arith, s.sized))
          fits in
      (
        written c (lib.serialize message),
        assert_passes _ _ s.initialized
            ∙ ap (λ r. r >>= store_in) e
            ∙ assert_passes _ _
                (eq→== (length (lib.serialize message)) (lib.byte_size message) s.sized)
            ∙ ap (λ n. ok (lib.byte_size message, has_written (stored c) n)) (sym s.sized),
        g,
      )
    where
      bytes : List ℕ
      bytes = lib.serialize message

      stored : Buffer → Buffer
      stored d = record d { storage = write_at d.storage d.writer_index bytes }

      store_in : Buffer → Result (ℕ × Buffer)
      store_in d = do
        assert (length bytes == lib.byte_size message)
        ok (lib.byte_size message, has_written (stored d) (lib.byte_size message))

  -- The word in front of a body.
  abbrev pub frame : Codec → M → List ℕ
  frame codec message = store32 (swap32 (length (body codec message))) ++ body codec message

  pub length-frame :
      (codec : Codec) (message : M) → length (frame codec message) ≡ 4 + length (body codec message)
  length-frame codec message = omega (
    arith,
    length-append (store32 (swap32 (length (body codec message)))) (body codec message),
    length-store32 (swap32 (length (body codec message))),
  )

  -- What fillEmptyBuffer leaves.
  pub record Framed (codec : Codec) (message : M) (c : Buffer) : Type 0 where
    pub valid : IsValid c
    pub holds : contents c ≡ frame codec message
    pub announced : peek_int32 c ≡ ok (length (body codec message))
    pub readable :
        parse_error_of lib codec (drop 4 (contents c)) (length (body codec message))
        ≡ (no_error, some message)

  -- The buffer before the length is put in front of its bytes.
  record Bodied (codec : Codec) (b : Buffer) (message : M) : Type 0 where
    last : Buffer
    run :
        fill_empty_buffer lib codec b message
        ≡ prepend last (store32 (swap32 (length (body codec message))))
    valid : IsValid last
    holds : contents last ≡ body codec message
    room : 4 ≤ last.reader_index

  module _ (codec : Codec) (b : Buffer) (message : M) (v : IsValid b) (empty : contents b ≡ [])
      (room : 4 ≤ b.reader_index) (s : Serializes lib message)
      (fits : b.writer_index + length (body codec message) ≤ max_size)
      (small : length (body codec message) < 2 ^ 31) where
    fill_empty_buffer-Bodied : Bodied codec b message
    unfolding fill_empty_buffer
    fill_empty_buffer-Bodied =
        let (b1, e1, g1) =
          append_lem b codec.tag v (omega (arith, fits, length-body codec message)) in
        let (b2, e2, g2) =
          serialize_to_buffer-Grew b1 message g1.valid s
            (omega (arith, fits, g1.end, length-body codec message, s.sized)) in
        let (b3, e3, g3) =
          append_int32_lem b2 (checksum lib (contents b2)) g2.valid
            (omega (arith, fits, g1.end, g2.end, length-body codec message, s.sized)) in
        let text : contents b2 ≡ codec.tag ++ lib.serialize message =
          g2.appended
          ∙ ap (λ m. m ++ lib.serialize message) (g1.appended ∙ ap (λ m. m ++ codec.tag) empty) in
        let whole : contents b3 ≡ body codec message =
          g3.appended ∙ ap (λ m. m ++ store32 (swap32 (checksum lib m))) text in
        let count : readable_bytes b3 ≡ length (body codec message) =
          readable-length b3 g3.valid ∙ ap length whole in
        record {
          last = b3;
          run =
              assert_passes _ _ (eq→== (readable_bytes b) 0 (readable-length b v ∙ ap length empty))
              ∙ rw (e1, e2, e3)
                  (assert_passes _ _ (
                      eq→== (readable_bytes b3) (length codec.tag + lib.byte_size message + 4)
                        (omega (arith, count, length-body codec message, s.sized)))
                    ∙ ap (λ n. prepend b3 (store32 (swap32 n))) (omega (arith, count, small)));
          valid = g3.valid;
          holds = whole;
          room = omega (arith, room, g1.cheap, g2.cheap, g3.cheap);
        }

    -- On an empty buffer with four prependable bytes, fillEmptyBuffer fails no check for a message that
    -- the library writes in the size it computed and reads back, if there is room and the length is an
    -- int32_t. The buffer then holds one frame: peekInt32 reads the length of what follows it, in which
    -- parse finds the right checksum and the tag, and computes kNoError and the message.
    pub fill_empty_buffer-Framed :
        (c : Buffer) × (fill_empty_buffer lib codec b message ≡ ok c) × Framed codec message c
    fill_empty_buffer-Framed =
        let f = fill_empty_buffer-Bodied in
        let (c, e, p) =
          prepend-Prefixed f.last (store32 (swap32 (length (body codec message)))) f.valid
            (omega (arith, length-store32 (swap32 (length (body codec message))), f.room)) in
        let held : contents c ≡ frame codec message =
          p.prefixed ∙ ap (λ m. store32 (swap32 (length (body codec message))) ++ m) f.holds in
        (
          c,
          f.run ∙ e,
          record {
            valid = p.valid;
            holds = held;
            announced =
                peek_int32-store c (length (body codec message)) (body codec message) p.valid
                  (omega (arith, small)) held;
            readable =
                ap (λ m. parse_error_of lib codec m (length (body codec message)))
                  (ap (drop 4) held
                    ∙ drop-append 4 (store32 (swap32 (length (body codec message)))) _
                        (length-store32 (swap32 (length (body codec message)))))
                ∙ parse_error_of-body codec message s;
          },
        )

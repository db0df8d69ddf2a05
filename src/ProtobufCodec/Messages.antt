-- ===== src/ProtobufCodec/Messages.antt =====
-- What onMessage makes of the bytes of a connection.
use chaonet.Common.{
  ℕ, suc, ◌+◌, ◌^◌, ◌≤◌, ◌<◌, ◌≡◌, refl, sym, ap, ◌∙◌, subst, inl, inr, Bool, true, false, ◌||◌,
  Option, some, List, [], ◌∷◌, ok, err, no_return, ◌>>=◌, leb, le→leb, lt→leb-eq-false, Bool-cases,
  leb→le, leb-eq-false, if_true, if_false, arith, length,
}
use chaonet.Buffer.{retrieve_all, Buffer, readable_bytes, contents, peek_int32, fresh}
use chaonet.Buffer.Layout.{IsValid}
use chaonet.Buffer.Consume.{readable-length, retrieve_all-nil}
use chaonet.Buffer.Words.{peek_int32-some}
use chaonet.ProtobufCodec.{
  Library, Codec, create, max_message_len, header_len, checksum_len, signed_lt, calls_error,
  invalid_length, Outcome, ends, pass, frame_of, whole_frame, on_message, follow, send,
}
use chaonet.ProtobufCodec.Frame.{
  Serializes, Framed, body, frame, length-frame, fill_empty_buffer-Framed,
}
use chaonet.Connection.{Connection, Write, connected, send_in_loop, send_buffer}
use chaonet.Connection.Lifecycle.{send_buffer-connected}

-- The length that a frame announces is one that onMessage refuses.
abbrev pub refuses : Codec → ℕ → Bool
refuses codec len = signed_lt max_message_len len || signed_lt len codec.min_message_len

-- What onMessage comes to, by what the buffer holds.
pub data Heard {M : Type 0} (codec : Codec) (b : Buffer) : Option (Outcome M) → Type 0 where
  waits : readable_bytes b < max_message_len + 4 → Heard codec b (some (ok ([], b)))
  bad_length :
      (len : ℕ)
      → max_message_len + 4 ≤ readable_bytes b
      → peek_int32 b ≡ ok len
      → refuses codec len ≡ true
      → Heard codec b (some (ok (calls_error invalid_length ∷ [], b)))
  undefined :
      (len : ℕ)
      → max_message_len + 4 ≤ readable_bytes b
      → peek_int32 b ≡ ok len
      → refuses codec len ≡ false
      → Heard codec b (some (err no_return))

module _ {M : Type 0} (lib : Library M) (tag : List ℕ) (raw_cb : Option (List ℕ → Bool)) where
  abbrev codec : Codec
  codec = create tag raw_cb

  accepted_le :
      (len : ℕ)
      → length tag + checksum_len < 2 ^ 31
      → len < 2 ^ 32
      → refuses codec len ≡ false
      → len ≤ max_message_len
  accepted_le len sane small e = ground arith

  frame_of-bad :
      (b : Buffer) (len : ℕ)
      → refuses codec len ≡ true
      → frame_of lib codec b len ≡ ok (ends (calls_error invalid_length ∷ []))
  unfolding frame_of
  frame_of-bad b len e = if_true _ _ _ e

  frame_of-whole :
      (b : Buffer) (len : ℕ)
      → refuses codec len ≡ false
      → header_len + len ≤ readable_bytes b
      → frame_of lib codec b len ≡ err no_return
  unfolding frame_of whole_frame
  frame_of-whole b len e fits = if_false _ _ _ e ∙ if_true _ _ _ (le→leb _ _ fits)

  pass-peek :
      (b : Buffer) (len : ℕ)
      → max_message_len + 4 ≤ readable_bytes b
      → peek_int32 b ≡ ok len
      → pass lib codec b ≡ frame_of lib codec b len
  unfolding pass
  pass-peek b len enough e =
      if_true _ _ _ (le→leb (max_message_len + 4) (readable_bytes b) enough)
      ∙ ap (λ r. r >>= frame_of lib codec b) e

  pass-short :
      (b : Buffer) → readable_bytes b < max_message_len + 4 → pass lib codec b ≡ ok (ends [])
  unfolding pass
  pass-short b few = if_false _ _ _ (lt→leb-eq-false (max_message_len + 4) (readable_bytes b) few)

  -- What onMessage does, for any buffer: with fewer than kMaxMessageLen + 4 readable bytes it calls
  -- nothing and keeps them all; with more, it reports a length that is out of range once and keeps the
  -- buffer, and for any other length it comes to the end of parse, which returns nothing. The callback
  -- for raw messages is not called, whatever the constructor was given. One pass is enough.
  pub on_message-Heard :
      (b : Buffer) (fuel : ℕ)
      → length tag + checksum_len < 2 ^ 31
      → Heard codec b (on_message lib (suc fuel) codec b)
  unfolding on_message follow
  on_message-Heard b fuel sane = elim (Bool-cases (leb (max_message_len + 4) (readable_bytes b))) [
    | inl enough ↦
        let much = leb→le (max_message_len + 4) (readable_bytes b) enough in
        let (len, e, small) = peek_int32-some b (omega (arith, much)) in
        elim (Bool-cases (refuses codec len)) [
          | inl bad ↦
              subst (λ p. Heard codec b (follow lib (on_message lib fuel codec) b p))
                (sym (pass-peek b len much e ∙ frame_of-bad b len bad)) (bad_length len much e bad)
          | inr good ↦
              subst (λ p. Heard codec b (follow lib (on_message lib fuel codec) b p))
                (sym (
                  pass-peek b len much e
                  ∙ frame_of-whole b len good
                      (omega (arith, much, accepted_le len sane small good))))
                (undefined len much e good)
        ]
    | inr few ↦
        let less = leb-eq-false (max_message_len + 4) (readable_bytes b) few in
        subst (λ p. Heard codec b (follow lib (on_message lib fuel codec) b p))
          (sym (pass-short b less)) (waits less)
  ]

  -- A frame that fillEmptyBuffer wrote, of fewer than kMaxMessageLen bytes behind its length, and that
  -- is alone in the buffer, stays there: onMessage calls nothing.
  pub on_message-Framed :
      (message : M) (b : Buffer) (fuel : ℕ)
      → Framed lib codec message b
      → length (body lib codec message) < max_message_len
      → on_message lib (suc fuel) codec b ≡ some (ok ([], b))
  unfolding on_message follow
  on_message-Framed message b fuel f small = ap (follow lib (on_message lib fuel codec) b) (
      pass-short b (
        omega (
          arith,
          small,
          readable-length b f.valid,
          length-frame lib codec message,
          ap length f.holds,
        )))

  -- send in the loop's thread, on a connection that is up, fails no check for such a message and is
  -- sendInLoop of its frame.
  pub send-Framed :
      (message : M) (c : Connection) (w : Write)
      → c.state ≡ connected
      → Serializes lib message
      → length (body lib codec message) < 2 ^ 31
      → (rest : Buffer) × (send lib codec true c message w
          ≡ (send_in_loop c (frame lib codec message) w >>= λ r. ok (r.0, r.1, rest)))
        × (contents rest ≡ [])
  unfolding send
  send-Framed message c w up s small =
      let (b, e, f) =
        fill_empty_buffer-Framed lib codec fresh message fresh-IsValid refl (omega arith) s
          (omega (arith, small)) small in
      (
        retrieve_all b,
        ap (λ r. r >>= λ d. send_buffer true c d w) e
            ∙ send_buffer-connected c b w up
            ∙ ap (λ m. send_in_loop c m w >>= λ r. ok (r.0, r.1, retrieve_all b)) f.holds,
        (retrieve_all-nil b).0,
      )
    where
      fresh-IsValid : IsValid fresh
      fresh-IsValid = omega arith

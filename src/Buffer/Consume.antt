-- ===== src/Buffer/Consume.antt =====
-- Reading and taking bytes off the front, and putting bytes in front: retrieve, prepend, the 32-bit
-- integers and shrink.
use chaonet.Common.{
  ℕ, ◌+◌, ◌-◌, ◌≤◌, ◌<◌, ◌≡◌, refl, sym, ap, ◌∙◌, inl, inr, List, [], ◌++◌, append_assoc, ok, err,
  assert_failed, leb, Bool-cases, le→leb, arith, length, take, drop, add_size, sub_size,
  length-append, length-take, length-drop, drop-append, take-append-drop, leb→le, leb-eq-false, ◌⊎◌,
  drop-add,
}
use chaonet.Buffer.{
  Buffer, readable_bytes, prependable_bytes, contents, retrieve, retrieve_until, prepend,
  retrieve_all, retrieve_as_string,
}
use chaonet.Buffer.Bytes.{write_at, write_at-append}
use chaonet.Buffer.Layout.{
  IsValid, Holds, Holds-IsValid, Holds-readable, Holds-contents, IsValid-Holds,
}

-- What is left of a buffer after its first bytes are taken.
pub record Took (b : Buffer) (n : ℕ) (c : Buffer) : Type 0 where
  pub valid : IsValid c
  pub left : contents c ≡ drop n (contents b)
  pub front : c.reader_index ≡ b.reader_index + n
  pub back : c.writer_index ≡ b.writer_index

pub retrieve-Took :
    (b : Buffer) (n : ℕ)
    → IsValid b
    → n ≤ length (contents b)
    → (c : Buffer) × (retrieve b n ≡ ok c) × Took b n c
unfolding retrieve
retrieve-Took b n v fits = (
  record b { reader_index = add_size b.reader_index n },
  rw (le→leb n (readable_bytes b) (omega (arith, Holds-readable h, fits))),
  record { valid = Holds-IsValid after; left = Holds-contents after; front = next; back = refl },
)
  where
    h : Holds b (take b.reader_index b.storage) (contents b) (drop b.writer_index b.storage)
    h = IsValid-Holds b v

    gone : List ℕ
    gone = take n (contents b)

    mid : List ℕ
    mid = drop n (contents b)

    back : List ℕ
    back = drop b.writer_index b.storage

    front : List ℕ
    front = take b.reader_index b.storage

    next : add_size b.reader_index n ≡ b.reader_index + n
    next = omega (arith, h.reader, h.room, fits)

    after : Holds (record b { reader_index = add_size b.reader_index n }) (front ++ gone) mid back
    after = record {
      layout =
          h.layout
          ∙ ap (λ m. front ++ (m ++ back)) (sym (take-append-drop n (contents b)))
          ∙ ap (◌++◌ front) (append_assoc gone mid back)
          ∙ sym (append_assoc front gone (mid ++ back));
      reader = omega (arith, next, h.reader, length-append front gone, length-take n (contents b));
      writer = omega (
        arith,
        h.writer,
        length-append front gone,
        length-take n (contents b),
        length-drop n (contents b),
      );
      room = omega (
        arith,
        h.room,
        length-append front gone,
        length-take n (contents b),
        length-drop n (contents b),
      );
    }

-- The readable bytes are as many as the two indices say.
pub readable-length : (b : Buffer) → IsValid b → readable_bytes b ≡ length (contents b)
readable-length b v = Holds-readable (IsValid-Holds b v)

-- retrieve drops exactly the first n readable bytes and keeps the buffer valid; asked for more bytes
-- than are readable, its assertion fails.
pub retrieve_lem :
    (b : Buffer) (n : ℕ)
    → IsValid b
    → ((n ≤ readable_bytes b) × ((c : Buffer) × (retrieve b n ≡ ok c) × Took b n c))
      ⊎ ((readable_bytes b < n) × (retrieve b n ≡ err assert_failed))
unfolding retrieve
retrieve_lem b n v = elim (Bool-cases (leb n (readable_bytes b))) [
  | inl fits ↦
      let small : n ≤ readable_bytes b = leb→le _ _ fits in
      inl (small, retrieve-Took b n v (omega (arith, small, readable-length b v)))
  | inr over ↦ inr (leb-eq-false _ _ over, rw over)
]

-- retrieveUntil at an offset inside the readable bytes takes exactly the bytes before it.
pub retrieve_until-Took :
    (b : Buffer) (n : ℕ)
    → IsValid b
    → n ≤ length (contents b)
    → (c : Buffer) × (retrieve_until b (b.reader_index + n) ≡ ok c) × Took b n c
unfolding retrieve_until
retrieve_until-Took b n v fits =
    let (c, e, t) = retrieve-Took b n v fits in
    (
      c,
      rw (le→leb b.reader_index (b.reader_index + n) (omega arith)) (
          rw (le→leb (b.reader_index + n) b.writer_index (omega (arith, v, readable-length b v)))
            (ap (retrieve b) (omega (arith, v, readable-length b v)) ∙ e)),
      t,
    )

-- retrieveAllAsString returns the readable bytes and leaves none.
pub retrieve_as_string-all : (b : Buffer) → retrieve_as_string b ≡ (contents b, retrieve_all b)
unfolding retrieve_as_string retrieve_all
retrieve_as_string-all b = refl

-- The indices go back to kCheapPrepend, which is in the vector if they were not below it before.
pub retrieve_all-nil :
    (b : Buffer)
    → (contents (retrieve_all b) ≡ [])
      × ((retrieve_all b).reader_index ≡ 8)
      × (IsValid b → 8 ≤ b.reader_index → IsValid (retrieve_all b))
unfolding retrieve_all
retrieve_all-nil b = (refl, refl, λ v front. omega (arith, v, front))

-- What a buffer holds after bytes were put in front of its readable ones.
pub record Prefixed (b : Buffer) (bytes : List ℕ) (c : Buffer) : Type 0 where
  pub valid : IsValid c
  pub prefixed : contents c ≡ bytes ++ contents b
  pub front : c.reader_index + length bytes ≡ b.reader_index

pub prepend-Prefixed :
    (b : Buffer) (bytes : List ℕ)
    → IsValid b
    → length bytes ≤ b.reader_index
    → (c : Buffer) × (prepend b bytes ≡ ok c) × Prefixed b bytes c
unfolding prepend
prepend-Prefixed b bytes v fits = (
  after,
  rw (le→leb (length bytes) b.reader_index fits),
  record { valid = Holds-IsValid w; prefixed = Holds-contents w; front = omega (arith, start) },
)
  where
    h : Holds b (take b.reader_index b.storage) (contents b) (drop b.writer_index b.storage)
    h = IsValid-Holds b v

    at : ℕ
    at = sub_size b.reader_index (length bytes)

    start : at ≡ b.reader_index - length bytes
    start = omega (arith, fits, v)

    after : Buffer
    after = record b { storage = write_at b.storage at bytes; reader_index = at }

    rest : List ℕ
    rest = contents b ++ drop b.writer_index b.storage

    head : length (take at b.storage) ≡ at
    head = omega (arith, length-take at b.storage, start, v)

    behind : drop (length bytes) (drop at b.storage) ≡ rest
    behind =
        sym (drop-add at (length bytes) b.storage)
        ∙ ap (λ n. drop n b.storage) (omega (arith, start, fits, h.reader))
        ∙ ap (drop (length (take b.reader_index b.storage))) h.layout
        ∙ drop-append _ (take b.reader_index b.storage) rest refl

    w : Holds after (take at b.storage) (bytes ++ contents b) (drop b.writer_index b.storage)
    w = record {
      layout =
          ap (λ s. write_at s at bytes) (sym (take-append-drop at b.storage))
          ∙ write_at-append (take at b.storage) (drop at b.storage) bytes at head
          ∙ ap (λ m. take at b.storage ++ (bytes ++ m)) behind
          ∙ ap (◌++◌ (take at b.storage)) (sym (append_assoc bytes (contents b) _));
      reader = sym head;
      writer =
          omega (arith, head, start, fits, h.reader, h.writer, length-append bytes (contents b));
      room = omega (arith, head, start, fits, h.reader, h.room, length-append bytes (contents b));
    }

-- prepend puts its bytes in front of the readable ones if the prependable part has room for them, and
-- fails its assertion if not.
pub prepend_lem :
    (b : Buffer) (bytes : List ℕ)
    → IsValid b
    → ((length bytes ≤ prependable_bytes b)
        × ((c : Buffer) × (prepend b bytes ≡ ok c) × Prefixed b bytes c))
      ⊎ ((prependable_bytes b < length bytes) × (prepend b bytes ≡ err assert_failed))
unfolding prepend
prepend_lem b bytes v = elim (Bool-cases (leb (length bytes) (prependable_bytes b))) [
  | inl fits ↦ inl (leb→le _ _ fits, prepend-Prefixed b bytes v (leb→le _ _ fits))
  | inr over ↦ inr (leb-eq-false _ _ over, rw over)
]

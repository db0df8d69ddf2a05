-- ===== src/Buffer/Layout.antt =====
-- The storage of a buffer as three parts: the prependable bytes, the readable ones and the writable
-- ones. The operations of Buffer.h are stated on these parts.
use chaonet.Common.{
  ℕ, ◌+◌, ◌-◌, ◌≤◌, ◌≡◌, refl, sym, ap, ◌∙◌, List, ◌++◌, arith, length, take, drop, sub_size,
  length-append, length-take, length-drop, take-append, drop-append, take-append-drop, drop-add,
}
use chaonet.Buffer.{Buffer, max_size, readable_bytes, writable_bytes, peek_bytes, contents}

pub record IsValid (b : Buffer) : Type 0 where
  pub ordered : b.reader_index ≤ b.writer_index
  pub inside : b.writer_index ≤ length b.storage
  pub small : length b.storage ≤ max_size

pub record Holds (b : Buffer) (front mid back : List ℕ) : Type 0 where
  pub layout : b.storage ≡ front ++ (mid ++ back)
  pub reader : b.reader_index ≡ length front
  pub writer : b.writer_index ≡ length front + length mid
  pub room : length front + (length mid + length back) ≤ max_size

module _ {b : Buffer} {front mid back : List ℕ} (h : Holds b front mid back) where
  pub Holds-length : length b.storage ≡ length front + (length mid + length back)
  Holds-length = rw h.layout (rw (length-append front (mid ++ back), length-append mid back))

  pub Holds-IsValid : IsValid b
  Holds-IsValid = record {
    ordered = omega (arith, h.reader, h.writer);
    inside = omega (arith, h.writer, Holds-length);
    small = omega (arith, h.room, Holds-length);
  }

  pub Holds-readable : readable_bytes b ≡ length mid
  Holds-readable = omega (arith, h.reader, h.writer, h.room)

  pub Holds-writable : writable_bytes b ≡ length back
  Holds-writable = omega (arith, h.writer, h.room, Holds-length)

  pub Holds-peek_bytes : (n : ℕ) → peek_bytes b n ≡ take n (mid ++ back)
  Holds-peek_bytes n = rw (h.layout, h.reader, drop-append (length front) front (mid ++ back) refl)

  pub Holds-contents : contents b ≡ mid
  Holds-contents =
      Holds-peek_bytes (readable_bytes b)
      ∙ rw Holds-readable (take-append (length mid) mid back refl)

sub_size-le : (a b : ℕ) → b ≤ a → a ≤ max_size → sub_size a b ≡ a - b
sub_size-le a b h k = omega arith

length-contents : (b : Buffer) → IsValid b → length (contents b) ≡ b.writer_index - b.reader_index
length-contents b v = omega (
  arith,
  length-take (readable_bytes b) (drop b.reader_index b.storage),
  length-drop b.reader_index b.storage,
  sub_size-le b.writer_index b.reader_index,
  v,
)

-- Every valid buffer has such parts.
pub IsValid-Holds :
    (b : Buffer)
    → IsValid b
    → Holds b (take b.reader_index b.storage) (contents b) (drop b.writer_index b.storage)
IsValid-Holds b v = record {
  layout = layout;
  reader = omega (arith, v, length-take b.reader_index b.storage);
  writer = omega (arith, v, length-take b.reader_index b.storage, length-contents b v);
  room = omega (
    arith,
    v,
    length-take b.reader_index b.storage,
    length-contents b v,
    length-drop b.writer_index b.storage,
  );
}
  where
    rest : List ℕ
    rest = drop b.reader_index b.storage

    split : drop b.writer_index b.storage ≡ drop (readable_bytes b) rest
    split =
        ap (λ n. drop n b.storage) (omega (arith, v, sub_size-le b.writer_index b.reader_index))
        ∙ drop-add b.reader_index (readable_bytes b) b.storage

    layout :
        b.storage ≡ take b.reader_index b.storage ++ (contents b ++ drop b.writer_index b.storage)
    layout =
        rw (split, take-append-drop (readable_bytes b) rest)
          (sym (take-append-drop b.reader_index b.storage))

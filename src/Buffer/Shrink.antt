-- ===== src/Buffer/Shrink.antt =====
-- shrink: the new vector holds the readable bytes at offset 8, whatever readerIndex_ is.
use chaonet.Common.{
  ℕ, ◌+◌, ◌≤◌, ◌<◌, ◌≡◌, sym, ap, ◌∙◌, List, arith, length, take, drop, replicate, add_size,
  length-take, length-drop, length-replicate, take-append-drop,
}
use chaonet.Buffer.{
  Buffer, max_size, cheap_prepend, readable_bytes, writable_bytes, contents, shrink,
}
use chaonet.Buffer.Bytes.{write_at, write_at-append, length-write_at}
use chaonet.Buffer.Layout.{IsValid, Holds, Holds-writable, Holds-IsValid, Holds-contents}
use chaonet.Buffer.Consume.{readable-length}

-- shrink keeps the readable bytes and leaves `reserve` writable ones when the readable bytes start at
-- offset 8, as in a fresh buffer.
pub shrink_lem :
    (b : Buffer) (reserve : ℕ)
    → IsValid b
    → b.reader_index ≡ cheap_prepend
    → b.writer_index + reserve ≤ max_size
    → IsValid (shrink b reserve)
      × (contents (shrink b reserve) ≡ contents b)
      × (writable_bytes (shrink b reserve) ≡ reserve)
unfolding shrink
shrink_lem b reserve v e fits = (Holds-IsValid w, Holds-contents w, Holds-writable w ∙ spare)
  where
    m : List ℕ
    m = contents b

    size : ℕ
    size = add_size (add_size cheap_prepend (readable_bytes b)) reserve

    total : size ≡ 8 + (length m + reserve)
    total = omega (arith, readable-length b v, v, e, fits)

    zeros : List ℕ
    zeros = replicate size 0

    zeros-length : length zeros ≡ 8 + (length m + reserve)
    zeros-length = length-replicate size 0 ∙ total

    head : length (take 8 zeros) ≡ 8
    head = omega (arith, length-take 8 zeros, zeros-length)

    back : List ℕ
    back = drop (length m) (drop 8 zeros)

    spare : length back ≡ reserve
    spare = omega (arith, length-drop (length m) (drop 8 zeros), length-drop 8 zeros, zeros-length)

    w : Holds (shrink b reserve) (take 8 zeros) m back
    w = record {
      layout =
          ap (λ s. write_at s cheap_prepend m) (sym (take-append-drop 8 zeros))
          ∙ write_at-append (take 8 zeros) (drop 8 zeros) m 8 head;
      reader = omega (arith, e, head);
      writer = omega (arith, e, head, readable-length b v, v);
      room = omega (arith, head, spare, e, readable-length b v, v, fits);
    }

-- Where more than `reserve` bytes were consumed before, the indices that shrink keeps point past the
-- end of the new vector.
pub shrink_past_end :
    (b : Buffer) (reserve : ℕ)
    → IsValid b
    → cheap_prepend + reserve < b.reader_index
    → length (shrink b reserve).storage < (shrink b reserve).writer_index
unfolding shrink
shrink_past_end b reserve v far = omega (
  arith,
  length-write_at (replicate size 0) (contents b) 8
      (omega (arith, length-replicate {0} {A = ℕ} size 0, total, readable-length b v)),
  length-replicate {0} {A = ℕ} size 0,
  total,
  readable-length b v,
  v,
  far,
)
  where
    size : ℕ
    size = add_size (add_size cheap_prepend (readable_bytes b)) reserve

    total : size ≡ 8 + (readable_bytes b + reserve)
    total = omega (arith, v, far)

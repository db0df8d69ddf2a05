-- ===== src/Buffer/Space.antt =====
-- Making room: ensureWritableBytes and makeSpace.
use chaonet.Common.{
  min, ℕ, ◌+◌, ◌-◌, ◌≤◌, ◌<◌, ◌≡◌, sym, ap, ◌∙◌, inl, inr, Bool, true, false, List, ◌++◌,
  append_assoc, ok, ◌>>◌, assert, ltb, leb, ◌==◌, Bool-cases, le→leb, lt→ltb, ltb→lt, ltb-eq-false,
  eq→==, arith, length, take, drop, replicate, add_size, length-append, length-take, length-drop,
  length-replicate, take-append-drop,
}
use chaonet.Buffer.{
  Buffer, max_size, cheap_prepend, readable_bytes, writable_bytes, prependable_bytes, resize,
  compact, make_space, ensure_writable_bytes,
}
use chaonet.Buffer.Bytes.{write_at, write_at-append}
use chaonet.Buffer.Layout.{Holds, Holds-length, Holds-readable, Holds-writable, Holds-contents}

-- What ensureWritableBytes leaves behind: the same readable bytes, and enough room behind them. The
-- bytes in front stay at least eight if they were.
pub record Roomy (front mid : List ℕ) (n : ℕ) (c : Buffer) : Type 0 where
  pub head : List ℕ
  pub tail : List ℕ
  pub holds : Holds c head mid tail
  pub space : n ≤ length tail
  pub cheap : min cheap_prepend (length front) ≤ length head
  pub shorter : length head ≤ length front

module _ {b : Buffer} {front mid back : List ℕ} (h : Holds b front mid back) where
  -- What a longer vector looks like: zeros behind the old bytes.
  abbrev grown : ℕ → Buffer
  grown n = record b { storage = b.storage ++ replicate n 0 }

  grown-Holds :
      (n : ℕ)
      → length front + (length mid + (length back + n)) ≤ max_size
      → Holds (grown n) front mid (back ++ replicate n 0)
  grown-Holds n fits = record {
    layout = rw h.layout (
        append_assoc front (mid ++ back) (replicate n 0)
        ∙ ap (◌++◌ front) (append_assoc mid back (replicate n 0)));
    reader = h.reader;
    writer = h.writer;
    room =
        omega (arith, fits, length-append back (replicate n 0), length-replicate {0} {A = ℕ} n 0);
  }

  resize-grown :
      (n : ℕ)
      → length back < n
      → length front + (length mid + n) ≤ max_size
      → resize b (add_size b.writer_index n) ≡ ok (grown (n - length back))
  unfolding resize
  resize-grown n more fits =
      rw (le→leb (add_size b.writer_index n) max_size (omega (arith, total)))
        (ap (λ k. ok (grown k)) (omega (arith, total, Holds-length h)))
    where
      total : add_size b.writer_index n ≡ length front + (length mid + n)
      total = omega (arith, h.writer, fits)

  compact-Holds :
      cheap_prepend < length front
      → Holds (compact b) (take 8 b.storage) mid (drop (length mid) (drop 8 b.storage))
  unfolding compact
  compact-Holds far = record {
    layout =
        ap (write_at b.storage cheap_prepend) (Holds-contents h)
        ∙ ap (λ s. write_at s cheap_prepend mid) (sym (take-append-drop 8 b.storage))
        ∙ write_at-append (take 8 b.storage) (drop 8 b.storage) mid 8 head;
    reader = sym head;
    writer = omega (arith, head, Holds-readable h, h.room);
    room = omega (arith, head, tail, h.room, Holds-length h);
  }
    where
      head : length (take 8 b.storage) ≡ 8
      head = omega (arith, length-take 8 b.storage, Holds-length h)

      tail : length (drop (length mid) (drop 8 b.storage)) ≡ length b.storage - 8 - length mid
      tail = omega (arith, length-drop (length mid) (drop 8 b.storage), length-drop 8 b.storage)

  grown-Roomy :
      (n : ℕ)
      → length back < n
      → length front + (length mid + n) ≤ max_size
      → Roomy front mid n (grown (n - length back))
  grown-Roomy n more fits = record {
    head = front;
    tail = back ++ replicate (n - length back) 0;
    holds = grown-Holds (n - length back) (omega arith);
    space = omega (
      arith,
      length-append back (replicate (n - length back) 0),
      length-replicate {0} {A = ℕ} (n - length back) 0,
    );
    cheap = omega arith;
    shorter = omega arith;
  }

  compact-Roomy :
      (n : ℕ)
      → cheap_prepend < length front
      → n + 8 ≤ length back + length front
      → Roomy front mid n (compact b)
  compact-Roomy n far wide = record {
    head = take 8 b.storage;
    tail = drop (length mid) (drop 8 b.storage);
    holds = compact-Holds far;
    space = omega (
      arith,
      length-drop (length mid) (drop 8 b.storage),
      length-drop 8 b.storage,
      Holds-length h,
    );
    cheap = omega (arith, length-take 8 b.storage, Holds-length h);
    shorter = omega (arith, length-take 8 b.storage, far);
  }

  make_space-Roomy :
      (n : ℕ)
      → length back < n
      → length front + (length mid + n) ≤ max_size
      → (c : Buffer) × (make_space b n ≡ ok c) × Roomy front mid n c
  unfolding make_space
  make_space-Roomy n more fits = elim (Bool-cases test) [
    | inl short ↦ (
      grown (n - length back),
      rw (short, make_space) (resize-grown n more fits),
      grown-Roomy n more fits,
    )
    | inr wide ↦
        (compact b, rw (wide, make_space) (checked wide), compact-Roomy n (far wide) (spare wide))
  ]
    where
      test : Bool
      test = ltb (add_size (writable_bytes b) (prependable_bytes b)) (add_size n cheap_prepend)

      spare : test ≡ false → n + 8 ≤ length back + length front
      spare wide = omega (arith, ltb-eq-false _ _ wide, Holds-writable h, h.reader, h.room, fits)

      far : test ≡ false → cheap_prepend < length front
      far wide = omega (arith, spare wide, more)

      checked :
          test ≡ false
          → (do
            assert (ltb cheap_prepend b.reader_index)
            assert (readable_bytes b == readable_bytes (compact b))
            ok (compact b))
            ≡ ok (compact b)
      checked wide =
          rw (lt→ltb cheap_prepend b.reader_index (omega (arith, far wide, h.reader)))
            (rw (eq→== _ _ (Holds-readable h ∙ sym (Holds-readable (compact-Holds (far wide))))))

  -- The assertions of ensureWritableBytes and makeSpace hold, and room is made.
  pub ensure_writable_bytes-Roomy :
      (n : ℕ)
      → length front + (length mid + n) ≤ max_size
      → (c : Buffer) × (ensure_writable_bytes b n ≡ ok c) × Roomy front mid n c
  unfolding ensure_writable_bytes
  ensure_writable_bytes-Roomy n fits = elim (Bool-cases (ltb (writable_bytes b) n)) [
    | inl short ↦
        let (c, e, r) =
          make_space-Roomy n (omega (arith, ltb→lt _ _ short, Holds-writable h)) fits in
        (c, rw (short, e, ensure_writable_bytes) (rw (enough c r)), r)
    | inr wide ↦ (b, rw (wide, ensure_writable_bytes) (rw (enough b (already wide))), already wide)
  ]
    where
      enough : (c : Buffer) → Roomy front mid n c → leb n (writable_bytes c) ≡ true
      enough c r = le→leb _ _ (omega (arith, Holds-writable r.holds, r.space))

      already : ltb (writable_bytes b) n ≡ false → Roomy front mid n b
      already wide = record {
        head = front;
        tail = back;
        holds = h;
        space = omega (arith, ltb-eq-false _ _ wide, Holds-writable h);
        cheap = omega arith;
        shorter = omega arith;
      }

-- ===== src/Buffer/Append.antt =====
-- Writing behind the readable bytes: append and readFd.
use chaonet.Common.{
  min, ℕ, ◌+◌, ◌≤◌, ◌<◌, ◌≡◌, refl, sym, ap, ◌∙◌, inl, inr, List, [], ◌++◌, append_assoc,
  append-nil, ok, leb, Bool-cases, arith, length, take, drop, length-append, length-take,
  length-drop, take-append-drop, drop-all, leb→le, leb-eq-false,
}
use chaonet.Buffer.{
  Buffer, max_size, cheap_prepend, writable_bytes, contents, has_written, ensure_writable_bytes,
  append, failed, received, read_fd,
}
use chaonet.Buffer.Bytes.{write_at, write_at-append}
use chaonet.Buffer.Layout.{
  IsValid, Holds, Holds-length, Holds-IsValid, Holds-writable, Holds-contents, IsValid-Holds,
}
use chaonet.Buffer.Space.{ensure_writable_bytes-Roomy}

unfoldable pub written : Buffer → List ℕ → Buffer
unfolding has_written
written c bytes =
    has_written (record c { storage = write_at c.storage c.writer_index bytes }) (length bytes)

written-Holds :
    {c : Buffer} {f m k : List ℕ} (h : Holds c f m k) (bytes : List ℕ)
    → length bytes ≤ length k
    → Holds (written c bytes) f (m ++ bytes) (drop (length bytes) k)
unfolding written
written-Holds {c} {f} {m} {k} h bytes fits = record {
  layout =
      ap (λ s. write_at s c.writer_index bytes) (h.layout ∙ sym (append_assoc f m k))
      ∙ write_at-append (f ++ m) k bytes c.writer_index (omega (arith, length-append f m, h.writer))
      ∙ append_assoc f m _
      ∙ ap (◌++◌ f) (sym (append_assoc m bytes _));
  reader = h.reader;
  writer = omega (arith, h.writer, h.room, length-append m bytes);
  room = omega (arith, h.room, length-append m bytes, length-drop (length bytes) k);
}

-- The outcome of a write: the readable bytes grew by `bytes` at the end.
pub record Grew (b : Buffer) (bytes : List ℕ) (c : Buffer) : Type 0 where
  pub valid : IsValid c
  pub appended : contents c ≡ contents b ++ bytes
  pub cheap : min cheap_prepend b.reader_index ≤ c.reader_index
  pub end : c.writer_index ≤ b.writer_index + length bytes

-- Room for n bytes is made, and fewer are written.
reserve-Holds :
    {b : Buffer} {front mid back : List ℕ} (h : Holds b front mid back) (bytes : List ℕ) (n : ℕ)
    → length bytes ≤ n
    → length front + (length mid + n) ≤ max_size
    → (c : Buffer) × (ensure_writable_bytes b n ≡ ok c) × Grew b bytes (written c bytes)
reserve-Holds {b} {mid = mid} h bytes n small fits =
    let (c, e, r) = ensure_writable_bytes-Roomy h n fits in
    let w = written-Holds r.holds bytes (omega (arith, r.space, small)) in
    (
      c,
      e,
      record {
        valid = Holds-IsValid w;
        appended = Holds-contents w ∙ ap (λ m. m ++ bytes) (sym (Holds-contents h));
        cheap = omega (arith, r.cheap, h.reader, w.reader);
        end = omega (arith, r.shorter, w.writer, h.writer, length-append mid bytes);
      },
    )

-- Nothing was written, or first one thing and then another.
pub Grew-nil : (b : Buffer) → IsValid b → Grew b [] b
Grew-nil b v = record {
  valid = v;
  appended = sym (append-nil (contents b));
  cheap = omega arith;
  end = omega arith;
}

pub Grew-append :
    {b c d : Buffer} {xs ys : List ℕ} → Grew b xs c → Grew c ys d → Grew b (xs ++ ys) d
Grew-append {b} {xs = xs} {ys = ys} g h = record {
  valid = h.valid;
  appended = h.appended ∙ ap (λ m. m ++ ys) g.appended ∙ append_assoc (contents b) xs ys;
  cheap = omega (arith, g.cheap, h.cheap);
  end = omega (arith, g.end, h.end, length-append xs ys);
}

append-Holds :
    {b : Buffer} {front mid back : List ℕ} (h : Holds b front mid back) (bytes : List ℕ)
    → length front + (length mid + length bytes) ≤ max_size
    → (c : Buffer) × (append b bytes ≡ ok c) × Grew b bytes c
unfolding append written has_written
append-Holds h bytes fits =
    let (c, e, g) = reserve-Holds h bytes (length bytes) (omega arith) fits in
    (written c bytes, rw (e, append), g)

-- ensureWritableBytes, a write of at most that many bytes at beginWrite(), and hasWritten.
pub reserve_lem :
    (b : Buffer) (bytes : List ℕ) (n : ℕ)
    → IsValid b
    → length bytes ≤ n
    → b.writer_index + n ≤ max_size
    → (c : Buffer) × (ensure_writable_bytes b n ≡ ok c) × Grew b bytes (written c bytes)
reserve_lem b bytes n v small fits =
    let h = IsValid-Holds b v in reserve-Holds h bytes n small (omega (arith, h.writer, fits))

-- append puts the bytes behind the readable ones and keeps the buffer valid, whenever they fit below
-- max_size(): none of its assertions fails. Eight prependable bytes stay if they were there.
pub append_lem :
    (b : Buffer) (bytes : List ℕ)
    → IsValid b
    → b.writer_index + length bytes ≤ max_size
    → (c : Buffer) × (append b bytes ≡ ok c) × Grew b bytes c
append_lem b bytes v fits =
    let h = IsValid-Holds b v in append-Holds h bytes (omega (arith, h.writer, fits))

-- What readFd stores when the bytes do not all fit: the writable part is filled first.
filled : Buffer → List ℕ → Buffer
filled b bytes = record b {
  storage = write_at b.storage b.writer_index (take (writable_bytes b) bytes);
  writer_index = length b.storage;
}

filled-Holds :
    {b : Buffer} {front mid back : List ℕ} (h : Holds b front mid back) (bytes : List ℕ)
    → length back < length bytes
    → Holds (filled b bytes) front (mid ++ take (length back) bytes) []
unfolding filled written
filled-Holds {b} {front} {mid} {back} h bytes more = record {
  layout =
      ap (λ n. write_at b.storage b.writer_index (take n bytes)) (Holds-writable h)
      ∙ w.layout
      ∙ ap (λ k. front ++ ((mid ++ take (length back) bytes) ++ k)) gone;
  reader = h.reader;
  writer = omega (arith, Holds-length h, length-append mid (take (length back) bytes), all);
  room = omega (arith, h.room, length-append mid (take (length back) bytes), all);
}
  where
    all : length (take (length back) bytes) ≡ length back
    all = omega (arith, length-take (length back) bytes)

    w :
        Holds
          (written b (take (length back) bytes))
          front
          (mid ++ take (length back) bytes)
          (drop (length (take (length back) bytes)) back)
    w = written-Holds h (take (length back) bytes) (omega (arith, all))

    gone : drop (length (take (length back) bytes)) back ≡ []
    gone = drop-all _ back (omega (arith, all))

-- readFd loses no byte: what readv delivered stands behind the readable bytes, in order, also when it
-- ran over into the extra array, whenever it fits below max_size(). A failed readv changes nothing.
pub read_fd_lem :
    (b : Buffer) (bytes : List ℕ)
    → IsValid b
    → b.writer_index + length bytes ≤ max_size
    → ((c : Buffer) × (read_fd b (received bytes) ≡ ok c) × Grew b bytes c)
      × ((errno : ℕ) → read_fd b (failed errno) ≡ ok b)
unfolding read_fd filled written has_written
read_fd_lem b bytes v fits = (arrive, λ errno. refl)
  where
    h : Holds b (take b.reader_index b.storage) (contents b) (drop b.writer_index b.storage)
    h = IsValid-Holds b v

    back : List ℕ
    back = drop b.writer_index b.storage

    arrive : (c : Buffer) × (read_fd b (received bytes) ≡ ok c) × Grew b bytes c
    arrive = elim (Bool-cases (leb (length bytes) (writable_bytes b))) [
      | inl fit ↦
          let w = written-Holds h bytes (omega (arith, leb→le _ _ fit, Holds-writable h)) in
          (
            written b bytes,
            rw (fit, read_fd),
            record {
              valid = Holds-IsValid w;
              appended = Holds-contents w;
              cheap = omega arith;
              end = omega (arith, h.writer, w.writer, length-append (contents b) bytes);
            },
          )
      | inr over ↦
          let more : length back < length bytes =
            omega (arith, leb-eq-false _ _ over, Holds-writable h) in
          let f = filled-Holds h bytes more in
          let (c, e, g) = append-Holds f (drop (writable_bytes b) bytes) (
            omega (
              arith,
              length-append (contents b) (take (length back) bytes),
              length-take (length back) bytes,
              length-drop (writable_bytes b) bytes,
              Holds-writable h,
              h.writer,
              fits,
            )) in
          (
            c,
            rw (over, read_fd) e,
            record {
              valid = g.valid;
              appended =
                  g.appended
                  ∙ ap (λ m. m ++ drop (writable_bytes b) bytes) (Holds-contents f)
                  ∙ append_assoc (contents b) _ _
                  ∙ ap (λ m. contents b ++ m)
                      (ap (λ n. take (length back) bytes ++ drop n bytes) (Holds-writable h)
                        ∙ take-append-drop (length back) bytes);
              cheap = g.cheap;
              end = omega (
                arith,
                g.end,
                Holds-length h,
                h.writer,
                length-drop (writable_bytes b) bytes,
                Holds-writable h,
                more,
              );
            },
          )
    ]

-- ===== src/Buffer/Words.antt =====
-- The 32-bit integers of a buffer: appendInt32 and peekInt32.
use chaonet.Common.{
  ℕ, ◌+◌, ◌^◌, ◌≤◌, ◌<◌, ◌≡◌, ap, ◌∙◌, List, ◌++◌, ok, le→leb, assert_passes, arith, length, take,
  drop, length-append, take-append_le,
}
use chaonet.Buffer.{
  Buffer, max_size, readable_bytes, peek_bytes, contents, peek_int32, append_int32,
}
use chaonet.Buffer.Bytes.{swap32, load32, store32}
use chaonet.Buffer.Layout.{IsValid, Holds-peek_bytes, IsValid-Holds}
use chaonet.Buffer.Append.{Grew, append_lem}
use chaonet.Buffer.Bytes.{length-store32, load-store, swap32-lt}
use chaonet.Buffer.Consume.{readable-length}

-- peekInt32 reads the network-order word that the readable bytes begin with.
pub peek_int32-store :
    (b : Buffer) (x : ℕ) (rest : List ℕ)
    → IsValid b
    → x < 2 ^ 32
    → contents b ≡ store32 (swap32 x) ++ rest
    → peek_int32 b ≡ ok x
unfolding peek_int32
peek_int32-store b x rest v small e =
    rw (le→leb 4 (readable_bytes b) (omega (arith, count, readable-length b v)))
      (ap (λ s. ok (swap32 (load32 s))) same ∙ ap ok (load-store x rest small))
  where
    count : length (contents b) ≡ 4 + length rest
    count =
        ap length e
        ∙ length-append (store32 (swap32 x)) rest
        ∙ ap (λ n. n + length rest) (length-store32 (swap32 x))

    same : peek_bytes b 4 ≡ take 4 (store32 (swap32 x) ++ rest)
    same =
        Holds-peek_bytes (IsValid-Holds b v) 4
        ∙ take-append_le 4 (contents b) (drop b.writer_index b.storage) (omega (arith, count))
        ∙ ap (take 4) e

-- Four readable bytes are a word.
pub peek_int32-some :
    (b : Buffer) → 4 ≤ readable_bytes b → (x : ℕ) × (peek_int32 b ≡ ok x) × (x < 2 ^ 32)
unfolding peek_int32
peek_int32-some b enough = (
  swap32 (load32 (peek_bytes b 4)),
  assert_passes _ _ (le→leb 4 (readable_bytes b) enough),
  swap32-lt (load32 (peek_bytes b 4)),
)

-- appendInt32 appends the word in network order.
pub append_int32_lem :
    (b : Buffer) (x : ℕ)
    → IsValid b
    → b.writer_index + 4 ≤ max_size
    → (c : Buffer) × (append_int32 b x ≡ ok c) × Grew b (store32 (swap32 x)) c
unfolding append_int32
append_int32_lem b x v fits =
    append_lem b (store32 (swap32 x)) v (omega (arith, length-store32 (swap32 x), fits))

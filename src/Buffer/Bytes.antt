-- ===== src/Buffer/Bytes.antt =====
-- Byte arrays as the buffer uses them: copying into the middle, and 32-bit words in memory (chaonet/include/SocketsOps.h; the host is little-endian).
use chaonet.Common.{
  refl, arith, ap, ◌∙◌, ◌<◌, ◌^◌, ℕ, ◌+◌, ◌*◌, ◌/◌, ◌%◌, ◌≡◌, List, [], ◌∷◌, ◌++◌, length, take,
  drop, get_or, take-append, length-append, length-take, length-drop, ◌≤◌, drop-append_add,
}

-- std::copy to an offset. The buffer keeps its copies in bounds.
unfoldable pub write_at : List ℕ → ℕ → List ℕ → List ℕ
write_at s i bytes = take i s ++ (bytes ++ drop (i + length bytes) s)

-- memcpy of a uint32_t to bytes and back.
pub store32 : ℕ → List ℕ
store32 x = x % 256 ∷ x / 256 % 256 ∷ x / 65536 % 256 ∷ x / 16777216 % 256 ∷ []

pub load32 : List ℕ → ℕ
load32 s = get_or s 0 0 + 256 * get_or s 1 0 + 65536 * get_or s 2 0 + 16777216 * get_or s 3 0

-- hostToNetwork32 and networkToHost32 (htobe32, be32toh).
pub swap32 : ℕ → ℕ
swap32 x = x % 256 * 16777216 + x / 256 % 256 * 65536 + x / 65536 % 256 * 256 + x / 16777216 % 256

-- Writing behind a part of the storage.
pub write_at-append :
    (xs ys bytes : List ℕ) (i : ℕ)
    → length xs ≡ i
    → write_at (xs ++ ys) i bytes ≡ xs ++ (bytes ++ drop (length bytes) ys)
unfolding write_at
write_at-append xs ys bytes i h =
    rw (take-append i xs ys h, drop-append_add i (length bytes) xs ys h)

pub length-store32 : (x : ℕ) → length (store32 x) ≡ 4
unfolding store32
length-store32 x = refl

load32-store32 : (x : ℕ) → x < 2 ^ 32 → load32 (store32 x) ≡ x
unfolding load32 store32
load32-store32 x h = omega arith

pub swap32-lt : (x : ℕ) → swap32 x < 2 ^ 32
unfolding swap32
swap32-lt x = omega arith

pub swap32-swap32 : (x : ℕ) → x < 2 ^ 32 → swap32 (swap32 x) ≡ x
unfolding swap32
swap32-swap32 x h = omega arith

load32-take : (x : ℕ) (rest : List ℕ) → load32 (take 4 (store32 x ++ rest)) ≡ load32 (store32 x)
unfolding load32 store32
load32-take x rest = refl

-- Reading back the network-order bytes of a word.
pub load-store :
    (x : ℕ) (rest : List ℕ) → x < 2 ^ 32 → swap32 (load32 (take 4 (store32 (swap32 x) ++ rest))) ≡ x
load-store x rest h =
    ap swap32 (load32-take (swap32 x) rest ∙ load32-store32 (swap32 x) (swap32-lt x))
    ∙ swap32-swap32 x h

-- A write inside the array keeps its length.
pub length-write_at :
    (s bytes : List ℕ) (i : ℕ)
    → i + length bytes ≤ length s
    → length (write_at s i bytes) ≡ length s
unfolding write_at
length-write_at s bytes i h = omega (
  arith,
  length-append (take i s) (bytes ++ drop (i + length bytes) s),
  length-append bytes (drop (i + length bytes) s),
  length-take i s,
  length-drop (i + length bytes) s,
)

-- Four bytes in network order.
pub swap32-load32 :
    (a b c d : ℕ)
    → a < 256
    → b < 256
    → c < 256
    → d < 256
    → swap32 (load32 (a ∷ b ∷ c ∷ d ∷ [])) ≡ a * 16777216 + b * 65536 + c * 256 + d
unfolding swap32 load32
swap32-load32 a b c d h i j k = omega arith

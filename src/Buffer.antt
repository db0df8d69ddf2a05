-- ===== src/Buffer.antt =====
-- chaonet/include/Buffer.h and chaonet/src/Buffer.cpp: the byte buffer under every connection.
-- A pointer into the buffer is its offset from begin(). Bytes are numbers.
pub mod Bytes
pub mod Crlf
pub mod Layout
pub mod Space
pub mod Append
pub mod Consume
pub mod Words
pub mod Lines
pub mod Shrink
mod Tests
use chaonet.Common.{
  ℕ, ◌+◌, ◌-◌, ◌*◌, ◌/◌, ◌%◌, ◌^◌, Bool, Option, none, some, List, [], ◌∷◌, ◌++◌, Result, ok, err,
  ◌>>=◌, ◌>>◌, assert, length_error, ltb, leb, ◌==◌, if◌then◌else◌, length, take, drop, replicate,
  add_size, sub_size,
}
use Crlf.{search_crlf}
use Bytes.{write_at, store32, load32, swap32}

abbrev pub cheap_prepend : ℕ
cheap_prepend = 8

abbrev pub initial_size : ℕ
initial_size = 1024

-- vector<char>::max_size() of a 64-bit build.
abbrev pub max_size : ℕ
max_size = 2 ^ 63 - 1

pub record Buffer : Type 0 where
  pub storage : List ℕ
  pub reader_index : ℕ
  pub writer_index : ℕ

abbrev pub fresh : Buffer
fresh = record {
  storage = replicate 1032 0;
  reader_index = cheap_prepend;
  writer_index = cheap_prepend;
}

abbrev pub readable_bytes : Buffer → ℕ
readable_bytes b = sub_size b.writer_index b.reader_index

abbrev pub writable_bytes : Buffer → ℕ
writable_bytes b = sub_size (length b.storage) b.writer_index

abbrev pub prependable_bytes : Buffer → ℕ
prependable_bytes b = b.reader_index

-- The bytes from peek() on, as many as asked for.
abbrev pub peek_bytes : Buffer → ℕ → List ℕ
peek_bytes b n = take n (drop b.reader_index b.storage)

-- What a reader of the buffer can see: peek() up to beginWrite().
abbrev pub contents : Buffer → List ℕ
contents b = peek_bytes b (readable_bytes b)

-- The value is the bit pattern of the int32_t.
pub peek_int32 : Buffer → Result ℕ
peek_int32 b = do assert (leb 4 (readable_bytes b)); ok (swap32 (load32 (peek_bytes b 4)))

-- The offset of the first CRLF, `none` for the null pointer.
unfoldable pub find_crlf : Buffer → Option ℕ
find_crlf b = search_crlf b.reader_index (contents b)

pub retrieve : Buffer → ℕ → Result Buffer
retrieve b len = do
  assert (leb len (readable_bytes b))
  ok (record b { reader_index = add_size b.reader_index len })

pub retrieve_until : Buffer → ℕ → Result Buffer
unfolding retrieve
retrieve_until b end = do
  assert (leb b.reader_index end)
  assert (leb end b.writer_index)
  retrieve b (sub_size end b.reader_index)

pub retrieve_all : Buffer → Buffer
retrieve_all b = record b { reader_index = cheap_prepend; writer_index = cheap_prepend }

pub retrieve_as_string : Buffer → List ℕ × Buffer
unfolding retrieve_all
retrieve_as_string b = (contents b, retrieve_all b)

pub swap : Buffer → Buffer → Buffer × Buffer
swap b rhs = (
  record {
    storage = rhs.storage;
    reader_index = rhs.reader_index;
    writer_index = rhs.writer_index;
  },
  record { storage = b.storage; reader_index = b.reader_index; writer_index = b.writer_index },
)

-- vector<char>::resize to a larger size.
resize : Buffer → ℕ → Result Buffer
resize b size =
    if leb size max_size
    then ok (record b { storage = b.storage ++ replicate (size - length b.storage) 0 })
    else err length_error

-- The copy runs forwards onto lower addresses, so it may overlap.
compact : Buffer → Buffer
compact b = record {
  storage = write_at b.storage cheap_prepend (contents b);
  reader_index = cheap_prepend;
  writer_index = add_size cheap_prepend (readable_bytes b);
}

make_space : Buffer → ℕ → Result Buffer
unfolding resize compact
make_space b len =
    if ltb (add_size (writable_bytes b) (prependable_bytes b)) (add_size len cheap_prepend)
    then resize b (add_size b.writer_index len)
    else (do
      assert (ltb cheap_prepend b.reader_index)
      assert (readable_bytes b == readable_bytes (compact b))
      ok (compact b))

pub ensure_writable_bytes : Buffer → ℕ → Result Buffer
ensure_writable_bytes b len = do
  c ← (if ltb (writable_bytes b) len then make_space b len else ok b)
  assert (leb len (writable_bytes c))
  ok c

unfoldable pub has_written : Buffer → ℕ → Buffer
has_written b len = record b { writer_index = add_size b.writer_index len }

pub append : Buffer → List ℕ → Result Buffer
unfolding has_written
append b bytes = do
  c ← ensure_writable_bytes b (length bytes)
  ok (has_written (record c { storage = write_at c.storage c.writer_index bytes }) (length bytes))

pub append_int32 : Buffer → ℕ → Result Buffer
append_int32 b x = append b (store32 (swap32 x))

pub prepend : Buffer → List ℕ → Result Buffer
prepend b bytes = do
  assert (leb (length bytes) (prependable_bytes b))
  let start = sub_size b.reader_index (length bytes)
  ok (record b { storage = write_at b.storage start bytes; reader_index = start })

-- The new vector replaces the old one; the two indices stay.
pub shrink : Buffer → ℕ → Buffer
shrink b reserve = record b {
  storage =
      write_at (replicate (add_size (add_size cheap_prepend (readable_bytes b)) reserve) 0)
        cheap_prepend (contents b);
}

-- What readv does: it fails with an errno, or delivers bytes, first into the writable part of the
-- buffer and then into the extra array of 65536.
pub data Readv : Type 0 where
  failed : ℕ → Readv
  received : List ℕ → Readv

abbrev pub extra_size : ℕ
extra_size = 65536

pub read_fd : Buffer → Readv → Result Buffer
read_fd b (failed errno) = ok b
read_fd b (received bytes) =
    if leb (length bytes) (writable_bytes b)
    then ok (record b {
      storage = write_at b.storage b.writer_index bytes;
      writer_index = add_size b.writer_index (length bytes);
    })
    else append
        (record b {
          storage = write_at b.storage b.writer_index (take (writable_bytes b) bytes);
          writer_index = length b.storage;
        })
        (drop (writable_bytes b) bytes)

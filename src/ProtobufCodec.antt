-- ===== src/ProtobufCodec.antt =====
-- examples/protobuf/ProtobufCodecLite.h and ProtobufCodecLite.cpp: messages in frames of a length, a
-- tag, the serialized message and a checksum. The protobuf library and zlib are parameters.
pub mod Frame
pub mod Messages
mod Tests
use chaonet.Common.{
  ℕ, zero, suc, ◌+◌, ◌-◌, ◌*◌, ◌%◌, ◌^◌, Bool, true, false, not, ◌&&◌, ◌||◌, Option, none, some,
  List, [], ◌∷◌, ◌++◌, Result, ok, err, assert_failed, no_return, ◌>>=◌, ◌>>◌, assert, ltb, leb,
  ◌==◌, if◌then◌else◌, length, take, drop, add_size,
}
use chaonet.Buffer.{
  Buffer, fresh, readable_bytes, contents, peek_bytes, peek_int32, retrieve, ensure_writable_bytes,
  has_written, append, append_int32, prepend,
}
use chaonet.Buffer.Bytes.{write_at, store32, load32, swap32}
use chaonet.Connection.{Connection, Write, Action, connected, same_state, send_buffer, shutdown}
use chaonet.Connection

-- What the codec calls: of the message class M, IsInitialized, ByteSizeLong,
-- SerializeWithCachedSizesToArray and ParseFromArray on a new message; of zlib, adler32.
pub record Library (M : Type 0) : Type 0 where
  pub is_initialized : M → Bool
  pub byte_size : M → ℕ
  pub serialize : M → List ℕ
  pub parse_from_array : List ℕ → Option M
  pub adler32 : ℕ → List ℕ → ℕ

pub data ErrorCode : Type 0 where
  no_error invalid_length check_sum_error : ErrorCode
  invalid_name_len unknown_message_type parse_error : ErrorCode

abbrev pub header_len : ℕ
header_len = 4

abbrev pub checksum_len : ℕ
checksum_len = 4

abbrev pub max_message_len : ℕ
max_message_len = 64 * 1024 * 1024

-- The fields but the prototype and the two callbacks that are always set.
pub record Codec : Type 0 where
  pub tag : List ℕ
  pub raw_cb : Option (List ℕ → Bool)
  pub min_message_len : ℕ

-- The constructor does not look at its argument for the raw callback.
abbrev pub create : List ℕ → Option (List ℕ → Bool) → Codec
create tag raw_cb = record {
  tag = tag;
  raw_cb = none;
  min_message_len = (length tag + checksum_len) % 2 ^ 32;
}

-- The comparison of two int32_t that are given by their bit patterns.
abbrev pub signed_lt : ℕ → ℕ → Bool
signed_lt a b = ltb ((a + 2 ^ 31) % 2 ^ 32) ((b + 2 ^ 31) % 2 ^ 32)

unfoldable pub as_int32 : List ℕ → ℕ
as_int32 bytes = swap32 (load32 (take 4 bytes))

-- memcmp(buf, tag, size) == 0 on the first bytes.
pub starts_with : List ℕ → List ℕ → Bool
starts_with [] bytes = true
starts_with (x ∷ tag) [] = false
starts_with (x ∷ tag) (y ∷ bytes) = x == y && starts_with tag bytes

pub error_code_to_string : ErrorCode → List ℕ
error_code_to_string no_error = 78 ∷ 111 ∷ 69 ∷ 114 ∷ 114 ∷ 111 ∷ 114 ∷ []
error_code_to_string invalid_length =
    73 ∷ 110 ∷ 118 ∷ 97 ∷ 108 ∷ 105 ∷ 100 ∷ 76 ∷ 101 ∷ 110 ∷ 103 ∷ 116 ∷ 104 ∷ []
error_code_to_string check_sum_error =
    67 ∷ 104 ∷ 101 ∷ 99 ∷ 107 ∷ 83 ∷ 117 ∷ 109 ∷ 69 ∷ 114 ∷ 114 ∷ 111 ∷ 114 ∷ []
error_code_to_string invalid_name_len =
    73 ∷ 110 ∷ 118 ∷ 97 ∷ 108 ∷ 105 ∷ 100 ∷ 78 ∷ 97 ∷ 109 ∷ 101 ∷ 76 ∷ 101 ∷ 110 ∷ []
error_code_to_string unknown_message_type =
    85 ∷ 110 ∷ 107 ∷ 110 ∷ 111 ∷ 119 ∷ 110 ∷ 77 ∷ 101 ∷ 115 ∷ 115 ∷ 97 ∷ 103 ∷ 101 ∷ 84 ∷ 121 ∷ 112
    ∷ 101 ∷ []
error_code_to_string parse_error = 80 ∷ 97 ∷ 114 ∷ 115 ∷ 101 ∷ 69 ∷ 114 ∷ 114 ∷ 111 ∷ 114 ∷ []

pub same_error : ErrorCode → ErrorCode → Bool
same_error no_error no_error = true
same_error no_error _ = false
same_error a b = false

-- What onMessage calls.
pub data Call (M : Type 0) : Type 0 where
  calls_message : Option M → Call M
  calls_error : ErrorCode → Call M

-- One pass of the loop: it goes on with another buffer, or ends.
pub data Pass (M : Type 0) : Type 0 where
  goes_on : List (Call M) → Buffer → Pass M
  ends : List (Call M) → Pass M

abbrev pub Outcome : Type 0 → Type 0
Outcome M = Result (List (Call M) × Buffer)

module _ {M : Type 0} (lib : Library M) where
  pub checksum : List ℕ → ℕ
  checksum bytes = lib.adler32 1 bytes % 2 ^ 32

  -- The check of a block of bytes whose last four are the checksum.
  pub validate_checksum : List ℕ → ℕ → Bool
  unfolding checksum
  validate_checksum bytes len =
      checksum (take (len - checksum_len) bytes) == as_int32 (drop (len - checksum_len) bytes)

  -- A failed GOOGLE_CHECK ends the program, as ByteSizeConsistencyError does.
  pub serialize_to_buffer : M → Buffer → Result (ℕ × Buffer)
  serialize_to_buffer message b = do
    assert (lib.is_initialized message)
    let size = lib.byte_size message
    let bytes = lib.serialize message
    c ← ensure_writable_bytes b (size + checksum_len)
    let c' = record c { storage = write_at c.storage c.writer_index bytes }
    assert (length bytes == size)
    ok (size, has_written c' size)

  pub fill_empty_buffer : Codec → Buffer → M → Result Buffer
  unfolding serialize_to_buffer checksum
  fill_empty_buffer codec b message = do
    assert (readable_bytes b == 0)
    tagged ← append b codec.tag
    (size, filled) ← serialize_to_buffer message tagged
    summed ← append_int32 filled (checksum (contents filled))
    assert (readable_bytes summed == length codec.tag + size + checksum_len)
    prepend summed (store32 (swap32 (readable_bytes summed % 2 ^ 32)))

  pub send : Codec → Bool → Connection → M → Write → Result (Connection × List Action × Buffer)
  unfolding fill_empty_buffer
  send codec in_loop c message w = do
    b ← fill_empty_buffer codec fresh message
    send_buffer in_loop c b w

  parsed : Option M → ErrorCode × Option M
  parsed none = (parse_error, none)
  parsed (some message) = (no_error, some message)

  -- The variable `error` at the end of parse, and the message if it was read.
  pub parse_error_of : Codec → List ℕ → ℕ → ErrorCode × Option M
  unfolding validate_checksum starts_with parsed
  parse_error_of codec bytes len =
      if validate_checksum bytes len
      then (if starts_with codec.tag bytes
          then parsed (
              lib.parse_from_array
                (take (len - checksum_len - length codec.tag) (drop (length codec.tag) bytes)))
          else (unknown_message_type, none))
      else (no_error, none)

  -- The end of a function whose return statement is missing.
  flows_off_the_end : ErrorCode × Option M → Result (ErrorCode × Option M)
  flows_off_the_end computed = err no_return

  pub parse : Codec → List ℕ → ℕ → Result (ErrorCode × Option M)
  unfolding flows_off_the_end
  parse codec bytes len = flows_off_the_end (parse_error_of codec bytes len)

  -- The test `rawCb_ && !rawCb_(...)`.
  raw_refuses : Option (List ℕ → Bool) → List ℕ → Bool
  raw_refuses none frame = false
  raw_refuses (some raw_cb) frame = not (raw_cb frame)

  deliver : Buffer → ℕ → ErrorCode × Option M → Result (Pass M)
  unfolding same_error
  deliver b len (code, message) =
      if same_error code no_error
      then (retrieve b (header_len + len) >>= λ b'. ok (goes_on (calls_message message ∷ []) b'))
      else ok (ends (calls_error code ∷ []))

  -- A whole frame is in the buffer.
  whole_frame : Codec → Buffer → ℕ → Result (Pass M)
  unfolding raw_refuses deliver parse flows_off_the_end
  whole_frame codec b len =
      if raw_refuses codec.raw_cb (peek_bytes b (header_len + len))
      then (retrieve b (header_len + len) >>= λ b'. ok (goes_on [] b'))
      else (parse codec (drop header_len (peek_bytes b (header_len + len))) len >>= deliver b len)

  frame_of : Codec → Buffer → ℕ → Result (Pass M)
  unfolding whole_frame
  frame_of codec b len =
      if signed_lt max_message_len len || signed_lt len codec.min_message_len
      then ok (ends (calls_error invalid_length ∷ []))
      else (if leb (header_len + len) (readable_bytes b)
          then whole_frame codec b len
          else ok (ends []))

  pub pass : Codec → Buffer → Result (Pass M)
  unfolding frame_of
  pass codec b =
      if leb (max_message_len + header_len) (readable_bytes b)
      then (peek_int32 b >>= frame_of codec b)
      else ok (ends [])

  prepend_calls : List (Call M) → Option (Outcome M) → Option (Outcome M)
  prepend_calls before none = none
  prepend_calls before (some o) = some (o >>= λ r. ok (before ++ r.0, r.1))

  follow : (Buffer → Option (Outcome M)) → Buffer → Result (Pass M) → Option (Outcome M)
  unfolding prepend_calls
  follow rest b (err fault) = some (err fault)
  follow rest b (ok (ends calls)) = some (ok (calls, b))
  follow rest b (ok (goes_on calls b')) = prepend_calls calls (rest b')

  -- `none` if the fuel was used up.
  pub on_message : ℕ → Codec → Buffer → Option (Outcome M)
  unfolding pass follow
  on_message zero codec b = none
  on_message (suc fuel) codec b = follow (on_message fuel codec) b (pass codec b)

-- A null connection is `none`.
pub default_error_callback :
    Bool → Option Connection → ErrorCode → Result (Option Connection × List Action)
default_error_callback in_loop none code = ok (none, [])
default_error_callback in_loop (some c) code =
    if same_state c.state connected
    then (shutdown in_loop c >>= λ r. ok (some r.0, r.1))
    else ok (some c, [])

-- ===== src/ProtobufCodec/Tests.antt =====
-- Frames on concrete messages: a message is its own bytes, the tag is "SUD0".
use chaonet.Common.{ℕ, ◌+◌, ◌*◌, ◌%◌, ◌≡◌, refl, true, none, some, List, [], ◌∷◌, ok, arith, length}
use chaonet.Buffer.{Buffer, fresh}
use chaonet.Buffer.Layout.{IsValid}
use chaonet.ProtobufCodec.{Library, Codec, create, fill_empty_buffer, on_message}
use chaonet.ProtobufCodec.Frame.{Serializes, Framed, fill_empty_buffer-Framed, length-body, body}
use chaonet.ProtobufCodec.Messages.{Heard, on_message-Heard}

-- zlib's adler32 continued from the two sums of 16 bits.
adler : ℕ → ℕ → List ℕ → ℕ
adler a b [] = b * 65536 + a
adler a b (x ∷ xs) = adler ((a + x) % 65521) ((b + a + x) % 65521) xs

abbrev bytes_library : Library (List ℕ)
bytes_library = record {
  is_initialized = λ m. true;
  byte_size = λ m. length m;
  serialize = λ m. m;
  parse_from_array = λ bytes. some bytes;
  adler32 = λ start bytes. adler start 0 bytes;
}

abbrev tag : List ℕ
tag = 83 ∷ 85 ∷ 68 ∷ 48 ∷ []

abbrev message : List ℕ
message = 10 ∷ 2 ∷ 104 ∷ 105 ∷ []

abbrev codec : Codec
codec = create tag none

message-Serializes : Serializes bytes_library message
message-Serializes = record { initialized = refl; sized = refl; reads_back = refl }

fresh-IsValid : IsValid fresh
fresh-IsValid = omega arith

message_fits : length (body bytes_library codec message) ≡ 12
message_fits = length-body bytes_library codec message

fill_empty_buffer-Framed_example :
    (c : Buffer) × (fill_empty_buffer bytes_library codec fresh message ≡ ok c)
    × Framed bytes_library codec message c
fill_empty_buffer-Framed_example =
    fill_empty_buffer-Framed bytes_library codec fresh message fresh-IsValid refl (omega arith)
      message-Serializes (omega (arith, message_fits)) (omega (arith, message_fits))

on_message-Heard_example : Heard codec fresh (on_message bytes_library 1 codec fresh)
on_message-Heard_example = on_message-Heard bytes_library tag none fresh 0 (omega arith)

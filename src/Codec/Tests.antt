-- ===== src/Codec/Tests.antt =====
-- The value codec on concrete values.
use tc397tools.Prelude.{true, false, [], ◌∷◌, ◌≡◌, ◌≢◌, refl, Bytes, bytes_eq, arith, codes, length}
use tc397tools.Prelude.Result.{ok}
use tc397tools.Prelude.Decimal.{to_string}
use tc397tools.Codec.{
  Floats, is_float_type, encode_value, decode_value, encode_integer, value_bytes,
}
use tc397tools.Codec.Digits.{encode_integer-to_string, encode_integer-length}
use tc397tools.Codec.Signed.{encode_value-decode_value-signed}
use tc397tools.Codec.RoundTrip.{encode_value-decode_value, encode_value-decode_value-long}

-- Floating point that prints nothing and reads the bytes of the text.
abbrev no_floats : Floats
no_floats = record {
  print_double = λ b. [];
  print_float = λ b. [];
  stod = λ t. ok t;
  stof = λ t. ok t;
}

abbrev uint8 : Bytes
uint8 = codes "uint8_t"

abbrev uint32 : Bytes
uint32 = codes "uint32_t"

encode_value-decode_value_example :
    encode_value no_floats (decode_value no_floats (0x39 ∷ 0x30 ∷ 0 ∷ 0 ∷ []) uint32 false) uint32 4
    ≡ ok (0x39 ∷ 0x30 ∷ 0 ∷ 0 ∷ [])
unfolding is_float_type bytes_eq to_string
encode_value-decode_value_example =
    encode_value-decode_value no_floats (0x39 ∷ 0x30 ∷ 0 ∷ 0 ∷ []) uint32 (omega arith)
      (omega arith) (omega arith) refl (omega arith)

abbrev int16 : Bytes
int16 = codes "int16_t"

-- -99
encode_value-decode_value-signed_example :
    encode_value no_floats (decode_value no_floats (0x9d ∷ 0xff ∷ []) int16 true) int16 2
    ≡ ok (0x9d ∷ 0xff ∷ [])
unfolding is_float_type bytes_eq to_string decode_value tc397tools.Codec.decode_integer
    tc397tools.Codec.signed_to_string tc397tools.Codec.sign_extend tc397tools.Codec.bytes_to_uint
encode_value-decode_value-signed_example =
    encode_value-decode_value-signed no_floats (0x9d ∷ 0xff ∷ []) int16 (omega arith) (omega arith)
      (omega arith) refl (omega arith)

encode_value-decode_value-long_example :
    encode_value no_floats (decode_value no_floats (255 ∷ []) uint8 false) uint8 1 ≢ ok (255 ∷ [])
unfolding is_float_type bytes_eq to_string
encode_value-decode_value-long_example =
    encode_value-decode_value-long no_floats (255 ∷ []) uint8 (omega arith) (omega arith)
      (omega arith) refl (omega arith) (255 ∷ [])

encode_integer-length_example : length (value_bytes 2 1000) ≡ 2
unfolding to_string
encode_integer-length_example =
    encode_integer-length (to_string 1000) 2 (value_bytes 2 1000)
      (encode_integer-to_string 1000 2 (omega arith) (omega arith))

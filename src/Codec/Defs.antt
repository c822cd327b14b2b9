-- ===== src/Codec/Defs.antt =====
-- The functions of TasGui/src/value_codec.cpp. Numbers in floating point, which the standard library
-- prints and reads, are a parameter.
use tc397tools.Prelude.{
  ℕ, zero, suc, ◌+◌, ◌-◌, ◌*◌, ◌/◌, ◌%◌, ◌^◌, Bool, false, not, ◌&&◌, ◌||◌, Option, none, some, [],
  ◌∷◌, ◌++◌, ltb, leb, ◌==◌, if◌then◌else◌, length, Bytes, codes, bytes_eq, bit_and, bit_or,
}
use tc397tools.Prelude.Result.{Result, ok, err, runtime_error, throw, ◌>>=◌}
use tc397tools.Prelude.Decimal.{to_string}
use tc397tools.Prelude.Stoull.{stoull}

-- `%.10g` and `%.7g` of the bytes of a double and a float; stod and stof as the bytes of their result.
pub record Floats : Type 0 where
  pub print_double : Bytes → Bytes
  pub print_float : Bytes → Bytes
  pub stod : Bytes → Result Bytes
  pub stof : Bytes → Result Bytes

unfoldable pub to_lower : ℕ → ℕ
to_lower c = if leb b'A' c && leb c b'Z' then c + 32 else c

unfoldable pub lower : Bytes → Bytes
unfolding to_lower
lower [] = []
lower (c ∷ text) = to_lower c ∷ lower text

pub data FloatType : Type 0 where
  is_double is_float is_integer : FloatType

unfoldable pub is_float_type : Bytes → ℕ → FloatType
unfolding lower
is_float_type type_name size =
    if bytes_eq (lower type_name) (codes "double") && size == 8
    then is_double
    else if bytes_eq (lower type_name) (codes "float") && size == 4
    then is_float
    else is_integer

-- `for (i = 0; i < data.size() && i < 8; ++i)`; the first argument is 8 - i.
unfoldable pub uint_loop : ℕ → Bytes → ℕ → ℕ → ℕ
uint_loop zero bytes i v = v
uint_loop (suc n) [] i v = v
uint_loop (suc n) (b ∷ bytes) i v = uint_loop n bytes (i + 1) (bit_or v (b * 2 ^ (8 * i) % 2 ^ 64))

unfoldable pub bytes_to_uint : Bytes → ℕ
unfolding uint_loop
bytes_to_uint bytes = uint_loop 8 bytes 0 0

abbrev is_trimmed : ℕ → Bool
is_trimmed c = c == b' ' || c == b'\t' || c == b'\r' || c == b'\n'

unfoldable pub trim_front : Bytes → Bytes
trim_front [] = []
trim_front (c ∷ text) = if is_trimmed c then trim_front text else c ∷ text

unfoldable pub trim_back : Bytes → Bytes
trim_back [] = []
trim_back (c ∷ text) = elim (trim_back text) [
  | [] ↦ if is_trimmed c then [] else c ∷ []
  | ◌∷◌ d rest ↦ c ∷ d ∷ rest
]

unfoldable pub trim : Bytes → Bytes
unfolding trim_front trim_back
trim text = trim_back (trim_front text)

unfoldable pub hex_char : ℕ → ℕ
hex_char d = if ltb d 10 then b'0' + d else b'a' + (d - 10)

-- `%02x`
abbrev hex_byte : ℕ → Bytes
hex_byte b = hex_char (b / 16) ∷ hex_char (b % 16) ∷ []

unfoldable pub to_hex : Bytes → Bytes
unfolding hex_char
to_hex [] = []
to_hex (b ∷ []) = hex_byte b
to_hex (b ∷ c ∷ bytes) = hex_byte b ++ b' ' ∷ to_hex (c ∷ bytes)

-- The 64 bits of the int64_t that the bytes stand for.
unfoldable pub sign_extend : ℕ → ℕ → ℕ
sign_extend size u =
    if ltb (size * 8) 64 && not (bit_and u (2 ^ (size * 8 - 1)) == 0)
    then bit_or u (2 ^ 64 - 2 ^ (size * 8))
    else u

-- `%lld` of 64 bits.
unfoldable pub signed_to_string : ℕ → Bytes
signed_to_string w = if ltb w (2 ^ 63) then to_string w else b'-' ∷ to_string (2 ^ 64 - w)

-- The integer branch of decode_value.
unfoldable pub decode_integer : Bytes → Bool → Bytes
unfolding bytes_to_uint sign_extend signed_to_string
decode_integer bytes is_signed =
    if is_signed && leb (length bytes) 8
    then signed_to_string (sign_extend (length bytes) (bytes_to_uint bytes))
    else to_string (bytes_to_uint bytes)

unfoldable pub decode_value : Floats → Bytes → Bytes → Bool → Bytes
decode_value floats [] type_name is_signed = []
decode_value floats (b ∷ bytes) type_name is_signed =
    elim (is_float_type type_name (length (b ∷ bytes))) [
      | is_double ↦ floats.print_double (b ∷ bytes)
      | is_float ↦ floats.print_float (b ∷ bytes)
      | is_integer ↦ decode_integer (b ∷ bytes) is_signed
    ]

-- The characters that are neither ' ' nor '_'.
unfoldable pub strip : Bytes → Bytes
strip [] = []
strip (c ∷ text) = if c == b' ' || c == b'_' then strip text else c ∷ strip text

unfoldable pub drop_0x : Bytes → Bytes
drop_0x (z ∷ x ∷ text) = if z == b'0' && (x == b'x' || x == b'X') then text else z ∷ x ∷ text
drop_0x text = text

unfoldable pub hexval : ℕ → Option ℕ
hexval c =
    if leb b'0' c && leb c b'9'
    then some (c - b'0')
    else if leb b'a' c && leb c b'f'
    then some (c - b'a' + 10)
    else if leb b'A' c && leb c b'F'
    then some (c - b'A' + 10)
    else none

abbrev pair_byte : Option ℕ → Option ℕ → Result ℕ
pair_byte none lo = throw "invalid hex byte"
pair_byte (some hi) none = throw "invalid hex byte"
pair_byte (some hi) (some lo) = ok (bit_or (hi * 16) lo)

-- The loop over pairs; the text has an even length.
unfoldable pub hex_pairs : Bytes → Result Bytes
hex_pairs (h ∷ l ∷ text) = do
  byte ← pair_byte (hexval h) (hexval l)
  rest ← hex_pairs text
  ok (byte ∷ rest)
hex_pairs text = ok []

abbrev pub pad_even : Bytes → Bytes
pad_even raw = if length raw % 2 == 0 then raw else b'0' ∷ raw

unfoldable pub parse_hex_blob : Bytes → ℕ → Result Bytes
unfolding strip drop_0x hex_pairs
parse_hex_blob text byte_count = do
  bytes ← hex_pairs (pad_even (drop_0x (strip text)))
  if length bytes == byte_count
      then ok bytes
      else err (
          runtime_error (
            codes "hex blob has "
            ++ (to_string (length bytes) ++ (codes " byte(s), expected " ++ to_string byte_count))))

-- `out[i] = (value >> (8 * i)) & 0xFF`, for byte_count values of i.
unfoldable pub value_bytes : ℕ → ℕ → Bytes
value_bytes zero value = []
value_bytes (suc n) value = value % 256 ∷ value_bytes n (value / 256)

-- More digits than the scalar has, so that the text is read as a sequence of bytes.
unfoldable pub looks_like_blob : Bytes → ℕ → Bool
unfolding drop_0x strip
looks_like_blob text byte_count = ltb (byte_count * 2) (length (strip (drop_0x text)))

abbrev pub has_0x : Bytes → Bool
has_0x (z ∷ x ∷ text) = z == b'0' && (x == b'x' || x == b'X')
has_0x text = false

-- The value of a text behind its sign.
abbrev pub magnitude : Bytes → Result ℕ
magnitude body = do (value, rest) ← stoull (if has_0x body then 16 else 10) (drop_0x body); ok value

-- `negative ? -int64_t(magnitude) : magnitude` on 64 bits.
unfoldable pub parse_number : Bytes → Result ℕ
unfolding drop_0x
parse_number [] = magnitude []
parse_number (c ∷ text) =
    if c == b'-' then (do m ← magnitude text; ok ((2 ^ 64 - m) % 2 ^ 64)) else magnitude (c ∷ text)

unfoldable pub encode_integer : Bytes → ℕ → Result Bytes
unfolding looks_like_blob parse_hex_blob parse_number value_bytes
encode_integer text byte_count =
    if looks_like_blob text byte_count
    then parse_hex_blob text byte_count
    else (do value ← parse_number text; ok (value_bytes byte_count value))

unfoldable pub encode_value : Floats → Bytes → Bytes → ℕ → Result Bytes
encode_value floats text_in type_name byte_count = elim (trim text_in) [
  | [] ↦ throw "empty value"
  | ◌∷◌ c text ↦
      if byte_count == 0 || ltb 8 byte_count
      then parse_hex_blob (c ∷ text) byte_count
      else elim (is_float_type type_name byte_count) [
        | is_double ↦ floats.stod (c ∷ text)
        | is_float ↦ floats.stof (c ∷ text)
        | is_integer ↦ encode_integer (c ∷ text) byte_count
      ]
]

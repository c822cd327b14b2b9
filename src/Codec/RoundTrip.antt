-- ===== src/Codec/RoundTrip.antt =====
-- encode_value after decode_value on unsigned integers.
use tc397tools.Prelude.{
  ℕ, zero, suc, ◌+◌, ◌*◌, ◌/◌, ◌%◌, ◌^◌, ◌≤◌, ◌<◌, false, [], ◌∷◌, ◌≡◌, ◌≢◌, refl, sym, ap, ◌∙◌,
  arith, length, All, Bytes, IsByte,
}
use tc397tools.Prelude.Bits.{or_group, two_pow-add}
use tc397tools.Prelude.Result.{ok}
use tc397tools.Prelude.Decimal.{to_string, IsDigit, Starts, to_string-Starts, to_string-IsDigit}
use tc397tools.Reader.Fixed.{le_value, byte_room, add_byte_rest}
use tc397tools.Codec.Defs.{
  Floats, trim, trim_front, trim_back, is_float_type, is_integer, encode_value, decode_value,
  bytes_to_uint, uint_loop, value_bytes, encode_integer, decode_integer,
}
use tc397tools.Codec.Digits.{encode_integer-to_string, encode_integer-long_digits}
use native.Mathlib.Nat.{mod-eq_of_lt, pow-le-pow_right, le_trans}

uint_loop-value :
    (n : ℕ) (bytes : Bytes) (i v : ℕ)
    → All IsByte bytes
    → length bytes ≤ n
    → i + n ≤ 8
    → v < 2 ^ (8 * i)
    → uint_loop n bytes i v ≡ v + le_value bytes * 2 ^ (8 * i)
unfolding uint_loop
uint_loop-value zero [] i v hb hl hn hv = omega arith
uint_loop-value zero (b ∷ bytes) i v hb hl hn hv = absurd (omega arith)
uint_loop-value (suc n) [] i v hb hl hn hv = omega arith
uint_loop-value (suc n) (b ∷ bytes) i v hb hl hn hv =
    let next : 8 * (i + 1) ≡ 8 * i + 8 = omega arith in
    let sum : ℕ = v + b * 2 ^ (8 * i) in
    let room : sum < 2 ^ (8 * i + 8) = byte_room b v (8 * i) hb.0 hv in
    let fits : sum < 2 ^ 64 =
      le_trans room
        (pow-le-pow_right {n = 2} (omega arith) {i = 8 * i + 8} {j = 64} (omega arith)) in
    ap (uint_loop n bytes (i + 1)) (or_group v b (8 * i) hv (omega arith) ∙ mod-eq_of_lt fits)
    ∙ uint_loop-value n bytes (i + 1) sum hb.1 (omega arith) (omega arith) (rw next room)
    ∙ add_byte_rest b v (le_value bytes) i

pub bytes_to_uint-value :
    (bytes : Bytes) → All IsByte bytes → length bytes ≤ 8 → bytes_to_uint bytes ≡ le_value bytes
unfolding bytes_to_uint
bytes_to_uint-value bytes hb hl =
    uint_loop-value 8 bytes 0 0 hb hl (omega arith) (omega arith) ∙ omega arith

pub value_bytes-le_value :
    (bytes : Bytes) → All IsByte bytes → value_bytes (length bytes) (le_value bytes) ≡ bytes
unfolding value_bytes
value_bytes-le_value [] h = refl
value_bytes-le_value (b ∷ bytes) h =
    let low : (b + 256 * le_value bytes) % 256 ≡ b = omega arith in
    let high : (b + 256 * le_value bytes) / 256 ≡ le_value bytes = omega arith in
    rw (low, high) (ap (◌∷◌ b) (value_bytes-le_value bytes h.1))

pub le_value_lt : (bytes : Bytes) → All IsByte bytes → le_value bytes < 2 ^ (8 * length bytes)
le_value_lt [] h = omega arith
le_value_lt (b ∷ bytes) h =
    let next : 8 * length (b ∷ bytes) ≡ 8 + 8 * length bytes = omega arith in
    rw (next, two_pow-add 8 (8 * length bytes)) (omega (arith, le_value_lt bytes h.1))

le_value_bound : (bytes : Bytes) → All IsByte bytes → length bytes ≤ 8 → le_value bytes < 2 ^ 64
le_value_bound bytes h l =
    le_trans (le_value_lt bytes h)
      (pow-le-pow_right {n = 2} (omega arith) {i = 8 * length bytes} {j = 64} (omega arith))

trim_front-digits : (text : Bytes) → All IsDigit text → trim_front text ≡ text
unfolding trim_front
trim_front-digits [] h = refl
trim_front-digits (c ∷ text) h = ground arith

pub trim_back-digits : (text : Bytes) → All IsDigit text → trim_back text ≡ text
unfolding trim_back
trim_back-digits [] h = refl
trim_back-digits (c ∷ []) h = ground arith
trim_back-digits (c ∷ d ∷ text) h = rw (trim_back-digits (d ∷ text) h.1) refl

pub trim-digits : (text : Bytes) → All IsDigit text → trim text ≡ text
unfolding trim
trim-digits text h = rw (trim_front-digits text h) (trim_back-digits text h)

pub encode_value-trimmed :
    (floats : Floats) (text_in type_name : Bytes) (byte_count c : ℕ) (text : Bytes)
    → trim text_in ≡ c ∷ text
    → 1 ≤ byte_count
    → byte_count ≤ 8
    → is_float_type type_name byte_count ≡ is_integer
    → encode_value floats text_in type_name byte_count ≡ encode_integer (c ∷ text) byte_count
unfolding encode_value
encode_value-trimmed floats text_in type_name byte_count c text trimmed low high kind = ground arith

pub encode_value-integer :
    (floats : Floats) (text type_name : Bytes) (byte_count : ℕ)
    → Starts text
    → All IsDigit text
    → 1 ≤ byte_count
    → byte_count ≤ 8
    → is_float_type type_name byte_count ≡ is_integer
    → encode_value floats text type_name byte_count ≡ encode_integer text byte_count
encode_value-integer floats text type_name byte_count (c, rest, same, digit) h low high kind =
    let trimmed : trim text ≡ c ∷ rest = trim-digits text h ∙ same in
    encode_value-trimmed floats text type_name byte_count c rest trimmed low high kind
    ∙ ap (λ (t : Bytes). encode_integer t byte_count) (sym same)

decode_value-unsigned :
    (floats : Floats) (bytes type_name : Bytes)
    → All IsByte bytes
    → 1 ≤ length bytes
    → length bytes ≤ 8
    → is_float_type type_name (length bytes) ≡ is_integer
    → decode_value floats bytes type_name false ≡ to_string (le_value bytes)
unfolding decode_value decode_integer
decode_value-unsigned floats [] type_name hb low high kind = absurd (omega arith)
decode_value-unsigned floats (b ∷ bytes) type_name hb low high kind =
    rw (kind, decode_value) ((ap to_string (bytes_to_uint-value (b ∷ bytes) hb high)))

-- Writing back the text that decode_value shows for an unsigned integer of one to eight bytes gives the
-- bytes again, where the text has at most two decimal digits for each byte.
pub encode_value-decode_value :
    (floats : Floats) (bytes type_name : Bytes)
    → All IsByte bytes
    → 1 ≤ length bytes
    → length bytes ≤ 8
    → is_float_type type_name (length bytes) ≡ is_integer
    → length (to_string (le_value bytes)) ≤ length bytes * 2
    → encode_value floats (decode_value floats bytes type_name false) type_name (length bytes)
      ≡ ok bytes
encode_value-decode_value floats bytes type_name hb low high kind short =
    rw (decode_value-unsigned floats bytes type_name hb low high kind) (
      encode_value-integer floats _ type_name _ (to_string-Starts _) (to_string-IsDigit _) low high
        kind
      ∙ encode_integer-to_string _ (length bytes) (le_value_bound bytes hb high) short
      ∙ ap ok (value_bytes-le_value bytes hb))

-- Where the text that decode_value shows for such an integer has more than two decimal digits for each
-- byte, encode_value refuses it.
pub encode_value-decode_value-long :
    (floats : Floats) (bytes type_name : Bytes)
    → All IsByte bytes
    → 1 ≤ length bytes
    → length bytes ≤ 8
    → is_float_type type_name (length bytes) ≡ is_integer
    → length bytes * 2 < length (to_string (le_value bytes))
    → (out : Bytes)
    → encode_value floats (decode_value floats bytes type_name false) type_name (length bytes)
      ≢ ok out
encode_value-decode_value-long floats bytes type_name hb low high kind long out e =
    encode_integer-long_digits (to_string (le_value bytes)) (length bytes) (to_string-IsDigit _)
      long out
      (sym (
          ap (λ (t : Bytes). encode_value floats t type_name (length bytes))
            (decode_value-unsigned floats bytes type_name hb low high kind)
          ∙ encode_value-integer floats _ type_name _ (to_string-Starts _) (to_string-IsDigit _) low
              high kind)
        ∙ e)

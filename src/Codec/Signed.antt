-- ===== src/Codec/Signed.antt =====
-- encode_value of TasGui/src/value_codec.cpp after its decode_value, on signed integers.
use tc397tools.Prelude.{
  ℕ, zero, suc, ◌+◌, ◌-◌, ◌*◌, ◌/◌, ◌%◌, ◌^◌, ◌≤◌, ◌<◌, true, not, ◌&&◌, [], ◌∷◌, ◌≡◌, refl, sym,
  ap, subst, ◌∙◌, arith, length, All, Bytes, IsByte, Bool, if◌then◌else◌, bit_and, bit_or, ltb,
  ◌==◌, Bool-cases, inl, inr, ge→ltb, le→leb, ltb→ge,
}
use tc397tools.Prelude.Bits.{bit_or_disjoint, two_pow-add, two_pow-pos}
use tc397tools.Prelude.Result.{ok}
use tc397tools.Prelude.Decimal.{to_string, IsDigit, to_string-Starts, to_string-IsDigit}
use tc397tools.Reader.Fixed.{le_value}
use tc397tools.Codec.Defs.{
  Floats, trim, trim_front, trim_back, is_float_type, is_integer, encode_value, decode_value,
  sign_extend, signed_to_string, value_bytes, encode_integer, decode_integer, looks_like_blob,
  drop_0x, strip, parse_number,
}
use tc397tools.Codec.Digits.{encode_integer-to_string, magnitude-to_string, strip-digits}
use tc397tools.Codec.RoundTrip.{
  trim_back-digits, encode_value-trimmed, encode_value-integer, bytes_to_uint-value, le_value_lt,
  value_bytes-le_value,
}
use native.Mathlib.Nat.{pow-le-pow_right, le_trans}

-- What lies above the bytes taken does not show in them.
value_bytes-above : (n v k : ℕ) → value_bytes n (v + k * 2 ^ (8 * n)) ≡ value_bytes n v
unfolding value_bytes
value_bytes-above zero v k = refl
value_bytes-above (suc n) v k =
    let next : 8 * suc n ≡ 8 + 8 * n = omega arith in
    let above : k * 2 ^ (8 * suc n) ≡ 256 * (k * 2 ^ (8 * n)) =
      omega (arith, ap (λ (t : ℕ). k * t) (ap (λ (t : ℕ). 2 ^ t) next ∙ two_pow-add 8 (8 * n))) in
    let low : (v + k * 2 ^ (8 * suc n)) % 256 ≡ v % 256 = omega arith in
    let high : (v + k * 2 ^ (8 * suc n)) / 256 ≡ v / 256 + k * 2 ^ (8 * n) = omega arith in
    rw (low, high) (ap (◌∷◌ (v % 256)) (value_bytes-above n (v / 256) k))

pow_bound : (n v : ℕ) → v < 2 ^ (8 * n) → n ≤ 8 → v < 2 ^ 64
pow_bound n v h l =
    le_trans h (pow-le-pow_right {n = 2} (omega arith) {i = 8 * n} {j = 64} (omega arith))

sign_extend-value :
    (n v : ℕ)
    → v < 2 ^ (8 * n)
    → n ≤ 8
    → (sign_extend n v < 2 ^ 64) × (value_bytes n (sign_extend n v) ≡ value_bytes n v)
unfolding sign_extend
sign_extend-value n v h l =
    elim (Bool-cases (ltb (n * 8) 64 && not (bit_and v (2 ^ (n * 8 - 1)) == 0))) [
      | inr kept ↦ rw kept (pow_bound n v h l, refl)
      | inl negative ↦
          let same : n * 8 ≡ 8 * n = omega arith in
          let q : ℕ = 2 ^ (64 - 8 * n) - 1 in
          let whole : 2 ^ 64 ≡ 2 ^ (64 - 8 * n) * 2 ^ (8 * n) =
            ap (λ (t : ℕ). 2 ^ t) {x = 64} (omega arith) ∙ two_pow-add (64 - 8 * n) (8 * n) in
          let one : 2 ^ (64 - 8 * n) ≡ q + 1 = omega (arith, two_pow-pos (64 - 8 * n)) in
          let split : 2 ^ 64 ≡ q * 2 ^ (8 * n) + 2 ^ (8 * n) =
            whole ∙ ap (λ (t : ℕ). t * 2 ^ (8 * n)) one ∙ omega arith in
          let ones : 2 ^ 64 - 2 ^ (n * 8) ≡ q * 2 ^ (8 * n) =
            ap (λ (t : ℕ). 2 ^ 64 - 2 ^ t) same ∙ omega (arith, split) in
          let extended : bit_or v (2 ^ 64 - 2 ^ (n * 8)) ≡ v + q * 2 ^ (8 * n) =
            ap (bit_or v) ones ∙ bit_or_disjoint (8 * n) v q h in
          rw (negative, extended) (omega (arith, split), value_bytes-above n v q)
    ]

trim-minus :
    (c : ℕ) (text : Bytes) → All IsDigit (c ∷ text) → trim (b'-' ∷ c ∷ text) ≡ b'-' ∷ c ∷ text
unfolding trim trim_front trim_back
trim-minus c text h = rw (trim_back-digits (c ∷ text) h) refl

looks_like_blob-minus :
    (text : Bytes) (byte_count : ℕ)
    → All IsDigit text
    → looks_like_blob (b'-' ∷ text) byte_count ≡ ltb (byte_count * 2) (length (b'-' ∷ text))
unfolding looks_like_blob drop_0x strip
looks_like_blob-minus [] byte_count h = refl
looks_like_blob-minus (c ∷ text) byte_count h = rw (strip-digits (c ∷ text) h) refl

-- The low 64 bits of a number below 0 are read back from its text.
encode_integer-minus :
    (w byte_count : ℕ)
    → w < 2 ^ 64
    → 2 ^ 63 ≤ w
    → length (b'-' ∷ to_string (2 ^ 64 - w)) ≤ byte_count * 2
    → encode_integer (b'-' ∷ to_string (2 ^ 64 - w)) byte_count ≡ ok (value_bytes byte_count w)
unfolding encode_integer parse_number
encode_integer-minus w byte_count small negative short =
    let m : ℕ = 2 ^ 64 - w in
    let plain = looks_like_blob-minus _ byte_count (to_string-IsDigit m) ∙ ge→ltb _ _ short in
    let back : (2 ^ 64 - (2 ^ 64 - w)) % 2 ^ 64 ≡ w = omega arith in
    rw (plain, magnitude-to_string m (omega arith), back) refl

encode_value-signed :
    (floats : Floats) (type_name : Bytes) (byte_count w : ℕ)
    → 1 ≤ byte_count
    → byte_count ≤ 8
    → is_float_type type_name byte_count ≡ is_integer
    → w < 2 ^ 64
    → length (signed_to_string w) ≤ byte_count * 2
    → encode_value floats (signed_to_string w) type_name byte_count ≡ ok (value_bytes byte_count w)
unfolding signed_to_string
encode_value-signed floats type_name byte_count w low high kind small short =
    elim (Bool-cases (ltb w (2 ^ 63))) [
      | inl positive ↦
          let text =
            ap (λ (b : Bool). length (if b then to_string w else b'-' ∷ to_string (2 ^ 64 - w)))
              (sym positive) in
          rw positive (
            encode_value-integer floats _ type_name _ (to_string-Starts w) (to_string-IsDigit w) low
              high kind
            ∙ encode_integer-to_string w byte_count small (omega (arith, text, short)))
      | inr negative ↦
          let text =
            ap (λ (b : Bool). length (if b then to_string w else b'-' ∷ to_string (2 ^ 64 - w)))
              (sym negative) in
          let (c, rest, same, digit) = to_string-Starts (2 ^ 64 - w) in
          let whole : trim (b'-' ∷ to_string (2 ^ 64 - w)) ≡ b'-' ∷ to_string (2 ^ 64 - w) =
            ap (λ (t : Bytes). trim (b'-' ∷ t)) same
            ∙ trim-minus c rest (subst (All IsDigit) same (to_string-IsDigit (2 ^ 64 - w)))
            ∙ ap (◌∷◌ b'-') (sym same) in
          rw negative (
            encode_value-trimmed floats _ type_name byte_count b'-' _ whole low high kind
            ∙ encode_integer-minus w byte_count small (ltb→ge w _ negative)
                (omega (arith, text, short)))
    ]

decode_value-signed :
    (floats : Floats) (bytes type_name : Bytes)
    → All IsByte bytes
    → 1 ≤ length bytes
    → length bytes ≤ 8
    → is_float_type type_name (length bytes) ≡ is_integer
    → decode_value floats bytes type_name true
      ≡ signed_to_string (sign_extend (length bytes) (le_value bytes))
unfolding decode_value decode_integer
decode_value-signed floats [] type_name hb low high kind = absurd (omega arith)
decode_value-signed floats (b ∷ bytes) type_name hb low high kind =
    rw (kind, decode_value, le→leb (length (b ∷ bytes)) 8 high)
      (ap (λ (v : ℕ). signed_to_string (sign_extend (length (b ∷ bytes)) v))
        (bytes_to_uint-value (b ∷ bytes) hb high))

-- Writing back the text that decode_value shows for a signed integer of one to eight bytes gives the
-- bytes again, where the text, its sign included, has at most two characters for each byte.
pub encode_value-decode_value-signed :
    (floats : Floats) (bytes type_name : Bytes)
    → All IsByte bytes
    → 1 ≤ length bytes
    → length bytes ≤ 8
    → is_float_type type_name (length bytes) ≡ is_integer
    → length (decode_value floats bytes type_name true) ≤ length bytes * 2
    → encode_value floats (decode_value floats bytes type_name true) type_name (length bytes)
      ≡ ok bytes
encode_value-decode_value-signed floats bytes type_name hb low high kind short =
    let shown = decode_value-signed floats bytes type_name hb low high kind in
    let (small, same) =
      sign_extend-value (length bytes) (le_value bytes) (le_value_lt bytes hb) high in
    rw shown (
      encode_value-signed floats type_name (length bytes) _ low high kind small
        (subst (λ (t : Bytes). length t ≤ length bytes * 2) shown short)
      ∙ ap ok (same ∙ value_bytes-le_value bytes hb))

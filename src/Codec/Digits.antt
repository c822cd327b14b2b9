-- ===== src/Codec/Digits.antt =====
-- encode_value on decimal digits: the texts it reads as numbers, and those it takes for hex bytes.
use tc397tools.Prelude.{
  ℕ, zero, suc, ◌+◌, ◌-◌, ◌*◌, ◌/◌, ◌%◌, ◌^◌, ◌≤◌, ◌<◌, false, [], ◌∷◌, ◌≡◌, ◌≢◌, refl, sym, ap,
  subst, ◌∙◌, arith, length, All, Bytes, ltb, ◌==◌, Bool-cases, inl, inr, lt→ltb, ge→ltb,
}
use tc397tools.Prelude.Result.{Result-cases, ok}
use tc397tools.Prelude.Decimal.{
  to_string, IsDigit, Starts, to_string-Starts, to_string-IsDigit, reader-to_string,
}
use tc397tools.Prelude.Stoull.{
  stoull, read_digits, digit_value, skip_space, skip_prefix, unsigned_value,
}
use tc397tools.Codec.Defs.{
  value_bytes, strip, drop_0x, looks_like_blob, pad_even, has_0x, magnitude, parse_hex_blob,
  hex_pairs, parse_number, encode_integer,
}
use native.Mathlib.Nat.{mod-zero}
use mathlib.Core.List.{append-nil}

-- A text of decimal digits has no blank, no `_` and no `0x`.
pub strip-digits : (text : Bytes) → All IsDigit text → strip text ≡ text
unfolding strip
strip-digits [] h = refl
strip-digits (c ∷ text) h = ground (arith, strip-digits text h.1)

drop_0x-digits : (text : Bytes) → All IsDigit text → drop_0x text ≡ text
unfolding drop_0x
drop_0x-digits [] h = refl
drop_0x-digits (c ∷ []) h = refl
drop_0x-digits (c ∷ d ∷ text) h = ground arith

length-hex_pairs : (text bytes : Bytes) → hex_pairs text ≡ ok bytes → length bytes ≡ length text / 2
unfolding hex_pairs
length-hex_pairs [] bytes e = ground arith
length-hex_pairs (c ∷ []) bytes e = ground arith
length-hex_pairs (c ∷ d ∷ text) bytes e = elim (Result-cases (hex_pairs text)) [
  | inl (tail, r) ↦ ground (arith, length-hex_pairs text tail r)
  | inr other ↦ absurd (ground arith)
]

parse_hex_blob-pairs :
    (text : Bytes) (byte_count : ℕ) (bytes : Bytes)
    → parse_hex_blob text byte_count ≡ ok bytes
    → (hex_pairs (pad_even (drop_0x (strip text))) ≡ ok bytes) × (length bytes ≡ byte_count)
unfolding parse_hex_blob
parse_hex_blob-pairs text byte_count bytes e =
    elim (Result-cases (hex_pairs (pad_even (drop_0x (strip text))))) [
      | inl (tail, r) ↦ ground arith
      | inr other ↦ absurd (ground arith)
    ]

length-value_bytes : (n v : ℕ) → length (value_bytes n v) ≡ n
unfolding value_bytes
length-value_bytes zero v = refl
length-value_bytes (suc n) v = omega (arith, length-value_bytes n (v / 256))

-- An encoded integer has exactly the number of bytes that was asked for, however the text is read.
pub encode_integer-length :
    (text : Bytes) (byte_count : ℕ) (bytes : Bytes)
    → encode_integer text byte_count ≡ ok bytes
    → length bytes ≡ byte_count
unfolding encode_integer
encode_integer-length text byte_count bytes e =
    elim (Bool-cases (looks_like_blob text byte_count)) [
      | inl blob ↦ (parse_hex_blob-pairs text byte_count bytes (ground arith)).1
      | inr plain ↦ elim (Result-cases (parse_number text)) [
        | inl (v, r) ↦ ground (arith, length-value_bytes byte_count v)
        | inr other ↦ absurd (ground arith)
      ]
    ]

looks_like_blob-digits :
    (text : Bytes) (byte_count : ℕ)
    → All IsDigit text
    → looks_like_blob text byte_count ≡ ltb (byte_count * 2) (length text)
unfolding looks_like_blob
looks_like_blob-digits text byte_count h = rw (drop_0x-digits text h, strip-digits text h) refl

length-pad_even :
    (text : Bytes) → (length text ≤ length (pad_even text)) × (length (pad_even text) % 2 ≡ 0)
length-pad_even text = elim (Bool-cases (length text % 2 == 0)) [
  | inl even ↦ rw even ground arith
  | inr odd ↦ rw odd ground arith
]

half_exceeds : (n m p : ℕ) → m * 2 < n → n ≤ p → p % 2 ≡ 0 → m < p / 2
half_exceeds n m p h l e = omega arith

-- Read as a blob, digits give about half as many bytes.
blob_of_digits :
    (text : Bytes) (byte_count : ℕ) (bytes : Bytes)
    → All IsDigit text
    → byte_count * 2 < length text
    → parse_hex_blob text byte_count ≢ ok bytes
blob_of_digits text byte_count bytes h long e =
    let raw : drop_0x (strip text) ≡ text = rw (strip-digits text h) (drop_0x-digits text h) in
    let (pairs, exact) = parse_hex_blob-pairs text byte_count bytes e in
    let size : length bytes ≡ length (pad_even text) / 2 =
      length-hex_pairs _ bytes pairs ∙ ap (λ (t : Bytes). length (pad_even t) / 2) raw in
    let (longer, even) = length-pad_even text in
    let room = half_exceeds (length text) byte_count (length (pad_even text)) long longer even in
    omega (arith, room, size, exact)

-- A decimal text with more digits than the scalar has hex digits is refused, whatever its value.
pub encode_integer-long_digits :
    (text : Bytes) (byte_count : ℕ)
    → All IsDigit text
    → byte_count * 2 < length text
    → (bytes : Bytes) → encode_integer text byte_count ≢ ok bytes
unfolding encode_integer
encode_integer-long_digits text byte_count h long bytes e =
    elim (Bool-cases (looks_like_blob text byte_count)) [
      | inl blob ↦ ground (arith, blob_of_digits text byte_count bytes h)
      | inr plain ↦ absurd (ground (arith, looks_like_blob-digits text byte_count h))
    ]

digit_value-digit : (d : ℕ) → d < 10 → digit_value (48 + d) ≡ d
unfolding digit_value
digit_value-digit d h = ground arith

read_digits-step :
    (v d : ℕ) (rest : Bytes)
    → d < 10
    → read_digits 10 ((48 + d) ∷ rest) v ≡ read_digits 10 rest ((v * 10 + d) % 0)
unfolding read_digits
read_digits-step v d rest h = rw (digit_value-digit d h, lt→ltb d 10 h, mod-zero (v * 10 + d)) refl

read_digits-to_string : (n : ℕ) → n < 2 ^ 64 → read_digits 10 (to_string n) 0 ≡ (n, [])
unfolding read_digits
read_digits-to_string n small =
    ap (λ (text : Bytes). read_digits 10 text 0) (sym (append-nil (to_string n)))
    ∙ reader-to_string (λ (v : ℕ) (text : Bytes). read_digits 10 text v) 0 read_digits-step n []
        (omega arith)
    ∙ rw (mod-zero n) refl

skip_prefix-10 : (text : Bytes) → skip_prefix 10 text ≡ text
skip_prefix-10 [] = refl
skip_prefix-10 (z ∷ []) = refl
skip_prefix-10 (z ∷ x ∷ rest) = refl

unsigned_value-digits :
    (c : ℕ) (rest : Bytes) (value : ℕ)
    → IsDigit c
    → value < 2 ^ 64
    → read_digits 10 (c ∷ rest) 0 ≡ (value, [])
    → unsigned_value 10 false (c ∷ rest) ≡ ok (value, [])
unfolding unsigned_value
unsigned_value-digits c rest value digit small e =
    let first : digit_value c ≡ c - 48 = ground (arith, digit_value-digit (c - 48)) in
    rw (skip_prefix-10 (c ∷ rest), e, first, lt→ltb (c - 48) 10 (omega arith), lt→ltb value _ small)
      refl

-- Decimal digits have no white space and no sign in front.
stoull-digits :
    (c : ℕ) (rest : Bytes) (value : ℕ)
    → IsDigit c
    → value < 2 ^ 64
    → read_digits 10 (c ∷ rest) 0 ≡ (value, [])
    → stoull 10 (c ∷ rest) ≡ ok (value, [])
unfolding stoull skip_space
stoull-digits c rest value digit small e = ground (arith, unsigned_value-digits c rest value)

has_0x-digits : (text : Bytes) → All IsDigit text → has_0x text ≡ false
has_0x-digits [] h = refl
has_0x-digits (c ∷ []) h = refl
has_0x-digits (c ∷ d ∷ text) h = ground arith

magnitude-digits :
    (c : ℕ) (rest : Bytes) (value : ℕ)
    → All IsDigit (c ∷ rest)
    → value < 2 ^ 64
    → read_digits 10 (c ∷ rest) 0 ≡ (value, [])
    → magnitude (c ∷ rest) ≡ ok value
magnitude-digits c rest value h small e =
    rw
      (
        has_0x-digits (c ∷ rest) h,
        drop_0x-digits (c ∷ rest) h,
        stoull-digits c rest value h.0 small e,
      )
      refl

parse_number-digits :
    (text : Bytes)
    → Starts text
    → All IsDigit text
    → (value : ℕ) → value < 2 ^ 64
    → read_digits 10 text 0 ≡ (value, [])
    → parse_number text ≡ ok value
unfolding parse_number
parse_number-digits [] (c, rest, same, digit) h value small e = absurd (ground arith)
parse_number-digits (c ∷ rest) start h value small e =
    ground (arith, magnitude-digits c rest value h small e)

pub magnitude-to_string : (n : ℕ) → n < 2 ^ 64 → magnitude (to_string n) ≡ ok n
magnitude-to_string n small =
    let (c, rest, same, digit) = to_string-Starts n in
    ap magnitude same
    ∙ magnitude-digits c rest n (subst (All IsDigit) same (to_string-IsDigit n)) small
        (ap (λ (t : Bytes). read_digits 10 t 0) (sym same) ∙ read_digits-to_string n small)

-- encode_value for integers writes the digits of n as n's bytes, lowest first, where there are
-- not more digits than the scalar has hex digits.
pub encode_integer-to_string :
    (n byte_count : ℕ)
    → n < 2 ^ 64
    → length (to_string n) ≤ byte_count * 2
    → encode_integer (to_string n) byte_count ≡ ok (value_bytes byte_count n)
unfolding encode_integer
encode_integer-to_string n byte_count small short =
    let text : Bytes = to_string n in
    let plain : looks_like_blob (to_string n) byte_count ≡ false =
      looks_like_blob-digits _ byte_count (to_string-IsDigit n) ∙ ge→ltb _ _ short in
    let number : parse_number (to_string n) ≡ ok n =
      parse_number-digits _ (to_string-Starts n) (to_string-IsDigit n) n small
        (read_digits-to_string n small) in
    rw (plain, number) refl

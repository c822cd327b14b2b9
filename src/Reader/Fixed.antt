-- ===== src/Reader/Fixed.antt =====
-- The readers of fixed-width numbers, in bounds and out of bounds.
use tc397tools.Prelude.{
  ℕ, zero, suc, ◌+◌, ◌*◌, ◌%◌, ◌^◌, ◌≤◌, ◌<◌, [], ◌∷◌, ◌≡◌, refl, ap, ◌∙◌, arith, bit_or, length,
  drop, take, All, Bytes, IsByte, if◌then◌else◌, leb, lt→ltb, ge→ltb, Bool-cases, leb→le, leb→gt,
  suc_add_one, inl, inr,
}
use tc397tools.Prelude.Bits.{bit_or_disjoint, or_group, two_pow-add}
use tc397tools.Prelude.Result.{Result, ok, throw}
use tc397tools.Reader.Defs.{at, shl64_lt, read_u16, read_u32, read_uint_loop, read_uint}
use native.Mathlib.Nat.{mul-le-mul_right, mod-eq_of_lt, pow-le-pow_right, le_trans, add-zero}

-- The number that bytes stand for, the lowest first.
abbrev pub le_value : Bytes → ℕ
le_value [] = 0
le_value (b ∷ bs) = b + 256 * le_value bs

-- The byte at an index below the length.
record Found (bytes : Bytes) (i : ℕ) : Type 0 where
  byte : ℕ
  is_byte : byte < 256
  is_at : at bytes i ≡ ok byte
  splits : drop i bytes ≡ byte ∷ drop (i + 1) bytes

found : (bytes : Bytes) (i : ℕ) → All IsByte bytes → i < length bytes → Found bytes i
unfolding at
found [] i h lt = absurd (omega arith)
found (b ∷ bs) zero h lt = record { byte = b; is_byte = h.0; is_at = refl; splits = refl }
found (b ∷ bs) (suc i) h lt =
    let f = found bs i h.1 (omega arith) in
    record {
      byte = f.byte;
      is_byte = f.is_byte;
      is_at = f.is_at;
      splits = rw (suc_add_one i) f.splits;
    }

pub byte_room : (b r s : ℕ) → b < 256 → r < 2 ^ s → r + b * 2 ^ s < 2 ^ (s + 8)
byte_room b r s hb hr =
    let room : b * 2 ^ s ≤ 255 * 2 ^ s = mul-le-mul_right (2 ^ s) (omega arith) in
    omega (arith, two_pow-add s 8)

round_uint :
    (n : ℕ) (bytes : Bytes) (off i v : ℕ) (f : Found bytes (off + i))
    → i < 8
    → v < 2 ^ (8 * i)
    → read_uint_loop (suc n) bytes off i v
      ≡ read_uint_loop n bytes off (i + 1) ((v + f.byte * 2 ^ (8 * i)) % 2 ^ 64)
unfolding read_uint_loop
round_uint n bytes off i v f hi hv =
    rw (f.is_at, shl64_lt _ (8 * i) (omega arith), or_group v f.byte (8 * i) hv (omega arith))

-- A byte and what is behind it, from bit 8 * i on.
pub add_byte_rest :
    (b v w i : ℕ) → v + b * 2 ^ (8 * i) + w * 2 ^ (8 * (i + 1)) ≡ v + (b + 256 * w) * 2 ^ (8 * i)
add_byte_rest b v w i =
    let next : 8 * (i + 1) ≡ 8 * i + 8 = omega arith in
    let moved : w * 2 ^ (8 * (i + 1)) ≡ 256 * w * 2 ^ (8 * i) =
      ap (λ (k : ℕ). w * 2 ^ k) next
      ∙ ap (λ (t : ℕ). w * t) (two_pow-add (8 * i) 8)
      ∙ omega arith in
    omega arith

read_uint_loop-value :
    (n : ℕ) (bytes : Bytes) (off i v : ℕ)
    → All IsByte bytes
    → i + n ≤ 8
    → off + i + n ≤ length bytes
    → v < 2 ^ (8 * i)
    → read_uint_loop n bytes off i v
      ≡ ok (v + le_value (take n (drop (off + i) bytes)) * 2 ^ (8 * i))
read_uint_loop-value zero bytes off i v hb hn hl hv = unfold read_uint_loop in ap ok (omega arith)
read_uint_loop-value (suc n) bytes off i v hb hn hl hv =
    let f = found bytes (off + i) hb (omega arith) in
    let next : 8 * (i + 1) ≡ 8 * i + 8 = omega arith in
    let sum : ℕ = v + f.byte * 2 ^ (8 * i) in
    let room : sum < 2 ^ (8 * i + 8) = byte_room _ v (8 * i) f.is_byte hv in
    let fits : sum < 2 ^ 64 =
      le_trans room
        (pow-le-pow_right {n = 2} (omega arith) {i = 8 * i + 8} {j = 64} (omega arith)) in
    let place : off + (i + 1) ≡ off + i + 1 = omega arith in
    round_uint n bytes off i v f (omega arith) hv
    ∙ ap (read_uint_loop n bytes off (i + 1)) (mod-eq_of_lt fits)
    ∙ read_uint_loop-value n bytes off (i + 1) sum hb (omega arith) (omega arith) (rw next room)
    ∙ rw (f.splits, place)
        (ap ok (add_byte_rest f.byte v (le_value (take n (drop (off + i + 1) bytes))) i))

-- What read_uint returns on every buffer of bytes, for widths up to 8 and offsets that do not wrap.
pub read_uint-value :
    (bytes : Bytes) (off size : ℕ)
    → All IsByte bytes
    → size ≤ 8
    → off + size < 2 ^ 64
    → read_uint bytes off size ≡ (
        if leb (off + size) (length bytes)
        then ok (le_value (take size (drop off bytes)))
        else throw "unexpected end of section")
unfolding read_uint
read_uint-value bytes off size hb hs hw = elim (Bool-cases (leb (off + size) (length bytes))) [
  | inl within ↦
      rw (mod-eq_of_lt hw, within, ge→ltb _ _ (leb→le _ _ within))
        (read_uint_loop-value size bytes off 0 0 hb (omega arith)
            (omega (arith, leb→le (off + size) (length bytes) within)) (omega arith)
          ∙ at_start)
  | inr past ↦ rw (mod-eq_of_lt hw, past, lt→ltb _ _ (leb→gt _ _ past))
]
  where
    at_start :
        ◌≡◌ {A = Result ℕ}
          (ok (0 + le_value (take size (drop (off + 0) bytes)) * 2 ^ (8 * 0)))
          (ok (le_value (take size (drop off bytes))))
    at_start =
        ap (λ (k : ℕ). ok (0 + le_value (take size (drop k bytes)) * 2 ^ (8 * 0))) (add-zero off)
        ∙ ap ok (omega arith)

-- read_u16 is read_uint at width 2, errors included, on bytes and at offsets that do not wrap.
read_u16-read_uint :
    (bytes : Bytes) (off : ℕ)
    → All IsByte bytes
    → off + 2 < 2 ^ 64
    → read_u16 bytes off ≡ read_uint bytes off 2
unfolding read_u16
read_u16-read_uint bytes off hb hw = elim (Bool-cases (leb (off + 2) (length bytes))) [
  | inl within ↦
      let fit : off + 2 ≤ length bytes = leb→le _ _ within in
      let f0 = found bytes off hb (omega arith) in
      let f1 = found bytes (off + 1) hb (omega arith) in
      rw
        (
          mod-eq_of_lt hw,
          ge→ltb _ _ fit,
          f0.is_at,
          f1.is_at,
          read_uint-value bytes off 2 hb (omega arith) hw,
          within,
          f0.splits,
          f1.splits,
        )
        (ap ok (bit_or_disjoint 8 f0.byte f1.byte f0.is_byte ∙ omega arith))
  | inr past ↦ rw (
    mod-eq_of_lt hw,
    lt→ltb _ _ (leb→gt _ _ past),
    read_uint-value bytes off 2 hb (omega arith) hw,
    past,
  )
]

-- The four bytes of read_u32, joined by `|`.
join4 :
    (a b c d : ℕ)
    → a < 256
    → b < 256
    → c < 256
    → bit_or (bit_or (bit_or a (b * 2 ^ 8)) (c * 2 ^ 16)) (d * 2 ^ 24)
      ≡ le_value (a ∷ b ∷ c ∷ d ∷ [])
join4 a b c d ha hb hc =
    let two : bit_or a (b * 2 ^ 8) ≡ a + b * 2 ^ 8 = bit_or_disjoint 8 a b ha in
    let three : bit_or (a + b * 2 ^ 8) (c * 2 ^ 16) ≡ a + b * 2 ^ 8 + c * 2 ^ 16 =
      bit_or_disjoint 16 _ c (omega arith) in
    rw (two, three) (bit_or_disjoint 24 (a + b * 2 ^ 8 + c * 2 ^ 16) d (omega arith) ∙ omega arith)

take4 :
    (bytes : Bytes) (off : ℕ) (f0 : Found bytes off) (f1 : Found bytes (off + 1))
    (f2 : Found bytes (off + 2)) (f3 : Found bytes (off + 3))
    → take 4 (drop off bytes) ≡ f0.byte ∷ f1.byte ∷ f2.byte ∷ f3.byte ∷ []
take4 bytes off f0 f1 f2 f3 =
    let p2 : off + 1 + 1 ≡ off + 2 = omega arith in
    let p3 : off + 2 + 1 ≡ off + 3 = omega arith in
    rw (f0.splits, f1.splits, p2, f2.splits, p3, f3.splits)

-- read_u32 is read_uint at width 4, errors included, on bytes and at offsets that do not wrap.
read_u32-read_uint :
    (bytes : Bytes) (off : ℕ)
    → All IsByte bytes
    → off + 4 < 2 ^ 64
    → read_u32 bytes off ≡ read_uint bytes off 4
unfolding read_u32
read_u32-read_uint bytes off hb hw = elim (Bool-cases (leb (off + 4) (length bytes))) [
  | inl within ↦
      let fit : off + 4 ≤ length bytes = leb→le _ _ within in
      let f0 = found bytes off hb (omega arith) in
      let f1 = found bytes (off + 1) hb (omega arith) in
      let f2 = found bytes (off + 2) hb (omega arith) in
      let f3 = found bytes (off + 3) hb (omega arith) in
      rw
        (
          mod-eq_of_lt hw,
          ge→ltb _ _ fit,
          f0.is_at,
          f1.is_at,
          f2.is_at,
          f3.is_at,
          read_uint-value bytes off 4 hb (omega arith) hw,
          within,
          take4 bytes off f0 f1 f2 f3,
        )
        (ap ok (join4 f0.byte f1.byte f2.byte f3.byte f0.is_byte f1.is_byte f2.is_byte))
  | inr past ↦ rw (
    mod-eq_of_lt hw,
    lt→ltb _ _ (leb→gt _ _ past),
    read_uint-value bytes off 4 hb (omega arith) hw,
    past,
  )
]

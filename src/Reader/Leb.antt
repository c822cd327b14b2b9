-- ===== src/Reader/Leb.antt =====
-- What read_uleb does on every input.
use tc397tools.Prelude.{
  ℕ, suc, ◌+◌, ◌*◌, ◌%◌, ◌^◌, ◌≤◌, ◌<◌, true, false, [], ◌∷◌, ◌++◌, ◌≡◌, sym, ap, ◌∙◌, arith,
  bit_and, bit_or, length, length-drop, drop, All, drop-length_append, Bytes, ◌==◌,
}
use tc397tools.Prelude.Bits.{low_group, top_bit, or_group, two_pow-add}
use native.Mathlib.Nat.{mul-le-mul_right, add-zero}
use tc397tools.Prelude.Result.{ok, undefined}
use tc397tools.Reader.Defs.{shl64, shl64_lt, shl64_wide, read_uleb_loop, read_uleb}

-- A byte with the top bit set, behind which the number goes on.
abbrev pub IsCont : ℕ → Type 0
IsCont b = (128 ≤ b) × (b < 256)

-- The number that groups of seven bits, lowest first, stand for.
abbrev pub uleb_value : Bytes → ℕ
uleb_value [] = 0
uleb_value (b ∷ bs) = b % 128 + 128 * uleb_value bs

goes_on : (b : ℕ) → IsCont b → (bit_and b 0x80 == 0) ≡ false
goes_on b h = ground (arith, top_bit b h.1)

ends : (b : ℕ) → b < 128 → (bit_and b 0x80 == 0) ≡ true
ends b h = ground (arith, top_bit b (omega arith))

-- One round below shift 64, on a byte that goes on and on a last byte.
round_more :
    (b : ℕ) (rest : Bytes) (off r s : ℕ)
    → IsCont b
    → r < 2 ^ s
    → s < 64
    → read_uleb_loop (b ∷ rest) off r s
      ≡ read_uleb_loop rest (off + 1) ((r + b % 128 * 2 ^ s) % 2 ^ 64) (s + 7)
unfolding read_uleb_loop
round_more b rest off r s hb hr hs =
    rw (low_group b hb.1, shl64_lt _ s hs, or_group r (b % 128) s hr hs, goes_on b hb)

round_last :
    (b : ℕ) (rest : Bytes) (off r s : ℕ)
    → b < 128
    → r < 2 ^ s
    → s < 64
    → read_uleb_loop (b ∷ rest) off r s ≡ ok ((r + b % 128 * 2 ^ s) % 2 ^ 64, off + 1)
unfolding read_uleb_loop
round_last b rest off r s hb hr hs =
    let small : b < 256 = omega arith in
    rw (low_group b small, shl64_lt _ s hs, or_group r (b % 128) s hr hs, ends b hb)

round_wide :
    (b : ℕ) (rest : Bytes) (off r s : ℕ) → 64 ≤ s → read_uleb_loop (b ∷ rest) off r s ≡ undefined
unfolding read_uleb_loop
round_wide b rest off r s hs = rw (shl64_wide _ s hs)

-- Bits that have been read stay below the next shift, while that is below 64.
add_group-lt : (b r s : ℕ) → r < 2 ^ s → (r + b % 128 * 2 ^ s) % 2 ^ 64 < 2 ^ (s + 7)
add_group-lt b r s hr =
    let room : b % 128 * 2 ^ s ≤ 127 * 2 ^ s = mul-le-mul_right (2 ^ s) (omega arith) in
    omega (arith, two_pow-add s 7)

shift_on : (j : ℕ) → 7 * (j + 1) ≡ 7 * j + 7
shift_on j = omega arith

two_pow_on : (j : ℕ) → 2 ^ (7 * (j + 1)) ≡ 2 ^ (7 * j) * 128
two_pow_on j = ap (λ (k : ℕ). 2 ^ k) (shift_on j) ∙ two_pow-add (7 * j) 7

-- A group and what is behind it, from bit 7 * j on.
add_group_rest :
    (b r v j : ℕ)
    → ((r + b % 128 * 2 ^ (7 * j)) % 2 ^ 64 + v * 2 ^ (7 * (j + 1))) % 2 ^ 64
      ≡ (r + (b % 128 + 128 * v) * 2 ^ (7 * j)) % 2 ^ 64
add_group_rest b r v j =
    let moved : v * 2 ^ (7 * (j + 1)) ≡ 128 * v * 2 ^ (7 * j) =
      ap (λ (t : ℕ). v * t) (two_pow_on j) ∙ omega arith in
    omega arith

-- The loop on a whole number: at most nine bytes in front of the last one.
read_uleb_loop-value :
    (front : Bytes) (last : ℕ) (rest : Bytes) (off r j : ℕ)
    → All IsCont front
    → last < 128
    → length front + j ≤ 9
    → r < 2 ^ (7 * j)
    → read_uleb_loop (front ++ last ∷ rest) off r (7 * j)
      ≡ ok ((r + uleb_value (front ++ last ∷ []) * 2 ^ (7 * j)) % 2 ^ 64, off + length front + 1)
read_uleb_loop-value [] last rest off r j hf hl hj hr =
    round_last last rest off r (7 * j) hl hr (omega arith) ∙ cc (ends_here, add-zero off)
  where
    ends_here :
        (r + last % 128 * 2 ^ (7 * j)) % 2 ^ 64 ≡ (r + (last % 128 + 0) * 2 ^ (7 * j)) % 2 ^ 64
    ends_here = omega arith
read_uleb_loop-value (b ∷ front) last rest off r j hf hl hj hr =
    round_more b (front ++ last ∷ rest) off r (7 * j) hf.0 hr (omega arith)
    ∙ ap (read_uleb_loop (front ++ last ∷ rest) (off + 1) _) (sym (shift_on j))
    ∙ read_uleb_loop-value front last rest (off + 1) ((r + b % 128 * 2 ^ (7 * j)) % 2 ^ 64) (j + 1)
        hf.1 hl (omega arith) (rw (shift_on j) (add_group-lt b r (7 * j) hr))
    ∙ cc (add_group_rest b r (uleb_value (front ++ last ∷ [])) j, position)
  where
    position : off + 1 + length front + 1 ≡ off + suc (length front) + 1
    position = omega arith

-- A number of at most ten bytes, all but the last with their top bit set, at any offset: read_uleb
-- returns the value of its groups modulo 2 ^ 64 and the offset just behind it.
pub read_uleb-value :
    (before front : Bytes) (last : ℕ) (rest : Bytes)
    → All IsCont front
    → last < 128
    → length front ≤ 9
    → read_uleb (before ++ (front ++ last ∷ rest)) (length before)
      ≡ ok (uleb_value (front ++ last ∷ []) % 2 ^ 64, length before + length front + 1)
unfolding read_uleb
read_uleb-value before front last rest hf hl hn =
    ap (λ (t : Bytes). read_uleb_loop t (length before) 0 0)
      (drop-length_append before (front ++ last ∷ rest))
    ∙ read_uleb_loop-value front last rest (length before) 0 0 hf hl (omega arith) (omega arith)
    ∙ cc (plain)
  where
    plain :
        (0 + uleb_value (front ++ last ∷ []) * 2 ^ (7 * 0)) % 2 ^ 64
        ≡ uleb_value (front ++ last ∷ []) % 2 ^ 64
    plain = omega arith

-- Ten bytes that go on, and any byte behind them: the eleventh is shifted by 70.
read_uleb_loop-wide :
    (front rest : Bytes) (last off r j : ℕ)
    → All IsCont front
    → length front + j ≡ 10
    → r < 2 ^ (7 * j)
    → read_uleb_loop (front ++ last ∷ rest) off r (7 * j) ≡ undefined
read_uleb_loop-wide [] rest last off r j hf hn hr = round_wide last rest off r (7 * j) (omega arith)
read_uleb_loop-wide (b ∷ front) rest last off r j hf hn hr =
    round_more b (front ++ last ∷ rest) off r (7 * j) hf.0 hr (omega arith)
    ∙ ap (read_uleb_loop (front ++ last ∷ rest) (off + 1) _) (sym (shift_on j))
    ∙ read_uleb_loop-wide front rest last (off + 1) ((r + b % 128 * 2 ^ (7 * j)) % 2 ^ 64) (j + 1)
        hf.1 (omega arith) (rw (shift_on j) (add_group-lt b r (7 * j) hr))

-- On ten bytes that all go on, followed by any byte, read_uleb shifts by 70: undefined behaviour.
pub read_uleb-wide :
    (before front : Bytes) (last : ℕ) (rest : Bytes)
    → All IsCont front
    → length front ≡ 10
    → read_uleb (before ++ (front ++ last ∷ rest)) (length before) ≡ undefined
unfolding read_uleb
read_uleb-wide before front last rest hf hn =
    ap (λ (t : Bytes). read_uleb_loop t (length before) 0 0)
      (drop-length_append before (front ++ last ∷ rest))
    ∙ read_uleb_loop-wide front rest last (length before) 0 0 hf (omega arith) (omega arith)

-- A successful read moves the offset over one byte at least, and not past the end.
read_uleb_loop-moves :
    (bytes : Bytes) (off r s v off' : ℕ)
    → read_uleb_loop bytes off r s ≡ ok (v, off')
    → (off < off') × (off' ≤ off + length bytes)
unfolding read_uleb_loop shl64
read_uleb_loop-moves [] off r s v off' e = cc
read_uleb_loop-moves (b ∷ rest) off r s v off' e = ground (
  arith,
  read_uleb_loop-moves rest (off + 1) (bit_or r (bit_and b 0x7f * 2 ^ s % 2 ^ 64)) (s + 7) v off',
)

pub read_uleb-moves :
    (bytes : Bytes) (off v off' : ℕ)
    → read_uleb bytes off ≡ ok (v, off')
    → (off < off') × (off' ≤ length bytes)
unfolding read_uleb
read_uleb-moves bytes off v off' e =
    let h = read_uleb_loop-moves (drop off bytes) off 0 0 v off' e in
    omega (arith, h, length-drop {0} off bytes)

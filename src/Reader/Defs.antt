-- ===== src/Reader/Defs.antt =====
-- read_u16 … read_block_bytes of cpp/tc397_elfio_resolver.cpp. `off + n` is computed in size_t, so it
-- wraps at 2 ^ 64; an access past the end of the vector is undefined behaviour, as `operator[]` has it.
use tc397tools.Prelude.{
  ℕ, zero, suc, ◌+◌, ◌-◌, ◌*◌, ◌%◌, ◌^◌, Option, none, some, [], ◌∷◌, bit_and, bit_or, ltb, leb,
  ◌==◌, ◌<◌, ◌≤◌, lt→ltb, ge→ltb, ◌&&◌, not, if◌then◌else◌, length, get_elem?, take, drop, Bytes,
  ◌≡◌,
}
use tc397tools.Prelude.Result.{Result, ok, undefined, throw, ◌>>=◌}

abbrev pub wrap64 : ℕ → ℕ
wrap64 n = n % 2 ^ 64

-- `data[off]`
unfoldable pub at : Bytes → ℕ → Result ℕ
at bytes off = elim (get_elem? bytes off) [ none ↦ undefined | some b ↦ ok b ]

-- `uint64_t(x) << shift`
unfoldable pub shl64 : ℕ → ℕ → Result ℕ
shl64 x shift = if ltb shift 64 then ok (x * 2 ^ shift % 2 ^ 64) else undefined

pub shl64_lt : (x shift : ℕ) → shift < 64 → shl64 x shift ≡ ok (x * 2 ^ shift % 2 ^ 64)
unfolding shl64
shl64_lt x shift h = rw (lt→ltb _ _ h)

pub shl64_wide : (x shift : ℕ) → 64 ≤ shift → shl64 x shift ≡ undefined
unfolding shl64
shl64_wide x shift h = rw (ge→ltb _ _ h)

unfoldable pub read_u16 : Bytes → ℕ → Result ℕ
read_u16 bytes off =
    if ltb (length bytes) (wrap64 (off + 2))
    then throw "unexpected end of section"
    else do b0 ← at bytes off; b1 ← at bytes (off + 1); ok (bit_or b0 (b1 * 2 ^ 8))

unfoldable pub read_u32 : Bytes → ℕ → Result ℕ
read_u32 bytes off =
    if ltb (length bytes) (wrap64 (off + 4)) then throw "unexpected end of section" else do
      b0 ← at bytes off
      b1 ← at bytes (off + 1)
      b2 ← at bytes (off + 2)
      b3 ← at bytes (off + 3)
      ok (bit_or (bit_or (bit_or b0 (b1 * 2 ^ 8)) (b2 * 2 ^ 16)) (b3 * 2 ^ 24))

-- `for (int i = 7; i >= 0; --i)`: the first argument is i + 1.
unfoldable pub read_u64_loop : ℕ → Bytes → ℕ → ℕ → Result ℕ
read_u64_loop zero bytes off value = ok value
read_u64_loop (suc i) bytes off value = do
  b ← at bytes (off + i)
  read_u64_loop i bytes off (bit_or (value * 2 ^ 8 % 2 ^ 64) b)

unfoldable pub read_u64 : Bytes → ℕ → Result ℕ
unfolding read_u64_loop
read_u64 bytes off =
    if ltb (length bytes) (wrap64 (off + 8))
    then throw "unexpected end of section"
    else read_u64_loop 8 bytes off 0

-- `for (size_t i = 0; i < size; ++i)`: the first argument is size - i.
unfoldable pub read_uint_loop : ℕ → Bytes → ℕ → ℕ → ℕ → Result ℕ
read_uint_loop zero bytes off i value = ok value
read_uint_loop (suc n) bytes off i value = do
  b ← at bytes (off + i)
  part ← shl64 b (8 * i)
  read_uint_loop n bytes off (i + 1) (bit_or value part)

unfoldable pub read_uint : Bytes → ℕ → ℕ → Result ℕ
unfolding read_uint_loop
read_uint bytes off size =
    if ltb (length bytes) (wrap64 (off + size))
    then throw "unexpected end of section"
    else read_uint_loop size bytes off 0 0

-- The loop of read_uleb; the list is what stands in `data` from `off` on.
unfoldable pub read_uleb_loop : Bytes → ℕ → ℕ → ℕ → Result (ℕ × ℕ)
read_uleb_loop [] off result shift = throw "unterminated ULEB128"
read_uleb_loop (byte ∷ rest) off result shift = do
  part ← shl64 (bit_and byte 0x7f) shift
  let result' = bit_or result part
  let more = read_uleb_loop rest (off + 1) result' (shift + 7)
  if bit_and byte 0x80 == 0 then ok (result', off + 1) else more

unfoldable pub read_uleb : Bytes → ℕ → Result (ℕ × ℕ)
unfolding read_uleb_loop
read_uleb bytes off = read_uleb_loop (drop off bytes) off 0 0

-- `if ((shift < 64) && (byte & 0x40)) result |= -int64_t(1ULL << shift);` on the bits of `result`. The
-- negation of the least int64_t, at shift 63, is undefined.
unfoldable pub sign_fill : ℕ → ℕ → ℕ → Result ℕ
sign_fill result shift byte =
    if ltb shift 64 && not (bit_and byte 0x40 == 0)
    then if shift == 63 then undefined else ok (bit_or result (2 ^ 64 - 2 ^ shift))
    else ok result

-- `int64_t(x) << shift`, which is undefined where the value does not fit into 64 bits.
unfoldable pub shl_signed : ℕ → ℕ → Result ℕ
shl_signed x shift =
    if ltb shift 64 && ltb (x * 2 ^ shift) (2 ^ 64) then ok (x * 2 ^ shift) else undefined

-- The loop of read_sleb. An int64_t is its 64 bits.
unfoldable pub read_sleb_loop : Bytes → ℕ → ℕ → ℕ → Result (ℕ × ℕ)
unfolding sign_fill shl_signed
read_sleb_loop [] off result shift = throw "unterminated SLEB128"
read_sleb_loop (byte ∷ rest) off result shift = do
  part ← shl_signed (bit_and byte 0x7f) shift
  let result' = bit_or result part
  let more = read_sleb_loop rest (off + 1) result' (shift + 7)
  let last : Result (ℕ × ℕ) = (do filled ← sign_fill result' (shift + 7) byte; ok (filled, off + 1))
  if bit_and byte 0x80 == 0 then last else more

unfoldable pub read_sleb : Bytes → ℕ → Result (ℕ × ℕ)
unfolding read_sleb_loop
read_sleb bytes off = read_sleb_loop (drop off bytes) off 0 0

-- The bytes before the first 0, and whether there is one.
unfoldable pub scan_cstr : Bytes → Option Bytes
scan_cstr [] = none
scan_cstr (c ∷ rest) =
    let tail = scan_cstr rest in
    if c == 0 then some [] else elim tail [ none ↦ none | some text ↦ some (c ∷ text) ]

unfoldable pub read_cstr : Bytes → ℕ → Result (Bytes × ℕ)
unfolding scan_cstr
read_cstr bytes off = elim (scan_cstr (drop off bytes)) [
  | none ↦ throw "unterminated DW_FORM_string"
  | some text ↦ ok (text, off + length text + 1)
]

-- The iterators must lie in the vector: `begin() + off + len` past the end is undefined.
unfoldable pub read_block_bytes : Bytes → ℕ → ℕ → Result (Bytes × ℕ)
read_block_bytes bytes off len =
    if ltb (length bytes) (wrap64 (off + len))
    then throw "unexpected end of DW_FORM_block"
    else if leb (off + len) (length bytes)
    then ok (take len (drop off bytes), off + len)
    else undefined

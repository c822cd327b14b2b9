-- ===== src/Dwarf/Attributes.antt =====
-- What read_attr of DwarfResolver reads ends, and not before the offset it starts at.
use tc397tools.Prelude.{
  ◌^◌, ◌&&◌, ◌-◌, not, ℕ, zero, suc, ◌+◌, ◌*◌, ◌≤◌, ◌<◌, ◌||◌, none, some, List, [], ◌∷◌, ◌≡◌, refl,
  arith, length, get_elem?, drop, Bytes, ltb, ◌==◌, bit_and, bit_or, Option-cases, inl, inr, ◌++◌,
  codes,
}
use tc397tools.Prelude.Result.{Result, ok, undefined, throw, runtime_error, ◌>>=◌}
use tc397tools.Prelude.Ends.{
  Ends, returns, throws, breaks, Halts, ◌⟫◌, Ends-if, weaken, of_ne_stuck,
}
use tc397tools.Prelude.Table.{lookup, insert}
use tc397tools.Reader.{
  at, shl64, read_u16, read_u32, read_uint, read_uint_loop, read_uleb, read_sleb, read_sleb_loop,
  shl_signed, sign_fill, read_cstr, scan_cstr, read_block_bytes,
}
use tc397tools.Dwarf.Data.{AttrSpec, AttrValue, Abbrev, Die, CuHeader, dw_form_indirect}
use tc397tools.Dwarf.Scan.{checked_at}
use tc397tools.Prelude.Decimal.{to_string}
use tc397tools.Dwarf.Forms.{empty_value, read_fixed, read_block, read_form, read_attr}
use tc397tools.Dwarf.State.{read_attrs, read_die}
use tc397tools.Dwarf.Tables.{read_uleb-moves, read_uleb-ne-stuck, checked_at-ne-stuck}

-- The read has ended, not before `off`.
abbrev pub Onward : {A : Type 0} → ℕ → Result (A × ℕ) → Type 0
Onward {A} off = Ends (λ (found : A × ℕ). off ≤ found.1)

at-Halts : (bytes : Bytes) (off : ℕ) → Halts (at bytes off)
unfolding at
at-Halts bytes off =
    elim (get_elem? bytes off) as (λ b. Halts (elim b [ none ↦ undefined | some b ↦ ok b ])) [
      | none ↦ breaks
      | some b ↦ returns tt
    ]

shl64-Halts : (x shift : ℕ) → Halts (shl64 x shift)
unfolding shl64
shl64-Halts x shift = Ends-if (returns tt) breaks (ltb shift 64)

read_u16-Halts : (bytes : Bytes) (off : ℕ) → Halts (read_u16 bytes off)
unfolding read_u16
read_u16-Halts bytes off =
    Ends-if throws (at-Halts bytes off ⟫ λ b0 h0. at-Halts bytes (off + 1) ⟫ λ b1 h1. returns tt) _

read_u32-Halts : (bytes : Bytes) (off : ℕ) → Halts (read_u32 bytes off)
unfolding read_u32
read_u32-Halts bytes off =
    Ends-if throws
      (at-Halts bytes off ⟫ λ b0 h0. at-Halts bytes (off + 1) ⟫ λ b1 h1.
        at-Halts bytes (off + 2) ⟫ λ b2 h2. at-Halts bytes (off + 3) ⟫ λ b3 h3. returns tt)
      _

pub read_uint_loop-Halts :
    (n : ℕ) (bytes : Bytes) (off i value : ℕ) → Halts (read_uint_loop n bytes off i value)
unfolding read_uint_loop
read_uint_loop-Halts zero bytes off i value = returns tt
read_uint_loop-Halts (suc n) bytes off i value = at-Halts bytes (off + i) ⟫ λ b hb.
    shl64-Halts b (8 * i) ⟫ λ part hp. read_uint_loop-Halts n bytes off (i + 1) (bit_or value part)

read_uint-Halts : (bytes : Bytes) (off size : ℕ) → Halts (read_uint bytes off size)
unfolding read_uint
read_uint-Halts bytes off size = Ends-if throws (read_uint_loop-Halts size bytes off 0 0) _

-- The offset that read_uleb leaves is behind the one it was given.
pub read_uleb-Behind :
    (bytes : Bytes) (off : ℕ) → Ends (λ (found : ℕ × ℕ). off < found.1) (read_uleb bytes off)
read_uleb-Behind bytes off =
    of_ne_stuck _ (read_uleb-ne-stuck bytes off)
      λ found e. (read_uleb-moves bytes off found.0 found.1 e).0

pub read_uleb-Onward : (bytes : Bytes) (off : ℕ) → Onward off (read_uleb bytes off)
read_uleb-Onward bytes off = weaken (λ found h. omega arith) (read_uleb-Behind bytes off)

shl_signed-Halts : (x shift : ℕ) → Halts (shl_signed x shift)
unfolding shl_signed
shl_signed-Halts x shift =
    Ends-if (returns {a = x * 2 ^ shift} tt) breaks (ltb shift 64 && ltb (x * 2 ^ shift) (2 ^ 64))

sign_fill-Halts : (result shift byte : ℕ) → Halts (sign_fill result shift byte)
unfolding sign_fill
sign_fill-Halts result shift byte =
    Ends-if (Ends-if breaks (returns {a = bit_or result (2 ^ 64 - 2 ^ shift)} tt) (shift == 63))
      (returns {a = result} tt) (ltb shift 64 && not (bit_and byte 0x40 == 0))

read_sleb_loop-Onward :
    (bytes : Bytes) (off result shift : ℕ) → Onward off (read_sleb_loop bytes off result shift)
unfolding read_sleb_loop
read_sleb_loop-Onward [] off result shift = throws
read_sleb_loop-Onward (byte ∷ rest) off result shift =
    shl_signed-Halts (bit_and byte 0x7f) shift ⟫ λ part h.
    Ends-if
      (sign_fill-Halts (bit_or result part) (shift + 7) byte ⟫ λ filled k. returns (omega arith))
      (weaken (λ found k. omega arith)
        (read_sleb_loop-Onward rest (off + 1) (bit_or result part) (shift + 7)))
      (bit_and byte 0x80 == 0)

read_block_bytes-Onward :
    (bytes : Bytes) (off len : ℕ) → Onward off (read_block_bytes bytes off len)
unfolding read_block_bytes
read_block_bytes-Onward bytes off len = Ends-if throws (Ends-if (returns (omega arith)) breaks _) _

read_cstr-Onward : (bytes : Bytes) (off : ℕ) → Onward off (read_cstr bytes off)
unfolding read_cstr
read_cstr-Onward bytes off =
    elim (scan_cstr (drop off bytes))
      as (λ found. Onward {A = Bytes} off (elim found [
        | none ↦ throw "unterminated DW_FORM_string"
        | some text ↦ ok (text, off + length text + 1)
      ])) [ none ↦ throws | some text ↦ returns (omega arith) ]

checked_at-Halts : (bytes : Bytes) (off : ℕ) → Halts (checked_at bytes off)
checked_at-Halts bytes off = of_ne_stuck _ (checked_at-ne-stuck bytes off) λ b e. tt

module _ (info : Bytes) (form off : ℕ) where
  read_fixed-Onward : (size : ℕ) → Onward off (read_fixed info form off size)
  unfolding read_fixed
  read_fixed-Onward size = read_uint-Halts info off size ⟫ λ u h. returns (omega arith)

  read_block-Onward : (len : ℕ) → Onward off (read_block info form off len)
  unfolding read_block
  read_block-Onward len = read_block_bytes-Onward info off len ⟫ λ block h. returns h

-- A case that puts what it has read into the value.
held-Onward :
    {A : Type 0} {off : ℕ} (value : A → AttrValue) {r : Result (A × ℕ)}
    → Onward off r
    → Onward off (r >>= λ (a, off₁). ok (value a, off₁))
held-Onward value h = h ⟫ λ found k. returns k

read_form-Onward :
    (info : Bytes) (form off : ℕ) (cu : CuHeader) → Onward off (read_form info form off cu)
unfolding read_form read_sleb
read_form-Onward info form off cu =
    let fixed = read_fixed-Onward info form off in
    let behind : (o len : ℕ) → off ≤ o → Onward off (read_block info form o len) =
      λ o len h. weaken (λ found k. omega arith) (read_block-Onward info form o len) in
    let same : off ≤ off = omega arith in
    Ends-if (fixed cu.address_size)
      (Ends-if (checked_at-Halts info off ⟫ λ len h. behind (off + 1) len (omega arith))
        (Ends-if (read_u16-Halts info off ⟫ λ len h. behind (off + 2) len (omega arith))
          (Ends-if (read_u32-Halts info off ⟫ λ len h. behind (off + 4) len (omega arith))
            (Ends-if (read_uleb-Onward info off ⟫ λ found h. behind found.1 found.0 h)
              (Ends-if (fixed 1)
                (Ends-if (fixed 2)
                  (Ends-if (fixed 4)
                    (Ends-if (fixed 8)
                      (Ends-if
                        (held-Onward (λ (t : Bytes). record (empty_value form) { str = t })
                          (read_cstr-Onward info off))
                        (Ends-if
                          (held-Onward (λ (u : ℕ). record (empty_value form) { u = u })
                            (read_uleb-Onward info off))
                          (Ends-if
                            (held-Onward (λ (s : ℕ). record (empty_value form) { s = s; u = s })
                              (read_sleb_loop-Onward (drop off info) off 0 0))
                            (Ends-if (fixed 4)
                              (Ends-if
                                (returns {a = (record (empty_value form) { u = 1 }, off)} same)
                                (throws
                                  {e = runtime_error
                                    (codes "unsupported DWARF form: " ++ to_string form)})
                                (form == 0x19))
                              (form == 0x10))
                            (form == 0x0d))
                          (form == 0x0f || form == 0x15))
                        (form == 0x08))
                      (form == 0x07 || form == 0x14 || form == 0x20))
                    (form == 0x06 || form == 0x13 || form == 0x17 || form == 0x0e))
                  (form == 0x05 || form == 0x12))
                (form == 0x0b || form == 0x11 || form == 0x0c))
              (form == 0x09 || form == 0x18))
            (form == 0x04))
          (form == 0x03))
        (form == 0x0a))
      (form == 0x01)

read_attr-Onward :
    (info : Bytes) (form off : ℕ) (cu : CuHeader) → Onward off (read_attr info form off cu)
unfolding read_attr
read_attr-Onward info form off cu =
    Ends-if
      (read_uleb-Onward info off ⟫ λ found h.
        weaken (λ value k. omega arith) (read_form-Onward info found.0 found.1 cu))
      (read_form-Onward info form off cu) (form == dw_form_indirect)

read_attrs-Onward :
    (specs : List AttrSpec) (info : Bytes) (off : ℕ) (cu : CuHeader) (attrs : List (ℕ × AttrValue))
    → Onward off (read_attrs specs info off cu attrs)
unfolding read_attrs
read_attrs-Onward [] info off cu attrs = returns (omega arith)
read_attrs-Onward (spec ∷ specs) info off cu attrs =
    read_attr-Onward info spec.form off cu ⟫ λ value h.
    weaken (λ found k. omega arith)
      (read_attrs-Onward specs info value.1 cu (insert spec.name value.0 attrs))

-- What read_die finds, where it starts to read at `off`.
pub record Read (die_offset off : ℕ) (cu : CuHeader) (found : Die × ℕ) : Type 0 where
  pub at_offset : found.0.offset ≡ die_offset
  pub in_unit : found.0.cu_start ≡ cu.start
  pub no_children : found.0.children ≡ []
  pub onward : off ≤ found.1

pub read_die-Read :
    (info : Bytes) (cu : CuHeader) (table : List (ℕ × Abbrev)) (die_offset code off : ℕ)
    → Ends (Read die_offset off cu) (read_die info cu table die_offset code off)
unfolding read_die
read_die-Read info cu table die_offset code off = elim (Option-cases (lookup code table)) [
  | inl absent ↦ rw (absent, read_die) throws
  | inr (abbr, e) ↦
      rw (e, read_die)
        (read_attrs-Onward abbr.attrs info off cu [] ⟫ λ found h.
          returns (record { at_offset = refl; in_unit = refl; no_children = refl; onward = h }))
]

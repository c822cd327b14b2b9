-- ===== src/Dwarf/Forms.antt =====
-- read_attr: the value of one attribute, by its form.
use tc397tools.Prelude.{ℕ, ◌+◌, ◌||◌, [], ◌==◌, if◌then◌else◌, Bytes, codes, ◌++◌}
use tc397tools.Prelude.Result.{Result, ok, err, runtime_error, ◌>>=◌}
use tc397tools.Prelude.Decimal.{to_string}
use tc397tools.Reader.{
  read_u16, read_u32, read_uint, read_uleb, read_sleb, read_cstr, read_block_bytes,
}
use tc397tools.Dwarf.Data.{AttrValue, CuHeader, dw_form_indirect}
use tc397tools.Dwarf.Scan.{checked_at}

abbrev pub empty_value : ℕ → AttrValue
empty_value form = record { form = form; u = 0; s = 0; str = []; block = [] }

-- A case that reads `size` bytes into `u`.
unfoldable pub read_fixed : Bytes → ℕ → ℕ → ℕ → Result (AttrValue × ℕ)
read_fixed info form off size = do
  u ← read_uint info off size
  ok (record (empty_value form) { u = u }, off + size)

-- A case that reads `len` bytes into `block`.
unfoldable pub read_block : Bytes → ℕ → ℕ → ℕ → Result (AttrValue × ℕ)
read_block info form off len = do
  (block, off₁) ← read_block_bytes info off len
  ok (record (empty_value form) { block = block }, off₁)

-- The `switch (form)`.
unfoldable pub read_form : Bytes → ℕ → ℕ → CuHeader → Result (AttrValue × ℕ)
unfolding read_fixed read_block checked_at
read_form info form off cu =
    if form == 0x01
    then read_fixed info form off cu.address_size
    else if form == 0x0a
    then (do len ← checked_at info off; read_block info form (off + 1) len)
    else if form == 0x03
    then (do len ← read_u16 info off; read_block info form (off + 2) len)
    else if form == 0x04
    then (do len ← read_u32 info off; read_block info form (off + 4) len)
    else if form == 0x09 || form == 0x18
    then (do (len, off₁) ← read_uleb info off; read_block info form off₁ len)
    else if form == 0x0b || form == 0x11 || form == 0x0c
    then read_fixed info form off 1
    else if form == 0x05 || form == 0x12
    then read_fixed info form off 2
    else if form == 0x06 || form == 0x13 || form == 0x17 || form == 0x0e
    then read_fixed info form off 4
    else if form == 0x07 || form == 0x14 || form == 0x20
    then read_fixed info form off 8
    else if form == 0x08
    then (do (str, off₁) ← read_cstr info off; ok (record (empty_value form) { str = str }, off₁))
    else if form == 0x0f || form == 0x15
    then (do (u, off₁) ← read_uleb info off; ok (record (empty_value form) { u = u }, off₁))
    else if form == 0x0d
    then (do (s, off₁) ← read_sleb info off; ok (record (empty_value form) { s = s; u = s }, off₁))
    else if form == 0x10
    then read_fixed info form off 4
    else if form == 0x19
    then ok (record (empty_value form) { u = 1 }, off)
    else err (runtime_error (codes "unsupported DWARF form: " ++ to_string form))

unfoldable pub read_attr : Bytes → ℕ → ℕ → CuHeader → Result (AttrValue × ℕ)
unfolding read_form
read_attr info form off cu =
    if form == dw_form_indirect
    then (do (form₁, off₁) ← read_uleb info off; read_form info form₁ off₁ cu)
    else read_form info form off cu

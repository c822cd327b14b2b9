-- ===== src/Dwarf/Scan.antt =====
-- scan_cus, cu_containing and abbrevs_for: the unit headers and the abbreviation tables.
use tc397tools.Prelude.{
  ℕ, zero, suc, ◌+◌, false, not, ◌&&◌, ◌||◌, Option, none, some, List, [], ◌∷◌, ◌++◌, ltb, leb,
  ◌==◌, if◌then◌else◌, length, get_elem?, Bytes,
}
use tc397tools.Prelude.Result.{Result, ok, err, stuck, out_of_range, ◌>>=◌}
use tc397tools.Prelude.Table.{insert}
use tc397tools.Reader.{read_u16, read_u32, read_uleb}
use tc397tools.Dwarf.Data.{AttrSpec, Abbrev, CuHeader}

-- `data.at(off)`
unfoldable pub checked_at : Bytes → ℕ → Result ℕ
checked_at bytes off = elim (get_elem? bytes off) [ none ↦ err out_of_range | some b ↦ ok b ]

-- What scan_cus reads behind the length of a unit.
unfoldable pub scan_fields : Bytes → ℕ → ℕ → Result (Option CuHeader)
unfolding checked_at
scan_fields info start stop = do
  version ← read_u16 info (start + 4)
  abbrev_offset ← read_u32 info (start + 6)
  address_size ← checked_at info (start + 10)
  ok (
      some (record {
        start = start;
        stop = stop;
        abbrev_offset = abbrev_offset;
        address_size = address_size;
        parsed = false;
      }))

-- The body of scan_cus's loop behind its test: the header at `start`, or none at a `break`.
unfoldable pub scan_header : Bytes → ℕ → Result (Option CuHeader)
unfolding scan_fields
scan_header info start = do
  unit_length ← read_u32 info start
  let stop = start + 4 + unit_length
  let header = scan_fields info start stop
  if unit_length == 0 || unit_length == 0xffffffff
      then ok none
      else if ltb (length info) stop
      then ok none
      else header

-- scan_cus, from `off`, with the headers found so far. Each round moves `off`, so the size of the
-- section bounds the rounds.
unfoldable pub scan_loop : ℕ → Bytes → ℕ → List CuHeader → Result (List CuHeader)
scan_loop zero info off cus = stuck
scan_loop (suc fuel) info off cus =
    let step = do
      found ← scan_header info off
      elim found [ none ↦ ok cus | some cu ↦ scan_loop fuel info cu.stop (cus ++ cu ∷ []) ]
    in if leb (off + 11) (length info) then step else ok cus

unfoldable pub scan_cus : Bytes → Result (List CuHeader)
unfolding scan_loop
scan_cus info = scan_loop (suc (length info)) info 0 []

-- The index of the first unit that holds the offset; the source returns its address.
unfoldable pub cu_containing : List CuHeader → ℕ → Option (ℕ × CuHeader)
cu_containing [] offset = none
cu_containing (cu ∷ cus) offset =
    let later = cu_containing cus offset in
    if leb cu.start offset && ltb offset cu.stop
    then some (0, cu)
    else elim later [ none ↦ none | some (i, c) ↦ some (suc i, c) ]

-- The inner loop of abbrevs_for: the pairs of one abbreviation, up to (0, 0).
unfoldable pub read_specs : ℕ → Bytes → ℕ → List AttrSpec → Result (List AttrSpec × ℕ)
read_specs zero table off specs = stuck
read_specs (suc fuel) table off specs = do
  (name, off₁) ← read_uleb table off
  (form, off₂) ← read_uleb table off₁
  let more = read_specs fuel table off₂ (specs ++ record { name = name; form = form } ∷ [])
  if name == 0 && form == 0 then ok (specs, off₂) else more

unfoldable pub read_abbrev : ℕ → Bytes → ℕ → Result (Abbrev × ℕ)
unfolding read_specs checked_at
read_abbrev fuel table off = do
  (tag, off₁) ← read_uleb table off
  children ← checked_at table off₁
  (specs, off₂) ← read_specs fuel table (off₁ + 1) []
  ok (record { tag = tag; has_children = not (children == 0); attrs = specs }, off₂)

-- The outer loop of abbrevs_for.
unfoldable pub abbrev_loop : ℕ → Bytes → ℕ → List (ℕ × Abbrev) → Result (List (ℕ × Abbrev))
abbrev_loop zero table off abbrevs = stuck
abbrev_loop (suc fuel) table off abbrevs =
    let step = do
      (code, off₁) ← read_uleb table off
      let more = do
        (item, off₂) ← read_abbrev fuel table off₁
        abbrev_loop fuel table off₂ (insert code item abbrevs)
      if code == 0 then ok abbrevs else more
    in if ltb off (length table) then step else ok abbrevs

-- abbrevs_for, where the table is not in the cache.
unfoldable pub parse_abbrevs : Bytes → ℕ → Result (List (ℕ × Abbrev))
unfolding abbrev_loop
parse_abbrevs table abbrev_offset = abbrev_loop (suc (length table)) table abbrev_offset []

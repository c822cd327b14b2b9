-- ===== src/Dwarf/Tables.antt =====
-- parse_abbrevs ends: each read of a table moves on.
use tc397tools.Prelude.{
  ℕ, zero, suc, ◌+◌, ◌≤◌, ◌<◌, List, [], ◌∷◌, ◌++◌, ◌≡◌, ◌≢◌, arith, length, drop, length-drop,
  Bytes, ltb, bit_and, bit_or, Bool-cases, inl, inr,
}
use tc397tools.Prelude.Result.{ok, stuck, Result-cases}
use tc397tools.Prelude.Table.{insert}
use tc397tools.Reader.{shl64, read_uleb_loop, read_uleb}
use tc397tools.Dwarf.Data.{AttrSpec, Abbrev}
use tc397tools.Dwarf.Scan.{checked_at, read_specs, read_abbrev, abbrev_loop, parse_abbrevs}

read_uleb_loop-moves :
    (bytes : Bytes) (off result shift v off' : ℕ)
    → read_uleb_loop bytes off result shift ≡ ok (v, off')
    → (off < off') × (off' ≤ off + length bytes)
unfolding read_uleb_loop
read_uleb_loop-moves [] off result shift v off' h = absurd (ground arith)
read_uleb_loop-moves (byte ∷ rest) off result shift v off' h =
    elim (Result-cases (shl64 (bit_and byte 0x7f) shift)) [
      | inl (part, r) ↦
          ground
            (arith, read_uleb_loop-moves rest (off + 1) (bit_or result part) (shift + 7) v off')
      | inr other ↦ absurd (ground arith)
    ]

pub read_uleb-moves :
    (table : Bytes) (off v off' : ℕ)
    → read_uleb table off ≡ ok (v, off')
    → (off < off') × (off' ≤ length table)
unfolding read_uleb
read_uleb-moves table off v off' h =
    let moves = read_uleb_loop-moves (drop off table) off 0 0 v off' h in
    ground (arith, length-drop off table)

read_uleb_loop-ne-stuck :
    (bytes : Bytes) (off result shift : ℕ) → read_uleb_loop bytes off result shift ≢ stuck
unfolding read_uleb_loop shl64
read_uleb_loop-ne-stuck [] off result shift h = absurd (ground arith)
read_uleb_loop-ne-stuck (byte ∷ rest) off result shift h =
    elim (Result-cases (shl64 (bit_and byte 0x7f) shift)) [
      | inl (part, r) ↦
          ground (arith, read_uleb_loop-ne-stuck rest (off + 1) (bit_or result part) (shift + 7))
      | inr other ↦ absurd (ground arith)
    ]

pub read_uleb-ne-stuck : (table : Bytes) (off : ℕ) → read_uleb table off ≢ stuck
unfolding read_uleb
read_uleb-ne-stuck table off = read_uleb_loop-ne-stuck (drop off table) off 0 0

read_specs-moves :
    (fuel : ℕ) (table : Bytes) (off : ℕ) (specs found : List AttrSpec) (off' : ℕ)
    → read_specs fuel table off specs ≡ ok (found, off')
    → (off < off') × (off' ≤ length table)
unfolding read_specs
read_specs-moves zero table off specs found off' h = absurd (ground arith)
read_specs-moves (suc fuel) table off specs found off' h =
    elim (Result-cases (read_uleb table off)) [
      | inr other ↦ absurd (ground arith)
      | inl ((name, off₁), r) ↦ elim (Result-cases (read_uleb table off₁)) [
        | inr other ↦ absurd (ground arith)
        | inl ((form, off₂), r₁) ↦
            let first = read_uleb-moves table off name off₁ r in
            let second = read_uleb-moves table off₁ form off₂ r₁ in
            ground (
              arith,
              read_specs-moves fuel table off₂ (specs ++ record { name = name; form = form } ∷ [])
                  found off',
            )
      ]
    ]

read_specs-ne-stuck :
    (fuel : ℕ) (table : Bytes) (off : ℕ) (specs : List AttrSpec)
    → length table < fuel + off
    → off ≤ length table
    → read_specs fuel table off specs ≢ stuck
unfolding read_specs
read_specs-ne-stuck zero table off specs b c h = omega arith
read_specs-ne-stuck (suc fuel) table off specs b c h = elim (Result-cases (read_uleb table off)) [
  | inr other ↦ ground (arith, read_uleb-ne-stuck table off)
  | inl ((name, off₁), r) ↦ elim (Result-cases (read_uleb table off₁)) [
    | inr other ↦ ground (arith, read_uleb-ne-stuck table off₁)
    | inl ((form, off₂), r₁) ↦
        let first = read_uleb-moves table off name off₁ r in
        let second = read_uleb-moves table off₁ form off₂ r₁ in
        ground (
          arith,
          read_specs-ne-stuck fuel table off₂ (specs ++ record { name = name; form = form } ∷ []),
        )
  ]
]

checked_at-length : (table : Bytes) (off b : ℕ) → checked_at table off ≡ ok b → off < length table
unfolding checked_at
checked_at-length [] off b h = absurd (ground arith)
checked_at-length (x ∷ table) zero b h = omega arith
checked_at-length (x ∷ table) (suc off) b h = omega (arith, checked_at-length table off b h)

pub checked_at-ne-stuck : (table : Bytes) (off : ℕ) → checked_at table off ≢ stuck
unfolding checked_at
checked_at-ne-stuck table off h = absurd (ground arith)

read_abbrev-moves :
    (fuel : ℕ) (table : Bytes) (off : ℕ) (abbr : Abbrev) (off' : ℕ)
    → read_abbrev fuel table off ≡ ok (abbr, off')
    → (off < off') × (off' ≤ length table)
unfolding read_abbrev
read_abbrev-moves fuel table off abbr off' h = elim (Result-cases (read_uleb table off)) [
  | inr other ↦ absurd (ground arith)
  | inl ((tag, off₁), r) ↦ elim (Result-cases (checked_at table off₁)) [
    | inr other ↦ absurd (ground arith)
    | inl (b, r₁) ↦ elim (Result-cases (read_specs fuel table (off₁ + 1) [])) [
      | inr other ↦ absurd (ground arith)
      | inl ((specs, off₂), r₂) ↦
          let first = read_uleb-moves table off tag off₁ r in
          let second = read_specs-moves fuel table (off₁ + 1) [] specs off₂ r₂ in ground arith
    ]
  ]
]

read_abbrev-ne-stuck :
    (fuel : ℕ) (table : Bytes) (off : ℕ)
    → length table < fuel + off
    → read_abbrev fuel table off ≢ stuck
unfolding read_abbrev
read_abbrev-ne-stuck fuel table off b h = elim (Result-cases (read_uleb table off)) [
  | inr other ↦ ground (arith, read_uleb-ne-stuck table off)
  | inl ((tag, off₁), r) ↦ elim (Result-cases (checked_at table off₁)) [
    | inr other ↦ ground (arith, checked_at-ne-stuck table off₁)
    | inl (c, r₁) ↦
        let first = read_uleb-moves table off tag off₁ r in
        let within = checked_at-length table off₁ c r₁ in
        let specs = read_specs-ne-stuck fuel table (off₁ + 1) [] (omega arith) (omega arith) in
        elim (Result-cases (read_specs fuel table (off₁ + 1) [])) [
          | inr other ↦ ground (arith, specs)
          | inl (found, r₂) ↦ absurd (ground arith)
        ]
  ]
]

abbrev_loop-ne-stuck :
    (fuel : ℕ) (table : Bytes) (off : ℕ) (abbrevs : List (ℕ × Abbrev))
    → length table < fuel + off
    → off ≤ length table
    → abbrev_loop fuel table off abbrevs ≢ stuck
unfolding abbrev_loop
abbrev_loop-ne-stuck zero table off abbrevs b c h = omega arith
abbrev_loop-ne-stuck (suc fuel) table off abbrevs b c h =
    elim (Result-cases (read_uleb table off)) [
      | inr other ↦ ground (arith, read_uleb-ne-stuck table off)
      | inl ((code, off₁), r) ↦
          let first = read_uleb-moves table off code off₁ r in
          let abbr = read_abbrev-ne-stuck fuel table off₁ (omega arith) in
          elim (Result-cases (read_abbrev fuel table off₁)) [
            | inr other ↦ ground (arith, abbr)
            | inl ((item, off₂), r₁) ↦
                let second = read_abbrev-moves fuel table off₁ item off₂ r₁ in
                ground (arith, abbrev_loop-ne-stuck fuel table off₂ (insert code item abbrevs))
          ]
    ]

-- parse_abbrevs ends on every table, at every offset: the fuel of the model is enough.
pub parse_abbrevs-ne-stuck : (table : Bytes) (off : ℕ) → parse_abbrevs table off ≢ stuck
unfolding parse_abbrevs abbrev_loop
parse_abbrevs-ne-stuck table off h = elim (Bool-cases (ltb off (length table))) [
  | inl inside ↦
      abbrev_loop-ne-stuck (suc (length table)) table off [] (omega arith) (ground arith) h
  | inr beyond ↦ absurd (ground arith)
]

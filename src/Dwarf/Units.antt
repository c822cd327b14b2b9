-- ===== src/Dwarf/Units.antt =====
-- What scan_cus finds: units that tile the section from its start.
use tc397tools.Prelude.{
  ℕ, zero, suc, ◌+◌, ◌≤◌, ◌<◌, none, some, List, [], ◌∷◌, ◌++◌, ◌≡◌, ◌≢◌, ◌∙◌, arith, length, Bytes,
  leb, Bool-cases, inl, inr, get_elem?, Option-cases,
}
use mathlib.Core.List.{append-nil, append_assoc}
use tc397tools.Prelude.Result.{ok, stuck, Result-cases}
use tc397tools.Reader.{read_u16, read_u32, at}
use tc397tools.Dwarf.Data.{CuHeader}
use tc397tools.Dwarf.Scan.{scan_fields, scan_header, scan_loop, scan_cus, cu_containing}

-- Each unit begins where the one before it ends, is longer than its length field, and ends in the
-- section of n bytes.
abbrev pub Tiles : ℕ → ℕ → List CuHeader → Type 0
Tiles n off [] = Unit
Tiles n off (cu ∷ cus) =
    (cu.start ≡ off) × (off + 4 < cu.stop) × (cu.stop ≤ n) × Tiles n cu.stop cus

scan_fields-some :
    (info : Bytes) (start stop : ℕ) (cu : CuHeader)
    → scan_fields info start stop ≡ ok (some cu)
    → (cu.start ≡ start) × (cu.stop ≡ stop)
unfolding scan_fields
scan_fields-some info start stop cu e = ground arith

scan_header-some :
    (info : Bytes) (start : ℕ) (cu : CuHeader)
    → scan_header info start ≡ ok (some cu)
    → (cu.start ≡ start) × (start + 4 < cu.stop) × (cu.stop ≤ length info)
unfolding scan_header
scan_header-some info start cu e = elim (Result-cases (read_u32 info start)) [
  | inl (n, r) ↦ ground (arith, scan_fields-some info start (start + 4 + n) cu)
  | inr other ↦ absurd (ground arith)
]

scan_loop-Tiles :
    (fuel : ℕ) (info : Bytes) (off : ℕ) (cus found : List CuHeader)
    → scan_loop fuel info off cus ≡ ok found
    → (more : List CuHeader) × (found ≡ cus ++ more) × Tiles (length info) off more
unfolding scan_loop
scan_loop-Tiles zero info off cus found e = absurd (ground arith)
scan_loop-Tiles (suc fuel) info off cus found e = elim (Bool-cases (leb (off + 11) (length info))) [
  | inr past ↦ ([], ground (arith, append-nil cus), tt)
  | inl more ↦ elim (Result-cases (scan_header info off)) [
    | inl (none, h) ↦ ([], ground (arith, append-nil cus), tt)
    | inl (some cu, h) ↦
        let (rest, joined, tiles) =
          scan_loop-Tiles fuel info cu.stop (cus ++ cu ∷ []) found (ground arith) in
        let (starts, long, fits) = scan_header-some info off cu h in
        (cu ∷ rest, joined ∙ append_assoc cus (cu ∷ []) rest, (starts, long, fits, tiles))
    | inr other ↦ absurd (ground arith)
  ]
]

-- The units that scan_cus finds tile the front of the section: the first starts at 0, each of the
-- others where the one before it ends, and all end inside the section.
pub scan_cus-Tiles :
    (info : Bytes) (cus : List CuHeader) → scan_cus info ≡ ok cus → Tiles (length info) 0 cus
unfolding scan_cus
scan_cus-Tiles info cus e =
    let (more, same, tiles) = scan_loop-Tiles (suc (length info)) info 0 [] cus e in rw same tiles

read_u32-ne-stuck : (bytes : Bytes) (off : ℕ) → read_u32 bytes off ≢ stuck
unfolding read_u32 at
read_u32-ne-stuck bytes off e = ground arith

read_u16-ne-stuck : (bytes : Bytes) (off : ℕ) → read_u16 bytes off ≢ stuck
unfolding read_u16 at
read_u16-ne-stuck bytes off e = ground arith

scan_fields-ne-stuck : (info : Bytes) (start stop : ℕ) → scan_fields info start stop ≢ stuck
unfolding scan_fields
scan_fields-ne-stuck info start stop e =
    ground (arith, read_u16-ne-stuck info (start + 4), read_u32-ne-stuck info (start + 6))

scan_header-ne-stuck : (info : Bytes) (start : ℕ) → scan_header info start ≢ stuck
unfolding scan_header
scan_header-ne-stuck info start e = elim (Result-cases (read_u32 info start)) [
  | inl (n, r) ↦ ground (arith, scan_fields-ne-stuck info start (start + 4 + n))
  | inr other ↦ ground (arith, read_u32-ne-stuck info start)
]

scan_loop-ne-stuck :
    (fuel : ℕ) (info : Bytes) (off : ℕ) (cus : List CuHeader)
    → length info < fuel + off
    → off ≤ length info
    → scan_loop fuel info off cus ≢ stuck
unfolding scan_loop
scan_loop-ne-stuck zero info off cus h b e = omega arith
scan_loop-ne-stuck (suc fuel) info off cus h b e = elim (Result-cases (scan_header info off)) [
  | inl (none, r) ↦ ground arith
  | inl (some cu, r) ↦
      let (starts, long, fits) = scan_header-some info off cu r in
      ground (arith, scan_loop-ne-stuck fuel info cu.stop (cus ++ cu ∷ []))
  | inr other ↦ ground (arith, scan_header-ne-stuck info off)
]

-- scan_cus ends on every section.
pub scan_cus-ne-stuck : (info : Bytes) → scan_cus info ≢ stuck
unfolding scan_cus
scan_cus-ne-stuck info =
    scan_loop-ne-stuck (suc (length info)) info 0 [] (omega arith) (omega arith)

-- A unit that cu_containing finds is the one in the list at the index that comes with it, and the
-- offset is between its start and its stop.
cu_containing-some :
    (cus : List CuHeader) (offset i : ℕ) (cu : CuHeader)
    → cu_containing cus offset ≡ some (i, cu)
    → (get_elem? cus i ≡ some cu) × (cu.start ≤ offset) × (offset < cu.stop)
unfolding cu_containing
cu_containing-some [] offset i cu e = absurd (ground arith)
cu_containing-some (c ∷ cus) offset i cu e = elim (Option-cases (cu_containing cus offset)) [
  | inl n ↦ ground arith
  | inr ((j, d), h) ↦ ground (arith, cu_containing-some cus offset j d h)
]

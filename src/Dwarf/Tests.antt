-- ===== src/Dwarf/Tests.antt =====
-- The DWARF reader on a section of one empty unit, and on a typedef of itself.
use tc397tools.Prelude.{false, some, [], ◌∷◌, ◌≡◌, ◌≢◌, refl, Bytes, length}
use tc397tools.Prelude.Result.{stuck}
use tc397tools.Prelude.Table.{lookup}
use tc397tools.Reader.{read_u16, read_u32, at}
use tc397tools.Dwarf.Data.{AttrValue, Die, CuHeader, dw_at_type, dw_tag_typedef}
use tc397tools.Dwarf.Scan.{scan_header, scan_cus}
use tc397tools.Dwarf.State.{Resolver}
use tc397tools.Dwarf.Types.{resolve_die, ref_attr}
use tc397tools.Dwarf.Endless.{Endless, resolve_die-Endless}
use tc397tools.Dwarf.Units.{Tiles, scan_cus-Tiles, scan_cus-ne-stuck}

-- A reference to offset 30 of the unit that starts at 0.
abbrev self_ref : AttrValue
self_ref = record { form = 0x13; u = 30; s = 0; str = []; block = [] }

abbrev self_typedef : Die
self_typedef = record {
  offset = 30;
  cu_start = 0;
  tag = dw_tag_typedef;
  has_children = false;
  attrs = (dw_at_type, self_ref) ∷ [];
  children = [];
}

abbrev looping : Resolver
looping = record {
  info = [];
  abbrev_bytes = [];
  cus = [];
  abbrev_cache = [];
  dies = (30, self_typedef) ∷ [];
  variable_cache = [];
}

looping-Endless : Endless looping (λ i. self_typedef)
unfolding ref_attr lookup
looping-Endless = record {
  target = λ i. 30;
  qualifies = λ i. refl;
  refers = λ i. refl;
  stored = λ i. refl;
}

resolve_die-Endless_example : (resolve_die 100 (some self_typedef) [] looping).0 ≡ stuck
resolve_die-Endless_example = resolve_die-Endless looping (λ i. self_typedef) looping-Endless 100

-- Length 7, version 4, abbreviations at 0, addresses of 4 bytes.
abbrev one_unit : Bytes
one_unit = 7 ∷ 0 ∷ 0 ∷ 0 ∷ 4 ∷ 0 ∷ 0 ∷ 0 ∷ 0 ∷ 0 ∷ 4 ∷ []

abbrev unit_header : CuHeader
unit_header = record { start = 0; stop = 11; abbrev_offset = 0; address_size = 4; parsed = false }

scan_cus-Tiles_example : Tiles (length one_unit) 0 (unit_header ∷ [])
unfolding scan_cus scan_header read_u32 read_u16 at
scan_cus-Tiles_example = scan_cus-Tiles one_unit (unit_header ∷ []) refl

scan_cus-ne-stuck_example : scan_cus one_unit ≢ stuck
scan_cus-ne-stuck_example = scan_cus-ne-stuck one_unit

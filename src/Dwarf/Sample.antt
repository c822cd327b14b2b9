-- ===== src/Dwarf/Sample.antt =====
-- DwarfResolver on one unit: a variable `v` at 0x70000000 of a structure whose member `m` stands at 4, a typedef of an int of four bytes.
use tc397tools.Prelude.{true, false, List, [], ◌∷◌, Bytes, codes}
use tc397tools.Dwarf.State.{Resolver}
use tc397tools.Dwarf.Members.{MemberPath}

abbrev pub abbrevs : Bytes
abbrevs =
    1 ∷ 0x11 ∷ 1 ∷ 0 ∷ 0 ∷ 2 ∷ 0x34 ∷ 0 ∷ 3 ∷ 8 ∷ 0x49 ∷ 0x13 ∷ 2 ∷ 0x18 ∷ 0 ∷ 0 ∷ 3 ∷ 0x13 ∷ 1
    ∷ 0x0b ∷ 0x0b ∷ 0 ∷ 0 ∷ 4 ∷ 0x0d ∷ 0 ∷ 3 ∷ 8 ∷ 0x49 ∷ 0x13 ∷ 0x38 ∷ 0x0b ∷ 0 ∷ 0 ∷ 5 ∷ 0x24 ∷ 0
    ∷ 0x0b ∷ 0x0b ∷ 0x3e ∷ 0x0b ∷ 0 ∷ 0 ∷ 6 ∷ 0x16 ∷ 0 ∷ 0x49 ∷ 0x13 ∷ 0 ∷ 0 ∷ 0 ∷ []

abbrev pub info : Bytes
info =
    41 ∷ 0 ∷ 0 ∷ 0 ∷ 4 ∷ 0 ∷ 0 ∷ 0 ∷ 0 ∷ 0 ∷ 4 ∷ 1 ∷ 2 ∷ b'v' ∷ 0 ∷ 25 ∷ 0 ∷ 0 ∷ 0 ∷ 5 ∷ 3 ∷ 0 ∷ 0
    ∷ 0 ∷ 0x70 ∷ 3 ∷ 8 ∷ 4 ∷ b'm' ∷ 0 ∷ 39 ∷ 0 ∷ 0 ∷ 0 ∷ 4 ∷ 0 ∷ 5 ∷ 4 ∷ 5 ∷ 6 ∷ 36 ∷ 0 ∷ 0 ∷ 0 ∷ 0
    ∷ []

abbrev pub start : Resolver
start = record {
  info = info;
  abbrev_bytes = abbrevs;
  cus = record { start = 0; stop = 45; abbrev_offset = 0; address_size = 4; parsed = false } ∷ [];
  abbrev_cache = [];
  dies = [];
  variable_cache = [];
}

-- What build_member_index gives.
abbrev pub items : List MemberPath
items =
    record {
      member_name = codes "m";
      expression = codes "v.m";
      base_name = codes "v";
      address = 0x70000004;
      byte_offset = 4;
      byte_size = 4;
      signed_known = true;
      is_signed = true;
      type_name = [];
    }
    ∷ record {
      member_name = codes "v";
      expression = codes "v";
      base_name = codes "v";
      address = 0x70000000;
      byte_offset = 0;
      byte_size = 8;
      signed_known = false;
      is_signed = false;
      type_name = [];
    }
    ∷ []

-- ===== src/Json/Tests.antt =====
-- The JSON writer and reader on an index of two items.
use tc397tools.Prelude.{ℕ, false, true, List, [], ◌∷◌, ◌++◌, ◌≡◌, Bytes, arith, codes}
use mathlib.Core.List.{map, Perm}
use tc397tools.Prelude.Result.{ok}
use tc397tools.Dwarf.{MemberPath}
use tc397tools.Json.Writer.{quoted, member_to_json, to_member_index_json}
use tc397tools.Json.Scan.{str}
use tc397tools.Json.Entries.{parse_entry, parse_index_json}
use tc397tools.Json.Text.{str-quoted}
use tc397tools.Json.Entry.{entry_of, parse_entry-member_to_json}
use tc397tools.Json.RoundTrip.{index_entries, parse_index_json-to_member_index_json}

abbrev item_of : Bytes → Bytes → ℕ → MemberPath
item_of base name address = record {
  member_name = name;
  expression = base ++ b'.' ∷ name;
  base_name = base;
  address = address;
  byte_offset = 4;
  byte_size = 2;
  signed_known = true;
  is_signed = false;
  type_name = codes "uint16";
}

abbrev two_items : List MemberPath
two_items =
    item_of (codes "motor") (codes "speed") 0x70000004
    ∷ item_of (codes "fan") (codes "rpm") 0x70000104
    ∷ []

str-quoted_example : str (quoted (codes "a\"b") ++ codes ",1") ≡ ok (codes "a\"b", codes ",1")
str-quoted_example = str-quoted (codes "a\"b") (codes ",1")

parse_entry-member_to_json_example :
    parse_entry 8 (member_to_json (item_of (codes "fan") (codes "rpm") 64) ++ b',' ∷ [])
    ≡ ok (entry_of (item_of (codes "fan") (codes "rpm") 64), b',' ∷ [])
parse_entry-member_to_json_example =
    parse_entry-member_to_json 0 (item_of (codes "fan") (codes "rpm") 64) (b',' ∷ [])
      record { address_fits = omega arith; size_fits = omega arith }

parse_index_json-to_member_index_json_example :
    (parse_index_json (to_member_index_json (codes "app.elf") two_items 2 [])
      ≡ (index_entries two_items, ok tt))
    × Perm (index_entries two_items) (map entry_of two_items)
parse_index_json-to_member_index_json_example =
    parse_index_json-to_member_index_json (codes "app.elf") two_items 2 [] (
      record { address_fits = omega arith; size_fits = omega arith },
      (record { address_fits = omega arith; size_fits = omega arith }, tt),
    )

-- ===== src/ElfIndex/Tests.antt =====
-- An ELF file with an empty unit and one symbol.
use mathlib.Core.List.{map, Perm}
use tc397tools.Prelude.{
  ℕ, ◌≤◌, Bool, true, false, Option, none, some, List, [], ◌∷◌, ◌≡◌, ◌≢◌, refl, arith, length,
  codes, Bytes,
}
use tc397tools.Prelude.Result.{ok}
use tc397tools.Dwarf.{MemberPath, VariableRef}
use tc397tools.Symbols.{ElfSymbol, ElfSection}
use tc397tools.Json.{variable_to_json}
use tc397tools.Json.Entry.{entry_of}
use tc397tools.Json.RoundTrip.{index_entries}
use tc397tools.Elf.{
  copy_string, resolve_on, resolve_reference, Image, Platform, Handle, open_image, index_items,
}
use tc397tools.ElfIndex.State.{ElfIndex, c_str}
use tc397tools.ElfIndex.Copied.{c_str-copy_string}
use tc397tools.ElfIndex.Resolve.{resolve}
use tc397tools.ElfIndex.Resolved.{ref_of, resolve-variable}
use tc397tools.Elf.Indexed.{index_items-Distinct}
use tc397tools.Symbols.Distinct.{Distinct}
use tc397tools.Elf.Fresh.{opened_then, resolve_on-resolve_reference}
use tc397tools.ElfIndex.Load.{load}
use tc397tools.ElfIndex.Regenerated.{Writable, load-index_items}

abbrev image : Image
image = record {
  debug_info = 7 ∷ 0 ∷ 0 ∷ 0 ∷ 4 ∷ 0 ∷ 0 ∷ 0 ∷ 0 ∷ 0 ∷ 4 ∷ [];
  debug_abbrev = 0 ∷ [];
  sections =
      record {
        type = 2;
        name = codes ".symtab";
        symbols =
            record {
              readable = true;
              name = codes "counter";
              value = 0x70000010;
              size = 4;
              bind = 1;
              type = 1;
              section_index = 1;
            }
            ∷ [];
      }
      ∷ [];
}

-- The state is the text of the JSON file.
abbrev disk : Platform (Option Bytes)
disk = record {
  exists = λ path w. true;
  mtime = λ path w. 0;
  read_file = λ path w. w;
  open_output = λ path w. (true, some []);
  write_output = λ path text w. (true, some text);
  load_elf = λ path w. some image;
  out_of_range_text = codes "out of range";
  invalid_argument_text = codes "invalid argument";
}

disk-Writable : Writable disk (codes "a.elf") (codes "a.json")
disk-Writable = record {
  opens = λ w. refl;
  writes = λ text w. refl;
  reads_back = λ text w. refl;
  keeps_elf = λ text w. refl;
}

abbrev handle : Handle
handle = record {
  sections = image.sections;
  dwarf = record {
    info = image.debug_info;
    abbrev_bytes = image.debug_abbrev;
    cus = record { start = 0; stop = 11; abbrev_offset = 0; address_size = 4; parsed = false } ∷ [];
    abbrev_cache = [];
    dies = [];
    variable_cache = [];
  };
}

abbrev counter : MemberPath
counter = record {
  member_name = codes "counter";
  expression = codes "counter";
  base_name = codes "counter";
  address = 0x70000010;
  byte_offset = 0;
  byte_size = 4;
  signed_known = false;
  is_signed = false;
  type_name = [];
}

abbrev no_index : ElfIndex
no_index = record { entries = []; handle = none; loaded = false; error = []; elf_path = [] }

handle_opens : open_image (some image) (codes "a.elf") ≡ ok handle
unfolding open_image tc397tools.Dwarf.construct tc397tools.Dwarf.scan_cus
    tc397tools.Dwarf.scan_header tc397tools.Reader.read_u32 tc397tools.Reader.at
    tc397tools.Reader.read_u16
handle_opens = refl

counter_listed : index_items 10 8 handle ≡ ok (counter ∷ [])
unfolding index_items tc397tools.Dwarf.available tc397tools.Dwarf.build_member_index
    tc397tools.Dwarf.parse_all_cus tc397tools.Dwarf.parse_cu tc397tools.Dwarf.abbrevs_for
    tc397tools.Prelude.Table.lookup tc397tools.Dwarf.parse_abbrevs tc397tools.Reader.read_uleb
    tc397tools.Reader.shl64 tc397tools.Prelude.Sort.sort
    tc397tools.Symbols.add_symbol_variables_to_index tc397tools.Symbols.add_symbols
    tc397tools.Symbols.is_indexed tc397tools.Prelude.bytes_eq tc397tools.Dwarf.add_item
    tc397tools.Dwarf.seen_before tc397tools.Prelude.Sort.insert_sorted
counter_listed = refl

load-index_items_example :
    ((load disk 10 (codes "a.elf") (codes "a.json") 8 true no_index none).0 ≡ ok true)
    × ((load disk 10 (codes "a.elf") (codes "a.json") 8 true no_index none).1.entries
        ≡ index_entries (counter ∷ []))
    × Perm (index_entries (counter ∷ [])) (map entry_of (counter ∷ []))
load-index_items_example =
    load-index_items disk (codes "a.elf") (codes "a.json") disk-Writable 10 8 no_index none handle
      (counter ∷ []) (omega arith) (omega arith) refl handle_opens counter_listed
      (record { address_fits = omega arith; size_fits = omega arith }, tt)

c_str-copy_string_example :
    (filled : Bytes) × (copy_string (codes "speed") (some (1 ∷ 1 ∷ 1 ∷ 1 ∷ [])) ≡ some filled)
    × (length filled ≡ 4)
    × (c_str filled ≡ codes "spe")
unfolding c_str
c_str-copy_string_example = c_str-copy_string (codes "speed") 1 (1 ∷ 1 ∷ 1 ∷ [])

abbrev counter_ref : VariableRef
counter_ref = record {
  expression = codes "counter";
  base_name = codes "counter";
  address = 0x70000010;
  byte_size = 4;
  variable_size = 4;
  indexed = false;
  signed_known = false;
  is_signed = false;
  source = codes ".symtab";
  symbol_type = codes "STT_OBJECT";
  binding = codes "STB_GLOBAL";
  section_name = [];
  type_name = [];
}

counter_found : resolve_on 10 (codes "counter") false false handle ≡ (ok counter_ref, handle)
unfolding resolve_on tc397tools.Expression.parse_expression tc397tools.Expression.split_index
    tc397tools.Prelude.bytes_eq tc397tools.Expression.take_parts tc397tools.Expression.split_dots
    tc397tools.Dwarf.resolve tc397tools.Dwarf.available tc397tools.Symbols.resolve_symbol
    tc397tools.Symbols.match_sections tc397tools.Prelude.Sort.sort
counter_found = refl

resolve_on-resolve_reference_example :
    resolve_reference disk 10 (codes "a.elf") (codes "counter") false false none
    ≡ opened_then 10 (codes "counter") false false (open_image (some image) (codes "a.elf"))
resolve_on-resolve_reference_example =
    resolve_on-resolve_reference disk 10 (codes "a.elf") (codes "counter") false false none

abbrev open_index : ElfIndex
open_index = record no_index { handle = some handle; loaded = true }

short_json : length (variable_to_json counter_ref) ≤ 8191
unfolding variable_to_json tc397tools.Prelude.Decimal.to_string
short_json = omega arith

resolve-variable_example :
    resolve disk 10 (codes "counter") open_index ≡ (ok (ref_of counter_ref), open_index)
resolve-variable_example =
    resolve-variable disk 10 (codes "counter") open_index handle handle counter_ref refl
      counter_found (omega arith) (omega arith) short_json

index_items-Distinct_example : Distinct (counter ∷ [])
index_items-Distinct_example = index_items-Distinct 10 8 handle (counter ∷ []) counter_listed

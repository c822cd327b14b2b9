-- ===== src/Elf/Tests.antt =====
-- The index of a file with the unit of Dwarf.Sample, and with symbols for its variable and for one more.
use mathlib.Core.List.{Memᴰ}
use tc397tools.Prelude.{true, List, [], ◌∷◌, ◌≡◌, refl, some, All, Bytes, codes, false}
use tc397tools.Prelude.Result.{ok}
use tc397tools.Dwarf.{MemberPath, build_member_index}
use tc397tools.Dwarf.Sample.{abbrevs, info, start, items}
use tc397tools.Symbols.{ElfSymbol, ElfSection, symbol_item}
use tc397tools.Symbols.Added.{IsSymbol}
use tc397tools.Symbols.Listed.{Listed}
use tc397tools.Elf.Files.{Image}
use tc397tools.Elf.Reference.{Handle, open_image, index_items}
use tc397tools.Elf.Sources.{IsSource, index_items-IsSource, index_items-Listed}

abbrev counter : ElfSymbol
counter = record {
  readable = true;
  name = codes "counter";
  value = 0x70000010;
  size = 4;
  bind = 1;
  type = 1;
  section_index = 1;
}

abbrev variable : ElfSymbol
variable = record counter { name = codes "v"; value = 0x70000000; size = 8 }

abbrev table : ElfSection
table = record { type = 2; name = codes ".symtab"; symbols = variable ∷ counter ∷ [] }

abbrev image : Image
image = record { debug_info = info; debug_abbrev = abbrevs; sections = table ∷ [] }

abbrev handle : Handle
handle = record { sections = table ∷ []; dwarf = start }

handle_opens : open_image (some image) (codes "a.elf") ≡ ok handle
unfolding open_image tc397tools.Dwarf.construct tc397tools.Dwarf.scan_cus
    tc397tools.Dwarf.scan_header tc397tools.Reader.read_u32 tc397tools.Reader.at
    tc397tools.Reader.read_u16
handle_opens = refl

all_listed : index_items 10 5 handle ≡ ok (symbol_item counter ∷ items)
unfolding index_items tc397tools.Dwarf.build_member_index tc397tools.Dwarf.available
    tc397tools.Dwarf.parse_all_cus tc397tools.Dwarf.parse_cu tc397tools.Dwarf.abbrevs_for
    tc397tools.Prelude.Table.lookup tc397tools.Dwarf.parse_abbrevs tc397tools.Reader.read_uleb
    tc397tools.Reader.shl64 tc397tools.Dwarf.read_abbrev tc397tools.Prelude.Table.insert
    tc397tools.Dwarf.read_attr tc397tools.Reader.read_cstr tc397tools.Reader.read_uint
    tc397tools.Reader.at tc397tools.Reader.read_block_bytes tc397tools.Prelude.Sort.sort
    tc397tools.Prelude.bytes_eq tc397tools.Dwarf.named_variables tc397tools.Dwarf.index_variables
    tc397tools.Dwarf.address_from_location tc397tools.Dwarf.resolve_type
    tc397tools.Dwarf.is_aggregate_type tc397tools.Dwarf.ref_attr tc397tools.Dwarf.name_of
    tc397tools.Dwarf.byte_size tc397tools.Dwarf.signedness tc397tools.Dwarf.member_offset
    tc397tools.Dwarf.make_item tc397tools.Dwarf.add_item tc397tools.Dwarf.collect_member_paths
    tc397tools.Dwarf.item_less tc397tools.Prelude.Sort.bytes_less tc397tools.Dwarf.get_die
    tc397tools.Dwarf.mem tc397tools.Dwarf.seen_before
    tc397tools.Symbols.add_symbol_variables_to_index tc397tools.Symbols.add_symbols
    tc397tools.Symbols.is_indexed
all_listed = refl

index_items-IsSource_example :
    All (IsSource (build_member_index 5 10 start).1 10 (table ∷ [])) (symbol_item counter ∷ items)
index_items-IsSource_example =
    index_items-IsSource image (codes "a.elf") 10 5 handle (symbol_item counter ∷ items)
      handle_opens all_listed

counter-IsSymbol : IsSymbol (table ∷ []) counter
unfolding tc397tools.Symbols.is_indexed tc397tools.Prelude.bytes_eq
counter-IsSymbol = record {
  table = table;
  stands = Memᴰ.head refl;
  holds_symbols = refl;
  listed = Memᴰ.tail (Memᴰ.head refl);
  kept = refl;
}

index_items-Listed_example : Listed (codes "counter") (symbol_item counter ∷ items)
index_items-Listed_example =
    index_items-Listed 10 5 handle (symbol_item counter ∷ items) counter all_listed counter-IsSymbol

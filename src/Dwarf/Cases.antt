-- ===== src/Dwarf/Cases.antt =====
-- What is proved of DwarfResolver, on the unit of Sample.
use tc397tools.Prelude.{
  ℕ, true, false, Option, none, some, List, [], ◌∷◌, ◌++◌, ◌≡◌, ◌≢◌, refl, arith, Bytes, codes, All,
  ◌+◌, ◌<◌, ◌==◌, if◌then◌else◌,
}
use tc397tools.Prelude.Result.{ok, stuck}
use tc397tools.Expression.{ParsedExpression}
use tc397tools.Dwarf.State.{Resolver, construct, get_die}
use tc397tools.Dwarf.Sample.{abbrevs, info, start, items}
use tc397tools.Dwarf.Members.{MemberPath}
use tc397tools.Dwarf.Build.{parse_all_cus, build_member_index}
use tc397tools.Dwarf.Resolve.{VariableRef, find_variable, resolve}
use tc397tools.Dwarf.Table.{IsTable}
use tc397tools.Dwarf.Layout.{IsTraced}
use tc397tools.Dwarf.Indexed.{build_member_index-IsTraced}
use tc397tools.Dwarf.Located.{IsLocated, resolve-ne-stuck}
use tc397tools.Dwarf.Finite.{IsAcyclic, ranks_fall, ranks_fall-falls}
use tc397tools.Dwarf.Placed.{Calm, resolve-IsLocated-Calm}
use tc397tools.Dwarf.Placed as Placed
use tc397tools.Dwarf.Used.{
  Used, opened, indexed, Used-IsTable, lookups-ne-stuck, build_member_index-ne-stuck,
}

opened_start : Used info abbrevs start
unfolding construct tc397tools.Dwarf.Scan.scan_cus tc397tools.Dwarf.Scan.scan_header
    tc397tools.Reader.read_u32 tc397tools.Reader.read_u16 tc397tools.Reader.at
opened_start = opened refl

lookups-ne-stuck_example :
    ((parse_all_cus start).0 ≢ stuck)
    × ((get_die 25 start).0 ≢ stuck)
    × ((find_variable (codes "v") start).0 ≢ stuck)
lookups-ne-stuck_example = lookups-ne-stuck info abbrevs start 25 (codes "v") opened_start

-- The state behind the index.
abbrev after : Resolver
after = (build_member_index 5 10 start).1

Used-IsTable_example : IsTable after
Used-IsTable_example = Used-IsTable info abbrevs after (indexed 5 10 opened_start)

built : build_member_index 5 10 start ≡ (ok items, after)
unfolding build_member_index tc397tools.Dwarf.State.available parse_all_cus
    tc397tools.Dwarf.State.parse_cu tc397tools.Dwarf.State.abbrevs_for
    tc397tools.Prelude.Table.lookup tc397tools.Dwarf.Scan.parse_abbrevs tc397tools.Reader.read_uleb
    tc397tools.Reader.shl64 tc397tools.Dwarf.Scan.read_abbrev tc397tools.Prelude.Table.insert
    tc397tools.Dwarf.Forms.read_attr tc397tools.Reader.read_cstr tc397tools.Reader.read_uint
    tc397tools.Reader.at tc397tools.Reader.read_block_bytes tc397tools.Prelude.Sort.sort
    tc397tools.Prelude.bytes_eq tc397tools.Dwarf.Build.named_variables
    tc397tools.Dwarf.Build.index_variables tc397tools.Dwarf.Types.address_from_location
    tc397tools.Dwarf.Types.resolve_type tc397tools.Dwarf.Types.is_aggregate_type
    tc397tools.Dwarf.Types.ref_attr tc397tools.Dwarf.Types.name_of tc397tools.Dwarf.Types.byte_size
    tc397tools.Dwarf.Types.signedness tc397tools.Dwarf.Types.member_offset
    tc397tools.Dwarf.Members.make_item tc397tools.Dwarf.Members.add_item
    tc397tools.Dwarf.Members.collect_member_paths tc397tools.Dwarf.Build.item_less
    tc397tools.Prelude.Sort.bytes_less get_die tc397tools.Dwarf.Types.mem
    tc397tools.Dwarf.Members.seen_before
built = refl

build_member_index-IsTraced_example : All (IsTraced after 10) items
build_member_index-IsTraced_example =
    build_member_index-IsTraced 5 10 start after items
      (Used-IsTable info abbrevs start opened_start) built

abbrev third_byte : ParsedExpression
third_byte = record {
  base_expression = codes "v.m";
  root_name = codes "v";
  fields = codes "m" ∷ [];
  index = some 2;
}

abbrev byte_ref : VariableRef
byte_ref = record {
  expression = codes "v.m[2]";
  base_name = codes "v";
  address = 0x70000006;
  byte_size = 1;
  variable_size = 8;
  indexed = true;
  signed_known = true;
  is_signed = true;
  source = codes "ELFIO.DWARF.field";
  symbol_type = codes "DW_TAG_variable";
  binding = [];
  section_name = [];
  type_name = [];
}

abbrev resolved_state : Resolver
resolved_state = (resolve 10 third_byte after).1

byte_found : resolve 10 third_byte after ≡ (ok (some byte_ref), resolved_state)
unfolding resolve find_variable build_member_index tc397tools.Dwarf.State.available parse_all_cus
    tc397tools.Dwarf.State.parse_cu tc397tools.Dwarf.State.abbrevs_for
    tc397tools.Prelude.Table.lookup tc397tools.Dwarf.Scan.parse_abbrevs tc397tools.Reader.read_uleb
    tc397tools.Reader.shl64 tc397tools.Dwarf.Scan.read_abbrev tc397tools.Prelude.Table.insert
    tc397tools.Dwarf.Forms.read_attr tc397tools.Reader.read_cstr tc397tools.Reader.read_uint
    tc397tools.Reader.at tc397tools.Reader.read_block_bytes tc397tools.Prelude.Sort.sort
    tc397tools.Prelude.bytes_eq tc397tools.Dwarf.Build.named_variables
    tc397tools.Dwarf.Build.index_variables tc397tools.Dwarf.Types.address_from_location
    tc397tools.Dwarf.Types.resolve_type tc397tools.Dwarf.Types.is_aggregate_type
    tc397tools.Dwarf.Types.ref_attr tc397tools.Dwarf.Types.name_of tc397tools.Dwarf.Types.byte_size
    tc397tools.Dwarf.Types.signedness tc397tools.Dwarf.Types.member_offset
    tc397tools.Dwarf.Members.make_item tc397tools.Dwarf.Members.add_item
    tc397tools.Dwarf.Members.collect_member_paths tc397tools.Dwarf.Build.item_less
    tc397tools.Prelude.Sort.bytes_less get_die tc397tools.Dwarf.Types.mem
    tc397tools.Dwarf.Members.seen_before tc397tools.Dwarf.Scan.cu_containing
    tc397tools.Prelude.Decimal.to_string
byte_found = refl

-- The typedef stands at 39, and refers to a die that is no qualifier.
abbrev rank_of : ℕ → ℕ
rank_of k = if k == 39 then 1 else 0

rank_of-bounded : (k : ℕ) → rank_of k + 2 < 10
rank_of-bounded k = ground arith

parsed-falls : ranks_fall rank_of (parse_all_cus start).1.dies ≡ true
unfolding build_member_index tc397tools.Dwarf.State.available parse_all_cus
    tc397tools.Dwarf.State.parse_cu tc397tools.Dwarf.State.abbrevs_for
    tc397tools.Prelude.Table.lookup tc397tools.Dwarf.Scan.parse_abbrevs tc397tools.Reader.read_uleb
    tc397tools.Reader.shl64 tc397tools.Dwarf.Scan.read_abbrev tc397tools.Prelude.Table.insert
    tc397tools.Dwarf.Forms.read_attr tc397tools.Reader.read_cstr tc397tools.Reader.read_uint
    tc397tools.Reader.at tc397tools.Reader.read_block_bytes tc397tools.Prelude.Sort.sort
    tc397tools.Prelude.bytes_eq tc397tools.Dwarf.Build.named_variables
    tc397tools.Dwarf.Build.index_variables tc397tools.Dwarf.Types.address_from_location
    tc397tools.Dwarf.Types.resolve_type tc397tools.Dwarf.Types.is_aggregate_type
    tc397tools.Dwarf.Types.ref_attr tc397tools.Dwarf.Types.name_of tc397tools.Dwarf.Types.byte_size
    tc397tools.Dwarf.Types.signedness tc397tools.Dwarf.Types.member_offset
    tc397tools.Dwarf.Members.make_item tc397tools.Dwarf.Members.add_item
    tc397tools.Dwarf.Members.collect_member_paths tc397tools.Dwarf.Build.item_less
    tc397tools.Prelude.Sort.bytes_less get_die tc397tools.Dwarf.Types.mem
    tc397tools.Dwarf.Members.seen_before tc397tools.Dwarf.Finite.ranks_fall
parsed-falls = refl

parsed-IsAcyclic : IsAcyclic (parse_all_cus start).1.dies 10
parsed-IsAcyclic = record {
  rank = rank_of;
  bounded = rank_of-bounded;
  falls = ranks_fall-falls rank_of (parse_all_cus start).1.dies parsed-falls;
}

build_member_index-ne-stuck_example : (build_member_index 5 10 start).0 ≢ stuck
build_member_index-ne-stuck_example =
    build_member_index-ne-stuck info abbrevs 5 10 start opened_start parsed-IsAcyclic

after-falls : ranks_fall rank_of after.dies ≡ true
unfolding build_member_index tc397tools.Dwarf.State.available parse_all_cus
    tc397tools.Dwarf.State.parse_cu tc397tools.Dwarf.State.abbrevs_for
    tc397tools.Prelude.Table.lookup tc397tools.Dwarf.Scan.parse_abbrevs tc397tools.Reader.read_uleb
    tc397tools.Reader.shl64 tc397tools.Dwarf.Scan.read_abbrev tc397tools.Prelude.Table.insert
    tc397tools.Dwarf.Forms.read_attr tc397tools.Reader.read_cstr tc397tools.Reader.read_uint
    tc397tools.Reader.at tc397tools.Reader.read_block_bytes tc397tools.Prelude.Sort.sort
    tc397tools.Prelude.bytes_eq tc397tools.Dwarf.Build.named_variables
    tc397tools.Dwarf.Build.index_variables tc397tools.Dwarf.Types.address_from_location
    tc397tools.Dwarf.Types.resolve_type tc397tools.Dwarf.Types.is_aggregate_type
    tc397tools.Dwarf.Types.ref_attr tc397tools.Dwarf.Types.name_of tc397tools.Dwarf.Types.byte_size
    tc397tools.Dwarf.Types.signedness tc397tools.Dwarf.Types.member_offset
    tc397tools.Dwarf.Members.make_item tc397tools.Dwarf.Members.add_item
    tc397tools.Dwarf.Members.collect_member_paths tc397tools.Dwarf.Build.item_less
    tc397tools.Prelude.Sort.bytes_less get_die tc397tools.Dwarf.Types.mem
    tc397tools.Dwarf.Members.seen_before tc397tools.Dwarf.Finite.ranks_fall
after-falls = refl

after-IsAcyclic : IsAcyclic after.dies 10
after-IsAcyclic = record {
  rank = rank_of;
  bounded = rank_of-bounded;
  falls = ranks_fall-falls rank_of after.dies after-falls;
}

resolve-ne-stuck_example : (resolve 10 third_byte after).0 ≢ stuck
unfolding build_member_index tc397tools.Dwarf.State.available parse_all_cus
    tc397tools.Dwarf.State.parse_cu tc397tools.Dwarf.State.abbrevs_for
    tc397tools.Prelude.Table.lookup tc397tools.Dwarf.Scan.parse_abbrevs tc397tools.Reader.read_uleb
    tc397tools.Reader.shl64 tc397tools.Dwarf.Scan.read_abbrev tc397tools.Prelude.Table.insert
    tc397tools.Dwarf.Forms.read_attr tc397tools.Reader.read_cstr tc397tools.Reader.read_uint
    tc397tools.Reader.at tc397tools.Reader.read_block_bytes tc397tools.Prelude.Sort.sort
    tc397tools.Prelude.bytes_eq tc397tools.Dwarf.Build.named_variables
    tc397tools.Dwarf.Build.index_variables tc397tools.Dwarf.Types.address_from_location
    tc397tools.Dwarf.Types.resolve_type tc397tools.Dwarf.Types.is_aggregate_type
    tc397tools.Dwarf.Types.ref_attr tc397tools.Dwarf.Types.name_of tc397tools.Dwarf.Types.byte_size
    tc397tools.Dwarf.Types.signedness tc397tools.Dwarf.Types.member_offset
    tc397tools.Dwarf.Members.make_item tc397tools.Dwarf.Members.add_item
    tc397tools.Dwarf.Members.collect_member_paths tc397tools.Dwarf.Build.item_less
    tc397tools.Prelude.Sort.bytes_less get_die tc397tools.Dwarf.Types.mem
    tc397tools.Dwarf.Members.seen_before tc397tools.Dwarf.Resolve.cached_variable
resolve-ne-stuck_example = resolve-ne-stuck 10 third_byte after (refl, tt) refl after-IsAcyclic

abbrev first_state : Resolver
first_state = (resolve 10 third_byte start).1

first_found : resolve 10 third_byte start ≡ (ok (some byte_ref), first_state)
unfolding resolve find_variable build_member_index tc397tools.Dwarf.State.available parse_all_cus
    tc397tools.Dwarf.State.parse_cu tc397tools.Dwarf.State.abbrevs_for
    tc397tools.Prelude.Table.lookup tc397tools.Dwarf.Scan.parse_abbrevs tc397tools.Reader.read_uleb
    tc397tools.Reader.shl64 tc397tools.Dwarf.Scan.read_abbrev tc397tools.Prelude.Table.insert
    tc397tools.Dwarf.Forms.read_attr tc397tools.Reader.read_cstr tc397tools.Reader.read_uint
    tc397tools.Reader.at tc397tools.Reader.read_block_bytes tc397tools.Prelude.Sort.sort
    tc397tools.Prelude.bytes_eq tc397tools.Dwarf.Build.named_variables
    tc397tools.Dwarf.Build.index_variables tc397tools.Dwarf.Types.address_from_location
    tc397tools.Dwarf.Types.resolve_type tc397tools.Dwarf.Types.is_aggregate_type
    tc397tools.Dwarf.Types.ref_attr tc397tools.Dwarf.Types.name_of tc397tools.Dwarf.Types.byte_size
    tc397tools.Dwarf.Types.signedness tc397tools.Dwarf.Types.member_offset
    tc397tools.Dwarf.Members.make_item tc397tools.Dwarf.Members.add_item
    tc397tools.Dwarf.Members.collect_member_paths tc397tools.Dwarf.Build.item_less
    tc397tools.Prelude.Sort.bytes_less get_die tc397tools.Dwarf.Types.mem
    tc397tools.Dwarf.Members.seen_before tc397tools.Dwarf.Scan.cu_containing
    tc397tools.Prelude.Decimal.to_string
first_found = refl

again_found :
    resolve 10 third_byte first_state ≡ (ok (some byte_ref), (resolve 10 third_byte first_state).1)
unfolding resolve find_variable build_member_index tc397tools.Dwarf.State.available parse_all_cus
    tc397tools.Dwarf.State.parse_cu tc397tools.Dwarf.State.abbrevs_for
    tc397tools.Prelude.Table.lookup tc397tools.Dwarf.Scan.parse_abbrevs tc397tools.Reader.read_uleb
    tc397tools.Reader.shl64 tc397tools.Dwarf.Scan.read_abbrev tc397tools.Prelude.Table.insert
    tc397tools.Dwarf.Forms.read_attr tc397tools.Reader.read_cstr tc397tools.Reader.read_uint
    tc397tools.Reader.at tc397tools.Reader.read_block_bytes tc397tools.Prelude.Sort.sort
    tc397tools.Prelude.bytes_eq tc397tools.Dwarf.Build.named_variables
    tc397tools.Dwarf.Build.index_variables tc397tools.Dwarf.Types.address_from_location
    tc397tools.Dwarf.Types.resolve_type tc397tools.Dwarf.Types.is_aggregate_type
    tc397tools.Dwarf.Types.ref_attr tc397tools.Dwarf.Types.name_of tc397tools.Dwarf.Types.byte_size
    tc397tools.Dwarf.Types.signedness tc397tools.Dwarf.Types.member_offset
    tc397tools.Dwarf.Members.make_item tc397tools.Dwarf.Members.add_item
    tc397tools.Dwarf.Members.collect_member_paths tc397tools.Dwarf.Build.item_less
    tc397tools.Prelude.Sort.bytes_less get_die tc397tools.Dwarf.Types.mem
    tc397tools.Dwarf.Members.seen_before tc397tools.Dwarf.Scan.cu_containing
    tc397tools.Prelude.Decimal.to_string
again_found = refl

calm_start : Calm info abbrevs start
unfolding construct tc397tools.Dwarf.Scan.scan_cus tc397tools.Dwarf.Scan.scan_header
    tc397tools.Reader.read_u32 tc397tools.Reader.read_u16 tc397tools.Reader.at
calm_start = Placed.opened refl

resolve-IsLocated-Calm_example :
    IsLocated (resolve 10 third_byte first_state).1 10 third_byte byte_ref
resolve-IsLocated-Calm_example =
    resolve-IsLocated-Calm info abbrevs 10 third_byte first_state _ byte_ref
      (Placed.resolved 10 third_byte calm_start first_found) again_found

-- ===== src/Dwarf/Types.antt =====
-- The accessors of a Die, and resolve_type, address_from_location and member_offset.
use tc397tools.Prelude.{
  ℕ, zero, suc, ◌+◌, ◌-◌, Bool, false, not, ◌&&◌, ◌||◌, Option, none, some, List, [], ◌∷◌, ◌++◌,
  ltb, leb, ◌==◌, if◌then◌else◌, length, Bytes,
}
use tc397tools.Prelude.Result.{Result, ok, err, undefined, stuck, throw}
use tc397tools.Prelude.Result as Result
use tc397tools.Prelude.Table.{lookup}
use tc397tools.Reader.{read_uleb, read_uint_loop, wrap64}
use tc397tools.Dwarf.Data.{
  Die, AttrValue, CuHeader, dw_at_name, dw_at_byte_size, dw_at_encoding, dw_at_type, dw_at_location,
  dw_at_data_member_location, dw_tag_typedef, dw_tag_const_type, dw_tag_volatile_type,
  dw_tag_restrict_type, dw_tag_structure_type, dw_tag_class_type, dw_tag_union_type, dw_form_data1,
  dw_form_data2, dw_form_data4, dw_form_data8, dw_form_udata,
}
use tc397tools.Dwarf.State.{M, ◌>>=◌, pure, lift, get_die}

unfoldable pub name_of : Die → Bytes
name_of die = elim (lookup dw_at_name die.attrs) [ none ↦ [] | some value ↦ value.str ]

unfoldable pub byte_size : Die → Option ℕ
byte_size die = elim (lookup dw_at_byte_size die.attrs) [ none ↦ none | some value ↦ some value.u ]

unfoldable pub signedness : Die → Option Bool
signedness die = elim (lookup dw_at_encoding die.attrs) [
  | none ↦ none
  | some value ↦ some (value.u == 0x05 || value.u == 0x06)
]

-- `switch (value->form)` of ref_attr; `die.cu_start + value->u` wraps.
unfoldable pub ref_target : ℕ → AttrValue → Option ℕ
ref_target cu_start value =
    if value.form == 0x10
    then some value.u
    else if value.form == 0x11
        || value.form == 0x12
        || value.form == 0x13
        || value.form == 0x14
        || value.form == 0x15
    then some (wrap64 (cu_start + value.u))
    else none

unfoldable pub ref_attr : Die → ℕ → Option ℕ
unfolding ref_target
ref_attr die attr_name = elim (lookup attr_name die.attrs) [
  | none ↦ none
  | some value ↦ ref_target die.cu_start value
]

-- The tags that resolve_type looks through.
abbrev pub is_qualifier : ℕ → Bool
is_qualifier tag =
    tag == dw_tag_typedef
    || tag == dw_tag_const_type
    || tag == dw_tag_volatile_type
    || tag == dw_tag_restrict_type

unfoldable pub mem : ℕ → List ℕ → Bool
mem x [] = false
mem x (y ∷ ys) = x == y || mem x ys

-- resolve_type(const Die*): the loop over `current`, with `seen`. The call for the next type is the
-- overload on an offset, which starts resolve_type(const Die*) anew. The fuel bounds rounds and calls.
unfoldable pub resolve_die : ℕ → Option Die → List ℕ → M (Option Die)
unfolding mem
resolve_die zero current seen = lift stuck
resolve_die (suc fuel) none seen = pure none
resolve_die (suc fuel) (some current) seen =
    let follow = (do
      next ← elim (ref_attr current dw_at_type) [
        | none ↦ pure none
        | some offset ↦ (do die ← get_die offset; resolve_die fuel die [])
      ]
      resolve_die fuel next (seen ++ current.offset ∷ [])) in
    if mem current.offset seen
    then pure (some current)
    else if not (is_qualifier current.tag)
    then pure (some current)
    else follow

unfoldable pub resolve_type : ℕ → Option ℕ → M (Option Die)
unfolding resolve_die
resolve_type fuel none = pure none
resolve_type fuel (some offset) = do die ← get_die offset; resolve_die fuel die []

abbrev pub is_aggregate_tag : ℕ → Bool
is_aggregate_tag tag =
    tag == dw_tag_structure_type || tag == dw_tag_class_type || tag == dw_tag_union_type

unfoldable pub is_aggregate_type : ℕ → Die → M Bool
is_aggregate_type fuel die = do
  resolved ← resolve_die fuel (some die) []
  pure (elim resolved [ none ↦ false | some target ↦ is_aggregate_tag target.tag ])

-- The address size of the unit that starts there, or 4.
unfoldable pub unit_size : List CuHeader → ℕ → ℕ
unit_size [] cu_start = 4
unit_size (cu ∷ cus) cu_start =
    if cu.start == cu_start then cu.address_size else unit_size cus cu_start

-- The loop of address_from_location over `block[1 ..]` is that of read_uint.
unfoldable pub location_value : List CuHeader → Die → Bytes → Result (Option ℕ)
unfolding unit_size
location_value cus die block =
    let addr_size = unit_size cus die.cu_start in
    let result = Result.◌>>=◌ (read_uint_loop addr_size block 1 0 0) λ v. ok (some v) in
    if ltb (length block) (1 + addr_size) then ok none else result

unfoldable pub address_from_location : List CuHeader → Die → Result (Option ℕ)
unfolding location_value
address_from_location cus die = elim (lookup dw_at_location die.attrs) [
  | none ↦ ok none
  | some value ↦ elim value.block [
    | [] ↦ ok none
    | ◌∷◌ op rest ↦ if op == 0x03 then location_value cus die (op ∷ rest) else ok none
  ]
]

-- The block forms of DW_AT_data_member_location.
unfoldable pub offset_of_block : Bytes → Result ℕ
offset_of_block [] = ok 0
offset_of_block (op ∷ rest) =
    if op == 0x23
    then Result.◌>>=◌ (read_uleb (op ∷ rest) 1) (λ (v, off). ok v)
    else if leb 0x30 op && leb op 0x4f
    then ok (op - 0x30)
    else throw "unsupported DWARF member location expression"

unfoldable pub member_offset : Die → Result ℕ
unfolding offset_of_block
member_offset die = elim (lookup dw_at_data_member_location die.attrs) [
  | none ↦ ok 0
  | some value ↦
      if value.form == dw_form_data1
        || value.form == dw_form_data2
        || value.form == dw_form_data4
        || value.form == dw_form_data8
        || value.form == dw_form_udata
      then ok value.u
      else offset_of_block value.block
]

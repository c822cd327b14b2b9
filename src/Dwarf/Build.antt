-- ===== src/Dwarf/Build.antt =====
-- build_member_index of DwarfResolver.
use tc397tools.Prelude.{
  ℕ, ◌+◌, Bool, not, ◌&&◌, ◌||◌, Option, none, some, List, [], ◌∷◌, ltb, ◌==◌, if◌then◌else◌, Bytes,
  bytes_eq,
}
use tc397tools.Prelude.Result.{ok}
use tc397tools.Prelude.Sort.{sort, bytes_less}
use tc397tools.Dwarf.Data.{Die, CuHeader, dw_at_type, dw_tag_variable}
use tc397tools.Dwarf.State.{M, ◌>>=◌, ◌>>◌, pure, lift, get, parse_cu, available}
use tc397tools.Dwarf.Types.{
  name_of, ref_attr, resolve_type, is_aggregate_type, address_from_location,
}
use tc397tools.Dwarf.Members.{MemberPath, Index, add_item, make_item, collect_member_paths}

-- `for (auto& cu : cus) parse_cu(cu);` from the unit at index i on.
unfoldable pub parse_cus : ℕ → List CuHeader → M (Unit {0})
parse_cus i [] = pure tt
parse_cus i (cu ∷ cus) = do parse_cu i cu; parse_cus (i + 1) cus

unfoldable pub parse_all_cus : M (Unit {0})
unfolding parse_cus
parse_all_cus r = parse_cus 0 r.cus r

-- The Dies of named variables.
unfoldable pub named_variables : List (ℕ × Die) → List Die
named_variables [] = []
named_variables ((key, die) ∷ dies) =
    if die.tag == dw_tag_variable && not (bytes_eq (name_of die) [])
    then die ∷ named_variables dies
    else named_variables dies

-- The members below a variable whose type is an aggregate.
unfoldable pub index_members : ℕ → ℕ → Bytes → ℕ → Option Die → Index → M Index
index_members max_depth fuel root_name root_address none ix = pure ix
index_members max_depth fuel root_name root_address (some root_type) ix = do
  aggregate ← is_aggregate_type fuel root_type
  let collect =
      collect_member_paths max_depth fuel root_name [] root_name root_address 0 root_type ix
  if aggregate then collect else pure ix

-- One round of the loop over the variables.
unfoldable pub index_variable : ℕ → ℕ → Die → Index → M Index
unfolding index_members
index_variable max_depth fuel variable ix = do
  r ← get
  root_address ← lift (address_from_location r.cus variable)
  elim root_address [
    | none ↦ pure ix
    | some address ↦ (do
      root_type ← resolve_type fuel (ref_attr variable dw_at_type)
      let name = name_of variable
      let ix₁ = add_item (make_item name name name address 0 variable root_type) ix
      index_members max_depth fuel name address root_type ix₁)
  ]

unfoldable pub index_variables : ℕ → ℕ → List Die → Index → M Index
unfolding index_variable
index_variables max_depth fuel [] ix = pure ix
index_variables max_depth fuel (variable ∷ variables) ix = do
  ix₁ ← index_variable max_depth fuel variable ix
  index_variables max_depth fuel variables ix₁

-- The order of the items: std::tie(member_name, expression, address).
unfoldable pub item_less : MemberPath → MemberPath → Bool
item_less a b =
    bytes_less a.member_name b.member_name
    || (bytes_eq a.member_name b.member_name
        && (bytes_less a.expression b.expression
            || (bytes_eq a.expression b.expression && ltb a.address b.address)))

abbrev pub no_items : Index
no_items = record { seen = []; items = [] }

unfoldable pub build_member_index : ℕ → ℕ → M (List MemberPath)
unfolding index_variables named_variables item_less
build_member_index max_depth fuel r =
    let run : M (List MemberPath) = (do
      parse_all_cus
      r' ← get
      let variables = sort (λ a b. ltb a.offset b.offset) (named_variables r'.dies)
      ix ← index_variables max_depth fuel variables no_items
      pure (sort item_less ix.items)) in
    if not (available r) || max_depth == 0 then (ok [], r) else run r

-- ===== src/Dwarf/Resolve.antt =====
-- find_variable, resolve and build_member_index of DwarfResolver.
use tc397tools.Prelude.{
  ℕ, ◌+◌, Bool, true, false, not, ◌&&◌, Option, none, some, List, [], ◌∷◌, ◌++◌, leb, ◌==◌,
  if◌then◌else◌, Bytes, bytes_eq, codes,
}
use tc397tools.Prelude.Result.{Result, ok, err, runtime_error}
use tc397tools.Prelude.Decimal.{to_string}
use tc397tools.Reader.{wrap64}
use tc397tools.Expression.{ParsedExpression}
use tc397tools.Dwarf.Data.{Die, dw_at_type, dw_tag_member, dw_tag_variable}
use tc397tools.Dwarf.Scan.{cu_containing}
use tc397tools.Dwarf.State.{M, ◌>>=◌, ◌>>◌, pure, lift, get, put, get_die, parse_cu, available}
use tc397tools.Dwarf.Types.{
  name_of, byte_size, signedness, ref_attr, resolve_die, resolve_type, address_from_location,
  member_offset,
}
use tc397tools.Dwarf.Members.{value_or, has_value, size_of_type, signed_of_type, name_of_type}

pub record VariableRef : Type 0 where
  pub expression : Bytes
  pub base_name : Bytes
  pub address : ℕ
  pub byte_size : ℕ
  pub variable_size : ℕ
  pub indexed : Bool
  pub signed_known : Bool
  pub is_signed : Bool
  pub source : Bytes
  pub symbol_type : Bytes
  pub binding : Bytes
  pub section_name : Bytes
  pub type_name : Bytes

-- What stands at the front of `text` is `name`, and then a 0 or the end.
unfoldable pub matches_name : Bytes → Bytes → Bool
matches_name [] [] = true
matches_name [] (c ∷ text) = c == 0
matches_name (n ∷ name) [] = false
matches_name (n ∷ name) (c ∷ text) = n == c && matches_name name text

-- The `while (true)` over std::search: the offsets at which the name stands, from `offset` on.
unfoldable pub name_offsets : Bytes → Bytes → ℕ → List ℕ
unfolding matches_name
name_offsets name [] offset = []
name_offsets name (c ∷ text) offset =
    if matches_name name (c ∷ text)
    then offset ∷ name_offsets name text (offset + 1)
    else name_offsets name text (offset + 1)

-- The `for` over `dies`: the first variable of the unit with the name.
unfoldable pub variable_in : ℕ → Bytes → List (ℕ × Die) → Option Die
variable_in cu_start name [] = none
variable_in cu_start name ((key, die) ∷ dies) =
    if die.cu_start == cu_start && die.tag == dw_tag_variable && bytes_eq (name_of die) name
    then some die
    else variable_in cu_start name dies

unfoldable pub cached_variable : Bytes → List (Bytes × Option ℕ) → Option (Option ℕ)
cached_variable name [] = none
cached_variable name ((key, value) ∷ cache) =
    if bytes_eq key name then some value else cached_variable name cache

-- `variable_cache[name] = …`, of a name that is not in the cache.
unfoldable pub remember : Bytes → Option ℕ → M (Unit {0})
remember name value = do
  r ← get
  put (record r { variable_cache = (name, value) ∷ r.variable_cache })

unfoldable pub search_units : Bytes → List ℕ → M (Option Die)
unfolding remember variable_in
search_units name [] = do remember name none; pure none
search_units name (offset ∷ offsets) = do
  r ← get
  elim (cu_containing r.cus offset) [
    | none ↦ search_units name offsets
    | some (i, cu) ↦ (do
      parse_cu i cu
      r' ← get
      elim (variable_in cu.start name r'.dies) [
        | some die ↦ (do remember name (some die.offset); pure (some die))
        | none ↦ search_units name offsets
      ])
  ]

unfoldable pub find_variable : Bytes → M (Option Die)
unfolding search_units name_offsets cached_variable
find_variable name = do
  r ← get
  elim (cached_variable name r.variable_cache) [
    | some none ↦ pure none
    | some (some offset) ↦ get_die offset
    | none ↦ search_units name (name_offsets name r.info 0)
  ]

-- The `for` over `current_type->children`: the first member with the name.
unfoldable pub find_member : Bytes → List ℕ → M (Option Die)
find_member field [] = pure none
find_member field (child_off ∷ children) = do
  child ← get_die child_off
  let later = find_member field children
  elim child [
    | none ↦ later
    | some die ↦
        if die.tag == dw_tag_member && bytes_eq (name_of die) field then pure (some die) else later
  ]

-- The variables that the loop over the fields of `resolve` changes.
pub record Walk : Type 0 where
  pub current_type : Option Die
  pub byte_offset : ℕ
  pub final_size : ℕ
  pub final_signed : Option Bool
  pub final_type_name : Bytes
  pub traversed : Bytes

-- One field: none where `resolve` returns nullopt.
unfoldable pub walk_field : ℕ → Bytes → Walk → M (Option Walk)
unfolding find_member
walk_field fuel field w = do
  current ← resolve_die fuel w.current_type []
  elim current [
    | none ↦ pure none
    | some type_die ↦ (do
      found ← find_member field type_die.children
      elim found [
        | none ↦ lift (
            err (runtime_error (codes "DWARF member not found: " ++ (w.traversed ++ b'.' ∷ field))))
        | some member ↦ (do
          own_offset ← lift (member_offset member)
          member_type ← resolve_type fuel (ref_attr member dw_at_type)
          pure (
              some (record {
                current_type = member_type;
                byte_offset = wrap64 (w.byte_offset + own_offset);
                final_size = value_or (byte_size member) (size_of_type member_type);
                final_signed = signed_of_type member_type;
                final_type_name = name_of_type member_type;
                traversed = w.traversed ++ b'.' ∷ field;
              })))
      ])
  ]

unfoldable pub walk_fields : ℕ → List Bytes → Walk → M (Option Walk)
unfolding walk_field
walk_fields fuel [] w = pure (some w)
walk_fields fuel (field ∷ fields) w = do
  next ← walk_field fuel field w
  elim next [ none ↦ pure none | some w' ↦ walk_fields fuel fields w' ]

abbrev pub index_suffix : Option ℕ → Bytes
index_suffix none = []
index_suffix (some i) = b'[' ∷ (to_string i ++ b']' ∷ [])

-- `expr.index && size != 0 && *expr.index >= size`
abbrev pub index_outside : Option ℕ → ℕ → Bool
index_outside none size = false
index_outside (some i) size = not (size == 0) && leb size i

-- What `resolve` does behind the loop.
unfoldable pub finish_resolve : ParsedExpression → ℕ → ℕ → Walk → Result (Option VariableRef)
finish_resolve expr root_addr root_size w =
    if index_outside expr.index w.final_size
    then err
        (runtime_error (codes "byte index is outside " ++ (expr.base_expression ++ codes " size")))
    else ok (
        some (record {
          expression = expr.base_expression ++ index_suffix expr.index;
          base_name = expr.root_name;
          address = wrap64 (root_addr + w.byte_offset + value_or expr.index 0);
          byte_size = if has_value expr.index then 1 else w.final_size;
          variable_size = root_size;
          indexed = has_value expr.index;
          signed_known = has_value w.final_signed;
          is_signed = value_or w.final_signed false;
          source = codes "ELFIO.DWARF.field";
          symbol_type = codes "DW_TAG_variable";
          binding = [];
          section_name = [];
          type_name = w.final_type_name;
        }))

-- `resolve` from the Die of the variable on.
unfoldable pub resolve_root : ℕ → ParsedExpression → Die → M (Option VariableRef)
unfolding walk_fields finish_resolve
resolve_root fuel expr root = do
  r ← get
  root_addr ← lift (address_from_location r.cus root)
  elim root_addr [
    | none ↦ pure none
    | some address ↦ (do
      root_type ← resolve_type fuel (ref_attr root dw_at_type)
      elim root_type [
        | none ↦ pure none
        | some type_die ↦ (do
          walked ← walk_fields fuel expr.fields (record {
            current_type = some type_die;
            byte_offset = 0;
            final_size = value_or (byte_size type_die) 0;
            final_signed = signedness type_die;
            final_type_name = name_of type_die;
            traversed = expr.root_name;
          })
          elim walked [
            | none ↦ pure none
            | some w ↦ lift (finish_resolve expr address (value_or (byte_size type_die) 0) w)
          ])
      ])
  ]

unfoldable pub resolve : ℕ → ParsedExpression → M (Option VariableRef)
unfolding resolve_root find_variable
resolve fuel expr r =
    let run : M (Option VariableRef) = (do
      root ← find_variable expr.root_name
      elim root [ none ↦ pure none | some die ↦ resolve_root fuel expr die ]) in
    if not (available r)
    then (ok none, r)
    else elim expr.fields [ [] ↦ (ok none, r) | ◌∷◌ _ _ ↦ run r ]

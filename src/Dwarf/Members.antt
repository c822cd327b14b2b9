-- ===== src/Dwarf/Members.antt =====
-- find_variable, collect_member_paths and build_member_index.
use tc397tools.Prelude.{
  ℕ, zero, suc, ◌+◌, Bool, true, false, not, ◌&&◌, ◌||◌, Option, none, some, List, [], ◌∷◌, ◌++◌,
  ◌==◌, if◌then◌else◌, Bytes, bytes_eq,
}
use tc397tools.Reader.{wrap64}
use tc397tools.Dwarf.Data.{Die, dw_at_type, dw_tag_member}
use tc397tools.Dwarf.State.{M, ◌>>=◌, pure, lift, get_die}
use tc397tools.Dwarf.Types.{
  name_of, byte_size, signedness, ref_attr, resolve_die, resolve_type, is_aggregate_type, mem,
  member_offset,
}

pub record MemberPath : Type 0 where
  pub member_name : Bytes
  pub expression : Bytes
  pub base_name : Bytes
  pub address : ℕ
  pub byte_offset : ℕ
  pub byte_size : ℕ
  pub signed_known : Bool
  pub is_signed : Bool
  pub type_name : Bytes

-- `seen_expressions` and `items`, which collect_member_paths takes by reference.
pub record Index : Type 0 where
  pub seen : List Bytes
  pub items : List MemberPath

unfoldable pub seen_before : Bytes → List Bytes → Bool
seen_before e [] = false
seen_before e (x ∷ xs) = bytes_eq x e || seen_before e xs

-- `if (seen_expressions.insert(expression).second) items.push_back(item)`
unfoldable pub add_item : MemberPath → Index → Index
add_item item ix =
    if seen_before item.expression ix.seen
    then ix
    else record { seen = item.expression ∷ ix.seen; items = ix.items ++ item ∷ [] }

abbrev pub value_or {ℓ} : {A : Type ℓ} → Option A → A → A
value_or none d = d
value_or (some a) d = a

abbrev pub has_value {ℓ} : {A : Type ℓ} → Option A → Bool
has_value none = false
has_value (some a) = true

abbrev pub size_of_type : Option Die → ℕ
size_of_type none = 0
size_of_type (some die) = value_or (byte_size die) 0

abbrev pub signed_of_type : Option Die → Option Bool
signed_of_type none = none
signed_of_type (some die) = signedness die

abbrev pub name_of_type : Option Die → Bytes
name_of_type none = []
name_of_type (some die) = name_of die

-- The item for a variable or a member.
unfoldable pub make_item : Bytes → Bytes → Bytes → ℕ → ℕ → Die → Option Die → MemberPath
make_item member_name expression base_name root_address byte_offset die type_die = record {
  member_name = member_name;
  expression = expression;
  base_name = base_name;
  address = wrap64 (root_address + byte_offset);
  byte_offset = byte_offset;
  byte_size = value_or (byte_size die) (size_of_type type_die);
  signed_known = has_value (signed_of_type type_die);
  is_signed = value_or (signed_of_type type_die) false;
  type_name = name_of_type type_die;
}

-- What collect_member_paths does for the members of an aggregate whose type has not been entered.
-- `enter` is the call for a member's type: the parent expression, offset, type and index so far.
module _ (fuel : ℕ) (enter : Bytes → ℕ → Die → Index → M Index)
    (base_name parent_expression : Bytes) (root_address parent_offset : ℕ) where
  unfoldable pub collect_nested : Option Die → Bytes → ℕ → Index → M Index
  collect_nested none expression byte_offset ix = pure ix
  collect_nested (some member_type) expression byte_offset ix = do
    aggregate ← is_aggregate_type fuel member_type
    if aggregate then enter expression byte_offset member_type ix else pure ix

  unfoldable pub collect_member : Die → Index → M Index
  unfolding make_item collect_nested
  collect_member child ix = do
    own_offset ← lift (member_offset child)
    let byte_offset = wrap64 (parent_offset + own_offset)
    member_type ← resolve_type fuel (ref_attr child dw_at_type)
    let expression = parent_expression ++ b'.' ∷ name_of child
    let item =
        make_item (name_of child) expression base_name root_address byte_offset child member_type
    collect_nested member_type expression byte_offset (add_item item ix)

  unfoldable pub collect_child : Option Die → Index → M Index
  unfolding collect_member
  collect_child none ix = pure ix
  collect_child (some child) ix =
      if child.tag == dw_tag_member && not (bytes_eq (name_of child) [])
      then collect_member child ix
      else pure ix

  unfoldable pub collect_children : List ℕ → Index → M Index
  unfolding collect_child
  collect_children [] ix = pure ix
  collect_children (child_off ∷ children) ix = do
    child ← get_die child_off
    ix₁ ← collect_child child ix
    collect_children children ix₁

-- collect_member_paths. The recursion is on `depth_remaining`; `type_stack` is handed down, since a
-- call erases on its way out what it inserted.
unfoldable pub collect_member_paths : ℕ → ℕ → Bytes → List ℕ → Bytes → ℕ → ℕ → Die → Index → M Index
unfolding collect_children
collect_member_paths zero fuel base_name type_stack parent root_address offset type_die ix = do
  current ← resolve_die fuel (some type_die) []
  elim current [
    | none ↦ pure ix
    | some target ↦ (do aggregate ← is_aggregate_type fuel target; pure ix)
  ]
collect_member_paths (suc depth) fuel base_name type_stack parent root_address offset type_die ix =
    do
      current ← resolve_die fuel (some type_die) []
      elim current [
        | none ↦ pure ix
        | some target ↦ (do
          aggregate ← is_aggregate_type fuel target
          let members =
              collect_children fuel
                (λ expression off t ix₁.
                  collect_member_paths depth fuel base_name (target.offset ∷ type_stack) expression
                    root_address off t ix₁)
                base_name parent root_address offset target.children ix
          if aggregate && not (mem target.offset type_stack) then members else pure ix)
      ]

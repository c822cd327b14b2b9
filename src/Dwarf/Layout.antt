-- ===== src/Dwarf/Layout.antt =====
-- What the DWARF information says of a member below a variable, and the items of the index that say the same.
use mathlib.Core.List.{Memᴰ}
use tc397tools.Prelude.{
  ℕ, zero, suc, none, ◌≢◌, ◌+◌, false, Option, some, List, [], ◌∷◌, ◌++◌, map, ◌≡◌, Bytes, All,
  All-append, either,
}
use tc397tools.Prelude.Result.{Result, ok}
use tc397tools.Prelude.Table.{lookup}
use tc397tools.Reader.{wrap64}
use tc397tools.Dwarf.Data.{Die, dw_at_type, dw_tag_member, dw_tag_variable}
use tc397tools.Dwarf.State.{Resolver, M}
use tc397tools.Dwarf.Types.{
  name_of, byte_size, ref_attr, resolve_die, resolve_type, member_offset, address_from_location,
}
use tc397tools.Dwarf.Members.{
  MemberPath, Index, value_or, has_value, size_of_type, signed_of_type, name_of_type, add_item,
  seen_before,
}
use tc397tools.Dwarf.Runs.{Runs}
use tc397tools.Dwarf.Settled.{Same}

-- The dies of the table.
abbrev pub dies_of : Resolver → List Die
dies_of r = map (λ (entry : ℕ × Die). entry.1) r.dies

-- What holds of the items of an index, and of one more.
pub add_item-All :
    (P : MemberPath → Type 0) (item : MemberPath) (ix : Index)
    → P item
    → All P ix.items
    → All P (add_item item ix).items
unfolding add_item
add_item-All P item ix t h =
    either (λ (i : Index). All P i.items) (seen_before item.expression ix.seen) _ _ (λ k. h)
      (λ k. All-append P ix.items (item ∷ []) h (t, tt))

module _ (r : Resolver) (fuel : ℕ) where
  -- `child` is a member of the structure that `type_die` stands for.
  pub record IsMember (type_die child : Die) : Type 0 where
    pub target : Die
    pub offset : ℕ
    pub resolved : resolve_die fuel (some type_die) [] r ≡ (ok (some target), r)
    pub listed : Memᴰ offset target.children
    pub found : lookup offset r.dies ≡ some child
    pub tagged : child.tag ≡ dw_tag_member

  -- Below `variable`, the expression with its last name stands for a die at a byte offset, with its type.
  pub data Layout (variable : Die) : Bytes → Bytes → ℕ → Die → Option Die → Type 0 where
    root :
        {type_die : Option Die}
        → resolve_type fuel (ref_attr variable dw_at_type) r ≡ (ok type_die, r)
        → Layout variable (name_of variable) (name_of variable) 0 variable type_die
    member :
        {expression last : Bytes} {offset own : ℕ} {die type_die child : Die}
        {child_type : Option Die}
        → Layout variable expression last offset die (some type_die)
        → IsMember type_die child
        → member_offset child ≡ ok own
        → resolve_type fuel (ref_attr child dw_at_type) r ≡ (ok child_type, r)
        → Layout variable
            (expression ++ b'.' ∷ name_of child)
            (name_of child)
            (wrap64 (offset + own))
            child
            child_type

  -- An item of the index says what the DWARF information says of a variable of the table or of a member below it.
  pub record IsTraced (item : MemberPath) : Type 0 where
    pub variable : Die
    pub address : ℕ
    pub die : Die
    pub type_die : Option Die
    pub stands : Memᴰ variable (dies_of r)
    pub tagged : variable.tag ≡ dw_tag_variable
    pub located : address_from_location r.cus variable ≡ ok (some address)
    pub layout : Layout variable item.expression item.member_name item.byte_offset die type_die
    pub based : item.base_name ≡ name_of variable
    pub addressed : item.address ≡ wrap64 (address + item.byte_offset)
    pub sized : item.byte_size ≡ value_or (byte_size die) (size_of_type type_die)
    pub signed_when_known : item.signed_known ≡ has_value (signed_of_type type_die)
    pub signed_as : item.is_signed ≡ value_or (signed_of_type type_die) false
    pub typed : item.type_name ≡ name_of_type type_die

  abbrev pub AllTraced : Index → Type 0
  AllTraced ix = All IsTraced ix.items

  pub add_item-AllTraced :
      (item : MemberPath) (ix : Index) → IsTraced item → AllTraced ix → AllTraced (add_item item ix)
  add_item-AllTraced item ix = add_item-All IsTraced item ix

  resolve_die-none :
      (fuel' : ℕ) (target : Die) → resolve_die fuel' none [] r ≢ (ok (some target), r)
  unfolding resolve_die
  resolve_die-none zero target e = cc
  resolve_die-none (suc fuel') target e = cc

  -- The member of what the type stands for is laid out behind it.
  pub member_below :
      (variable : Die) (current : Option Die) {e last : Bytes} {n off own : ℕ}
      {die target child : Die} {t : Option Die}
      → Layout variable e last n die current
      → resolve_die fuel current [] r ≡ (ok (some target), r)
      → Memᴰ off target.children
      → lookup off r.dies ≡ some child
      → child.tag ≡ dw_tag_member
      → member_offset child ≡ ok own
      → resolve_type fuel (ref_attr child dw_at_type) r ≡ (ok t, r)
      → Layout variable (e ++ b'.' ∷ name_of child) (name_of child) (wrap64 (n + own)) child t
  member_below variable none layout resolved listed found tagged own_offset its_type =
      absurd (resolve_die-none fuel _ resolved)
  member_below variable (some type_die) layout resolved listed found tagged own_offset its_type =
      member layout
        (record {
          target = _;
          offset = _;
          resolved = resolved;
          listed = listed;
          found = found;
          tagged = tagged;
        })
        own_offset its_type

  -- The type in the layout is that of the die.
  pub Layout-resolve_type :
      {variable : Die} {e last : Bytes} {n : ℕ} {die : Die} {t : Option Die}
      → Layout variable e last n die t
      → resolve_type fuel (ref_attr die dw_at_type) r ≡ (ok t, r)
  Layout-resolve_type (root its_type) = its_type
  Layout-resolve_type (member layout is_member own its_type) = its_type

-- A method that only adds traced items to the index and leaves the state as it is.
abbrev pub Traces : (r : Resolver) → ℕ → Type 0 → Result Index × Resolver → Type 0
Traces r fuel S = Runs S (λ (ix : Index) (r' : Resolver). (r' ≡ r) × AllTraced r fuel ix) (Same r)

abbrev pub KeepsTraced : (r : Resolver) → ℕ → Type 0 → (Index → M Index) → Type 0
KeepsTraced r fuel S f =
    (ix : Index) (s : Resolver) → s ≡ r → AllTraced r fuel ix → Traces r fuel S (f ix s)

-- ===== src/Dwarf/Indexed.antt =====
-- build_member_index of DwarfResolver says what the DWARF information says.
use mathlib.Core.List.{Memᴰ}
use tc397tools.Prelude.{
  ℕ, not, ◌&&◌, ◌||◌, Option, none, some, List, [], ◌∷◌, map, ◌≡◌, refl, sym, subst, arith, ltb,
  ◌==◌, bytes_eq, All, inl, inr, either, Bool-cases,
}
use tc397tools.Prelude.Result.{Result, ok}
use tc397tools.Prelude.Sorted.{All-sort}
use tc397tools.Dwarf.Data.{Die, dw_at_type, dw_tag_variable}
use tc397tools.Dwarf.State.{Resolver, M, available}
use tc397tools.Dwarf.Types.{name_of, ref_attr, resolve_type, address_from_location}
use tc397tools.Dwarf.Members.{MemberPath, Index}
use tc397tools.Dwarf.Build.{
  named_variables, index_members, index_variable, index_variables, item_less, no_items,
  build_member_index, parse_all_cus,
}
use tc397tools.Dwarf.Runs.{Runs, gives, ◌⟫=◌, maybe_read-Runs, unstuck, exactly, weaken_both}
use tc397tools.Dwarf.Table.{IsTable, All-weaken}
use tc397tools.Dwarf.Parse.{IsParsed, parse_all_cus-Runs}
use tc397tools.Dwarf.Settled.{IsEnding, any_end}
use tc397tools.Dwarf.Values.{address_from_location-ne-stuck}
use tc397tools.Dwarf.Layout.{
  dies_of, root, IsTraced, AllTraced, add_item-AllTraced, Traces, KeepsTraced,
}
use tc397tools.Dwarf.Traced.{
  resolve_type-Settles, is_aggregate_type-Same, collect_member_paths-Traces, item-IsTraced,
}

-- A variable of the table.
abbrev IsVariable : Resolver → Die → Type 0
IsVariable r die = Memᴰ die (dies_of r) × (die.tag ≡ dw_tag_variable)

module _ (r : Resolver) (parsed : IsParsed r.cus) (max_depth fuel : ℕ) (S : Type 0)
    (ends : IsEnding r fuel S) where
  index_variable-Traces :
      (variable : Die)
      → IsVariable r variable
      → KeepsTraced r fuel S (index_variable max_depth fuel variable)
  unfolding index_variable index_members
  index_variable-Traces variable (stands, tagged) ix s same h =
      maybe_read-Runs (address_from_location s.cus variable) s _
        (address_from_location-ne-stuck s.cus variable) same (gives (same, h))
        λ a located.
          let at_r =
            subst (λ (u : Resolver). address_from_location u.cus variable ≡ ok (some a)) same
              located in
          resolve_type-Settles r parsed fuel S ends (ref_attr variable dw_at_type) s same
          ⟫= λ t s₁ (same₁, its_type).
              let added =
                add_item-AllTraced r fuel _ ix
                  (item-IsTraced r parsed fuel S ends variable a stands tagged at_r _ _ 0 variable t
                    (root its_type))
                  h in
              members t its_type _ s₁ same₁ added at_r
    where
      members :
          {a : ℕ} (t : Option Die)
          → resolve_type fuel (ref_attr variable dw_at_type) r ≡ (ok t, r)
          → (ix₁ : Index) (s₁ : Resolver) → s₁ ≡ r
          → AllTraced r fuel ix₁
          → address_from_location r.cus variable ≡ ok (some a)
          → Traces r fuel S (index_members max_depth fuel (name_of variable) a t ix₁ s₁)
      members none its_type ix₁ s₁ same₁ h₁ at_r = gives (same₁, h₁)
      members {a} (some t) its_type ix₁ s₁ same₁ h₁ at_r =
          is_aggregate_type-Same r parsed fuel S ends t (ends.behind_type _ (some t) its_type) s₁
            same₁
          ⟫= λ aggregate s₂ same₂.
              either (λ (m : M Index). Traces r fuel S (m s₂)) aggregate _ _
                (λ k.
                  collect_member_paths-Traces r parsed fuel S ends variable a stands tagged at_r
                    max_depth [] (name_of variable) 0 t (name_of variable, variable, root its_type)
                    ix₁ s₂ same₂ h₁)
                (λ k. gives (same₂, h₁))

  index_variables-Traces :
      (variables : List Die)
      → All (IsVariable r) variables
      → KeepsTraced r fuel S (index_variables max_depth fuel variables)
  unfolding index_variables
  index_variables-Traces [] all ix s same h = gives (same, h)
  index_variables-Traces (variable ∷ variables) all ix s same h =
      index_variable-Traces variable all.0 ix s same h ⟫= λ ix₁ s₁ (same₁, h₁).
      index_variables-Traces variables all.1 ix₁ s₁ same₁ h₁

named_variables-IsVariable :
    (dies : List (ℕ × Die))
    → All
        (λ die. Memᴰ die (map (λ (entry : ℕ × Die). entry.1) dies) × (die.tag ≡ dw_tag_variable))
        (named_variables dies)
unfolding named_variables
named_variables-IsVariable [] = tt
named_variables-IsVariable ((key, die) ∷ dies) =
    let later : All
        (λ d. Memᴰ d (die ∷ map (λ (entry : ℕ × Die). entry.1) dies) × (d.tag ≡ dw_tag_variable))
        (named_variables dies) =
      All-weaken _ _ (named_variables dies) (λ d h. (Memᴰ.tail {x = die} h.0, h.1))
        (named_variables-IsVariable dies) in
    elim (Bool-cases (die.tag == dw_tag_variable && not (bytes_eq (name_of die) []))) [
      | inl named ↦ rw (named, named_variables) ((Memᴰ.head refl, ground arith), later)
      | inr other ↦ rw (other, named_variables) later
    ]

abbrev pub Indexes : ℕ → Type 0 → Result (List MemberPath) × Resolver → Type 0
Indexes fuel S =
    Runs S (λ (items : List MemberPath) (r : Resolver). IsTable r × All (IsTraced r fuel) items)
      IsTable

-- build_member_index leaves a sound table, its items say what the table says, and it is stuck only where
-- resolve_type is, behind parse_all_cus.
pub build_member_index-Runs :
    (max_depth fuel : ℕ) (S : Type 0) (r : Resolver)
    → IsTable r
    → (IsParsed (parse_all_cus r).1.cus → IsEnding (parse_all_cus r).1 fuel S)
    → Indexes fuel S (build_member_index max_depth fuel r)
unfolding build_member_index
build_member_index-Runs max_depth fuel S r h ends =
    either (Indexes fuel S) (not (available r) || max_depth == 0) _ _ (λ k. gives (h, tt))
      λ k.
        exactly (parse_all_cus r) (unstuck (parse_all_cus-Runs r h))
        ⟫= λ done r₁ ((parsed, h₁), given).
            let variables =
              All-sort (IsVariable r₁) (λ a b. ltb a.offset b.offset) _
                (named_variables-IsVariable r₁.dies) in
            let ends₁ =
              subst (λ (x : Result (Unit {0}) × Resolver). IsParsed x.1.cus → IsEnding x.1 fuel S)
                given ends parsed in
            weaken_both {Q = λ (ix : Index) (s : Resolver). IsTable s × AllTraced s fuel ix}
              (λ (ix : Index) s k₁. (
                subst IsTable (sym k₁.0) h₁,
                subst (λ (u : Resolver). All (IsTraced u fuel) ix.items) (sym k₁.0) k₁.1,
              ))
              (λ s same. subst IsTable (sym same) h₁)
              (index_variables-Traces r₁ parsed max_depth fuel S ends₁ _ variables no_items r₁ refl
                tt)
            ⟫= λ ix s k₂. gives (k₂.0, All-sort (IsTraced s fuel) item_less ix.items k₂.1)

-- On a resolver whose table is sound, each item that build_member_index gives says what the DWARF information that
-- has been parsed says of a variable of the table, or of a member below one: its expression, its last name,
-- its byte offset as the sum of the offsets of the members on the way modulo 2 ^ 64, its address as that of the
-- variable plus this offset, and the size, sign and name of its type.
pub build_member_index-IsTraced :
    (max_depth fuel : ℕ) (r r' : Resolver) (items : List MemberPath)
    → IsTable r
    → build_member_index max_depth fuel r ≡ (ok items, r')
    → All (IsTraced r' fuel) items
build_member_index-IsTraced max_depth fuel r r' items h e = given (
    subst (Indexes fuel (Unit {0})) e
      (build_member_index-Runs max_depth fuel (Unit {0}) r h (λ parsed. any_end _ fuel)))
  where
    given : Indexes fuel (Unit {0}) (ok items, r') → All (IsTraced r' fuel) items
    given (gives k) = k.1

-- ===== src/Elf/Members.antt =====
-- The expressions of the index that collect_member_paths and build_member_index build.
use tc397tools.Prelude.{
  ℕ, zero, suc, ◌+◌, Bool, not, ◌&&◌, Option, none, some, List, [], ◌∷◌, ◌++◌, ◌==◌, either, Bytes,
  bytes_eq,
}
use tc397tools.Prelude.Result.{Result, ok, err, undefined, stuck}
use tc397tools.Reader.{wrap64}
use tc397tools.Dwarf.{
  Die, Resolver, Index, M, step_into, pure, get_die, add_item, make_item, collect_nested,
  collect_member, collect_child, collect_children, collect_member_paths, resolve_die, resolve_type,
  is_aggregate_type, member_offset, address_from_location, ref_attr, name_of, mem, dw_at_type,
  dw_tag_member, index_members, index_variable, index_variables,
}
use tc397tools.Symbols.Distinct.{IsIndex, add_item-IsIndex}

-- An index that is returned is one without an expression twice.
abbrev pub Good : Result Index → Type 0
Good (ok ix) = IsIndex ix
Good (err e) = Unit
Good undefined = Unit
Good stuck = Unit

abbrev GoodStep : Result Index × Resolver → Type 0
GoodStep done = Good done.0

-- A step of which the index does not hang, and what follows it.
step_into-Good :
    {A : Type 0} (r : Result A) (s : Resolver) (f : A → M Index)
    → ((a : A) → GoodStep (f a s))
    → GoodStep (step_into r s f)
step_into-Good (ok a) s f h = h a
step_into-Good (err e) s f h = tt
step_into-Good undefined s f h = tt
step_into-Good stuck s f h = tt

-- A step that may find nothing.
option_step-Good :
    {A : Type 0} (r : Result (Option A)) (s : Resolver) (f : Option A → M Index)
    → GoodStep (f none s)
    → ((a : A) → GoodStep (f (some a) s))
    → GoodStep (step_into r s f)
option_step-Good (ok none) s f g h = g
option_step-Good (ok (some a)) s f g h = h a
option_step-Good (err e) s f g h = tt
option_step-Good undefined s f g h = tt
option_step-Good stuck s f g h = tt

-- A step that returns the index itself.
index_step-Good :
    (r : Result Index) (s : Resolver) (f : Index → M Index)
    → Good r
    → ((ix : Index) → IsIndex ix → GoodStep (f ix s))
    → GoodStep (step_into r s f)
index_step-Good (ok ix) s f g h = h ix g
index_step-Good (err e) s f g h = tt
index_step-Good undefined s f g h = tt
index_step-Good stuck s f g h = tt

abbrev Keeps : (Index → M Index) → Type 0
Keeps f = (ix : Index) (s : Resolver) → IsIndex ix → GoodStep (f ix s)

module _ (fuel : ℕ) (enter : Bytes → ℕ → Die → Index → M Index) (base_name parent : Bytes)
    (root_address parent_offset : ℕ)
    (keeps : (e : Bytes) (n : ℕ) (t : Die) → Keeps (enter e n t)) where
  collect_nested-Good :
      (t : Option Die) (e : Bytes) (n : ℕ)
      → Keeps (collect_nested fuel enter base_name parent root_address parent_offset t e n)
  unfolding collect_nested
  collect_nested-Good none e n ix s h = h
  collect_nested-Good (some t) e n ix s h =
      let asked = is_aggregate_type fuel t s in
      step_into-Good {A = Bool} asked.0 asked.1 _ λ aggregate.
        either (λ (m : M Index). GoodStep (m asked.1)) aggregate (enter e n t ix) (pure ix)
          (λ k. keeps e n t ix asked.1 h) (λ k. h)

  collect_member-Good :
      (child : Die)
      → Keeps (collect_member fuel enter base_name parent root_address parent_offset child)
  unfolding collect_member
  collect_member-Good child ix s h = step_into-Good {A = ℕ} (member_offset child) s _ λ own.
      let found = resolve_type fuel (ref_attr child dw_at_type) s in
      let e = parent ++ b'.' ∷ name_of child in
      let offset = wrap64 (parent_offset + own) in
      step_into-Good {A = Option Die} found.0 found.1 _ λ t.
        collect_nested-Good t e offset
          (add_item (make_item (name_of child) e base_name root_address offset child t) ix) found.1
          (add_item-IsIndex (make_item (name_of child) e base_name root_address offset child t) ix
            h)

  collect_child-Good :
      (child : Option Die)
      → Keeps (collect_child fuel enter base_name parent root_address parent_offset child)
  unfolding collect_child
  collect_child-Good none ix s h = h
  collect_child-Good (some child) ix s h =
      either (λ (m : M Index). GoodStep (m s))
        (child.tag == dw_tag_member && not (bytes_eq (name_of child) []))
        (collect_member fuel enter base_name parent root_address parent_offset child ix) (pure ix)
        (λ k. collect_member-Good child ix s h) (λ k. h)

  collect_children-Good :
      (children : List ℕ)
      → Keeps (collect_children fuel enter base_name parent root_address parent_offset children)
  unfolding collect_children
  collect_children-Good [] ix s h = h
  collect_children-Good (off ∷ children) ix s h =
      let child = get_die off s in
      step_into-Good {A = Option Die} child.0 child.1 _ λ c.
        let one =
          collect_child fuel enter base_name parent root_address parent_offset c ix child.1 in
        index_step-Good one.0 one.1 _ (collect_child-Good c ix child.1 h)
          (λ ix₁ h₁. collect_children-Good children ix₁ one.1 h₁)

collect_member_paths-Good :
    (depth fuel : ℕ) (base_name : Bytes) (type_stack : List ℕ) (parent : Bytes)
    (root_address offset : ℕ) (t : Die)
    → Keeps (collect_member_paths depth fuel base_name type_stack parent root_address offset t)
unfolding collect_member_paths
collect_member_paths-Good zero fuel base_name type_stack parent root_address offset t ix s h =
    let found = resolve_die fuel (some t) [] s in
    option_step-Good {A = Die} found.0 found.1 _ h λ target.
      let asked = is_aggregate_type fuel target found.1 in
      step_into-Good {A = Bool} asked.0 asked.1 (λ aggregate. pure ix) (λ aggregate. h)
collect_member_paths-Good (suc depth) fuel base_name type_stack parent root_address offset t ix s
      h =
    let found = resolve_die fuel (some t) [] s in
    option_step-Good {A = Die} found.0 found.1 _ h λ target.
      let asked = is_aggregate_type fuel target found.1 in
      let enter : Bytes → ℕ → Die → Index → M Index = λ e n t' ix₁.
        collect_member_paths depth fuel base_name (target.offset ∷ type_stack) e root_address n t'
          ix₁ in
      let members : M Index =
        collect_children fuel enter base_name parent root_address offset target.children ix in
      step_into-Good {A = Bool} asked.0 asked.1 _ λ aggregate.
        either (λ (m : M Index). GoodStep (m asked.1))
          (aggregate && not (mem target.offset type_stack)) members (pure ix)
          (λ k.
            collect_children-Good fuel enter base_name parent root_address offset
              (λ e n t'.
                collect_member_paths-Good depth fuel base_name (target.offset ∷ type_stack) e
                  root_address n t')
              target.children ix asked.1 h)
          (λ k. h)

index_members-Good :
    (max_depth fuel : ℕ) (root_name : Bytes) (root_address : ℕ) (t : Option Die)
    → Keeps (index_members max_depth fuel root_name root_address t)
unfolding index_members
index_members-Good max_depth fuel root_name root_address none ix s h = h
index_members-Good max_depth fuel root_name root_address (some t) ix s h =
    let asked = is_aggregate_type fuel t s in
    let collect = collect_member_paths max_depth fuel root_name [] root_name root_address 0 t ix in
    step_into-Good {A = Bool} asked.0 asked.1 _ λ aggregate.
      either (λ (m : M Index). GoodStep (m asked.1)) aggregate collect (pure ix)
        (λ k.
          collect_member_paths-Good max_depth fuel root_name [] root_name root_address 0 t ix
            asked.1 h)
        (λ k. h)

index_variable-Good :
    (max_depth fuel : ℕ) (variable : Die) → Keeps (index_variable max_depth fuel variable)
unfolding index_variable
index_variable-Good max_depth fuel variable ix s h =
    option_step-Good {A = ℕ} (address_from_location s.cus variable) s _ h λ a.
      let found = resolve_type fuel (ref_attr variable dw_at_type) s in
      let name = name_of variable in
      step_into-Good {A = Option Die} found.0 found.1 _ λ t.
        index_members-Good max_depth fuel name a t
          (add_item (make_item name name name a 0 variable t) ix) found.1
          (add_item-IsIndex (make_item name name name a 0 variable t) ix h)

pub index_variables-Good :
    (max_depth fuel : ℕ) (variables : List Die) → Keeps (index_variables max_depth fuel variables)
unfolding index_variables
index_variables-Good max_depth fuel [] ix s h = h
index_variables-Good max_depth fuel (variable ∷ variables) ix s h =
    let one = index_variable max_depth fuel variable ix s in
    index_step-Good one.0 one.1 _ (index_variable-Good max_depth fuel variable ix s h)
      (λ ix₁ h₁. index_variables-Good max_depth fuel variables ix₁ one.1 h₁)

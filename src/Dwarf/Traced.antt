-- ===== src/Dwarf/Traced.antt =====
-- collect_member_paths and build_member_index of DwarfResolver add only what the DWARF information says.
use mathlib.Core.List.{Memᴰ}
use tc397tools.Prelude.{
  ℕ, zero, suc, ◌+◌, not, ◌&&◌, Option, none, some, List, [], ◌∷◌, ◌++◌, ◌≡◌, refl, arith, Bytes,
  ◌==◌, bytes_eq, either, sym, subst, Bool,
}
use tc397tools.Prelude.Result.{ok, stuck}
use tc397tools.Prelude.Table.{lookup}
use tc397tools.Reader.{wrap64}
use tc397tools.Dwarf.Data.{Die, dw_at_type, dw_tag_member, dw_tag_variable}
use tc397tools.Dwarf.State.{Resolver, M, get_die}
use tc397tools.Dwarf.Types.{
  name_of, ref_attr, resolve_die, resolve_type, is_aggregate_type, mem, member_offset,
  address_from_location,
}
use tc397tools.Dwarf.Members.{
  Index, make_item, collect_nested, collect_member, collect_child, collect_children,
  collect_member_paths,
}
use tc397tools.Dwarf.Runs.{Runs, gives, ◌⟫=◌, maybe-Runs, read-Runs, stuck_only}
use tc397tools.Dwarf.Parse.{IsParsed}
use tc397tools.Dwarf.Values.{member_offset-ne-stuck}
use tc397tools.Dwarf.Lookups.{Kept, resolve_die-Keeps, resolve_type-Keeps}
use tc397tools.Dwarf.Settled.{Same, get_die-parsed, get_die-Same, settled-Runs, IsEnding}
use tc397tools.Dwarf.Layout.{
  dies_of, IsMember, Layout, member, IsTraced, Layout-resolve_type, add_item-AllTraced, Traces,
  KeepsTraced,
}

module _ (r : Resolver) (parsed : IsParsed r.cus) (fuel : ℕ) (S : Type 0)
    (ends : IsEnding r fuel S) where
  abbrev pub Settles : {A : Type 0} → M A → Type 0
  Settles {A} m =
      (s : Resolver)
      → s ≡ r
      → Runs S (λ (a : A) (s' : Resolver). (s' ≡ r) × (m r ≡ (ok a, r))) (Same r) (m s)

  pub get_die-Settles : (offset : ℕ) → Settles (get_die offset)
  get_die-Settles offset s e =
      subst
        (λ (u : Resolver).
          Runs S (λ a (s' : Resolver). (s' ≡ r) × (get_die offset r ≡ (ok a, r))) (Same r)
            (get_die offset u))
        (sym e) (rw (get_die-parsed offset r parsed) (gives (refl, refl)))

  -- A method that keeps the state, and is stuck only where S holds.
  settled_step :
      {A : Type 0} (m : M A)
      → ((s : Resolver) → s ≡ r → Kept (Same r) (m s))
      → ((m r).0 ≡ stuck → S)
      → Settles m
  settled_step m keeps stops s e =
      stuck_only (subst (λ (u : Resolver). (m u).0 ≡ stuck → S) (sym e) stops)
        (settled-Runs r m s e (keeps s e))

  pub resolve_die-Settles :
      (current : Option Die)
      → ((resolve_die fuel current [] r).0 ≡ stuck → S)
      → Settles (resolve_die fuel current [])
  resolve_die-Settles current =
      settled_step (resolve_die fuel current [])
        (resolve_die-Keeps (Same r) (get_die-Same r parsed) fuel current [])

  pub resolve_type-Settles : (offset : Option ℕ) → Settles (resolve_type fuel offset)
  resolve_type-Settles offset =
      settled_step (resolve_type fuel offset)
        (resolve_type-Keeps (Same r) (get_die-Same r parsed) fuel offset) (ends.of_type offset)

  pub is_aggregate_type-Same :
      (die : Die)
      → ((resolve_die fuel (some die) [] r).0 ≡ stuck → S)
      → (s : Resolver) → s ≡ r
      → Runs S (λ (b : Bool) (s' : Resolver). s' ≡ r) (Same r) (is_aggregate_type fuel die s)
  unfolding is_aggregate_type
  is_aggregate_type-Same die stops s e =
      resolve_die-Settles (some die) stops s e ⟫= λ found s' k. gives k.0

  pub found_by :
      (offset : ℕ) (die : Die)
      → get_die offset r ≡ (ok (some die), r)
      → lookup offset r.dies ≡ some die
  found_by offset die h = cc (get_die-parsed offset r parsed, h)

  module _ (variable : Die) (address : ℕ) (stands : Memᴰ variable (dies_of r))
      (tagged : variable.tag ≡ dw_tag_variable)
      (located : address_from_location r.cus variable ≡ ok (some address)) where
    -- The expression stands for a die at the offset below the variable.
    abbrev pub LaidOut : Bytes → ℕ → Option Die → Type 0
    LaidOut e n t = (last : Bytes) × (die : Die) × Layout r fuel variable e last n die t

    pub item-IsTraced :
        (last e : Bytes) (n : ℕ) (die : Die) (t : Option Die)
        → Layout r fuel variable e last n die t
        → IsTraced r fuel (make_item last e (name_of variable) address n die t)
    unfolding make_item
    item-IsTraced last e n die t layout = record {
      variable = variable;
      address = address;
      die = die;
      type_die = t;
      stands = stands;
      tagged = tagged;
      located = located;
      layout = layout;
      based = refl;
      addressed = refl;
      sized = refl;
      signed_when_known = refl;
      signed_as = refl;
      typed = refl;
    }

    module _ (enter : Bytes → ℕ → Die → Index → M Index) (parent : Bytes) (offset : ℕ)
        (type_die target : Die)
        (resolved : resolve_die fuel (some type_die) [] r ≡ (ok (some target), r))
        (laid : LaidOut parent offset (some type_die))
        (keeps : (e : Bytes) (n : ℕ) (t : Die)
          → LaidOut e n (some t)
          → KeepsTraced r fuel S (enter e n t)) where
      collect_nested-Traces :
          (t : Option Die) (e : Bytes) (n : ℕ)
          → LaidOut e n t
          → KeepsTraced r fuel S
              (collect_nested fuel enter (name_of variable) parent address offset t e n)
      unfolding collect_nested
      collect_nested-Traces none e n laid' ix s same h = gives (same, h)
      collect_nested-Traces (some t) e n laid' ix s same h =
          is_aggregate_type-Same t
            (ends.behind_type _ (some t) (Layout-resolve_type r fuel laid'.2)) s same
          ⟫= λ aggregate s₁ same₁.
              either (λ (m : M Index). Traces r fuel S (m s₁)) aggregate _ _
                (λ k. keeps e n t laid' ix s₁ same₁ h) (λ k. gives (same₁, h))

      collect_member-Traces :
          (child : Die)
          → IsMember r fuel type_die child
          → KeepsTraced r fuel S
              (collect_member fuel enter (name_of variable) parent address offset child)
      unfolding collect_member
      collect_member-Traces child is_member ix s same h =
          read-Runs (member_offset child) s _ (member_offset-ne-stuck child) same λ own own_offset.
            resolve_type-Settles (ref_attr child dw_at_type) s same ⟫= λ t s₁ (same₁, its_type).
            let layout = member laid.2 is_member own_offset its_type in
            collect_nested-Traces t (parent ++ b'.' ∷ name_of child) (wrap64 (offset + own))
              (name_of child, child, layout) _ s₁ same₁
              (add_item-AllTraced r fuel _ ix (item-IsTraced _ _ _ child t layout) h)

      collect_child-Traces :
          (off : ℕ) (child : Option Die)
          → Memᴰ off target.children
          → get_die off r ≡ (ok child, r)
          → KeepsTraced r fuel S
              (collect_child fuel enter (name_of variable) parent address offset child)
      unfolding collect_child
      collect_child-Traces off none listed got ix s same h = gives (same, h)
      collect_child-Traces off (some child) listed got ix s same h =
          either (λ (m : M Index). Traces r fuel S (m s))
            (child.tag == dw_tag_member && not (bytes_eq (name_of child) [])) _ _
            (λ k.
              collect_member-Traces child
                (record {
                  target = target;
                  offset = off;
                  resolved = resolved;
                  listed = listed;
                  found = found_by off child got;
                  tagged = ground arith;
                })
                ix s same h)
            (λ k. gives (same, h))

      collect_children-Traces :
          (children : List ℕ)
          → ((off : ℕ) → Memᴰ off children → Memᴰ off target.children)
          → KeepsTraced r fuel S
              (collect_children fuel enter (name_of variable) parent address offset children)
      unfolding collect_children
      collect_children-Traces [] listed ix s same h = gives (same, h)
      collect_children-Traces (off ∷ children) listed ix s same h =
          get_die-Settles off s same ⟫= λ child s₁ (same₁, got).
          collect_child-Traces off child (listed off (Memᴰ.head refl)) got ix s₁ same₁ h
          ⟫= λ ix₁ s₂ (same₂, h₂).
              collect_children-Traces children (λ o m. listed o (Memᴰ.tail m)) ix₁ s₂ same₂ h₂

    pub collect_member_paths-Traces :
        (depth : ℕ) (type_stack : List ℕ) (parent : Bytes) (offset : ℕ) (t : Die)
        → LaidOut parent offset (some t)
        → KeepsTraced r fuel S
            (collect_member_paths depth fuel (name_of variable) type_stack parent address offset t)
    unfolding collect_member_paths
    collect_member_paths-Traces zero type_stack parent offset t laid ix s same h =
        maybe-Runs (resolve_die fuel (some t) [] s) _
          (resolve_die-Settles (some t)
            (ends.behind_type _ (some t) (Layout-resolve_type r fuel laid.2)) s same)
          (λ s₁ k. gives (k.0, h))
          λ target s₁ k.
            is_aggregate_type-Same target (ends.behind_die t target k.1) s₁ k.0
            ⟫= λ aggregate s₂ same₂. gives (same₂, h)
    collect_member_paths-Traces (suc depth) type_stack parent offset t laid ix s same h =
        maybe-Runs (resolve_die fuel (some t) [] s) _
          (resolve_die-Settles (some t)
            (ends.behind_type _ (some t) (Layout-resolve_type r fuel laid.2)) s same)
          (λ s₁ k. gives (k.0, h))
          λ target s₁ (same₁, resolved).
            is_aggregate_type-Same target (ends.behind_die t target resolved) s₁ same₁
            ⟫= λ aggregate s₂ same₂.
                either (λ (m : M Index). Traces r fuel S (m s₂))
                  (aggregate && not (mem target.offset type_stack)) _ _
                  (λ k.
                    collect_children-Traces _ parent offset t target resolved laid
                      (λ e n t' laid'.
                        collect_member_paths-Traces depth (target.offset ∷ type_stack) e n t' laid')
                      target.children (λ o m. m) ix s₂ same₂ h)
                  (λ k. gives (same₂, h))

-- ===== src/Dwarf/Walked.antt =====
-- The walk over the fields in `resolve` of DwarfResolver, behind parse_all_cus.
use mathlib.Core.List.{Memᴰ, append_assoc}
use tc397tools.Prelude.{
  ℕ, ◌+◌, ◌&&◌, Option, none, some, List, [], ◌∷◌, ◌++◌, ◌≡◌, refl, subst, ap, ◌∙◌, arith, Bytes,
  ◌==◌, bytes_eq, bytes_eq_iff, either,
}
use tc397tools.Prelude.Table.{lookup}
use tc397tools.Reader.{wrap64}
use tc397tools.Expression.Parts.{join}
use tc397tools.Dwarf.Data.{Die, dw_at_type, dw_tag_member}
use tc397tools.Dwarf.State.{Resolver, M, get_die}
use tc397tools.Dwarf.Types.{name_of, byte_size, ref_attr, resolve_die, member_offset}
use tc397tools.Dwarf.Members.{value_or, size_of_type, signed_of_type, name_of_type}
use tc397tools.Dwarf.Resolve.{Walk, find_member, walk_field, walk_fields}
use tc397tools.Dwarf.Runs.{Runs, gives, fails, ◌⟫=◌, maybe-Runs, read-Runs, weaken_both}
use tc397tools.Dwarf.Parse.{IsParsed}
use tc397tools.Dwarf.Values.{member_offset-ne-stuck}
use tc397tools.Dwarf.Named.{Any}
use tc397tools.Dwarf.Settled.{IsEnding}
use tc397tools.Dwarf.Layout.{Layout-resolve_type, Layout, member_below}
use tc397tools.Dwarf.Traced.{get_die-Settles, resolve_die-Settles, resolve_type-Settles, found_by}

pub join_step :
    (e field : Bytes) (fields : List Bytes)
    → join ((e ++ b'.' ∷ field) ∷ fields) ≡ join (e ∷ field ∷ fields)
unfolding join
join_step e field [] = refl
join_step e field (f ∷ fields) = append_assoc e (b'.' ∷ field) (b'.' ∷ join (f ∷ fields))

-- The member with the name is one of the children.
module _ (r : Resolver) (parsed : IsParsed r.cus) (fuel : ℕ) (S : Type 0)
    (ends : IsEnding r fuel S) where
  abbrev Picks : Bytes → List ℕ → Option Die → Resolver → Type 0
  Picks field all none s = s ≡ r
  Picks field all (some child) s =
      (s ≡ r)
      × (off : ℕ) × Memᴰ off all
      × (lookup off r.dies ≡ some child)
      × (child.tag ≡ dw_tag_member)
      × (name_of child ≡ field)

  find_member-Picks :
      (field : Bytes) (all children : List ℕ)
      → ((off : ℕ) → Memᴰ off children → Memᴰ off all)
      → (s : Resolver) → s ≡ r
      → Runs S (Picks field all) Any (find_member field children s)
  unfolding find_member
  find_member-Picks field all [] listed s same = gives same
  find_member-Picks field all (off ∷ children) listed s same =
      let later = λ (s₁ : Resolver) (k : s₁ ≡ r).
        find_member-Picks field all children (λ o m. listed o (Memᴰ.tail m)) s₁ k in
      maybe-Runs (get_die off s) _
        (weaken_both (λ a s₁ k. k) (λ s₁ k. tt) (get_die-Settles r parsed fuel S ends off s same))
        (λ s₁ k. later s₁ k.0)
        λ die s₁ (same₁, got).
          either (λ (m : M (Option Die)). Runs S (Picks field all) Any (m s₁))
            (die.tag == dw_tag_member && bytes_eq (name_of die) field) _ _
            (λ k. gives (
              same₁,
              off,
              listed off (Memᴰ.head refl),
              found_by r parsed fuel S ends off die got,
              ground arith,
              ground (arith, bytes_eq_iff (name_of die) field),
            ))
            (λ k. later s₁ same₁)

  -- The walk stands at a die that the DWARF information puts there.
  pub record IsLaid (variable : Die) (w : Walk) : Type 0 where
    pub last : Bytes
    pub die : Die
    pub layout : Layout r fuel variable w.traversed last w.byte_offset die w.current_type

  -- The walk has come to a member, and knows what it is.
  pub record IsWalked (variable : Die) (w : Walk) : Type 0 where
    pub last : Bytes
    pub die : Die
    pub layout : Layout r fuel variable w.traversed last w.byte_offset die w.current_type
    pub sized : w.final_size ≡ value_or (byte_size die) (size_of_type w.current_type)
    pub signed_as : w.final_signed ≡ signed_of_type w.current_type
    pub typed : w.final_type_name ≡ name_of_type w.current_type

  abbrev pub Walks : Die → Bytes → Option Walk → Resolver → Type 0
  Walks variable path none s = s ≡ r
  Walks variable path (some w) s = (s ≡ r) × IsWalked variable w × (w.traversed ≡ path)

  walk_field-Walks :
      (variable : Die) (field : Bytes) (w : Walk)
      → IsLaid variable w
      → (s : Resolver) → s ≡ r
      → Runs S (Walks variable (w.traversed ++ b'.' ∷ field)) Any (walk_field fuel field w s)
  unfolding walk_field
  walk_field-Walks variable field w laid s same =
      maybe-Runs (resolve_die fuel w.current_type [] s) _
        (weaken_both (λ a s₁ k. k) (λ s₁ k. tt)
          (resolve_die-Settles r parsed fuel S ends w.current_type
            (ends.behind_type _ w.current_type (Layout-resolve_type r fuel laid.layout)) s same))
        (λ s₁ k. gives k.0)
        λ target s₁ (same₁, resolved).
          maybe-Runs (find_member field target.children s₁) _
            (find_member-Picks field target.children target.children (λ o m. m) s₁ same₁)
            (λ s₂ k. fails tt)
            λ child s₂ (same₂, off, listed, found, tagged, named).
              read-Runs (member_offset child) s₂ _ (member_offset-ne-stuck child) tt
                λ own own_offset.
                  weaken_both (λ a s₃ k. k) (λ s₃ k. tt)
                    (resolve_type-Settles r parsed fuel S ends (ref_attr child dw_at_type) s₂ same₂)
                  ⟫= λ t s₃ (same₃, its_type). gives (
                    same₃,
                    record {
                      last = name_of child;
                      die = child;
                      layout =
                          subst
                            (λ (f : Bytes).
                              Layout r fuel variable (w.traversed ++ b'.' ∷ f) (name_of child)
                                (wrap64 (w.byte_offset + own)) child t)
                            named
                            (member_below r fuel variable w.current_type laid.layout resolved listed
                              found tagged own_offset its_type);
                      sized = refl;
                      signed_as = refl;
                      typed = refl;
                    },
                    refl,
                  )

  -- Over all fields; where there is none, the walk has come to a member already.
  pub walk_fields-Walks :
      (variable : Die) (fields : List Bytes) (w : Walk)
      → IsLaid variable w
      → (fields ≡ [] → IsWalked variable w)
      → (s : Resolver) → s ≡ r
      → Runs S (Walks variable (join (w.traversed ∷ fields))) Any (walk_fields fuel fields w s)
  unfolding walk_fields join
  walk_fields-Walks variable [] w laid walked s same = gives (same, walked refl, refl)
  walk_fields-Walks variable (field ∷ fields) w laid walked s same =
      maybe-Runs (walk_field fuel field w s) _ (walk_field-Walks variable field w laid s same)
        (λ s₁ k. gives k)
        λ w' s₁ (same₁, h₁, path).
          subst (λ (p : Bytes). Runs S (Walks variable p) Any (walk_fields fuel fields w' s₁))
            (ap (λ (t : Bytes). join (t ∷ fields)) path ∙ join_step w.traversed field fields)
            (walk_fields-Walks variable fields w'
              (record { last = h₁.last; die = h₁.die; layout = h₁.layout }) (λ e. h₁) s₁ same₁)

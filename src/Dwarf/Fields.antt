-- ===== src/Dwarf/Fields.antt =====
-- The walk over the fields in `resolve` of DwarfResolver, in any state that no parsing has left by an exception.
use mathlib.Core.List.{Memᴰ}
use tc397tools.Prelude.{
  ℕ, ◌+◌, ◌&&◌, Option, none, some, List, [], ◌∷◌, ◌++◌, ◌≡◌, refl, subst, ap, ◌∙◌, arith, Bytes,
  ◌==◌, bytes_eq, bytes_eq_iff, either,
}
use tc397tools.Reader.{wrap64}
use tc397tools.Expression.Parts.{join}
use tc397tools.Dwarf.Data.{Die, dw_at_type, dw_tag_member}
use tc397tools.Dwarf.State.{Resolver, M, get_die}
use tc397tools.Dwarf.Types.{name_of, byte_size, ref_attr, resolve_die, member_offset}
use tc397tools.Dwarf.Members.{value_or, size_of_type, signed_of_type, name_of_type}
use tc397tools.Dwarf.Resolve.{Walk, find_member, walk_field, walk_fields}
use tc397tools.Dwarf.Runs.{Runs, gives, fails, ◌⟫=◌, maybe-Runs, read-Runs}
use tc397tools.Dwarf.Values.{member_offset-ne-stuck}
use tc397tools.Dwarf.Layout.{Layout, member_below}
use tc397tools.Dwarf.Grows.{IsWhole, Answers, Grows, no_growth, then-Grows, Anything, get_die-Grows}
use tc397tools.Dwarf.Reached.{resolve_die-Reaches, resolve_type-Reaches}
use tc397tools.Dwarf.Walked.{join_step}

-- The member with the name is one of the children.
abbrev Picks : Bytes → List ℕ → Resolver → Option Die → Resolver → Type 0
Picks field all before none r = Unit
Picks field all before (some child) r =
    Grows before r
    × IsWhole r
    × (off : ℕ) × Memᴰ off all
    × Answers r off (some child)
    × (child.tag ≡ dw_tag_member)
    × (name_of child ≡ field)

find_member-Picks :
    (field : Bytes) (all children : List ℕ) (before : Resolver)
    → ((off : ℕ) → Memᴰ off children → Memᴰ off all)
    → (r : Resolver) → Grows before r
    → IsWhole r
    → Runs (Unit {0}) (Picks field all before) Anything (find_member field children r)
unfolding find_member
find_member-Picks field all [] before listed r grew whole = gives tt
find_member-Picks field all (off ∷ children) before listed r grew whole =
    let later = λ (r₁ : Resolver) (g : Grows before r₁) (h : IsWhole r₁).
      find_member-Picks field all children before (λ o m. listed o (Memᴰ.tail m)) r₁ g h in
    maybe-Runs (get_die off r) _ (get_die-Grows off r whole)
      (λ r₁ (grows, whole₁, answer). later r₁ (then-Grows grew grows) whole₁)
      λ die r₁ (grows, whole₁, answer).
        either (λ (m : M (Option Die)). Runs (Unit {0}) (Picks field all before) Anything (m r₁))
          (die.tag == dw_tag_member && bytes_eq (name_of die) field) _ _
          (λ k. gives (
            then-Grows grew grows,
            whole₁,
            off,
            listed off (Memᴰ.head refl),
            answer,
            ground arith,
            ground (arith, bytes_eq_iff (name_of die) field),
          ))
          (λ k. later r₁ (then-Grows grew grows) whole₁)

module _ (fuel : ℕ) (variable : Die) where
  -- The layout in every state that gives all answers of this one.
  abbrev pub LaysOut : Resolver → Bytes → Bytes → ℕ → Die → Option Die → Type 0
  LaysOut r e last n die t =
      (larger : Resolver) → Grows r larger → Layout larger fuel variable e last n die t

  pub record IsLaid (r : Resolver) (w : Walk) : Type 0 where
    pub last : Bytes
    pub die : Die
    pub layout : LaysOut r w.traversed last w.byte_offset die w.current_type

  -- The walk has come to a member, and knows what it is.
  pub record IsWalked (r : Resolver) (w : Walk) : Type 0 where
    pub last : Bytes
    pub die : Die
    pub layout : LaysOut r w.traversed last w.byte_offset die w.current_type
    pub sized : w.final_size ≡ value_or (byte_size die) (size_of_type w.current_type)
    pub signed_as : w.final_signed ≡ signed_of_type w.current_type
    pub typed : w.final_type_name ≡ name_of_type w.current_type

  abbrev pub Walks : Resolver → Bytes → Option Walk → Resolver → Type 0
  Walks before path none r = Grows before r × IsWhole r
  Walks before path (some w) r = Grows before r × IsWhole r × IsWalked r w × (w.traversed ≡ path)

  walk_field-Walks :
      (field : Bytes) (w : Walk) (before r : Resolver)
      → Grows before r
      → IsWhole r
      → IsLaid r w
      → Runs
          (Unit {0})
          (Walks before (w.traversed ++ b'.' ∷ field))
          Anything
          (walk_field fuel field w r)
  unfolding walk_field
  walk_field-Walks field w before r grew whole laid =
      maybe-Runs (resolve_die fuel w.current_type [] r) _
        (resolve_die-Reaches fuel w.current_type [] r whole)
        (λ r₁ (grows₁, whole₁, resolved). gives (then-Grows grew grows₁, whole₁))
        λ target r₁ (grows₁, whole₁, resolved).
          maybe-Runs (find_member field target.children r₁) _
            (find_member-Picks field target.children target.children r₁ (λ o m. m) r₁ (no_growth r₁)
              whole₁)
            (λ r₂ k. fails tt)
            λ child r₂ (grows₂, whole₂, off, listed, answer, tagged, named).
              read-Runs (member_offset child) r₂ _ (member_offset-ne-stuck child) tt
                λ own own_offset.
                  resolve_type-Reaches fuel (ref_attr child dw_at_type) r₂ whole₂
                  ⟫= λ t r₃ (grows₃, whole₃, its_type). gives (
                    then-Grows grew (then-Grows grows₁ (then-Grows grows₂ grows₃)),
                    whole₃,
                    record {
                      last = name_of child;
                      die = child;
                      layout = λ larger more.
                          let behind₂ = then-Grows grows₃ more in
                          let behind₁ = then-Grows grows₂ behind₂ in
                          subst
                            (λ (f : Bytes).
                              Layout larger fuel variable (w.traversed ++ b'.' ∷ f) (name_of child)
                                (wrap64 (w.byte_offset + own)) child t)
                            named
                            (member_below larger fuel variable w.current_type
                              (laid.layout larger (then-Grows grows₁ behind₁))
                              (resolved larger behind₁) listed
                              (behind₂.answers off (some child) answer).0 tagged own_offset
                              (its_type larger more));
                      sized = refl;
                      signed_as = refl;
                      typed = refl;
                    },
                    refl,
                  )

  -- Over all fields; where there is none, the walk has come to a member already.
  pub walk_fields-Walks :
      (fields : List Bytes) (w : Walk) (before r : Resolver)
      → Grows before r
      → IsWhole r
      → IsLaid r w
      → (fields ≡ [] → IsWalked r w)
      → Runs
          (Unit {0})
          (Walks before (join (w.traversed ∷ fields)))
          Anything
          (walk_fields fuel fields w r)
  unfolding walk_fields join
  walk_fields-Walks [] w before r grew whole laid walked = gives (grew, whole, walked refl, refl)
  walk_fields-Walks (field ∷ fields) w before r grew whole laid walked =
      maybe-Runs (walk_field fuel field w r) _ (walk_field-Walks field w before r grew whole laid)
        (λ r₁ k. gives k)
        λ w' r₁ (grew₁, whole₁, h₁, path).
          subst
            (λ (p : Bytes).
              Runs (Unit {0}) (Walks before p) Anything (walk_fields fuel fields w' r₁))
            (ap (λ (t : Bytes). join (t ∷ fields)) path ∙ join_step w.traversed field fields)
            (walk_fields-Walks fields w' before r₁ grew₁ whole₁
              (record { last = h₁.last; die = h₁.die; layout = h₁.layout }) (λ e. h₁))

-- ===== src/Dwarf/Lookups.antt =====
-- find_variable, resolve_type and resolve of DwarfResolver keep the table of dies sound.
use tc397tools.Prelude.Result.{stuck}
use tc397tools.Prelude.{
  ◌≢◌, arith, ℕ, zero, suc, not, ◌&&◌, Option, none, some, List, [], ◌∷◌, Bytes, ◌==◌, bytes_eq,
  inl, inr, either, Option-cases, Bool-cases,
}
use tc397tools.Prelude.Result.{Result}
use tc397tools.Expression.{ParsedExpression}
use tc397tools.Dwarf.Data.{Die, dw_at_type, dw_tag_member}
use tc397tools.Dwarf.Scan.{cu_containing}
use tc397tools.Dwarf.State.{Resolver, M, pure, get_die, available}
use tc397tools.Dwarf.Types.{
  mem, is_qualifier, resolve_die, resolve_type, is_aggregate_type, ref_attr, name_of, member_offset,
  address_from_location,
}
use tc397tools.Dwarf.Resolve.{
  Walk, variable_in, cached_variable, name_offsets, search_units, find_variable, find_member,
  walk_field, walk_fields, finish_resolve, resolve_root, resolve,
}
use tc397tools.Dwarf.Values.{member_offset-ne-stuck, address_from_location-ne-stuck}
use tc397tools.Dwarf.Runs.{
  Runs, gives, fails, stops, ◌⟫=◌, unstuck, maybe-Runs, read-Runs, maybe_read-Runs, lift-Runs,
  found-Runs,
}
use tc397tools.Dwarf.Found.{fields_cases}
use tc397tools.Dwarf.Table.{IsTable}
use tc397tools.Dwarf.Parse.{Sound, parse_cu-Runs, cu_containing-HasUnit, get_die-Sound}

finish_resolve-ne-stuck :
    (expr : ParsedExpression) (address size : ℕ) (w : Walk)
    → finish_resolve expr address size w ≢ stuck
unfolding finish_resolve
finish_resolve-ne-stuck expr address size w e = ground arith

-- What a search remembers is no part of the table.
search_units-Sound :
    (S : Type 0) (name : Bytes) (offsets : List ℕ) (r : Resolver)
    → IsTable r
    → Sound S (search_units name offsets r)
unfolding search_units
search_units-Sound S name [] r h = gives (record { entries = h.entries })
search_units-Sound S name (offset ∷ offsets) r h =
    found-Runs (cu_containing r.cus offset) _ _ r (λ outside. search_units-Sound S name offsets r h)
      λ (i, cu) e.
        unstuck (parse_cu-Runs i cu r (cu_containing-HasUnit r.cus offset i cu e) h)
        ⟫= λ a r' (same, h').
            found-Runs (variable_in cu.start name r'.dies) _ _ r'
              (λ absent. search_units-Sound S name offsets r' h')
              (λ die found. gives (record { entries = h'.entries }))

pub find_variable-Sound :
    (S : Type 0) (name : Bytes) (r : Resolver) → IsTable r → Sound S (find_variable name r)
unfolding find_variable
find_variable-Sound S name r h =
    elim (cached_variable name r.variable_cache)
      as (λ known.
        let next : M (Option Die) = elim known [
          | some none ↦ pure none
          | some (some offset) ↦ get_die offset
          | none ↦ search_units name (name_offsets name r.info 0)
        ] in
        Sound S (next r)) [
          | none ↦ search_units-Sound S name (name_offsets name r.info 0) r h
          | some none ↦ gives h
          | some (some offset) ↦ get_die-Sound S offset r h
        ]

-- What get_die keeps is kept by all that finds dies by it alone.
abbrev pub Kept : {A : Type 0} → (Resolver → Type 0) → Result A × Resolver → Type 0
Kept {A} I = Runs (Unit {0}) (λ (a : A) (r : Resolver). I r) I

module _ (I : Resolver → Type 0)
    (keeps : (offset : ℕ) (r : Resolver) → I r → Kept I (get_die offset r)) where
  abbrev Keeps : {A : Type 0} → M A → Type 0
  Keeps m = (r : Resolver) → I r → Kept I (m r)

  pub resolve_die-Keeps :
      (fuel : ℕ) (current : Option Die) (seen : List ℕ) → Keeps (resolve_die fuel current seen)
  unfolding resolve_die
  resolve_die-Keeps zero current seen r h = stops tt h
  resolve_die-Keeps (suc fuel) none seen r h = gives h
  resolve_die-Keeps (suc fuel) (some current) seen r h =
      either (λ (m : M (Option Die)). Kept I (m r)) (mem current.offset seen) _ _ (λ k. gives h)
        λ unseen.
          either (λ (m : M (Option Die)). Kept I (m r)) (not (is_qualifier current.tag)) _ _
            (λ k. gives h)
            λ k. elim (Option-cases (ref_attr current dw_at_type)) [
              | inl absent ↦ rw (absent, resolve_die) (resolve_die-Keeps fuel none _ r h)
              | inr (offset, e) ↦
                  rw (e, resolve_die)
                    ((keeps offset r h ⟫= λ die r₁ h₁. resolve_die-Keeps fuel die [] r₁ h₁)
                      ⟫= λ next r₂ h₂. resolve_die-Keeps fuel next _ r₂ h₂)
            ]

  pub resolve_type-Keeps : (fuel : ℕ) (offset : Option ℕ) → Keeps (resolve_type fuel offset)
  unfolding resolve_type
  resolve_type-Keeps fuel none r h = gives h
  resolve_type-Keeps fuel (some offset) r h =
      keeps offset r h ⟫= λ die r₁ h₁. resolve_die-Keeps fuel die [] r₁ h₁

  pub is_aggregate_type-Keeps : (fuel : ℕ) (die : Die) → Keeps (is_aggregate_type fuel die)
  unfolding is_aggregate_type
  is_aggregate_type-Keeps fuel die r h =
      resolve_die-Keeps fuel (some die) [] r h ⟫= λ resolved r₁ h₁. gives h₁

  find_member-Keeps : (field : Bytes) (children : List ℕ) → Keeps (find_member field children)
  unfolding find_member
  find_member-Keeps field [] r h = gives h
  find_member-Keeps field (off ∷ children) r h =
      maybe-Runs (get_die off r) _ (keeps off r h) (λ r₁ h₁. find_member-Keeps field children r₁ h₁)
        λ die r₁ h₁.
          either (λ (m : M (Option Die)). Kept I (m r₁))
            (die.tag == dw_tag_member && bytes_eq (name_of die) field) _ _ (λ k. gives h₁)
            (λ k. find_member-Keeps field children r₁ h₁)

  walk_field-Keeps : (fuel : ℕ) (field : Bytes) (w : Walk) → Keeps (walk_field fuel field w)
  unfolding walk_field
  walk_field-Keeps fuel field w r h =
      maybe-Runs (resolve_die fuel w.current_type [] r) _
        (resolve_die-Keeps fuel w.current_type [] r h) (λ r₁ h₁. gives h₁)
        λ type_die r₁ h₁.
          maybe-Runs (find_member field type_die.children r₁) _
            (find_member-Keeps field type_die.children r₁ h₁) (λ r₂ h₂. fails h₂)
            λ member r₂ h₂.
              read-Runs (member_offset member) r₂ _ (member_offset-ne-stuck member) h₂ λ own e.
                resolve_type-Keeps fuel (ref_attr member dw_at_type) r₂ h₂ ⟫= λ t r₃ h₃. gives h₃

  walk_fields-Keeps :
      (fuel : ℕ) (fields : List Bytes) (w : Walk) → Keeps (walk_fields fuel fields w)
  unfolding walk_fields
  walk_fields-Keeps fuel [] w r h = gives h
  walk_fields-Keeps fuel (field ∷ fields) w r h =
      maybe-Runs (walk_field fuel field w r) _ (walk_field-Keeps fuel field w r h)
        (λ r₁ h₁. gives h₁) (λ w' r₁ h₁. walk_fields-Keeps fuel fields w' r₁ h₁)

  resolve_root-Keeps :
      (fuel : ℕ) (expr : ParsedExpression) (root : Die) → Keeps (resolve_root fuel expr root)
  unfolding resolve_root
  resolve_root-Keeps fuel expr root r h =
      maybe_read-Runs (address_from_location r.cus root) r _
        (address_from_location-ne-stuck r.cus root) h (gives h)
        λ a e.
          maybe-Runs (resolve_type fuel (ref_attr root dw_at_type) r) _
            (resolve_type-Keeps fuel (ref_attr root dw_at_type) r h) (λ r₁ h₁. gives h₁)
            λ t r₁ h₁.
              maybe-Runs (walk_fields fuel expr.fields _ r₁) _
                (walk_fields-Keeps fuel expr.fields _ r₁ h₁) (λ r₂ h₂. gives h₂)
                λ w r₂ h₂.
                  lift-Runs (finish_resolve expr a _ w) r₂ (finish_resolve-ne-stuck expr a _ w) h₂

-- `resolve` leaves a sound table.
pub resolve-Sound :
    (fuel : ℕ) (expr : ParsedExpression) (r : Resolver)
    → IsTable r
    → Sound (Unit {0}) (resolve fuel expr r)
unfolding resolve
resolve-Sound fuel expr r h = elim (Bool-cases (available r)) [
  | inr closed ↦ rw (closed, resolve) (gives h)
  | inl open_ ↦
      rw (open_, resolve)
        (elim (fields_cases expr.fields) [
          | inl empty ↦ simp (empty) (gives h)
          | inr (f, rest, e) ↦ simp (e) (
              maybe-Runs (find_variable expr.root_name r) _
                (find_variable-Sound (Unit {0}) expr.root_name r h) (λ r₁ h₁. gives h₁)
                λ die r₁ h₁.
                  resolve_root-Keeps IsTable (get_die-Sound (Unit {0})) fuel expr die r₁ h₁)
        ])
]

-- ===== src/Dwarf/Placed.antt =====
-- What `resolve` of DwarfResolver finds is what the DWARF information says that it has parsed by then.
use tc397tools.Prelude.{
  ℕ, ◌≡◌, refl, sym, ap, ◌∙◌, subst, Option, none, some, List, [], ◌∷◌, inl, inr, Bool-cases, Bytes,
  ◌==◌, if◌then◌else◌,
}
use tc397tools.Prelude.Result.{Result, ok}
use tc397tools.Prelude.Table.{lookup}
use tc397tools.Expression.{ParsedExpression}
use tc397tools.Dwarf.Data.{Die, CuHeader, dw_at_type, dw_at_location}
use tc397tools.Dwarf.State.{construct, Resolver, available}
use tc397tools.Dwarf.Types.{
  name_of, byte_size, signedness, ref_attr, resolve_type, unit_size, location_value,
  address_from_location,
}
use tc397tools.Dwarf.Members.{value_or}
use tc397tools.Dwarf.Resolve.{
  VariableRef, Walk, find_variable, walk_fields, finish_resolve, resolve_root, resolve,
}
use tc397tools.Dwarf.Runs.{Runs, gives, lifted_keeps, maybe-Runs, maybe_read-Runs}
use tc397tools.Dwarf.Found.{fields_cases}
use tc397tools.Dwarf.Values.{address_from_location-ne-stuck}
use tc397tools.Dwarf.Layout.{Layout, root}
use tc397tools.Dwarf.Grows.{Anything, no_growth}
use tc397tools.Dwarf.Reached.{resolve_type-Reaches}
use tc397tools.Dwarf.Named.{IsEntryOf, IsEntryOf-IsNamed}
use tc397tools.Dwarf.Fields.{IsLaid, walk_fields-Walks}
use tc397tools.Dwarf.Located.{IsLocated, Locates, finish_resolve-Locates, nonempty}
use tc397tools.Dwarf.Names.{IsCalm, IsCalm-later, Seeks, find_variable-Seeks, opened-IsCalm}

-- Only the address sizes of the units matter for an address.
location_value-sizes :
    (cus cus' : List CuHeader) (die : Die) (block : Bytes)
    → unit_size cus' die.cu_start ≡ unit_size cus die.cu_start
    → location_value cus' die block ≡ location_value cus die block
unfolding location_value
location_value-sizes cus cus' die block same = rw (same, location_value) refl

address_from_location-sizes :
    (cus cus' : List CuHeader) (die : Die)
    → unit_size cus' die.cu_start ≡ unit_size cus die.cu_start
    → address_from_location cus' die ≡ address_from_location cus die
unfolding address_from_location
address_from_location-sizes cus cus' die same =
    ap
      (λ (value_of : Bytes → Result (Option ℕ)).
        elim (lookup dw_at_location die.attrs) as (λ x. Result (Option ℕ)) [
          | none ↦ ok none
          | some value ↦ elim value.block as (λ x. Result (Option ℕ)) [
            | [] ↦ ok none
            | ◌∷◌ op rest ↦ if op == 0x03 then value_of (op ∷ rest) else ok none
          ]
        ])
      (λ i block. location_value-sizes cus cus' die block same i)

-- What `resolve` leaves where it returns.
abbrev Finishes : ℕ → ParsedExpression → Option VariableRef → Resolver → Type 0
Finishes fuel expr found r = IsCalm r × Locates fuel expr found r

resolve_root-Finishes :
    (fuel : ℕ) (expr : ParsedExpression) (variable : Die) (r : Resolver) (field : Bytes)
    (fields : List Bytes)
    → expr.fields ≡ field ∷ fields
    → IsCalm r
    → IsEntryOf expr.root_name r.dies variable
    → Runs (Unit {0}) (Finishes fuel expr) Anything (resolve_root fuel expr variable r)
unfolding resolve_root
resolve_root-Finishes fuel expr variable r field fields more calm entry =
    maybe_read-Runs (address_from_location r.cus variable) r _
      (address_from_location-ne-stuck r.cus variable) tt (gives (calm, tt))
      λ a located.
        maybe-Runs (resolve_type fuel (ref_attr variable dw_at_type) r) _
          (resolve_type-Reaches fuel (ref_attr variable dw_at_type) r calm.whole)
          (λ r₁ (grows, whole₁, its_type). gives (IsCalm-later r r₁ calm grows whole₁, tt))
          λ t r₁ (grows, whole₁, its_type).
            let start : Walk = record {
              current_type = some t;
              byte_offset = 0;
              final_size = value_or (byte_size t) 0;
              final_signed = signedness t;
              final_type_name = name_of t;
              traversed = expr.root_name;
            } in
            let laid : IsLaid fuel variable r₁ start = record {
              last = name_of variable;
              die = variable;
              layout = λ larger behind.
                  subst
                    (λ (e : Bytes).
                      Layout larger fuel variable e (name_of variable) 0 variable (some t))
                    entry.3 (root (its_type larger behind));
            } in
            maybe-Runs (walk_fields fuel expr.fields start r₁) _
              (walk_fields-Walks fuel variable expr.fields start r r₁ grows whole₁ laid
                (λ empty. absurd (nonempty field fields (sym more ∙ empty))))
              (λ r₂ (grew, whole₂). gives (IsCalm-later r r₂ calm grew whole₂, tt))
              λ w r₂ (grew, whole₂, h, path).
                let kept : IsEntryOf expr.root_name r₂.dies variable =
                  (entry.0, grew.stands (entry.0, variable) entry.1, entry.2, entry.3) in
                lifted_keeps (finish_resolve expr a _ w) r₂ (IsCalm-later r r₂ calm grew whole₂) (
                  finish_resolve-Locates fuel expr r₂ variable a _ w h.last h.die
                    (IsEntryOf-IsNamed expr.root_name r₂ variable kept)
                    (address_from_location-sizes r.cus r₂.cus variable
                        (grew.sizes variable.cu_start)
                      ∙ located)
                    (h.layout r₂ (no_growth r₂)) h.sized h.signed_as h.typed path)

resolve-Finishes :
    (fuel : ℕ) (expr : ParsedExpression) (r : Resolver)
    → IsCalm r
    → Runs (Unit {0}) (Finishes fuel expr) Anything (resolve fuel expr r)
unfolding resolve
resolve-Finishes fuel expr r calm = elim (Bool-cases (available r)) [
  | inr closed ↦ rw (closed, resolve) (gives (calm, tt))
  | inl open_ ↦
      rw (open_, resolve)
        (elim (fields_cases expr.fields) [
          | inl empty ↦ simp (empty) (gives (calm, tt))
          | inr (f, rest, e) ↦ simp (e) (
              maybe-Runs {P = Seeks expr.root_name} (find_variable expr.root_name r) _
                (find_variable-Seeks expr.root_name r calm) (λ r₁ calm₁. gives (calm₁, tt))
                λ die r₁ (calm₁, entry).
                  resolve_root-Finishes fuel expr die r₁ f rest e calm₁ entry)
        ])
]

-- What the sections and the calls of `resolve` so far have made of the resolver, where none has thrown.
pub data Calm (info abbrev_bytes : Bytes) : Resolver → Type 0 where
  opened : {r : Resolver} → construct info abbrev_bytes ≡ ok r → Calm info abbrev_bytes r
  resolved :
      {r r' : Resolver} (fuel : ℕ) (expr : ParsedExpression) {found : Option VariableRef}
      → Calm info abbrev_bytes r
      → resolve fuel expr r ≡ (ok found, r')
      → Calm info abbrev_bytes r'

given_by :
    {fuel : ℕ} {expr : ParsedExpression} {x : Result (Option VariableRef) × Resolver}
    {found : Option VariableRef} {r : Resolver}
    → Runs (Unit {0}) (Finishes fuel expr) Anything x
    → x ≡ (ok found, r)
    → Finishes fuel expr found r
given_by {fuel} {expr} {found = found} {r = r} h e =
    given (subst (Runs (Unit {0}) (Finishes fuel expr) Anything) e h)
  where
    given : Runs (Unit {0}) (Finishes fuel expr) Anything (ok found, r) → Finishes fuel expr found r
    given (gives k) = k

Calm-IsCalm : (info abbrev_bytes : Bytes) (r : Resolver) → Calm info abbrev_bytes r → IsCalm r
Calm-IsCalm info abbrev_bytes r (opened e) = opened-IsCalm info abbrev_bytes r e
Calm-IsCalm info abbrev_bytes r (resolved {r = r₀} fuel expr c e) =
    (given_by (resolve-Finishes fuel expr r₀ (Calm-IsCalm info abbrev_bytes r₀ c)) e).0

-- In every state that a DwarfResolver reaches by its constructor and calls of `resolve` of which none has thrown,
-- a reference that `resolve` finds says what the DWARF information that has been parsed by then says of a variable of the
-- root name and of the members below it that the fields name: the address is that of the variable plus the sum of the
-- offsets of the members modulo 2 ^ 64 plus the index, the index is inside the size, where this is not 0, and size, sign and
-- type are those of the last member, the size 1 under an index.
pub resolve-IsLocated-Calm :
    (info abbrev_bytes : Bytes) (fuel : ℕ) (expr : ParsedExpression) (r r' : Resolver)
    (ref : VariableRef)
    → Calm info abbrev_bytes r
    → resolve fuel expr r ≡ (ok (some ref), r')
    → IsLocated r' fuel expr ref
resolve-IsLocated-Calm info abbrev_bytes fuel expr r r' ref c e =
    (given_by (resolve-Finishes fuel expr r (Calm-IsCalm info abbrev_bytes r c)) e).1

-- ===== src/Dwarf/Located.antt =====
-- What `resolve` of DwarfResolver finds behind parse_all_cus is what the DWARF information says.

use tc397tools.Prelude.{
  ℕ, ◌+◌, Bool, false, Option, none, some, List, [], ◌∷◌, ◌++◌, ◌≡◌, ◌≢◌, refl, ◌∙◌, sym, subst, ap,
  Bytes, if◌then◌else◌, inl, inr, either, Bool-cases,
}
use tc397tools.Prelude.Result.{Result, ok, stuck}
use tc397tools.Reader.{wrap64}
use tc397tools.Expression.{ParsedExpression}
use tc397tools.Expression.Parts.{join}
use tc397tools.Dwarf.Data.{Die, dw_at_type}
use tc397tools.Dwarf.State.{Resolver, available}
use tc397tools.Dwarf.Types.{
  name_of, byte_size, signedness, ref_attr, resolve_type, address_from_location,
}
use tc397tools.Dwarf.Members.{value_or, has_value, size_of_type, signed_of_type, name_of_type}
use tc397tools.Dwarf.Resolve.{
  VariableRef, Walk, index_outside, index_suffix, cached_variable, find_variable, walk_fields,
  finish_resolve, resolve_root, resolve,
}
use tc397tools.Dwarf.Runs.{
  Runs, Runs-ne-stuck, gives, fails, maybe-Runs, maybe_read-Runs, weaken_both,
}
use tc397tools.Dwarf.Found.{fields_cases}
use tc397tools.Dwarf.Parse.{IsParsed}
use tc397tools.Dwarf.Layout.{Layout, root}
use tc397tools.Dwarf.Traced.{resolve_type-Settles}
use tc397tools.Dwarf.Named.{IsNamed, Finds, Any, find_variable-Finds}
use tc397tools.Dwarf.Values.{address_from_location-ne-stuck}
use tc397tools.Dwarf.Finite.{IsAcyclic, IsAcyclic-IsEnding}
use tc397tools.Dwarf.Settled.{IsEnding, any_end}
use tc397tools.Dwarf.Walked.{IsLaid, walk_fields-Walks}

-- The reference says what the DWARF information says of the member that the expression names.
pub record IsLocated (r : Resolver) (fuel : ℕ) (expr : ParsedExpression) (ref : VariableRef)
    : Type 0 where
  pub variable : Die
  pub address : ℕ
  pub last : Bytes
  pub offset : ℕ
  pub die : Die
  pub type_die : Option Die
  pub named : IsNamed expr.root_name r variable
  pub located : address_from_location r.cus variable ≡ ok (some address)
  pub layout : Layout r fuel variable (join (expr.root_name ∷ expr.fields)) last offset die type_die
  pub whole : ref.expression ≡ expr.base_expression ++ index_suffix expr.index
  pub addressed : ref.address ≡ wrap64 (address + offset + value_or expr.index 0)
  pub inside : index_outside expr.index (value_or (byte_size die) (size_of_type type_die)) ≡ false
  pub sized :
      ref.byte_size
      ≡ (if has_value expr.index then 1 else value_or (byte_size die) (size_of_type type_die))
  pub signed_when_known : ref.signed_known ≡ has_value (signed_of_type type_die)
  pub signed_as : ref.is_signed ≡ value_or (signed_of_type type_die) false
  pub typed : ref.type_name ≡ name_of_type type_die

abbrev pub Locates : ℕ → ParsedExpression → Option VariableRef → Resolver → Type 0
Locates fuel expr none r = Unit
Locates fuel expr (some ref) r = IsLocated r fuel expr ref

-- What `resolve` does behind the walk, where the walk has come to a member and knows what it is.
pub finish_resolve-Locates :
    {S : Type 0} (fuel : ℕ) (expr : ParsedExpression) (r : Resolver) (variable : Die)
    (address size : ℕ) (w : Walk) (last : Bytes) (die : Die)
    → IsNamed expr.root_name r variable
    → address_from_location r.cus variable ≡ ok (some address)
    → Layout r fuel variable w.traversed last w.byte_offset die w.current_type
    → w.final_size ≡ value_or (byte_size die) (size_of_type w.current_type)
    → w.final_signed ≡ signed_of_type w.current_type
    → w.final_type_name ≡ name_of_type w.current_type
    → w.traversed ≡ join (expr.root_name ∷ expr.fields)
    → Runs S (Locates fuel expr) Any (finish_resolve expr address size w, r)
unfolding finish_resolve
finish_resolve-Locates {S} fuel expr r variable address size w last die named located layout sized
      signed_as typed path =
    either (λ (x : Result (Option VariableRef)). Runs S (Locates fuel expr) Any (x, r))
      (index_outside expr.index w.final_size) _ _ (λ outside. fails tt)
      (λ inside. gives (record {
        variable = variable;
        address = address;
        last = last;
        offset = w.byte_offset;
        die = die;
        type_die = w.current_type;
        named = named;
        located = located;
        layout =
            subst (λ (e : Bytes). Layout r fuel variable e last w.byte_offset die w.current_type)
              path layout;
        whole = refl;
        addressed = refl;
        inside = subst (λ (n : ℕ). index_outside expr.index n ≡ false) sized inside;
        sized = ap (λ (n : ℕ). if has_value expr.index then 1 else n) sized;
        signed_when_known = ap has_value signed_as;
        signed_as = ap (λ (b : Option Bool). value_or b false) signed_as;
        typed = typed;
      }))

pub nonempty : (field : Bytes) (fields : List Bytes) → field ∷ fields ≢ []
nonempty field fields e = cc

resolve_root-Locates :
    (r : Resolver) (parsed : IsParsed r.cus) (fuel : ℕ) (S : Type 0) (ends : IsEnding r fuel S)
    (expr : ParsedExpression) (variable : Die) (field : Bytes) (fields : List Bytes)
    → expr.fields ≡ field ∷ fields
    → IsNamed expr.root_name r variable
    → Runs S (Locates fuel expr) Any (resolve_root fuel expr variable r)
unfolding resolve_root walk_fields
resolve_root-Locates r parsed fuel S ends expr variable field fields more named =
    maybe_read-Runs (address_from_location r.cus variable) r _
      (address_from_location-ne-stuck r.cus variable) tt (gives tt)
      λ a located.
        maybe-Runs (resolve_type fuel (ref_attr variable dw_at_type) r) _
          (weaken_both (λ a s k. k) (λ s k. tt)
            (resolve_type-Settles r parsed fuel S ends (ref_attr variable dw_at_type) r refl))
          (λ s k. gives tt)
          λ t s (same, its_type).
            let start : Walk = record {
              current_type = some t;
              byte_offset = 0;
              final_size = value_or (byte_size t) 0;
              final_signed = signedness t;
              final_type_name = name_of t;
              traversed = expr.root_name;
            } in
            let laid : IsLaid r parsed fuel S ends variable start = record {
              last = name_of variable;
              die = variable;
              layout =
                  subst
                    (λ (e : Bytes). Layout r fuel variable e (name_of variable) 0 variable (some t))
                    named.2 (root its_type);
            } in
            maybe-Runs (walk_fields fuel expr.fields start s) _
              (walk_fields-Walks r parsed fuel S ends variable expr.fields start laid
                (λ empty. absurd (nonempty field fields (sym more ∙ empty))) s same)
              (λ s₁ k. gives tt)
              λ w s₁ (same₁, h, path).
                subst
                  (λ (u : Resolver).
                    Runs S (Locates fuel expr) Any
                      (finish_resolve expr a (value_or (byte_size t) 0) w, u))
                  (sym same₁)
                  (finish_resolve-Locates fuel expr r variable a (value_or (byte_size t) 0) w h.last
                    h.die named located h.layout h.sized h.signed_as h.typed path)

resolve-Locates :
    (fuel : ℕ) (S : Type 0) (expr : ParsedExpression) (r : Resolver)
    → IsParsed r.cus
    → cached_variable expr.root_name r.variable_cache ≡ none
    → ((u : Resolver) → IsParsed u.cus → u.dies ≡ r.dies → IsEnding u fuel S)
    → Runs S (Locates fuel expr) Any (resolve fuel expr r)
unfolding resolve find_variable
resolve-Locates fuel S expr r parsed unknown ends = elim (Bool-cases (available r)) [
  | inr closed ↦ rw (closed, resolve) (gives tt)
  | inl open_ ↦
      rw (open_, resolve)
        (elim (fields_cases expr.fields) [
          | inl empty ↦ simp (empty) (gives tt)
          | inr (f, rest, e) ↦ simp (e) (
              maybe-Runs {P = Finds r expr.root_name} (find_variable expr.root_name r) _
                (find_variable-Finds expr.root_name r parsed unknown) (λ r₁ k. gives tt)
                λ die r₁ (parsed₁, dies₁, named).
                  resolve_root-Locates r₁ parsed₁ fuel S (ends r₁ parsed₁ dies₁) expr die f rest e
                    named)
        ])
]

-- Where all units have been parsed and the name of the variable has not been looked up before, a reference that
-- DwarfResolver::resolve finds says what the DWARF information says of a variable of this name and the members below it that
-- the fields name: the address is that of the variable plus the sum of the offsets of the members modulo
-- 2 ^ 64 plus the index, the index is inside the size, where this is not 0, and size, sign and type are those of the last
-- member, the size 1 under an index.
pub resolve-IsLocated :
    (fuel : ℕ) (expr : ParsedExpression) (r r' : Resolver) (ref : VariableRef)
    → IsParsed r.cus
    → cached_variable expr.root_name r.variable_cache ≡ none
    → resolve fuel expr r ≡ (ok (some ref), r')
    → IsLocated r' fuel expr ref
resolve-IsLocated fuel expr r r' ref parsed unknown e = given (
    subst (Runs (Unit {0}) (Locates fuel expr) Any) e
      (resolve-Locates fuel (Unit {0}) expr r parsed unknown (λ u p d. any_end u fuel)))
  where
    given : Runs (Unit {0}) (Locates fuel expr) Any (ok (some ref), r') → IsLocated r' fuel expr ref
    given (gives k) = k

-- Where all units have been parsed, the name of the variable has not been looked up before, the dies have ranks that fall
-- along the references of typedefs and other qualifiers, and the fuel is at least 3 more than each rank, `resolve` ends: it
-- gives a reference or none, throws, or is undefined.
pub resolve-ne-stuck :
    (fuel : ℕ) (expr : ParsedExpression) (r : Resolver)
    → IsParsed r.cus
    → cached_variable expr.root_name r.variable_cache ≡ none
    → IsAcyclic r.dies fuel
    → (resolve fuel expr r).0 ≢ stuck
resolve-ne-stuck fuel expr r parsed unknown acyclic = Runs-ne-stuck (
    resolve-Locates fuel ⊥ expr r parsed unknown λ u p d.
      IsAcyclic-IsEnding u p fuel
        (subst (λ (dies : List (ℕ × Die)). IsAcyclic dies fuel) (sym d) acyclic))

-- ===== src/Dwarf/Used.antt =====
-- The states of a DwarfResolver that is opened and used in any order.
use tc397tools.Prelude.{ℕ, List, [], ◌∷◌, ◌≡◌, ◌≢◌, Bytes, inl, inr, subst, sym, arith, All}
use tc397tools.Prelude.Result.{Result, ok, stuck, Result-cases}
use tc397tools.Expression.{ParsedExpression}
use tc397tools.Dwarf.Data.{Die}
use tc397tools.Dwarf.Scan.{scan_cus}
use tc397tools.Dwarf.State.{Resolver, construct, get_die}
use tc397tools.Dwarf.Build.{parse_all_cus, build_member_index}
use tc397tools.Dwarf.Resolve.{find_variable, resolve}
use tc397tools.Dwarf.Runs.{gives, fails, faults, stops, relax, Runs-ne-stuck}
use tc397tools.Dwarf.Table.{IsTable, IsEntry}
use tc397tools.Dwarf.Parse.{Sound, get_die-Sound, parse_all_cus-Runs}
use tc397tools.Dwarf.Settled.{any_end}
use tc397tools.Dwarf.Finite.{IsAcyclic, IsAcyclic-IsEnding}
use tc397tools.Dwarf.Lookups.{find_variable-Sound, resolve-Sound}
use tc397tools.Dwarf.Indexed.{build_member_index-Runs}

-- What the sections and the calls so far have made of the resolver, those that threw included.
pub data Used (info abbrev_bytes : Bytes) : Resolver → Type 0 where
  opened : {r : Resolver} → construct info abbrev_bytes ≡ ok r → Used info abbrev_bytes r
  resolved :
      {r : Resolver} (fuel : ℕ) (expr : ParsedExpression)
      → Used info abbrev_bytes r
      → Used info abbrev_bytes (resolve fuel expr r).1
  indexed :
      {r : Resolver} (max_depth fuel : ℕ)
      → Used info abbrev_bytes r
      → Used info abbrev_bytes (build_member_index max_depth fuel r).1

behind : {A S : Type 0} {x : Result A × Resolver} → Sound S x → IsTable x.1
behind (gives h) = h
behind (fails h) = h
behind (faults h) = h
behind (stops s h) = h

construct-dies :
    (info abbrev_bytes : Bytes) (r : Resolver) → construct info abbrev_bytes ≡ ok r → r.dies ≡ []
unfolding construct
construct-dies [] abbrev_bytes r e = ground arith
construct-dies (b ∷ info) abbrev_bytes r e = elim (Result-cases (scan_cus (b ∷ info))) [
  | inl (cus, scanned) ↦ ground arith
  | inr other ↦ absurd (ground arith)
]

construct-IsTable :
    (info abbrev_bytes : Bytes) (r : Resolver) → construct info abbrev_bytes ≡ ok r → IsTable r
construct-IsTable info abbrev_bytes r e = record {
  entries =
      subst (λ (dies : List (ℕ × Die)). All (IsEntry r.cus dies) dies)
        (sym (construct-dies info abbrev_bytes r e)) tt;
}

-- In every state that a DwarfResolver reaches by its constructor, `resolve` and build_member_index, in any order
-- and whatever these throw, each die of the table stands at its own offset, in a unit that starts at its cu_start, behind
-- the header and before the end, and each of its children stands in the table further behind.
pub Used-IsTable : (info abbrev_bytes : Bytes) (r : Resolver) → Used info abbrev_bytes r → IsTable r
Used-IsTable info abbrev_bytes r (opened e) = construct-IsTable info abbrev_bytes r e
Used-IsTable info abbrev_bytes r (resolved {r = r₀} fuel expr u) =
    behind (resolve-Sound fuel expr r₀ (Used-IsTable info abbrev_bytes r₀ u))
Used-IsTable info abbrev_bytes r (indexed {r = r₀} max_depth fuel u) = behind (
    relax (λ items r' h. h.0)
      (build_member_index-Runs max_depth fuel (Unit {0}) r₀ (Used-IsTable info abbrev_bytes r₀ u)
        (λ parsed. any_end _ fuel)))

-- In every state that a DwarfResolver reaches by its constructor, `resolve` and build_member_index, in any order, parsing
-- all units ends, and so do looking up a die and finding a variable: the fuel of the model is enough for them.
pub lookups-ne-stuck :
    (info abbrev_bytes : Bytes) (r : Resolver) (offset : ℕ) (name : Bytes)
    → Used info abbrev_bytes r
    → ((parse_all_cus r).0 ≢ stuck)
      × ((get_die offset r).0 ≢ stuck)
      × ((find_variable name r).0 ≢ stuck)
lookups-ne-stuck info abbrev_bytes r offset name u =
    let h = Used-IsTable info abbrev_bytes r u in
    (
      Runs-ne-stuck (parse_all_cus-Runs r h),
      Runs-ne-stuck (get_die-Sound ⊥ offset r h),
      Runs-ne-stuck (find_variable-Sound ⊥ name r h),
    )

-- In every state that a DwarfResolver reaches by its constructor, `resolve` and build_member_index, in any order: where the
-- dies behind parse_all_cus have ranks that fall along the references of typedefs and other qualifiers, and the fuel is at
-- least 3 more than each rank, build_member_index ends: it gives the items, throws, or is undefined.
pub build_member_index-ne-stuck :
    (info abbrev_bytes : Bytes) (max_depth fuel : ℕ) (r : Resolver)
    → Used info abbrev_bytes r
    → IsAcyclic (parse_all_cus r).1.dies fuel
    → (build_member_index max_depth fuel r).0 ≢ stuck
build_member_index-ne-stuck info abbrev_bytes max_depth fuel r u acyclic = Runs-ne-stuck (
    build_member_index-Runs max_depth fuel ⊥ r (Used-IsTable info abbrev_bytes r u)
      (λ parsed. IsAcyclic-IsEnding (parse_all_cus r).1 parsed fuel acyclic))

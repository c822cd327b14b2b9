-- ===== src/Dwarf/Endless.antt =====
-- resolve_type on a chain of qualifiers that has no end, such as a typedef of itself.
use tc397tools.Prelude.{ℕ, zero, suc, true, some, [], ◌≡◌, refl}
use tc397tools.Prelude.Result.{ok, stuck}
use tc397tools.Prelude.Table.{lookup}
use tc397tools.Dwarf.Data.{Die, dw_at_type}
use tc397tools.Dwarf.State.{Resolver, get_die}
use tc397tools.Dwarf.Types.{is_qualifier, ref_attr, resolve_die}

-- Dies of qualifiers, each of which refers to the next; a cycle repeats its Dies.
pub record Endless (r : Resolver) (chain : ℕ → Die) : Type 0 where
  pub target : ℕ → ℕ
  pub qualifies : (i : ℕ) → is_qualifier (chain i).tag ≡ true
  pub refers : (i : ℕ) → ref_attr (chain i) dw_at_type ≡ some (target i)
  pub stored : (i : ℕ) → lookup (target i) r.dies ≡ some (chain (suc i))

get_die-stored :
    (offset : ℕ) (die : Die) (r : Resolver)
    → lookup offset r.dies ≡ some die
    → get_die offset r ≡ (ok (some die), r)
unfolding get_die
get_die-stored offset die r h = rw (h, get_die)

resolve_die-from :
    (fuel i : ℕ) (r : Resolver) (chain : ℕ → Die)
    → Endless r chain
    → (resolve_die fuel (some (chain i)) [] r).0 ≡ stuck
unfolding resolve_die
resolve_die-from zero i r chain h = refl
resolve_die-from (suc fuel) i r chain h = rw (h.qualifies i) (
    rw (h.refers i) (
      rw (get_die-stored (h.target i) (chain (suc i)) r (h.stored i))
        (rw (resolve_die-from fuel (suc i) r chain h))))

-- On an endless chain of qualifiers no number of rounds and calls lets resolve_type return: the call
-- for the next type starts with an empty `seen`, so the test on `seen` never stops it.
pub resolve_die-Endless :
    (r : Resolver) (chain : ℕ → Die)
    → Endless r chain
    → (fuel : ℕ) → (resolve_die fuel (some (chain 0)) [] r).0 ≡ stuck
resolve_die-Endless r chain h fuel = resolve_die-from fuel 0 r chain h

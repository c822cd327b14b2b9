-- ===== src/Dwarf/Settled.antt =====
-- DwarfResolver behind parse_all_cus: finding dies changes nothing any more.
use tc397tools.Prelude.{
  ℕ, true, ◌&&◌, Option, some, List, [], ◌∷◌, ◌≡◌, refl, subst, sym, ap, ◌∙◌, arith, ltb, leb, inl,
  inr, Bool-cases, Option-cases,
}
use tc397tools.Prelude.Result.{Result, ok, stuck}
use tc397tools.Prelude.Table.{lookup}
use tc397tools.Dwarf.Data.{Die, CuHeader}
use tc397tools.Dwarf.Scan.{cu_containing}
use tc397tools.Dwarf.State.{Resolver, M, get_die, parse_cu}
use tc397tools.Dwarf.Types.{resolve_die, resolve_type}
use tc397tools.Dwarf.Runs.{Runs, gives, fails, faults, stops}
use tc397tools.Dwarf.Parse.{IsParsed}
use tc397tools.Dwarf.Lookups.{Kept}

pub cu_containing-parsed :
    (cus : List CuHeader) (offset i : ℕ) (cu : CuHeader)
    → IsParsed cus
    → cu_containing cus offset ≡ some (i, cu)
    → cu.parsed ≡ true
unfolding cu_containing
cu_containing-parsed [] offset i cu h e = absurd (ground arith)
cu_containing-parsed (c ∷ cus) offset i cu h e =
    elim (Bool-cases (leb c.start offset && ltb offset c.stop)) [
      | inl here ↦ ground arith
      | inr later ↦ elim (Option-cases (cu_containing cus offset)) [
        | inl absent ↦ absurd (ground arith)
        | inr ((j, d), found) ↦ cu_containing-parsed cus offset j cu h.1 (ground arith)
      ]
    ]

pub parse_cu-parsed :
    (i : ℕ) (cu : CuHeader) (r : Resolver) → cu.parsed ≡ true → parse_cu i cu r ≡ (ok tt, r)
unfolding parse_cu
parse_cu-parsed i cu r h = simp (h)

-- Once all units have been parsed, get_die only looks into the table.
pub get_die-parsed :
    (offset : ℕ) (r : Resolver) → IsParsed r.cus → get_die offset r ≡ (ok (lookup offset r.dies), r)
unfolding get_die
get_die-parsed offset r h = elim (Option-cases (lookup offset r.dies)) [
  | inr (die, e) ↦ rw (e, get_die)
  | inl absent ↦ elim (Option-cases (cu_containing r.cus offset)) [
    | inl outside ↦ rw (absent, get_die) (rw outside)
    | inr ((i, cu), e) ↦
        rw (absent, get_die)
          (rw e (
            simp (parse_cu-parsed i cu r (cu_containing-parsed r.cus offset i cu h e))
              (ap (λ (d : Option Die). (ok d, r)) absent)))
  ]
]

abbrev pub Same : Resolver → Resolver → Type 0
Same settled r = r ≡ settled

pub get_die-Same :
    (settled : Resolver)
    → IsParsed settled.cus
    → (offset : ℕ) (r : Resolver) → Same settled r
    → Kept (Same settled) (get_die offset r)
get_die-Same settled parsed offset r e =
    subst (λ (s : Resolver). Kept (Same settled) (get_die offset s)) (sym e)
      (rw (get_die-parsed offset settled parsed) (gives refl))

-- Where a method changes nothing, its value is what it gives on the state that stays.
pub settled-Runs :
    {A S : Type 0} (settled : Resolver) (m : M A) (r : Resolver)
    → r ≡ settled
    → Runs S (λ (a : A) (r' : Resolver). r' ≡ settled) (Same settled) (m r)
    → Runs S
        (λ (a : A) (r' : Resolver). (r' ≡ settled) × (m settled ≡ (ok a, settled)))
        (Same settled)
        (m r)
settled-Runs {A} {S} settled m r e h = found (m r) refl h
  where
    found :
        (x : Result A × Resolver)
        → m r ≡ x
        → Runs S (λ (a : A) (r' : Resolver). r' ≡ settled) (Same settled) x
        → Runs S
            (λ (a : A) (r' : Resolver). (r' ≡ settled) × (m settled ≡ (ok a, settled)))
            (Same settled)
            x
    found x same (gives {a} {r = s} k) = gives (
      k,
      subst (λ (u : Resolver). m u ≡ (ok a, settled)) e (same ∙ ap (λ (u : Resolver). (ok a, u)) k),
    )
    found x same (fails k) = fails k
    found x same (faults k) = faults k
    found x same (stops s k) = stops s k

-- Where resolve_type may be stuck on the table, only if S holds: on a type that is asked for, on one that was found, and on
-- one behind that.
pub record IsEnding (r : Resolver) (fuel : ℕ) (S : Type 0) : Type 0 where
  pub of_type : (offset : Option ℕ) → (resolve_type fuel offset r).0 ≡ stuck → S
  pub behind_type :
      (offset : Option ℕ) (t : Option Die)
      → resolve_type fuel offset r ≡ (ok t, r)
      → (resolve_die fuel t [] r).0 ≡ stuck
      → S
  pub behind_die :
      (t target : Die)
      → resolve_die fuel (some t) [] r ≡ (ok (some target), r)
      → (resolve_die fuel (some target) [] r).0 ≡ stuck
      → S

pub any_end : (r : Resolver) (fuel : ℕ) → IsEnding r fuel (Unit {0})
any_end r fuel = record {
  of_type = λ o e. tt;
  behind_type = λ o t k e. tt;
  behind_die = λ t u k e. tt;
}

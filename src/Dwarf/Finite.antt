-- ===== src/Dwarf/Finite.antt =====
-- resolve_type and build_member_index of DwarfResolver end where no chain of qualifiers is endless.
use tc397tools.Prelude.{
  ℕ, zero, suc, ◌+◌, ◌<◌, Bool, true, false, not, ltb, ◌==◌, ◌&&◌, ◌||◌, Option, none, some, List,
  [], ◌∷◌, ◌≡◌, ◌≢◌, refl, subst, arith, inl, inr, Bool-cases, Option-cases, either,
}
use tc397tools.Prelude.Result.{Result, ok, stuck}
use tc397tools.Prelude.Table.{lookup}
use tc397tools.Dwarf.Data.{Die, dw_at_type}
use tc397tools.Dwarf.State.{Resolver, M}
use tc397tools.Dwarf.Types.{is_qualifier, mem, ref_attr, resolve_die, resolve_type}
use tc397tools.Dwarf.Parse.{IsParsed}
use tc397tools.Dwarf.Settled.{get_die-parsed, IsEnding}

-- Along a reference from a typedef or another qualifier the rank falls, and no rank reaches the fuel.
pub record IsAcyclic (dies : List (ℕ × Die)) (fuel : ℕ) : Type 0 where
  pub rank : ℕ → ℕ
  pub bounded : (k : ℕ) → rank k + 2 < fuel
  pub falls :
      (k next : ℕ) (die : Die)
      → lookup k dies ≡ some die
      → is_qualifier die.tag ≡ true
      → ref_attr die dw_at_type ≡ some next
      → rank next < rank k

-- Whether the rank falls along the reference of a die.
unfoldable pub falls_from : (ℕ → ℕ) → ℕ → Die → Bool
falls_from rank k die = elim (ref_attr die dw_at_type) [
  | none ↦ true
  | some next ↦ not (is_qualifier die.tag) || ltb (rank next) (rank k)
]

unfoldable pub ranks_fall : (ℕ → ℕ) → List (ℕ × Die) → Bool
unfolding falls_from
ranks_fall rank [] = true
ranks_fall rank ((k, die) ∷ dies) = falls_from rank k die && ranks_fall rank dies

falls_from-falls :
    (rank : ℕ → ℕ) (k next : ℕ) (die : Die)
    → falls_from rank k die ≡ true
    → is_qualifier die.tag ≡ true
    → ref_attr die dw_at_type ≡ some next
    → rank next < rank k
unfolding falls_from
falls_from-falls rank k next die h qualifier refers =
    let h' : (not (is_qualifier die.tag) || ltb (rank next) (rank k)) ≡ true =
      rw (refers, falls_from) at h in
    ground (arith, rw qualifier at h')

-- A table that passes the test is without cycles.
pub ranks_fall-falls :
    (rank : ℕ → ℕ) (dies : List (ℕ × Die))
    → ranks_fall rank dies ≡ true
    → (k next : ℕ) (die : Die) → lookup k dies ≡ some die
    → is_qualifier die.tag ≡ true
    → ref_attr die dw_at_type ≡ some next
    → rank next < rank k
unfolding ranks_fall falls_from lookup
ranks_fall-falls rank [] h k next die found qualifier refers = absurd (ground arith)
ranks_fall-falls rank ((j, d) ∷ dies) h k next die found qualifier refers =
    elim (Bool-cases (j == k)) [
      | inl this ↦
          let same : j ≡ k = ground arith in
          let here : d ≡ die = ground arith in
          falls_from-falls rank k next die
            (subst (λ (i : ℕ). falls_from rank i die ≡ true) same
              (subst (λ (x : Die). falls_from rank j x ≡ true) here (ground arith)))
            qualifier refers
      | inr other ↦
          ranks_fall-falls rank dies (ground arith) k next die (rw (other, lookup) at found)
            qualifier refers
    ]

-- No type, or one that is not looked through.
abbrev IsPlain : Option Die → Type 0
IsPlain none = Unit
IsPlain (some die) = is_qualifier die.tag ≡ false

module _ (r : Resolver) (parsed : IsParsed r.cus) where
  abbrev Returns : ℕ → Option Die → List ℕ → Type 0
  Returns fuel current seen =
      (t : Option Die) × (resolve_die fuel current seen r ≡ (ok t, r)) × IsPlain t

  -- A type that is not looked through is what it stands for.
  plain-Returns :
      (fuel : ℕ) (t : Option Die) (seen : List ℕ) → IsPlain t → Returns (suc fuel) t seen
  unfolding resolve_die
  plain-Returns fuel none seen h = (none, refl, tt)
  plain-Returns fuel (some die) seen h =
      either (λ (m : M (Option Die)). (t : Option Die) × (m r ≡ (ok t, r)) × IsPlain t)
        (mem die.offset seen) _ _ (λ again. (some die, refl, h)) (λ fresh. (some die, rw h refl, h))

  -- A die returns where the one it refers to does.
  step-Returns :
      (f : ℕ) (die : Die)
      → ((next : ℕ) (d : Die)
          → is_qualifier die.tag ≡ true
          → ref_attr die dw_at_type ≡ some next
          → lookup next r.dies ≡ some d
          → Returns (suc f) (some d) [])
      → Returns (suc (suc f)) (some die) []
  unfolding resolve_die mem
  step-Returns f die behind = elim (Bool-cases (is_qualifier die.tag)) [
    | inr plain ↦ (some die, rw (plain, resolve_die) refl, plain)
    | inl qualifier ↦ elim (Option-cases (ref_attr die dw_at_type)) [
      | inl open_ ↦ (none, simp (qualifier, open_) refl, tt)
      | inr (next, refers) ↦ elim (Option-cases (lookup next r.dies)) [
        | inl absent ↦
            (none, simp (qualifier, refers, get_die-parsed next r parsed, absent) refl, tt)
        | inr (d, stands) ↦
            let (t₁, e₁, h₁) = behind next d qualifier refers stands in
            let (t, e, h) = plain-Returns f t₁ (die.offset ∷ []) h₁ in
            (t, simp (qualifier, refers, get_die-parsed next r parsed, stands, e₁) e, h)
      ]
    ]
  ]

  module _ (fuel : ℕ) (acyclic : IsAcyclic r.dies (suc (suc fuel))) where
    -- With fuel above the rank, the chain of qualifiers from a die of the table has an end.
    stored-Returns :
        (f k : ℕ) (die : Die)
        → lookup k r.dies ≡ some die
        → acyclic.rank k + 1 < f
        → Returns f (some die) []
    stored-Returns zero k die found enough = absurd (omega arith)
    stored-Returns (suc zero) k die found enough = absurd (omega arith)
    stored-Returns (suc (suc f)) k die found enough =
        step-Returns f die λ next d qualifier refers stands.
          stored-Returns (suc f) next d stands
            (omega (arith, acyclic.falls k next die found qualifier refers))

    die-Returns : (die : Die) → Returns (suc (suc fuel)) (some die) []
    die-Returns die = step-Returns fuel die λ next d qualifier refers stands.
        stored-Returns (suc fuel) next d stands (omega (arith, acyclic.bounded next))

    type-Returns :
        (offset : Option ℕ)
        → (t : Option Die) × (resolve_type (suc (suc fuel)) offset r ≡ (ok t, r)) × IsPlain t
    unfolding resolve_type
    type-Returns none = (none, refl, tt)
    type-Returns (some offset) = elim (Option-cases (lookup offset r.dies)) [
      | inl absent ↦
          let (t, e, h) = plain-Returns (suc fuel) none [] tt in
          (t, simp (get_die-parsed offset r parsed, absent) e, h)
      | inr (die, stands) ↦
          let (t, e, h) = die-Returns die in (t, simp (get_die-parsed offset r parsed, stands) e, h)
    ]

    same_given :
        {x : Result (Option Die) × Resolver} {t u : Option Die}
        → x ≡ (ok t, r)
        → x ≡ (ok u, r)
        → IsPlain t
        → IsPlain u
    same_given {t} {u} e k h = subst IsPlain (ground arith) h

    plain-ne-stuck : (t : Option Die) → IsPlain t → (resolve_die (suc (suc fuel)) t [] r).0 ≢ stuck
    plain-ne-stuck t h e = let (u, k, p) = plain-Returns (suc fuel) t [] h in cc

    two_more-IsEnding : IsEnding r (suc (suc fuel)) ⊥
    two_more-IsEnding = record {
      of_type = λ offset e. let (t, k, h) = type-Returns offset in cc;
      behind_type =
          λ offset t e. let (u, k, h) = type-Returns offset in plain-ne-stuck t (same_given k e h);
      behind_die = λ t target e.
          let (u, k, h) = die-Returns t in plain-ne-stuck (some target) (same_given k e h);
    }

  -- With such fuel resolve_type always returns.
  pub IsAcyclic-IsEnding : (fuel : ℕ) → IsAcyclic r.dies fuel → IsEnding r fuel ⊥
  IsAcyclic-IsEnding zero acyclic = absurd (omega (arith, acyclic.bounded 0))
  IsAcyclic-IsEnding (suc zero) acyclic = absurd (omega (arith, acyclic.bounded 0))
  IsAcyclic-IsEnding (suc (suc fuel)) acyclic = two_more-IsEnding fuel acyclic

-- ===== src/Dwarf/Reached.antt =====
-- What resolve_type of DwarfResolver finds stays so while more units are parsed.
use tc397tools.Prelude.{
  ℕ, zero, suc, not, Option, none, some, List, [], ◌∷◌, ◌++◌, ◌≡◌, refl, ap, ◌∙◌, either,
}
use tc397tools.Prelude.Result.{Result, ok}
use tc397tools.Dwarf.Data.{Die, dw_at_type}
use tc397tools.Dwarf.State.{Resolver, M, ◌>>=◌, step_into, pure, get_die}
use tc397tools.Dwarf.Types.{mem, is_qualifier, ref_attr, resolve_die, resolve_type}
use tc397tools.Dwarf.Runs.{gives, stops, ◌⟫=◌, relax}
use tc397tools.Dwarf.Grows.{IsWhole, no_growth, then-Grows, Reaches, get_die-Reaches}

pub pure-Reaches : {A : Type 0} (a : A) (r : Resolver) → IsWhole r → Reaches (pure a) r
pure-Reaches a r whole = gives (no_growth r, whole, λ larger more. refl)

bound :
    {A B : Type 0} (x : Result A × Resolver) (f : A → M B) (a : A) (b : B) (r : Resolver)
    → x ≡ (ok a, r)
    → f a r ≡ (ok b, r)
    → step_into x.0 x.1 f ≡ (ok b, r)
bound {A} x f a b r e k = ap (λ (y : Result A × Resolver). step_into y.0 y.1 f) e ∙ k

pub bind-Reaches :
    {A B : Type 0} (m : M A) (f : A → M B) (r : Resolver)
    → Reaches m r
    → ((a : A) (r₁ : Resolver) → IsWhole r₁ → Reaches (f a) r₁)
    → Reaches (m >>= f) r
bind-Reaches m f r h k = h ⟫= λ a r₁ (grows, whole, stays).
    relax
      (λ b r₂ (grows₂, whole₂, stays₂). (
        then-Grows grows grows₂,
        whole₂,
        λ larger more.
            bound (m larger) f a b larger (stays larger (then-Grows grows₂ more))
              (stays₂ larger more),
      ))
      (k a r₁ whole)

abbrev Reached : {A : Type 0} → M A → Type 0
Reached m = (r : Resolver) → IsWhole r → Reaches m r

pub resolve_die-Reaches :
    (fuel : ℕ) (current : Option Die) (seen : List ℕ) → Reached (resolve_die fuel current seen)
unfolding resolve_die
resolve_die-Reaches zero current seen r whole = stops tt tt
resolve_die-Reaches (suc fuel) none seen r whole = pure-Reaches none r whole
resolve_die-Reaches (suc fuel) (some current) seen r whole =
    let behind = λ (o : Option Die) (stack : List ℕ). resolve_die-Reaches fuel o stack in
    either (λ (m : M (Option Die)). Reaches m r) (mem current.offset seen) _ _
      (λ again. pure-Reaches (some current) r whole)
      λ fresh.
        either (λ (m : M (Option Die)). Reaches m r) (not (is_qualifier current.tag)) _ _
          (λ plain. pure-Reaches (some current) r whole)
          λ qualifier.
            bind-Reaches _ _ r (next_type (ref_attr current dw_at_type) fuel behind r whole)
              (λ next r₁ whole₁. behind next (seen ++ current.offset ∷ []) r₁ whole₁)
  where
    next_type :
        (o : Option ℕ) (f : ℕ)
        → ((d : Option Die) (stack : List ℕ) → Reached (resolve_die f d stack))
        → Reached (elim o as (λ x. M (Option Die)) [
          | none ↦ pure none
          | some offset ↦ get_die offset >>= λ die. resolve_die f die []
        ])
    next_type none f behind s whole_s = pure-Reaches none s whole_s
    next_type (some offset) f behind s whole_s =
        bind-Reaches (get_die offset) _ s (get_die-Reaches offset s whole_s)
          (λ die s₁ whole₁. behind die [] s₁ whole₁)

pub resolve_type-Reaches : (fuel : ℕ) (offset : Option ℕ) → Reached (resolve_type fuel offset)
unfolding resolve_type
resolve_type-Reaches fuel none r whole = pure-Reaches none r whole
resolve_type-Reaches fuel (some offset) r whole =
    bind-Reaches (get_die offset) _ r (get_die-Reaches offset r whole)
      (λ die r₁ whole₁. resolve_die-Reaches fuel die [] r₁ whole₁)

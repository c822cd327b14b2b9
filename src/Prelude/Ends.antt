-- ===== src/Prelude/Ends.antt =====
-- Postconditions of a Result that is not `stuck`.
use mathlib.Core.Path.{◌≡◌, refl}
use mathlib.Core.Bool.{Bool, true, false}
use mathlib.Core.Logic.{◌≢◌}
use tc397tools.Prelude.Tests.{if◌then◌else◌}
use tc397tools.Prelude.Result.{Error, Result, ok, err, undefined, stuck, ◌>>=◌}

-- The code has ended, and P holds of the value, where there is one.
pub data Ends {A : Type 0} (P : A → Type 0) : Result A → Type 0 where
  returns : {a : A} → P a → Ends P (ok a)
  throws : {e : Error} → Ends P (err e)
  breaks : Ends P undefined

-- The code has ended.
abbrev pub Halts : {A : Type 0} → Result A → Type 0
Halts = Ends (λ a. Unit)

module _ {A : Type 0} {P : A → Type 0} where
  infixl 1 ◌⟫◌
  pub ◌⟫◌ :
      {B : Type 0} {Q : B → Type 0} {r : Result A} {f : A → Result B}
      → Ends P r
      → ((a : A) → P a → Ends Q (f a))
      → Ends Q (r >>= f)
  returns {a} h ⟫ k = k a h
  throws ⟫ k = throws
  breaks ⟫ k = breaks

  pub Ends-if : {x y : Result A} → Ends P x → Ends P y → (b : Bool) → Ends P (if b then x else y)
  Ends-if h k true = h
  Ends-if h k false = k

  pub weaken : {Q : A → Type 0} {r : Result A} → ((a : A) → P a → Q a) → Ends P r → Ends Q r
  weaken g (returns {a} h) = returns (g a h)
  weaken g throws = throws
  weaken g breaks = breaks

  pub ne-stuck : {r : Result A} → Ends P r → r ≢ stuck
  ne-stuck (returns h) e = cc
  ne-stuck throws e = cc
  ne-stuck breaks e = cc

  pub of_ne_stuck : (r : Result A) → r ≢ stuck → ((a : A) → r ≡ ok a → P a) → Ends P r
  of_ne_stuck (ok a) h k = returns (k a refl)
  of_ne_stuck (err e) h k = throws
  of_ne_stuck undefined h k = breaks
  of_ne_stuck stuck h k = absurd (h refl)

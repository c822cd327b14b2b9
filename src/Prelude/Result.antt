-- ===== src/Prelude/Result.antt =====
-- Outcomes of C++ code that may throw.
use Prim.Native.String.{String}
use mathlib.Core.Path.{◌≡◌, refl}
use mathlib.Core.Logic.{◌⊎◌, inl, inr}
use tc397tools.Prelude.Lists.{Bytes, codes}

-- The exceptions: std::runtime_error carries its text; the others are thrown by the standard
-- library (`at`, `stoull`), which does not fix their text.
pub data Error : Type 0 where
  runtime_error : Bytes → Error
  out_of_range invalid_argument : Error

-- `undefined` is undefined behaviour: a read outside a vector, a shift by 64 or more. `stuck` is
-- no outcome of the program: a loop of the model ran out of fuel.
pub data Result {ℓ} (A : Type ℓ) : Type ℓ where
  ok : A → Result A
  err : Error → Result A
  undefined : Result A
  stuck : Result A

infixl 5 ◌>>=◌ ◌>>◌
-- What follows is run on a value; any other outcome passes through.
abbrev pub ◌>>=◌ {ℓa ℓb} : {T : Type ℓa} {U : Type ℓb} → Result T → (T → Result U) → Result U
◌>>=◌ (ok value) next = next value
◌>>=◌ (err thrown) next = err thrown
◌>>=◌ undefined next = undefined
◌>>=◌ stuck next = stuck

abbrev pub ◌>>◌ {ℓa} : {U : Type ℓa} → Result (Unit {0}) → Result U → Result U
◌>>◌ first second = first >>= λ done. second

abbrev pub throw {ℓ} : {A : Type ℓ} → String → Result A
throw text = err (runtime_error (codes text))

pub Result-cases {ℓ} :
    {A : Type ℓ} (r : Result A)
    → ((a : A) × (r ≡ ok a)) ⊎ (((e : Error) × (r ≡ err e)) ⊎ ((r ≡ undefined) ⊎ (r ≡ stuck)))
Result-cases (ok a) = inl (a, refl)
Result-cases (err e) = inr (inl (e, refl))
Result-cases undefined = inr (inr (inl refl))
Result-cases stuck = inr (inr (inr refl))

-- ===== src/Dwarf/Runs.antt =====
-- Postconditions of the methods of DwarfResolver.
use tc397tools.Prelude.{◌≡◌, ◌≢◌, refl, Option, none, some}
use tc397tools.Prelude.Result.{Error, Result, ok, err, undefined, stuck}
use tc397tools.Prelude.Ends.{Ends, returns, throws, breaks}
use tc397tools.Dwarf.State.{Resolver, M, step_into}

-- P holds of the value and the state behind it, and I of the state where there is no value; the method
-- is stuck only where S holds.
pub data Runs {A : Type 0} (S : Type 0) (P : A → Resolver → Type 0) (I : Resolver → Type 0)
    : Result A × Resolver → Type 0 where
  gives : {a : A} {r : Resolver} → P a r → Runs S P I (ok a, r)
  fails : {e : Error} {r : Resolver} → I r → Runs S P I (err e, r)
  faults : {r : Resolver} → I r → Runs S P I (undefined, r)
  stops : {r : Resolver} → S → I r → Runs S P I (stuck, r)

module _ {S : Type 0} {I : Resolver → Type 0} where
  module _ {A : Type 0} {P : A → Resolver → Type 0} where
    infixl 1 ◌⟫=◌
    pub ◌⟫=◌ :
        {B : Type 0} {Q : B → Resolver → Type 0} {x : Result A × Resolver} {f : A → M B}
        → Runs S P I x
        → ((a : A) (r : Resolver) → P a r → Runs S Q I (f a r))
        → Runs S Q I (step_into x.0 x.1 f)
    gives {a} {r} h ⟫= k = k a r h
    fails h ⟫= k = fails h
    faults h ⟫= k = faults h
    stops s h ⟫= k = stops s h

    pub relax :
        {Q : A → Resolver → Type 0} {x : Result A × Resolver}
        → ((a : A) (r : Resolver) → P a r → Q a r)
        → Runs S P I x
        → Runs S Q I x
    relax g (gives {a} {r} h) = gives (g a r h)
    relax g (fails h) = fails h
    relax g (faults h) = faults h
    relax g (stops s h) = stops s h

  -- A step that reads and does not change the state.
  pub lift-step :
      {A B : Type 0} {P : A → Type 0} {Q : B → Resolver → Type 0} {x : Result A} (r : Resolver)
      (f : A → M B)
      → I r
      → Ends P x
      → ((a : A) → P a → Runs S Q I (f a r))
      → Runs S Q I (step_into x r f)
  lift-step r f h (returns {a} p) k = k a p
  lift-step r f h throws k = fails h
  lift-step r f h breaks k = faults h

pub Runs-ne-stuck :
    {A : Type 0} {P : A → Resolver → Type 0} {I : Resolver → Type 0} {x : Result A × Resolver}
    → Runs ⊥ P I x
    → x.0 ≢ stuck
Runs-ne-stuck (gives h) e = cc
Runs-ne-stuck (fails h) e = cc
Runs-ne-stuck (faults h) e = cc
Runs-ne-stuck (stops s h) e = s

pub unstuck :
    {S A : Type 0} {P : A → Resolver → Type 0} {I : Resolver → Type 0} {x : Result A × Resolver}
    → Runs ⊥ P I x
    → Runs S P I x
unstuck (gives h) = gives h
unstuck (fails h) = fails h
unstuck (faults h) = faults h
unstuck (stops s h) = absurd s

-- A step that may find nothing.
pub maybe-Runs :
    {S A B : Type 0} {P : Option A → Resolver → Type 0} {Q : B → Resolver → Type 0}
    {I : Resolver → Type 0} (x : Result (Option A) × Resolver) (f : Option A → M B)
    → Runs S P I x
    → ((r : Resolver) → P none r → Runs S Q I (f none r))
    → ((a : A) (r : Resolver) → P (some a) r → Runs S Q I (f (some a) r))
    → Runs S Q I (step_into x.0 x.1 f)
maybe-Runs (ok none, r) f (gives h) k j = k r h
maybe-Runs (ok (some a), r) f (gives h) k j = j a r h
maybe-Runs (err e, r) f (fails h) k j = fails h
maybe-Runs (undefined, r) f (faults h) k j = faults h
maybe-Runs (stuck, r) f (stops s h) k j = stops s h

-- A step that reads, with what it has read.
pub read-Runs :
    {S A B : Type 0} {Q : B → Resolver → Type 0} {I : Resolver → Type 0} (x : Result A)
    (r : Resolver) (f : A → M B)
    → x ≢ stuck
    → I r
    → ((a : A) → x ≡ ok a → Runs S Q I (f a r))
    → Runs S Q I (step_into x r f)
read-Runs (ok a) r f ends h k = k a refl
read-Runs (err e) r f ends h k = fails h
read-Runs undefined r f ends h k = faults h
read-Runs stuck r f ends h k = absurd (ends refl)

pub maybe_read-Runs :
    {S A B : Type 0} {Q : B → Resolver → Type 0} {I : Resolver → Type 0} (x : Result (Option A))
    (r : Resolver) (f : Option A → M B)
    → x ≢ stuck
    → I r
    → Runs S Q I (f none r)
    → ((a : A) → x ≡ ok (some a) → Runs S Q I (f (some a) r))
    → Runs S Q I (step_into x r f)
maybe_read-Runs (ok none) r f ends h k j = k
maybe_read-Runs (ok (some a)) r f ends h k j = j a refl
maybe_read-Runs (err e) r f ends h k j = fails h
maybe_read-Runs undefined r f ends h k j = faults h
maybe_read-Runs stuck r f ends h k j = absurd (ends refl)

pub lift-Runs :
    {S A : Type 0} {I : Resolver → Type 0} (x : Result A) (r : Resolver)
    → x ≢ stuck
    → I r
    → Runs S (λ (a : A) (r' : Resolver). I r') I (x, r)
lift-Runs (ok a) r ends h = gives h
lift-Runs (err e) r ends h = fails h
lift-Runs undefined r ends h = faults h
lift-Runs stuck r ends h = absurd (ends refl)

-- Where being stuck would entail S.
pub stuck_only :
    {S A : Type 0} {P : A → Resolver → Type 0} {I : Resolver → Type 0} {x : Result A × Resolver}
    → (x.0 ≡ stuck → S)
    → Runs (Unit {0}) P I x
    → Runs S P I x
stuck_only g (gives h) = gives h
stuck_only g (fails h) = fails h
stuck_only g (faults h) = faults h
stuck_only g (stops s h) = stops (g refl) h

-- With the equation that says what was given.
pub exactly :
    {S A : Type 0} {P : A → Resolver → Type 0} {I : Resolver → Type 0} (x : Result A × Resolver)
    → Runs S P I x
    → Runs S (λ (a : A) (r : Resolver). P a r × (x ≡ (ok a, r))) I x
exactly (ok a, r) (gives h) = gives (h, refl)
exactly (err e, r) (fails h) = fails h
exactly (undefined, r) (faults h) = faults h
exactly (stuck, r) (stops s h) = stops s h

-- A method that goes on by what was found.
pub found-Runs :
    {S A B : Type 0} {Q : B → Resolver → Type 0} {I : Resolver → Type 0} (found : Option A)
    (m : M B) (f : A → M B) (r : Resolver)
    → (found ≡ none → Runs S Q I (m r))
    → ((a : A) → found ≡ some a → Runs S Q I (f a r))
    → (let next : M B = elim found [ none ↦ m | some a ↦ f a ] in Runs S Q I (next r))
found-Runs none m f r h k = h refl
found-Runs (some a) m f r h k = k a refl

pub weaken_both :
    {S A : Type 0} {P Q : A → Resolver → Type 0} {I J : Resolver → Type 0} {x : Result A × Resolver}
    → ((a : A) (r : Resolver) → P a r → Q a r)
    → ((r : Resolver) → I r → J r)
    → Runs S P I x
    → Runs S Q J x
weaken_both g j (gives {a} {r} h) = gives (g a r h)
weaken_both g j (fails {r} h) = fails (j r h)
weaken_both g j (faults {r} h) = faults (j r h)
weaken_both g j (stops {r} s h) = stops s (j r h)

-- Two postconditions of one run.
pub both :
    {S T A : Type 0} {P Q : A → Resolver → Type 0} {I J : Resolver → Type 0}
    {x : Result A × Resolver}
    → Runs S P I x
    → Runs T Q J x
    → Runs S (λ (a : A) (r : Resolver). P a r × Q a r) (λ (r : Resolver). I r × J r) x
both (gives h) (gives k) = gives (h, k)
both (fails h) (fails k) = fails (h, k)
both (faults h) (faults k) = faults (h, k)
both (stops s h) (stops t k) = stops s (h, k)

-- What holds of the state of a step that reads holds behind it.
pub lifted_keeps :
    {S A : Type 0} {P : A → Resolver → Type 0} {I Q : Resolver → Type 0} (x : Result A)
    (r : Resolver)
    → Q r
    → Runs S P I (x, r)
    → Runs S (λ (a : A) (r' : Resolver). Q r' × P a r') I (x, r)
lifted_keeps (ok a) r q (gives h) = gives (q, h)
lifted_keeps (err e) r q (fails h) = fails h
lifted_keeps undefined r q (faults h) = faults h
lifted_keeps stuck r q (stops s h) = stops s h

-- ===== src/App/Invariant.antt =====
-- The steps of the application, and what holds in every state that they reach.
use tc397tools.Prelude.{
  ℕ, ◌+◌, ◌≤◌, ◌<◌, true, false, Option, none, some, List, [], ◌∷◌, ◌≡◌, refl, sym, subst, arith,
  All, length, Bytes, Bool-cases, inl, inr,
}
use tc397tools.Prelude.Result.{ok}
use tc397tools.Json.{VarEntry}
use tc397tools.Codec.{lower}
use tc397tools.Das.{DapDevice}
use tc397tools.App.State.{
  Env, connect_job, load_job, Task, running, finished, App, is_listed, listed_from, rebuild_filter,
  initial_app,
}
use tc397tools.App.Actions.{Action, act}
use tc397tools.App.Quiet.{Core, core_of, Quiet}

-- Every index of the filter is one of the entries.
abbrev pub InRange : Core → Type 0
InRange core = All (λ i. i < length core.entries) core.filtered

abbrev pub Fresh : Core → Type 0
Fresh core = core.loaded ≡ true → InRange core

-- What holds with no task, during one, and at its end.
abbrev pub Phase : Option Task → Core → Type 0
Phase none core = (core.busy ≡ false) × (core.connected ≡ core.is_open) × Fresh core
Phase (some (running (connect_job cfg))) core =
    (core.busy ≡ true) × (core.connected ≡ false) × Fresh core
Phase (some (running (load_job elf json force_regen))) core =
    (core.busy ≡ true) × (core.connected ≡ core.is_open)
Phase (some (finished [])) core =
    (core.busy ≡ true) × (core.is_open ≡ false → core.connected ≡ false)
Phase (some (finished (c ∷ text))) core =
    (core.busy ≡ true) × (core.connected ≡ core.is_open) × Fresh core

abbrev pub Invariant : App → Type 0
Invariant app = Phase app.task (core_of app) × (length app.log ≤ 500)

-- A state that the program reaches from its start: each step is an action whose outcome is no undefined
-- behaviour, and what is outside may change on its own.
pub data Reach {W : Type 0} (env : Env W) : App → W → Type 0 where
  begin :
      (elf json : Bytes) (devices : List DapDevice) (w : W)
      → Reach env (initial_app elf json devices) w
  next :
      {app : App} {w : W} (a : Action)
      → Reach env app w
      → (act env a app w).0 ≡ ok tt
      → Reach env (act env a app w).1 (act env a app w).2
  outside : {app : App} {w : W} (w' : W) → Reach env app w → Reach env app w'

listed_from-InRange :
    (f : Bytes) (i n : ℕ) (entries : List VarEntry)
    → i + length entries ≤ n
    → All (λ k. k < n) (listed_from f i entries)
unfolding listed_from
listed_from-InRange f i n [] h = tt
listed_from-InRange f i n (e ∷ entries) h =
    let rest : All (λ k. k < n) (listed_from f (i + 1) entries) =
      listed_from-InRange f (i + 1) n entries (omega arith) in
    elim (Bool-cases (is_listed f e)) [
      | inl listed ↦ rw (listed, listed_from) (omega arith, rest)
      | inr hidden ↦ rw (hidden, listed_from) rest
    ]

pub Invariant-Quiet : (app app' : App) → Invariant app → Quiet app app' → Invariant app'
Invariant-Quiet app app' h q =
    (subst (λ (core : Core). Phase core.task core) (sym q.0) h.0, q.1 h.1)

pub idle :
    (t : Option Task) (core : Core)
    → Phase t core
    → core.busy ≡ false
    → (t ≡ none) × Phase none core
idle none core h k = (refl, h)
idle (some (running (connect_job cfg))) core h k = absurd (ground arith)
idle (some (running (load_job elf json force_regen))) core h k = absurd (ground arith)
idle (some (finished [])) core h k = absurd (ground arith)
idle (some (finished (c ∷ text))) core h k = absurd (ground arith)

pub rebuild_filter-InRange : (app : App) → InRange (core_of (rebuild_filter app))
unfolding rebuild_filter
rebuild_filter-InRange app =
    listed_from-InRange (lower app.filter) 0 (length app.index.entries) app.index.entries
      (omega arith)

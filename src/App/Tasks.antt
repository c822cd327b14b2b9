-- ===== src/App/Tasks.antt =====
-- A task and its end keep the invariant.
use tc397tools.Prelude.{
  ℕ, ◌≤◌, Bool, true, false, Option, none, some, [], ◌∷◌, ◌++◌, ◌≡◌, refl, sym, ◌∙◌, subst, arith,
  length, Bytes, bytes_eq, codes, Bool-cases, inl, inr, either,
}
use tc397tools.Prelude.Result.{Result, ok, err, undefined, stuck}
use tc397tools.Das.{DasClient, connected, connect}
use tc397tools.Das.Connection.{is_ok, connect-connected}
use tc397tools.ElfIndex.{ElfIndex, load}
use tc397tools.ElfIndex.Loaded.{load_returns}
use tc397tools.App.State.{
  Env, connect_job, load_job, Task, running, finished, App, add_log, rebuild_filter,
}
use tc397tools.App.Watch.{M, step_into, modify}
use tc397tools.App.Actions.{
  connect_text, load_text, run_job, run_task_of, finish_task, pump_task, pump_async,
}
use tc397tools.App.Quiet.{core_of, Quiet-refl, add_log-Quiet}
use tc397tools.App.Invariant.{Fresh, Phase, Invariant, rebuild_filter-InRange}

abbrev pub Kept : {W : Type 0} → Result (Unit {0}) × App × W → Type 0
Kept done = done.0 ≡ ok tt → Invariant done.1

-- The text of a task is kept.
abbrev pub keep_text : {W : Type 0} → Bytes → M W (Unit {0})
keep_text text = modify (λ (a : App). record a { task = some (finished text) })

module _ {W : Type 0} (env : Env W) where
  connected_job :
      (r : Result (Unit {0})) (client : DasClient) (app : App) (w : W)
      → connected client ≡ is_ok r
      → (app.busy ≡ true) × (app.connected ≡ false) × Fresh (core_of app)
      → length app.log ≤ 500
      → Kept (step_into (connect_text env r) (record app { client = client }) w keep_text)
  unfolding connect_text connected
  connected_job (ok done) client app w c h short = λ k. ((h.0, λ closed. h.1), short)
  connected_job (err e) client app w c h short = λ k. ((h.0, h.1 ∙ sym c, h.2), short)
  connected_job undefined client app w c h short = λ k. absurd (ground arith)
  connected_job stuck client app w c h short = λ k. absurd (ground arith)

  failed_load :
      (text : Bytes) (index : ElfIndex) (app : App)
      → index.loaded ≡ false
      → (app.busy ≡ true) × (app.connected ≡ connected app.client)
      → Phase
          (some (finished text))
          (core_of (record app { index = index; task = some (finished text) }))
  failed_load [] index app k h = (h.0, λ closed. h.1 ∙ closed)
  failed_load (c ∷ text) index app k h = (h.0, h.1, λ l. absurd (ground arith))

  loaded_job :
      (r : Result Bool) (index : ElfIndex) (app : App) (w : W)
      → ((b : Bool) → r ≡ ok b → index.loaded ≡ b)
      → (app.busy ≡ true) × (app.connected ≡ connected app.client)
      → length app.log ≤ 500
      → Kept (step_into (load_text r index) (record app { index = index }) w keep_text)
  unfolding load_text
  loaded_job (ok true) index app w c h short = λ k. ((h.0, λ closed. h.1 ∙ closed), short)
  loaded_job (ok false) index app w c h short =
      λ k. (failed_load index.error index app (c false refl) h, short)
  loaded_job (err e) index app w c h short = λ k. absurd (ground arith)
  loaded_job undefined index app w c h short = λ k. absurd (ground arith)
  loaded_job stuck index app w c h short = λ k. absurd (ground arith)

  pub run_task_of-Invariant :
      (t : Option Task) (app : App) (w : W)
      → app.task ≡ t
      → Invariant app
      → Kept (run_task_of env t app w)
  unfolding run_task_of run_job
  run_task_of-Invariant none app w e h = λ k. h
  run_task_of-Invariant (some (finished text)) app w e h = λ k. h
  run_task_of-Invariant (some (running (connect_job cfg))) app w e h =
      let run = connect env.api cfg app.client w in
      connected_job run.0 run.1 app run.2 (connect-connected env.api cfg app.client w)
        (subst (λ (t : Option Task). Phase t (core_of app)) e h.0) h.1
  run_task_of-Invariant (some (running (load_job elf json force_regen))) app w e h =
      let run = load env.platform env.fuel elf json 8 force_regen app.index w in
      loaded_job run.0 run.1 app run.2
        (load_returns env.platform env.fuel elf json 8 force_regen app.index w)
        (subst (λ (t : Option Task). Phase t (core_of app)) e h.0) h.1

  -- A task that is done without an error.
  done_Invariant :
      (app : App)
      → app.task ≡ some (finished [])
      → (connected app.client ≡ false → app.connected ≡ false)
      → length app.log ≤ 500
      → Invariant (finish_task env [] app)
  unfolding finish_task rebuild_filter add_log bytes_eq
  done_Invariant app e h short =
      let got : App = record app { task = none; busy = false } in
      let logged : App = add_log (app.busy_label ++ codes " done") got in
      let fits : length logged.log ≤ 500 =
        (add_log-Quiet (app.busy_label ++ codes " done") got got (Quiet-refl got)).1 short in
      elim (Bool-cases (connected app.client)) [
        | inl open_ ↦
            rw (open_, finish_task)
              (
                (
                  refl,
                  sym open_,
                  λ l.
                      rebuild_filter-InRange
                        (record logged { connected = true; device_name = app.client.device_name }),
                ),
                fits,
              )
        | inr closed ↦
            rw (closed, finish_task)
              ((refl, h closed ∙ sym closed, λ l. rebuild_filter-InRange logged), fits)
      ]

  -- A task that has failed.
  failed_Invariant :
      (c : ℕ) (text : Bytes) (app : App)
      → app.connected ≡ connected app.client
      → Fresh (core_of app)
      → length app.log ≤ 500
      → Invariant (finish_task env (c ∷ text) app)
  unfolding finish_task add_log bytes_eq
  failed_Invariant c text app h k short =
      let got : App = record app { task = none; busy = false } in
      ((refl, h, k), (add_log-Quiet (codes "ERROR: " ++ c ∷ text) got got (Quiet-refl got)).1 short)

  pump_task-Invariant :
      (t : Option Task) (app : App) → app.task ≡ t → Invariant app → Invariant (pump_task env t app)
  unfolding pump_task
  pump_task-Invariant none app e h = h
  pump_task-Invariant (some (running job)) app e h = h
  pump_task-Invariant (some (finished [])) app e h =
      done_Invariant app e (subst (λ (t : Option Task). Phase t (core_of app)) e h.0).1 h.1
  pump_task-Invariant (some (finished (c ∷ text))) app e h =
      let phase = subst (λ (t : Option Task). Phase t (core_of app)) e h.0 in
      failed_Invariant c text app phase.1 phase.2 h.1

  pub pump_async-Invariant : (app : App) → Invariant app → Invariant (pump_async env app)
  unfolding pump_async
  pump_async-Invariant app h =
      either Invariant app.busy (pump_task env app.task app) app
        (λ busy. pump_task-Invariant app.task app refl h) (λ free. h)

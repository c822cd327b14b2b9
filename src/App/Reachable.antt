-- ===== src/App/Reachable.antt =====
-- What holds in every state that the application reaches.
use tc397tools.Prelude.{
  ℕ, ◌≤◌, ◌<◌, true, false, not, ◌||◌, Option, none, some, ◌≡◌, refl, ◌∙◌, subst, sym, arith,
  length, get_elem?, All-get_elem?, get_elem?-some, Bytes, either,
}
use tc397tools.Prelude.Result.{Result, ok, err, undefined, stuck}
use tc397tools.Das.{connected}
use tc397tools.App.State.{
  Env, Job, connect_job, load_job, Task, running, finished, App, add_log, rebuild_filter,
}
use tc397tools.App.Watch.{step_into}
use tc397tools.App.Actions.{
  press_add, run_task, pump, add_row, press_row, act, run_task_of, run_job, finish_task, pump_task,
  pump_async,
}
use tc397tools.App.Quiet.{core_of}
use tc397tools.App.Invariant.{Reach, Phase, idle}
use tc397tools.App.Steps.{Reach-Invariant}
use tc397tools.App.Tasks.{keep_text}

module _ {W : Type 0} (env : Env W) where
  add_row-ok :
      (row : Option ℕ) (app : App) (w : W)
      → ((i : ℕ) → row ≡ some i → i < length app.index.entries)
      → (add_row env row app w).0 ≡ ok tt
  unfolding add_row
  add_row-ok none app w h = refl
  add_row-ok (some i) app w h =
      let found = get_elem?-some app.index.entries i (h i refl) in rw (found.1, add_row) refl

  -- In every state that the application reaches, the button of any row of the variables adds an entry, or does nothing:
  -- it never reads outside the vectors.
  pub press_add-ok :
      {app : App} {w : W} (row : ℕ) → Reach env app w → (act env (press_add row) app w).0 ≡ ok tt
  unfolding act press_row
  press_add-ok {app} {w} row reached =
      either (λ (done : Result (Unit {0}) × App × W). done.0 ≡ ok tt)
        (app.busy || not app.index.loaded) (ok tt, app, w)
        (add_row env (get_elem? app.filtered row) app w) (λ k. refl)
        λ k.
          let free : app.busy ≡ false = ground arith in
          let loaded : app.index.loaded ≡ true = ground arith in
          let phase = idle app.task (core_of app) (Reach-Invariant env reached).0 free in
          add_row-ok (get_elem? app.filtered row) app w (λ i found.
            All-get_elem? (λ j. j < length app.index.entries) app.filtered row i (phase.1.2 loaded)
              found)

  -- In every state that the application reaches with no task, the flag that the windows show says whether the client
  -- is connected; and the log has never more than 500 lines.
  pub connected_agrees :
      {app : App} {w : W}
      → Reach env app w
      → (app.busy ≡ false → (app.task ≡ none) × (app.connected ≡ connected app.client))
        × (length app.log ≤ 500)
  connected_agrees {app} reached =
      let h = Reach-Invariant env reached in
      ((λ free. let rest = idle app.task (core_of app) h.0 free in (rest.0, rest.1.1)), h.1)

  finish_task-free : (text : Bytes) (app : App) → (finish_task env text app).busy ≡ false
  unfolding finish_task add_log rebuild_filter
  finish_task-free text app = ground arith

  pump_async-free :
      (text : Bytes) (app : App)
      → app.busy ≡ true
      → app.task ≡ some (finished text)
      → (pump_async env app).busy ≡ false
  unfolding pump_async pump_task
  pump_async-free text app h e =
      either (λ (a : App). a.busy ≡ false) app.busy (pump_task env app.task app) app
        (λ k.
          subst (λ (t : Option Task). (pump_task env t app).busy ≡ false) (sym e)
            (finish_task-free text app))
        (λ k. k)

  run_job-busy : (job : Job) (app : App) (w : W) → (run_job env job app w).1.busy ≡ app.busy
  unfolding run_job
  run_job-busy (connect_job cfg) app w = refl
  run_job-busy (load_job elf json force_regen) app w = refl

  finished_pump :
      (r : Result Bytes) (app : App) (w : W)
      → app.busy ≡ true
      → (step_into r app w keep_text).0 ≡ ok tt
      → (pump_async env (step_into r app w keep_text).1).busy ≡ false
  finished_pump (ok text) app w h k =
      pump_async-free text (record app { task = some (finished text) }) h refl
  finished_pump (err e) app w h k = absurd (ground arith)
  finished_pump undefined app w h k = absurd (ground arith)
  finished_pump stuck app w h k = absurd (ground arith)

  task_ends :
      (t : Option Task) (app : App) (w : W)
      → app.task ≡ t
      → Phase t (core_of app)
      → app.busy ≡ true
      → (run_task_of env t app w).0 ≡ ok tt
      → (pump_async env (run_task_of env t app w).1).busy ≡ false
  unfolding run_task_of
  task_ends none app w e h busy k = absurd (ground arith)
  task_ends (some (finished text)) app w e h busy k = pump_async-free text app busy e
  task_ends (some (running job)) app w e h busy k =
      let run = run_job env job app w in
      finished_pump run.0 run.1 run.2 (run_job-busy job app w ∙ busy) k

  -- In every state that the application reaches while it is busy, there is a task to wait for: once the function of the
  -- task has returned a text, the next pump_async ends the wait.
  pub busy_ends :
      {app : App} {w : W}
      → Reach env app w
      → app.busy ≡ true
      → (act env run_task app w).0 ≡ ok tt
      → (act env pump (act env run_task app w).1 (act env run_task app w).2).1.busy ≡ false
  unfolding act
  busy_ends {app} {w} reached busy k =
      task_ends app.task app w refl (Reach-Invariant env reached).0 busy k

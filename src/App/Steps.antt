-- ===== src/App/Steps.antt =====
-- Every action keeps the invariant.
use tc397tools.Prelude.{
  ◌≤◌, Bool, false, not, ◌||◌, Option, none, [], ◌≡◌, refl, sym, ◌∙◌, subst, arith, length, Bytes,
  bytes_eq, codes, if◌then◌else◌, either,
}
use tc397tools.Prelude.Result.{Result, ok}
use tc397tools.Das.{DasClient, connected, disconnect}
use tc397tools.Das.Connection.{disconnect-port, disconnect-ok}
use tc397tools.App.State.{
  Env, connect_job, load_job, Task, App, add_log, rebuild_filter, initial_app,
}
use tc397tools.App.Actions.{
  Action, run_task, pump, poll_due, refresh_devices, choose_none, choose_device, set_config,
  set_paths, press_connect, press_disconnect, press_load, draw_variables, press_add, press_add_expr,
  set_polling, read_once, clear_watch, edit_value, press_write, remove, clear_log, start,
  show_variables, press_disconnect_button, act,
}
use tc397tools.App.Quiet.{core_of, Quiet-refl, add_log-Quiet}
use tc397tools.App.Quiet.{poll_reads-Quiet, add_watch_expr-Quiet}
use tc397tools.App.Rows.{
  press_row-Quiet, poll_due-Quiet, list_devices-Quiet, choose-Quiet, edit-Quiet, write_row-Quiet,
}
use tc397tools.App.Invariant.{
  Phase, Invariant, Reach, begin, next, outside, Invariant-Quiet, idle, rebuild_filter-InRange,
}
use tc397tools.App.Tasks.{Kept, run_task_of-Invariant, pump_async-Invariant}

module _ {W : Type 0} (env : Env W) where
  both_false : (a b : Bool) → (a || b) ≡ false → (a ≡ false) × (b ≡ false)
  both_false a b h = ground arith

  -- A state whose core differs from an idle one in the fields that a task or the filter does not fix.
  idle_step :
      (app app' : App)
      → Invariant app
      → app.busy ≡ false
      → app'.task ≡ app.task
      → (Phase none (core_of app) → Phase none (core_of app'))
      → (length app.log ≤ 500 → length app'.log ≤ 500)
      → Invariant app'
  idle_step app app' h free same step short =
      let rest = idle app.task (core_of app) h.0 free in
      (
        subst (λ (t : Option Task). Phase t (core_of app')) (sym (same ∙ rest.0)) (step rest.1),
        short h.1,
      )

  show_variables-Invariant :
      (text : Bytes) (app : App) → Invariant app → Invariant (show_variables env text app)
  unfolding show_variables rebuild_filter
  show_variables-Invariant text app h =
      let typed : App = record app { filter = text } in
      let drawn : App = if bytes_eq app.last_filter text then typed else rebuild_filter typed in
      either Invariant (app.busy || not app.index.loaded) app drawn (λ k. h)
        λ k.
          either Invariant (bytes_eq app.last_filter text) typed (rebuild_filter typed) (λ same. h)
            λ changed.
              idle_step app (rebuild_filter typed) h
                (both_false app.busy (not app.index.loaded) k).0 refl
                (λ p. (p.0, p.1, λ l. rebuild_filter-InRange typed)) (λ short. short)

  disconnect-closed : (c : DasClient) (w : W) → connected (disconnect env.api c w).1 ≡ false
  unfolding connected
  disconnect-closed c w = rw (disconnect-port env.api c w, connected) refl

  press_disconnect-Invariant :
      (app : App) (w : W)
      → Invariant app
      → app.busy ≡ false
      → Invariant (press_disconnect_button env app w).1
  unfolding press_disconnect_button add_log
  press_disconnect-Invariant app w h free =
      let closed = disconnect env.api app.client w in
      let app' : App = record app {
        client = closed.1;
        connected = false;
        polling = false;
        device_name = [];
      } in
      rw (disconnect-ok env.api app.client w) (
        idle_step app (add_log (codes "Disconnected") app') h free refl
          (λ p. (p.0, sym (disconnect-closed app.client w), p.2))
          (λ short. (add_log-Quiet (codes "Disconnected") app' app' (Quiet-refl app')).1 short))

  press_connect-Invariant :
      (app : App)
      → Invariant app
      → (app.busy ≡ false) × (app.connected ≡ false)
      → Invariant (start (connect_job app.cfg) (codes "Connecting...") app)
  press_connect-Invariant app h free =
      let rest = idle app.task (core_of app) h.0 free.0 in ((refl, free.1, rest.1.2), h.1)

  press_load-Invariant :
      (elf json label : Bytes) (force_regen : Bool) (app : App)
      → Invariant app
      → app.busy ≡ false
      → Invariant (start (load_job elf json force_regen) label app)
  press_load-Invariant elf json label force_regen app h free =
      let rest = idle app.task (core_of app) h.0 free in ((refl, rest.1.1), h.1)

  abbrev KeepsIt : Result (Unit {0}) × App × W → Type 0
  KeepsIt done = Invariant done.1

  pub act-Invariant : (a : Action) (app : App) (w : W) → Invariant app → Kept (act env a app w)
  unfolding act
  act-Invariant run_task app w h = run_task_of-Invariant env app.task app w refl h
  act-Invariant pump app w h = λ k. pump_async-Invariant env app h
  act-Invariant poll_due app w h =
      λ k. Invariant-Quiet app (act env poll_due app w).1 h (poll_due-Quiet env app w)
  act-Invariant refresh_devices app w h =
      λ k. Invariant-Quiet app (act env refresh_devices app w).1 h (list_devices-Quiet env app w)
  act-Invariant choose_none app w h = λ k. h
  act-Invariant (choose_device i) app w h =
      λ k. Invariant-Quiet app (act env (choose_device i) app w).1 h (choose-Quiet env i app)
  act-Invariant (set_config cfg) app w h = λ k. h
  act-Invariant (set_paths elf json) app w h = λ k. h
  act-Invariant press_connect app w h = λ k.
      either KeepsIt (app.busy || app.connected) (ok tt, app, w)
        (ok tt, start (connect_job app.cfg) (codes "Connecting...") app, w) (λ on. h)
        (λ off. press_connect-Invariant app h (both_false app.busy app.connected off))
  act-Invariant press_disconnect app w h = λ k.
      either KeepsIt (app.busy || not app.connected) (ok tt, app, w)
        (press_disconnect_button env app w) (λ off. h)
        (λ on. press_disconnect-Invariant app w h (both_false app.busy (not app.connected) on).0)
  act-Invariant (press_load force_regen) app w h = λ k.
      let label =
        if force_regen then codes "Regenerating index..." else codes "Loading ELF index..." in
      either KeepsIt app.busy (ok tt, app, w)
        (ok tt, start (load_job app.elf_path app.json_path force_regen) label app, w) (λ busy. h)
        (λ free. press_load-Invariant app.elf_path app.json_path label force_regen app h free)
  act-Invariant (draw_variables text) app w h = λ k. show_variables-Invariant text app h
  act-Invariant (press_add row) app w h =
      λ k. Invariant-Quiet app (act env (press_add row) app w).1 h (press_row-Quiet env row app w)
  act-Invariant (press_add_expr expr) app w h = λ k.
      Invariant-Quiet app (act env (press_add_expr expr) app w).1 h
        (add_watch_expr-Quiet env expr app w)
  act-Invariant (set_polling polling) app w h = λ k. h
  act-Invariant read_once app w h =
      λ k. Invariant-Quiet app (act env read_once app w).1 h (poll_reads-Quiet env app w)
  act-Invariant clear_watch app w h = λ k. h
  act-Invariant (edit_value i text) app w h =
      λ k. Invariant-Quiet app (act env (edit_value i text) app w).1 h (edit-Quiet env i text app)
  act-Invariant (press_write i) app w h =
      λ k. Invariant-Quiet app (act env (press_write i) app w).1 h (write_row-Quiet env i app w)
  act-Invariant (remove i) app w h = λ k. h
  act-Invariant clear_log app w h = λ k. (h.0, omega arith)

  pub Reach-Invariant : {app : App} {w : W} → Reach env app w → Invariant app
  unfolding initial_app connected
  Reach-Invariant (begin elf json devices w) = ((refl, refl, λ l. tt), omega arith)
  Reach-Invariant (next {app} {w} a reached fine) =
      act-Invariant a app w (Reach-Invariant reached) fine
  Reach-Invariant (outside w' reached) = Reach-Invariant reached

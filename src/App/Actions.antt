-- ===== src/App/Actions.antt =====
-- What the user does, the tasks, and the end of a task. A step is one of them; the steps come in any order,
-- which allows all that a frame of `main` does. A task is one step: nothing in between is seen.
use tc397tools.Prelude.{
  ℕ, suc, Bool, true, false, not, ◌&&◌, ◌||◌, Option, none, some, [], ◌∷◌, ◌++◌, if◌then◌else◌,
  length, get_elem?, take, drop, Bytes, bytes_eq, codes,
}
use tc397tools.Prelude.Result.{Result, ok, err, undefined, stuck}
use tc397tools.Prelude.Decimal.{to_string}
use tc397tools.Das.{DasConfig, connected, connect, disconnect}
use tc397tools.ElfIndex.{ElfIndex, load}
use tc397tools.Elf.{what}
use tc397tools.App.State.{
  Env, WatchItem, Job, connect_job, load_job, Task, running, finished, App, add_log, rebuild_filter,
}
use tc397tools.App.Watch.{
  M, ◌>>=◌, ◌>>◌, pure, modify, on_client, add_watch_from_entry, add_watch_expr, poll_reads,
  write_item,
}

pub data Action : Type 0 where
  run_task pump poll_due refresh_devices choose_none : Action
  choose_device : ℕ → Action
  set_config : DasConfig → Action
  set_paths : Bytes → Bytes → Action
  press_connect press_disconnect : Action
  press_load : Bool → Action
  draw_variables : Bytes → Action
  press_add : ℕ → Action
  press_add_expr : Bytes → Action
  set_polling : Bool → Action
  read_once clear_watch : Action
  edit_value : ℕ → Bytes → Action
  press_write remove : ℕ → Action
  clear_log : Action

abbrev pub start : Job → Bytes → App → App
start job label app = record app { task = some (running job); busy = true; busy_label = label }

abbrev pub put_item : ℕ → WatchItem → App → App
put_item i it app = record app { watch = take i app.watch ++ it ∷ drop (suc i) app.watch }

-- The text that the function of a connect task returns.
unfoldable pub connect_text : {W : Type 0} → Env W → Result (Unit {0}) → Result Bytes
connect_text env (ok done) = ok []
connect_text env (err e) = ok (codes "connect error: " ++ what env.platform e)
connect_text env undefined = undefined
connect_text env stuck = stuck

-- The text that the function of a load task returns; an exception would leave through `task.get()`.
unfoldable pub load_text : Result Bool → ElfIndex → Result Bytes
load_text (ok loaded) index = ok (if loaded then [] else index.error)
load_text (err e) index = err e
load_text undefined index = undefined
load_text stuck index = stuck

module _ {W : Type 0} (env : Env W) where
  unfoldable pub run_job : Job → M W Bytes
  run_job (connect_job cfg) app w =
      let (result, client, w₁) = connect env.api cfg app.client w in
      (connect_text env result, record app { client = client }, w₁)
  run_job (load_job elf json force_regen) app w =
      let (result, index, w₁) = load env.platform env.fuel elf json 8 force_regen app.index w in
      (load_text result index, record app { index = index }, w₁)

  -- The thread of the task runs.
  unfoldable pub run_task_of : Option Task → M W (Unit {0})
  run_task_of none = pure tt
  run_task_of (some (finished text)) = pure tt
  run_task_of (some (running job)) = do
    text ← run_job job
    modify (λ (a : App). record a { task = some (finished text) })

  -- What pump_async does with the text of a task.
  unfoldable pub finish_task : Bytes → App → App
  finish_task text app =
      let got = record app { task = none; busy = false } in
      let logged = add_log (app.busy_label ++ codes " done") got in
      let refreshed = record logged { connected = true; device_name = app.client.device_name } in
      if bytes_eq text []
      then rebuild_filter (if connected app.client then refreshed else logged)
      else add_log (codes "ERROR: " ++ text) got

  unfoldable pub pump_task : Option Task → App → App
  pump_task none app = app
  pump_task (some (running job)) app = app
  pump_task (some (finished text)) app = finish_task text app

  unfoldable pub pump_async : App → App
  pump_async app = if app.busy then pump_task app.task app else app

  unfoldable pub press_disconnect_button : M W (Unit {0})
  press_disconnect_button = do
    on_client (disconnect env.api)
    modify (λ (a : App).
        add_log (codes "Disconnected")
          (record a { connected = false; polling = false; device_name = [] }))

  unfoldable pub show_variables : Bytes → App → App
  show_variables text app =
      let typed = record app { filter = text } in
      if app.busy || not app.index.loaded
      then app
      else if bytes_eq app.last_filter text
      then typed
      else rebuild_filter typed

  -- The entry of a row that is drawn.
  unfoldable pub add_row : Option ℕ → M W (Unit {0})
  add_row none app w = (ok tt, app, w)
  add_row (some i) app w = elim (get_elem? app.index.entries i) [
    | none ↦ (undefined, app, w)
    | some e ↦ (ok tt, add_watch_from_entry e app, w)
  ]

  unfoldable pub press_row : ℕ → M W (Unit {0})
  press_row row app w =
      if app.busy || not app.index.loaded
      then (ok tt, app, w)
      else add_row (get_elem? app.filtered row) app w

  unfoldable pub list_devices : M W (Unit {0})
  list_devices app w =
      let (found, w₁) = env.devices w in
      (
        ok tt,
        add_log (codes "Found " ++ (to_string (length found) ++ codes " DAP device(s)"))
            (record app { dap_devices = found }),
        w₁,
      )

  unfoldable pub choose : ℕ → App → App
  choose i app = elim (get_elem? app.dap_devices i) [
    | none ↦ app
    | some d ↦ record app { dap_choice = some i; cfg = record app.cfg { dap_serial = d.serial } }
  ]

  unfoldable pub edit : ℕ → Bytes → App → App
  edit i text app = elim (get_elem? app.watch i) [
    | none ↦ app
    | some it ↦ put_item i (record it { edit_buf = text }) app
  ]

  unfoldable pub write_row : ℕ → M W (Unit {0})
  write_row i app w = elim (get_elem? app.watch i) [
    | none ↦ (ok tt, app, w)
    | some it ↦ (write_item env it >>= λ it'. modify (put_item i it')) app w
  ]

  abbrev pub press_connect_button : M W (Unit {0})
  press_connect_button app w =
      if app.busy || app.connected
      then (ok tt, app, w)
      else (ok tt, start (connect_job app.cfg) (codes "Connecting...") app, w)

  abbrev pub press_load_button : Bool → M W (Unit {0})
  press_load_button force_regen app w =
      let label =
        if force_regen then codes "Regenerating index..." else codes "Loading ELF index..." in
      if app.busy
      then (ok tt, app, w)
      else (ok tt, start (load_job app.elf_path app.json_path force_regen) label app, w)

  -- The polling of `main`, at a time when it is due.
  abbrev pub poll_if_due : M W (Unit {0})
  poll_if_due app w =
      let polled = poll_reads env app w in
      if app.polling && (app.connected && not app.busy) then polled else (ok tt, app, w)

  unfoldable pub act : Action → M W (Unit {0})
  act run_task app w = run_task_of app.task app w
  act pump app w = (ok tt, pump_async app, w)
  act poll_due app w = poll_if_due app w
  act refresh_devices app w = list_devices app w
  act choose_none app w =
      (ok tt, record app { dap_choice = none; cfg = record app.cfg { dap_serial = [] } }, w)
  act (choose_device i) app w = (ok tt, choose i app, w)
  act (set_config cfg) app w = (ok tt, record app { cfg = cfg }, w)
  act (set_paths elf json) app w = (ok tt, record app { elf_path = elf; json_path = json }, w)
  act press_connect app w = press_connect_button app w
  act press_disconnect app w =
      let done = press_disconnect_button app w in
      if app.busy || not app.connected then (ok tt, app, w) else done
  act (press_load force_regen) app w = press_load_button force_regen app w
  act (draw_variables text) app w = (ok tt, show_variables text app, w)
  act (press_add row) app w = press_row row app w
  act (press_add_expr expr) app w = add_watch_expr env expr app w
  act (set_polling polling) app w = (ok tt, record app { polling = polling }, w)
  act read_once app w = poll_reads env app w
  act clear_watch app w = (ok tt, record app { watch = [] }, w)
  act (edit_value i text) app w = (ok tt, edit i text app, w)
  act (press_write i) app w = write_row i app w
  act (remove i) app w =
      (ok tt, record app { watch = take i app.watch ++ drop (suc i) app.watch }, w)
  act clear_log app w = (ok tt, record app { log = [] }, w)

  -- The end of `main`.
  unfoldable pub close_window : M W (Unit {0})
  close_window app w =
      let closed = on_client (disconnect env.api) app w in
      if connected app.client then closed else (ok tt, app, w)

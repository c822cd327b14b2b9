-- ===== src/App/Rows.antt =====
-- The actions on rows and lists, which keep the core.
use tc397tools.Prelude.{
  ℕ, not, ◌||◌, ◌&&◌, Option, none, some, refl, get_elem?, if◌then◌else◌, Bytes, inl, inr,
  Option-cases,
}
use tc397tools.Prelude.Result.{ok}
use tc397tools.App.State.{Env, App}
use tc397tools.App.Watch.{modify, add_watch_from_entry, write_item, poll_reads}
use tc397tools.App.Actions.{put_item, add_row, press_row, list_devices, choose, edit, write_row}
use tc397tools.App.Quiet.{
  Quiet, Quiet-refl, either-Quiet, add_log-Quiet, step_into-Quiet, write_item-Quiet,
  poll_reads-Quiet,
}

module _ {W : Type 0} (env : Env W) where
  add_row-Quiet : (row : Option ℕ) (app : App) (w : W) → Quiet app (add_row env row app w).1
  unfolding add_row add_watch_from_entry
  add_row-Quiet none app w = Quiet-refl app
  add_row-Quiet (some i) app w = elim (Option-cases (get_elem? app.index.entries i)) [
    | inl missing ↦ simp (missing, add_row) (Quiet-refl app)
    | inr (e, found) ↦ simp (found, add_row) (refl, λ h. h)
  ]

  pub press_row-Quiet : (row : ℕ) (app : App) (w : W) → Quiet app (press_row env row app w).1
  unfolding press_row
  press_row-Quiet row app w =
      either-Quiet (app.busy || not app.index.loaded) app (ok tt, app, w)
        (add_row env (get_elem? app.filtered row) app w) (Quiet-refl app)
        (add_row-Quiet (get_elem? app.filtered row) app w)

  pub poll_due-Quiet :
      (app : App) (w : W)
      → Quiet app
          (if app.polling && (app.connected && not app.busy)
            then poll_reads env app w
            else (ok tt, app, w)).1
  poll_due-Quiet app w =
      either-Quiet (app.polling && (app.connected && not app.busy)) app (poll_reads env app w)
        (ok tt, app, w) (poll_reads-Quiet env app w) (Quiet-refl app)

  pub list_devices-Quiet : (app : App) (w : W) → Quiet app (list_devices env app w).1
  unfolding list_devices
  list_devices-Quiet app w =
      add_log-Quiet _ app (record app { dap_devices = (env.devices w).0 }) (refl, λ h. h)

  pub choose-Quiet : (i : ℕ) (app : App) → Quiet app (choose env i app)
  unfolding choose
  choose-Quiet i app = elim (Option-cases (get_elem? app.dap_devices i)) [
    | inl missing ↦ rw (missing, choose) (Quiet-refl app)
    | inr (d, found) ↦ rw (found, choose) (refl, λ h. h)
  ]

  pub edit-Quiet : (i : ℕ) (text : Bytes) (app : App) → Quiet app (edit env i text app)
  unfolding edit
  edit-Quiet i text app = elim (Option-cases (get_elem? app.watch i)) [
    | inl missing ↦ rw (missing, edit) (Quiet-refl app)
    | inr (it, found) ↦ rw (found, edit) (refl, λ h. h)
  ]

  pub write_row-Quiet : (i : ℕ) (app : App) (w : W) → Quiet app (write_row env i app w).1
  unfolding write_row
  write_row-Quiet i app w = elim (Option-cases (get_elem? app.watch i)) [
    | inl missing ↦ rw (missing, write_row) (Quiet-refl app)
    | inr (it, found) ↦
        let run = write_item env it app w in
        let there : Quiet app run.1 = write_item-Quiet env it app w in
        rw (found, write_row)
          (step_into-Quiet {B = Unit {0}} run.0 app run.1 run.2 (λ it'. modify (put_item i it'))
            there (λ it'. there))
  ]

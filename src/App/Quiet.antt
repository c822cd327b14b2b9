-- ===== src/App/Quiet.antt =====
-- What most operations leave as it was: the part of the application that its invariant is about.
use tc397tools.Prelude.{
  ℕ, ◌%◌, ◌^◌, ◌≤◌, Bool, true, false, not, ◌||◌, Option, List, [], ◌∷◌, ◌++◌, ◌==◌, ◌≡◌, refl, ap,
  ◌∙◌, arith, length, length-append, length-drop, ltb, if◌then◌else◌, Bytes, bytes_eq, codes,
  Bool-cases, inl, inr, Option-cases,
}
use tc397tools.Prelude.Result.{Result, ok, err, undefined, stuck}
use tc397tools.Json.{VarEntry}
use tc397tools.Codec.{encode_value}
use tc397tools.Das.{connected, read, write}
use tc397tools.Das as Das
use tc397tools.Das.Keeps.{read-keeps, write-keeps}
use tc397tools.ElfIndex as ElfIndex
use tc397tools.ElfIndex.{VarRef}
use tc397tools.ElfIndex.Loaded.{resolve-keeps}
use tc397tools.App.State.{Env, WatchItem, Task, App, cut_log, add_log}
use tc397tools.App.Watch.{
  M, step_into, on_client, modify, add_watch_from_entry, exact_matches, full_match, add_resolved,
  add_exact, add_watch_expr, shown, poll_item, poll_items, poll_reads, transfer, log_failure,
  write_item, read_item, added, add_ref,
}

pub record Core : Type 0 where
  pub busy : Bool
  pub task : Option Task
  pub connected : Bool
  pub is_open : Bool
  pub entries : List VarEntry
  pub loaded : Bool
  pub filtered : List ℕ

abbrev pub core_of : App → Core
core_of app = record {
  busy = app.busy;
  task = app.task;
  connected = app.connected;
  is_open = connected app.client;
  entries = app.index.entries;
  loaded = app.index.loaded;
  filtered = app.filtered;
}

-- The core is kept, and the log stays within its bound.
abbrev pub Quiet : App → App → Type 0
Quiet app app' = (core_of app' ≡ core_of app) × (length app.log ≤ 500 → length app'.log ≤ 500)

pub Quiet-refl : (app : App) → Quiet app app
Quiet-refl app = (refl, λ h. h)

pub Quiet-trans : (app app' app'' : App) → Quiet app app' → Quiet app' app'' → Quiet app app''
Quiet-trans app app' app'' q r = (r.0 ∙ q.0, λ h. r.1 (q.1 h))

length-cut_log : (log : List Bytes) → length log ≤ 501 → length (cut_log log) ≤ 500
unfolding cut_log
length-cut_log log h = elim (Bool-cases (ltb 500 (length log))) [
  | inl long ↦ rw (long, cut_log, length-drop 100 log) (omega arith)
  | inr short ↦ rw (short, cut_log) (ground arith)
]

pub add_log-Quiet : (line : Bytes) (app app' : App) → Quiet app app' → Quiet app (add_log line app')
unfolding add_log
add_log-Quiet line app app' q = (
  q.0,
  λ h.
      length-cut_log (app'.log ++ line ∷ [])
        (omega (arith, q.1 h, length-append app'.log (line ∷ []))),
)

-- A quiet step, and quiet steps behind it.
pub step_into-Quiet :
    {W A B : Type 0} (r : Result A) (app app' : App) (w : W) (next : A → M W B)
    → Quiet app app'
    → ((a : A) → Quiet app (next a app' w).1)
    → Quiet app (step_into r app' w next).1
step_into-Quiet (ok a) app app' w next q k = k a
step_into-Quiet (err e) app app' w next q k = q
step_into-Quiet undefined app app' w next q k = q
step_into-Quiet stuck app app' w next q k = q

pub either-Quiet :
    {W A : Type 0} (b : Bool) (app : App) (first second : Result A × App × W)
    → Quiet app first.1
    → Quiet app second.1
    → Quiet app (if b then first else second).1
either-Quiet true app first second q r = q
either-Quiet false app first second q r = r

module _ {W : Type 0} (env : Env W) where
  read_item-Quiet :
      (it : WatchItem) (app app' : App) (w : W)
      → Quiet app app'
      → Quiet app (read_item env it app' w).1
  read_item-Quiet it app app' w q = Quiet-trans app app' (read_item env it app' w).1 q (
    ap (λ (c : Das.DasClient). core_of (record app' { client = c }))
        (read-keeps env.api (it.address % 2 ^ 32) it.byte_size app'.client w),
    λ h. h,
  )

  poll_item-Quiet :
      (it : WatchItem) (app app' : App) (w : W)
      → Quiet app app'
      → Quiet app (poll_item env it app' w).1
  unfolding poll_item
  poll_item-Quiet it app app' w q =
      either-Quiet (it.byte_size == 0) app
        (ok (record it { error = codes "unknown size" }), app', w)
        (
          shown env it (read_item env it app' w).0,
          (read_item env it app' w).1,
          (read_item env it app' w).2,
        )
        q (read_item-Quiet it app app' w q)

  poll_items-Quiet :
      (items : List WatchItem) (app app' : App) (w : W)
      → Quiet app app'
      → Quiet app (poll_items env items app' w).1
  unfolding poll_items
  poll_items-Quiet [] app app' w q = q
  poll_items-Quiet (it ∷ items) app app' w q =
      let first = poll_item env it app' w in
      let here : Quiet app first.1 = poll_item-Quiet it app app' w q in
      step_into-Quiet {B = List WatchItem} first.0 app first.1 first.2 _ here λ it'.
        let rest = poll_items env items first.1 first.2 in
        let there : Quiet app rest.1 = poll_items-Quiet items app first.1 first.2 here in
        step_into-Quiet {B = List WatchItem} rest.0 app rest.1 rest.2 _ there (λ items'. there)

  pub poll_reads-Quiet : (app : App) (w : W) → Quiet app (poll_reads env app w).1
  unfolding poll_reads
  poll_reads-Quiet app w =
      let rest = poll_items env app.watch app w in
      let there : Quiet app rest.1 = poll_items-Quiet app.watch app app w (Quiet-refl app) in
      let done =
        step_into {B = Unit {0}} rest.0 rest.1 rest.2
          (λ items. modify (λ (a : App). record a { watch = items })) in
      either-Quiet app.connected app done (ok tt, app, w)
        (step_into-Quiet rest.0 app rest.1 rest.2 _ there (λ items. there)) (Quiet-refl app)

  write_bytes-Quiet :
      (address : ℕ) (bytes : Bytes) (app app' : App) (w : W)
      → Quiet app app'
      → Quiet app (on_client (write env.api address bytes) app' w).1
  write_bytes-Quiet address bytes app app' w q =
      Quiet-trans app app' (on_client (write env.api address bytes) app' w).1 q (
        ap (λ (c : Das.DasClient). core_of (record app' { client = c }))
            (write-keeps env.api address bytes app'.client w),
        λ h. h,
      )

  transfer-Quiet : (it : WatchItem) (app : App) (w : W) → Quiet app (transfer env it app w).1
  unfolding transfer
  transfer-Quiet it app w =
      let line = codes "Wrote " ++ (it.expression ++ (codes " = " ++ it.edit_buf)) in
      step_into-Quiet {B = Bytes} (encode_value env.floats it.edit_buf it.type_name it.byte_size)
        app app w _ (Quiet-refl app)
        λ bytes.
          let sent = on_client (write env.api (it.address % 2 ^ 32) bytes) app w in
          let here : Quiet app sent.1 =
            write_bytes-Quiet (it.address % 2 ^ 32) bytes app app w (Quiet-refl app) in
          step_into-Quiet {B = Bytes} sent.0 app sent.1 sent.2 _ here λ done.
            read_item-Quiet it app (add_log line sent.1) sent.2 (add_log-Quiet line app sent.1 here)

  log_failure-Quiet :
      (it : WatchItem) (r : Result Bytes) (app app' : App)
      → Quiet app app'
      → Quiet app (log_failure env it r app')
  unfolding log_failure
  log_failure-Quiet it (ok bytes) app app' q = q
  log_failure-Quiet it (err e) app app' q = add_log-Quiet _ app app' q
  log_failure-Quiet it undefined app app' q = q
  log_failure-Quiet it stuck app app' q = q

  pub write_item-Quiet :
      (it : WatchItem) (app : App) (w : W) → Quiet app (write_item env it app w).1
  unfolding write_item
  write_item-Quiet it app w =
      let run = transfer env it app w in
      let done : Result WatchItem × App × W =
        (shown env it run.0, log_failure env it run.0 run.1, run.2) in
      let loose : Result WatchItem × App × W =
        (if not app.connected
          then (ok (record it { error = codes "not connected" }), app, w)
          else done) in
      either-Quiet app.busy app (ok it, app, w) loose (Quiet-refl app)
        (either-Quiet (not app.connected) app
          (ok (record it { error = codes "not connected" }), app, w) done (Quiet-refl app)
          (log_failure-Quiet it run.0 app run.1 (transfer-Quiet it app w)))

  add_ref-Quiet :
      (expr : Bytes) (ref : VarRef) (app app' : App)
      → Quiet app app'
      → Quiet app (add_ref expr ref app')
  add_ref-Quiet expr ref app app' q = elim (Bool-cases ref.is_ok) [
    | inl fine ↦ rw fine (add_log-Quiet _ app (record app' { watch = _ }) q)
    | inr wrong ↦ rw wrong (add_log-Quiet _ app app' q)
  ]

  add_resolved-Quiet :
      (expr : Bytes) (app : App) (w : W) → Quiet app (add_resolved env expr app w).1
  unfolding add_resolved
  add_resolved-Quiet expr app w =
      let answer = ElfIndex.resolve env.platform env.fuel expr app.index in
      let kept = resolve-keeps env.platform env.fuel expr app.index in
      let app' : App = record app { index = answer.1 } in
      let here : Quiet app app' = (rw (kept.0, kept.1) refl, λ h. h) in
      step_into-Quiet {B = Unit {0}} answer.0 app app' w (λ ref. modify (add_ref expr ref)) here
        (λ ref. add_ref-Quiet expr ref app app' here)

  added-Quiet : (e : VarEntry) (app : App) → Quiet app (added e app)
  unfolding add_watch_from_entry
  added-Quiet e app = add_log-Quiet _ app (add_watch_from_entry e app) (refl, λ h. h)

  add_exact-Quiet :
      (expr : Bytes) (exact : List VarEntry) (app : App) (w : W)
      → Quiet app (add_exact env expr exact app w).1
  unfolding add_exact
  add_exact-Quiet expr [] app w = add_resolved-Quiet expr app w
  add_exact-Quiet expr (e ∷ []) app w = added-Quiet e app
  add_exact-Quiet expr (e ∷ f ∷ exact) app w =
      elim (Option-cases (full_match expr (e ∷ f ∷ exact))) [
        | inl unclear ↦ rw (unclear, add_exact) (add_log-Quiet _ app app (Quiet-refl app))
        | inr (found, h) ↦ rw (h, add_exact) (added-Quiet found app)
      ]

  pub add_watch_expr-Quiet :
      (expr : Bytes) (app : App) (w : W) → Quiet app (add_watch_expr env expr app w).1
  unfolding add_watch_expr
  add_watch_expr-Quiet expr app w =
      either-Quiet (bytes_eq expr [] || app.busy) app (ok tt, app, w)
        (add_exact env expr (exact_matches expr app.index.entries) app w) (Quiet-refl app)
        (add_exact-Quiet expr (exact_matches expr app.index.entries) app w)

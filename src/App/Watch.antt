-- ===== src/App/Watch.antt =====
-- The watch list: what is added to it, polled and written.
use tc397tools.Prelude.{
  ℕ, ◌%◌, ◌^◌, Bool, true, false, not, ◌||◌, Option, none, some, List, [], ◌∷◌, ◌++◌, ◌==◌,
  if◌then◌else◌, length, Bytes, bytes_eq, codes,
}
use tc397tools.Prelude.Result.{Result, ok, err, undefined, stuck}
use tc397tools.Prelude.Decimal.{to_string}
use tc397tools.Json.{Sign, sign_unknown, sign_no, sign_yes, VarEntry}
use tc397tools.Codec.{decode_value, encode_value, to_hex}
use tc397tools.Das.{DasClient, read, write}
use tc397tools.Das as Das
use tc397tools.Elf.{what}
use tc397tools.ElfIndex.{VarRef}
use tc397tools.ElfIndex as ElfIndex
use tc397tools.App.State.{Env, WatchItem, App, add_log}

-- What may throw and changes the application and what is outside.
abbrev pub M : Type 0 → Type 0 → Type 0
M W A = App → W → Result A × App × W

abbrev pub step_into : {W A B : Type 0} → Result A → App → W → (A → M W B) → Result B × App × W
step_into (ok a) app w f = f a app w
step_into (err e) app w f = (err e, app, w)
step_into undefined app w f = (undefined, app, w)
step_into stuck app w f = (stuck, app, w)

infixl 5 ◌>>=◌ ◌>>◌
abbrev pub ◌>>=◌ : {W A B : Type 0} → M W A → (A → M W B) → M W B
◌>>=◌ m f app w = step_into (m app w).0 (m app w).1 (m app w).2 f

abbrev pub ◌>>◌ : {W B : Type 0} → M W (Unit {0}) → M W B → M W B
◌>>◌ first second = first >>= λ done. second

abbrev pub pure : {W A : Type 0} → A → M W A
pure a app w = (ok a, app, w)

abbrev pub lift : {W A : Type 0} → Result A → M W A
lift result app w = (result, app, w)

abbrev pub modify : {W : Type 0} → (App → App) → M W (Unit {0})
modify f app w = (ok tt, f app, w)

-- An operation of the client.
abbrev pub on_client : {W A : Type 0} → Das.M W A → M W A
on_client m app w =
    ((m app.client w).0, record app { client = (m app.client w).1 }, (m app.client w).2)

abbrev pub new_item : Bytes → ℕ → ℕ → Bytes → Sign → WatchItem
new_item expression address byte_size type_name is_signed = record {
  expression = expression;
  address = address;
  byte_size = byte_size;
  type_name = type_name;
  is_signed = is_signed;
  value = [];
  hex = [];
  error = [];
  edit_buf = [];
}

abbrev pub push_item : WatchItem → App → App
push_item item app = record app { watch = app.watch ++ item ∷ [] }

unfoldable pub add_watch_from_entry : VarEntry → App → App
add_watch_from_entry e app =
    push_item (new_item e.expression e.address e.byte_size e.type_name e.is_signed) app

-- The entries of the full expression or the leaf member.
unfoldable pub exact_matches : Bytes → List VarEntry → List VarEntry
exact_matches expr [] = []
exact_matches expr (e ∷ entries) =
    let rest = exact_matches expr entries in
    if bytes_eq e.expression expr || bytes_eq e.member_name expr then e ∷ rest else rest

unfoldable pub full_match : Bytes → List VarEntry → Option VarEntry
full_match expr [] = none
full_match expr (e ∷ entries) =
    let rest = full_match expr entries in if bytes_eq e.expression expr then some e else rest

abbrev pub added : VarEntry → App → App
added e app = add_log (codes "Added " ++ e.expression) (add_watch_from_entry e app)

-- The dash of the text has three bytes.
abbrev pub ambiguous : Bytes → ℕ → Bytes
ambiguous expr n =
    codes "Ambiguous leaf '"
    ++ (expr
        ++ (codes "' ("
            ++ (to_string n
                ++ (codes " matches) " ++ (226 ∷ 128 ∷ 148 ∷ codes " use a full path")))))

abbrev pub add_ref : Bytes → VarRef → App → App
add_ref expr ref app =
    if ref.is_ok
    then add_log (codes "Resolved & added " ++ ref.expression) (
        push_item (new_item ref.expression ref.address ref.byte_size ref.type_name ref.is_signed)
          app)
    else add_log (codes "Resolve failed for '" ++ (expr ++ (codes "': " ++ ref.error))) app

unfoldable pub is_yes : Sign → Bool
is_yes sign_unknown = false
is_yes sign_no = false
is_yes sign_yes = true

module _ {W : Type 0} (env : Env W) where
  -- Behind the search in the index: the live resolve.
  unfoldable pub add_resolved : Bytes → M W (Unit {0})
  add_resolved expr app w =
      let (answer, index) = ElfIndex.resolve env.platform env.fuel expr app.index in
      (lift answer >>= λ ref. modify (add_ref expr ref)) (record app { index = index }) w

  unfoldable pub add_exact : Bytes → List VarEntry → M W (Unit {0})
  add_exact expr [] = add_resolved expr
  add_exact expr (e ∷ []) = modify (added e)
  add_exact expr (e ∷ f ∷ exact) = elim (full_match expr (e ∷ f ∷ exact)) [
    | none ↦ modify (add_log (ambiguous expr (length (e ∷ f ∷ exact))))
    | some found ↦ modify (added found)
  ]

  unfoldable pub add_watch_expr : Bytes → M W (Unit {0})
  add_watch_expr expr app w =
      if bytes_eq expr [] || app.busy
      then (ok tt, app, w)
      else add_exact expr (exact_matches expr app.index.entries) app w

  -- What a `try` block whose last step is a read leaves in the item, the `catch` included.
  unfoldable pub shown : WatchItem → Result Bytes → Result WatchItem
  shown it (ok bytes) = ok (record it {
    hex = to_hex bytes;
    value = decode_value env.floats bytes it.type_name (is_yes it.is_signed);
    error = [];
  })
  shown it (err e) = ok (record it { error = what env.platform e })
  shown it undefined = undefined
  shown it stuck = stuck

  abbrev pub read_item : WatchItem → M W Bytes
  read_item it = on_client (read env.api (it.address % 2 ^ 32) it.byte_size)

  -- A round of the loop of poll_reads.
  unfoldable pub poll_item : WatchItem → M W WatchItem
  poll_item it app w =
      let (result, app₁, w₁) = read_item it app w in
      if it.byte_size == 0
      then (ok (record it { error = codes "unknown size" }), app, w)
      else (shown it result, app₁, w₁)

  unfoldable pub poll_items : List WatchItem → M W (List WatchItem)
  poll_items [] = pure []
  poll_items (it ∷ items) = do it' ← poll_item it; items' ← poll_items items; pure (it' ∷ items')

  unfoldable pub poll_reads : M W (Unit {0})
  poll_reads app w =
      let (result, app₁, w₁) =
        (do items ← poll_items app.watch; modify (λ (a : App). record a { watch = items })) app w in
      if app.connected then (result, app₁, w₁) else (ok tt, app, w)

  -- The `try` block of write_item, up to the data that is read back.
  unfoldable pub transfer : WatchItem → M W Bytes
  transfer it = do
    bytes ← lift (encode_value env.floats it.edit_buf it.type_name it.byte_size)
    on_client (write env.api (it.address % 2 ^ 32) bytes)
    modify (add_log (codes "Wrote " ++ (it.expression ++ (codes " = " ++ it.edit_buf))))
    read_item it

  -- The line that the `catch` logs.
  unfoldable pub log_failure : WatchItem → Result Bytes → App → App
  log_failure it (ok bytes) app = app
  log_failure it (err e) app =
      add_log (codes "Write failed " ++ (it.expression ++ (codes ": " ++ what env.platform e))) app
  log_failure it undefined app = app
  log_failure it stuck app = app

  unfoldable pub write_item : WatchItem → M W WatchItem
  write_item it app w =
      let (result, app₁, w₁) = transfer it app w in
      if app.busy
      then (ok it, app, w)
      else if not app.connected
      then (ok (record it { error = codes "not connected" }), app, w)
      else (shown it result, log_failure it result app₁, w₁)

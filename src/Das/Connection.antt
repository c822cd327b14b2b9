-- ===== src/Das/Connection.antt =====
-- When a client is connected: the port that connect and disconnect leave.
use Prim.Native.String.{String}
use tc397tools.Prelude.{
  some, ◌%◌, ◌^◌, ap, ◌∙◌, ℕ, zero, suc, Bool, true, false, none, List, ◌≡◌, refl, arith, ◌==◌, leb,
  get_elem?, Bool-cases, inl, inr, Option-cases,
}
use tc397tools.Prelude.Result.{Result, ok, err, undefined, stuck}
use tc397tools.Das.State.{DasConfig, DasClient, connected, DasApi, M, ◌>>◌, step_into}
use tc397tools.Das.Connect.{
  disconnect, check_error, check_or_disconnect, server_ready, wait_server, server_program,
  ensure_server, ensure_api, load_api, select_port, open_device, open_selected, connect_server,
  connect,
}

abbrev pub is_ok : {A : Type 0} → Result A → Bool
is_ok (ok value) = true
is_ok (err thrown) = false
is_ok undefined = false
is_ok stuck = false

-- A step that leaves the client without a port, and what follows it.
step_into-connected :
    {W A B : Type 0} (r : Result A) (c : DasClient) (w : W) (next : A → M W B)
    → c.port ≡ none
    → ((a : A) → connected (next a c w).1 ≡ is_ok (next a c w).0)
    → connected (step_into r c w next).1 ≡ is_ok (step_into r c w next).0
unfolding connected
step_into-connected (ok a) c w next h k = k a
step_into-connected (err e) c w next h k = rw h refl
step_into-connected undefined c w next h k = rw h refl
step_into-connected stuck c w next h k = rw h refl

module _ {W : Type 0} (api : DasApi W) where
  server_ready-keeps :
      (cfg : DasConfig) (c : DasClient) (w : W)
      → (r : Bool) × (w' : W) × (server_ready api cfg c w ≡ (ok r, c, w'))
  unfolding server_ready
  server_ready-keeps cfg c w = (_, _, refl)

  wait_server-keeps :
      (cfg : DasConfig) (n : ℕ) (c : DasClient) (w : W) → (wait_server api cfg n c w).1 ≡ c
  unfolding wait_server server_ready
  wait_server-keeps cfg zero c w = refl
  wait_server-keeps cfg (suc n) c w =
      ground (arith, wait_server-keeps cfg n c (api.get_das_servers cfg.host w).1)

  ensure_server-keeps :
      (cfg : DasConfig) (c : DasClient) (w : W) → (ensure_server api cfg c w).1 ≡ c
  unfolding ensure_server server_ready
  ensure_server-keeps cfg c w =
      let w₁ : W = (api.get_das_servers cfg.host w).1 in
      ground (arith, wait_server-keeps cfg 25 c (api.spawn_server (server_program api cfg w₁) w₁).1)

  ensure_api-keeps : (c : DasClient) (w : W) → ((ensure_api api c w).1).port ≡ c.port
  unfolding ensure_api load_api
  ensure_api-keeps c w = ground arith

  select_port-keeps : (cfg : DasConfig) (c : DasClient) (w : W) → (select_port api cfg c w).1 ≡ c
  unfolding select_port
  select_port-keeps cfg c w = ground arith

  pub disconnect-port : (c : DasClient) (w : W) → ((disconnect api c w).1).port ≡ none
  unfolding disconnect
  disconnect-port c w = ground arith

  pub disconnect-ok : (c : DasClient) (w : W) → (disconnect api c w).0 ≡ ok tt
  unfolding disconnect
  disconnect-ok c w = ground arith

  check_error-connected :
      (what : String) (e : ℕ) (c : DasClient) (w : W) (next : M W (Unit {0}))
      → c.port ≡ none
      → connected (next c w).1 ≡ is_ok (next c w).0
      → connected ((check_error api what e >> next) c w).1
        ≡ is_ok ((check_error api what e >> next) c w).0
  unfolding connected
  check_error-connected what e c w next h k = elim (Bool-cases (e == 0)) [
    | inl fine ↦ rw fine k
    | inr wrong ↦ rw wrong (rw h refl)
  ]

  check_or_disconnect-connected :
      (what : String) (e : ℕ) (c : DasClient) (w : W) (next : M W (Unit {0}))
      → connected (next c w).1 ≡ is_ok (next c w).0
      → connected ((check_or_disconnect api what e >> next) c w).1
        ≡ is_ok ((check_or_disconnect api what e >> next) c w).0
  unfolding connected
  check_or_disconnect-connected what e c w next k = elim (Bool-cases (e == 0)) [
    | inl fine ↦ rw fine k
    | inr wrong ↦ rw wrong (rw (disconnect-ok c w) (rw (disconnect-port c w, connected) refl))
  ]

  open_device-connected :
      (cfg : DasConfig) (sel : ℕ) (c : DasClient) (w : W)
      → c.port ≡ none
      → connected (open_device api cfg sel c w).1 ≡ is_ok (open_device api cfg sel c w).0
  unfolding open_device connected
  open_device-connected cfg sel c w h = elim (Option-cases (api.open_port cfg.server_index w).0.1) [
    | inl closed ↦ simp (closed, h) refl
    | inr (port, opened) ↦
        let c₁ : DasClient = record c { port = some port } in
        let w₁ : W = (api.open_port cfg.server_index w).1 in
        let mapped = api.map_port port cfg.port_type sel w₁ in
        let found = api.connect_to_device port (cfg.device_sel % 2 ^ 8) mapped.1 in
        let ready = api.init_device port found.1 in
        rw (opened, open_device)
          (check_error-connected "open_port failed: " (api.open_port cfg.server_index w).0.0 c w₁ _
            h
            (check_or_disconnect-connected "map_port failed: " mapped.0 c₁ mapped.1 _ (
              check_or_disconnect-connected "connect_to_device failed: " found.0.0 c₁ found.1 _
                (check_or_disconnect-connected "init_device failed: " ready.0 c₁ ready.1 _ refl))))
  ]

  select-connected :
      (cfg : DasConfig) (ports : List ℕ) (c : DasClient) (w : W) (sel : ℕ)
      → c.port ≡ none
      → connected (open_selected api cfg ports sel c w).1
        ≡ is_ok (open_selected api cfg ports sel c w).0
  unfolding connected open_selected
  select-connected cfg ports c w sel h = elim (Option-cases (get_elem? ports cfg.port_type)) [
    | inl no_entry ↦ rw (no_entry, open_selected) (rw h refl)
    | inr (n, found) ↦ elim (Bool-cases (leb n sel)) [
      | inl beyond ↦ rw (found, open_selected) (rw beyond (rw h refl))
      | inr within ↦ rw (found, open_selected) (rw within (open_device-connected cfg sel c w h))
    ]
  ]

  connect_server-connected :
      (cfg : DasConfig) (servers : List (List ℕ)) (c : DasClient) (w : W)
      → c.port ≡ none
      → connected (connect_server api cfg servers c w).1
        ≡ is_ok (connect_server api cfg servers c w).0
  unfolding connect_server connected
  connect_server-connected cfg servers c w h =
      elim (Option-cases (get_elem? servers cfg.server_index)) [
        | inl beyond ↦ rw (beyond, connect_server) (rw h refl)
        | inr (ports, found) ↦
            rw (found, connect_server)
              (step_into-connected (select_port api cfg c w).0 (select_port api cfg c w).1
                (select_port api cfg c w).2 _ (rw (select_port-keeps cfg c w) h)
                (λ sel. select-connected cfg ports _ _ sel (rw (select_port-keeps cfg c w) h)))
      ]

  -- After connect, whatever the client was and whatever the outside answers, the client is connected
  -- exactly where connect has returned normally.
  pub connect-connected :
      (cfg : DasConfig) (c : DasClient) (w : W)
      → connected (connect api cfg c w).1 ≡ is_ok (connect api cfg c w).0
  unfolding connect
  connect-connected cfg c w =
      let first = disconnect api c w in
      let second = ensure_api api first.1 first.2 in
      let third = ensure_server api cfg second.1 second.2 in
      let listed = api.get_das_servers cfg.host third.2 in
      let closed₁ : (first.1).port ≡ none = disconnect-port c w in
      let closed₂ : (second.1).port ≡ none = ensure_api-keeps first.1 first.2 ∙ closed₁ in
      let closed₃ : (third.1).port ≡ none =
        ap (λ (d : DasClient). d.port) (ensure_server-keeps cfg second.1 second.2) ∙ closed₂ in
      step_into-connected first.0 first.1 first.2 _ closed₁ (λ done.
        step_into-connected second.0 second.1 second.2 _ closed₂ (λ done'.
          step_into-connected third.0 third.1 third.2 _ closed₃ (λ done''.
            check_error-connected "get_das_servers failed: " listed.0.0 third.1 listed.1
              (connect_server api cfg listed.0.1) closed₃
              (connect_server-connected cfg listed.0.1 third.1 listed.1 closed₃))))

-- ===== src/Das/Connect.antt =====
-- DasClient::connect and disconnect of TasGui/src/das_client.cpp.
use Prim.Native.String.{String}
use tc397tools.Prelude.{
  ℕ, zero, suc, ◌+◌, ◌-◌, ◌%◌, ◌^◌, Bool, true, not, ◌&&◌, ◌||◌, Option, none, some, List, [], ◌∷◌,
  ◌++◌, ltb, leb, ◌==◌, if◌then◌else◌, length, get_elem?, Bytes, codes, bytes_eq,
}
use tc397tools.Prelude.Result.{ok, undefined}
use tc397tools.Prelude.Decimal.{to_string}
use tc397tools.Codec.{lower}
use tc397tools.Das.State.{
  DasConfig, DasApi, M, ◌>>=◌, ◌>>◌, pure, fail, outside, client, set_client, describe_error,
}

unfoldable pub serial_index : Bytes → List Bytes → ℕ → Option ℕ
serial_index serial [] i = none
serial_index serial (s ∷ serials) i =
    if bytes_eq (lower s) (lower serial) then some i else serial_index serial serials (i + 1)

module _ {W : Type 0} (api : DasApi W) where
  unfoldable pub disconnect : M W (Unit {0})
  disconnect c w = elim c.port [
    | none ↦ (ok tt, record c { port = none; device_name = [] }, w)
    | some p ↦ (
      ok tt,
      record c { port = none; device_name = [] },
      if c.api_loaded then api.close_port p w else w,
    )
  ]

  abbrev pub check_error : String → ℕ → M W (Unit {0})
  check_error what e = if e == 0 then pure tt else fail (codes what ++ describe_error api e)

  -- `if (err) { disconnect(); throw … }`
  abbrev pub check_or_disconnect : String → ℕ → M W (Unit {0})
  check_or_disconnect what e =
      if e == 0 then pure tt else (do disconnect; fail (codes what ++ describe_error api e))

  unfoldable pub server_ready : DasConfig → M W Bool
  server_ready cfg = do
    (e, servers) ← outside (api.get_das_servers cfg.host)
    pure (e == 0 && not (length servers == 0))

  -- `for (int i = 0; i < 25; ++i)`, with the rounds left.
  unfoldable pub wait_server : DasConfig → ℕ → M W (Unit {0})
  wait_server cfg zero = fail (codes "tas_server did not become ready")
  wait_server cfg (suc n) = do
    ready ← server_ready cfg
    if ready then pure tt else wait_server cfg n

  -- `argv0`
  unfoldable pub server_program : DasConfig → W → Bytes
  server_program cfg w =
      let bin = cfg.das_home ++ codes "/bin/tas_server" in
      if api.file_exists bin w then bin else codes "tas_server"

  unfoldable pub ensure_server : DasConfig → M W (Unit {0})
  ensure_server cfg = do
    ready ← server_ready cfg
    if ready then pure tt else (do
      spawned ← outside (λ w. api.spawn_server (server_program cfg w) w)
      if spawned then wait_server cfg 25 else fail (codes "failed to spawn tas_server"))

  unfoldable pub load_api : M W (Unit {0})
  load_api = do
    (e, found) ← outside api.das_api_load
    if not found || not (e == 0)
        then fail (codes "das_api_load failed: " ++ describe_error api e)
        else (do e' ← outside api.init; check_error "das init failed: " e')

  -- `if (!api_) api_ = load_api(cfg.das_home);`
  unfoldable pub ensure_api : M W (Unit {0})
  ensure_api = do
    c ← client
    if c.api_loaded then pure tt else (do load_api; set_client (record c { api_loaded = true }))

  -- The port select, from the serial number where one is given.
  unfoldable pub select_port : DasConfig → M W ℕ
  unfolding serial_index
  select_port cfg = if bytes_eq cfg.dap_serial [] then pure cfg.port_sel else (do
    serials ← outside api.dap_serials
    elim (serial_index cfg.dap_serial serials 0) [
      | none ↦ fail (codes "DAP serial '" ++ (cfg.dap_serial ++ codes "' not found on USB"))
      | some i ↦ pure i
    ])

  abbrev outside_array : M W (Unit {0})
  outside_array c w = (undefined, c, w)

  abbrev int_text : ℕ → Bytes
  int_text n = if ltb n (2 ^ 31) then to_string n else b'-' ∷ to_string (2 ^ 32 - n)

  -- From open_port on.
  unfoldable pub open_device : DasConfig → ℕ → M W (Unit {0})
  open_device cfg sel = do
    (e, opened) ← outside (api.open_port cfg.server_index)
    elim opened [
      | none ↦ fail (codes "open_port failed: " ++ describe_error api e)
      | some port ↦ (do
        check_error "open_port failed: " e
        c ← client
        set_client (record c { port = some port })
        e₁ ← outside (api.map_port port cfg.port_type sel)
        check_or_disconnect "map_port failed: " e₁
        (e₂, name) ← outside (api.connect_to_device port (cfg.device_sel % 2 ^ 8))
        check_or_disconnect "connect_to_device failed: " e₂
        e₃ ← outside (api.init_device port)
        check_or_disconnect "init_device failed: " e₃
        c' ← client
        set_client (record c' { device_name = name; cfg_addr_map = cfg.addr_map }))
    ]

  -- The test on the port select, and what follows it. An access outside the array is undefined.
  unfoldable pub open_selected : DasConfig → List ℕ → ℕ → M W (Unit {0})
  open_selected cfg ports sel = elim (get_elem? ports cfg.port_type) [
    | none ↦ outside_array
    | some n ↦
        if leb n sel
        then fail (
            codes "port select "
            ++ (int_text sel ++ (codes " out of range (have " ++ (to_string n ++ codes ")"))))
        else open_device cfg sel
  ]

  unfoldable pub connect_server : DasConfig → List (List ℕ) → M W (Unit {0})
  connect_server cfg servers = elim (get_elem? servers cfg.server_index) [
    | none ↦ fail (
        codes "server index out of range (found "
        ++ (to_string (length servers) ++ codes " server(s))"))
    | some ports ↦ (do sel ← select_port cfg; open_selected cfg ports sel)
  ]

  unfoldable pub connect : DasConfig → M W (Unit {0})
  connect cfg = do
    disconnect
    ensure_api
    ensure_server cfg
    (e, servers) ← outside (api.get_das_servers cfg.host)
    check_error "get_das_servers failed: " e
    connect_server cfg servers

-- ===== src/Das/State.antt =====
-- The state of DasClient of TasGui/src/das_client.cpp, its monad and describe_error. The calls of the
-- DAS API, the USB list and the start of the server are a parameter; each takes the state of what is
-- outside and returns it.
use tc397tools.Prelude.{
  ℕ, Bool, Option, List, [], ◌∷◌, ◌++◌, ◌==◌, if◌then◌else◌, Bytes, codes, bytes_eq, bit_and, none,
  some, true, false,
}
use tc397tools.Prelude.Result.{Result, ok, err, undefined, stuck, runtime_error}

-- DAS_MAX_TRANSFER_SIZE
abbrev pub max_transfer : ℕ
max_transfer = 1024

-- An int is its 32 bits.
pub record DasConfig : Type 0 where
  pub das_home : Bytes
  pub host : Bytes
  pub server_index : ℕ
  pub port_type : ℕ
  pub port_sel : ℕ
  pub device_sel : ℕ
  pub addr_map : ℕ
  pub dap_serial : Bytes

-- `api_` and `port_`: whether the API is loaded, and the open port.
pub record DasClient : Type 0 where
  pub api_loaded : Bool
  pub port : Option ℕ
  pub cfg_addr_map : ℕ
  pub device_name : Bytes

unfoldable pub connected : DasClient → Bool
connected c = elim c.port [ none ↦ false | some port ↦ true ]

pub data Transfer : Type 0 where
  fetch : ℕ → ℕ → Transfer
  store : ℕ → Bytes → Transfer

-- What wait_list tells: the error, the status of the list and of the transaction, the buffer.
pub record Waited : Type 0 where
  pub error : ℕ
  pub list_status : ℕ
  pub tx_status : ℕ
  pub buffer : Bytes

-- The constants DAS_ERROR_* of das_api.h.
pub record DasError : Type 0 where
  pub device_reset : ℕ
  pub device_locked : ℕ
  pub device_access : ℕ
  pub device_data : ℕ
  pub port_access : ℕ
  pub server_locked : ℕ
  pub timeout : ℕ
  pub command_failed : ℕ
  pub parameter : ℕ
  pub connection : ℕ
  pub no_server : ℕ
  pub fatal : ℕ

-- An error is a number, 0 for none; das_api_load also says whether there is an API. A server is its
-- array of numbers of ports by port type.
pub record DasApi (W : Type 0) : Type 0 where
  pub das_api_load : W → (ℕ × Bool) × W
  pub init : W → ℕ × W
  pub get_das_servers : Bytes → W → (ℕ × List (List ℕ)) × W
  pub file_exists : Bytes → W → Bool
  pub spawn_server : Bytes → W → Bool × W
  pub dap_serials : W → List Bytes × W
  pub open_port : ℕ → W → (ℕ × Option ℕ) × W
  pub close_port : ℕ → W → W
  pub map_port : ℕ → ℕ → ℕ → W → ℕ × W
  pub connect_to_device : ℕ → ℕ → W → (ℕ × Bytes) × W
  pub init_device : ℕ → W → ℕ × W
  pub send_list : ℕ → ℕ → Transfer → W → ℕ × W
  pub wait_list : ℕ → W → Waited × W
  -- `%08x` and `%x`, and the constants DAS_ERROR_*.
  pub hex8 : ℕ → Bytes
  pub hex : ℕ → Bytes
  pub das_error : DasError

abbrev pub M : Type 0 → Type 0 → Type 0
M W A = DasClient → W → Result A × DasClient × W

abbrev pub step_into :
    {W A B : Type 0} → Result A → DasClient → W → (A → M W B) → Result B × DasClient × W
step_into (ok a) c w f = f a c w
step_into (err e) c w f = (err e, c, w)
step_into undefined c w f = (undefined, c, w)
step_into stuck c w f = (stuck, c, w)

infixl 5 ◌>>=◌ ◌>>◌
abbrev pub ◌>>=◌ : {W A B : Type 0} → M W A → (A → M W B) → M W B
◌>>=◌ m f c w = step_into (m c w).0 (m c w).1 (m c w).2 f

abbrev pub ◌>>◌ : {W B : Type 0} → M W (Unit {0}) → M W B → M W B
◌>>◌ first second = first >>= λ done. second

abbrev pub pure : {W A : Type 0} → A → M W A
pure a c w = (ok a, c, w)

abbrev pub fail : {W A : Type 0} → Bytes → M W A
fail text c w = (err (runtime_error text), c, w)

-- A call of what is outside.
abbrev pub outside : {W A : Type 0} → (W → A × W) → M W A
outside call c w = (ok (call w).0, c, (call w).1)

abbrev pub client : {W : Type 0} → M W DasClient
client c w = (ok c, c, w)

abbrev pub set_client : {W : Type 0} → DasClient → M W (Unit {0})
set_client c' c w = (ok tt, c', w)

unfoldable pub bit_names : List (ℕ × Bytes) → ℕ → Bytes → Bytes
bit_names [] e names = names
bit_names ((bit, name) ∷ bits) e names =
    let joined = (if bytes_eq names [] then names else names ++ codes "|") ++ name in
    bit_names bits e (if bit_and e bit == 0 then names else joined)

-- The array `bits`.
abbrev pub error_bits : DasError → List (ℕ × Bytes)
error_bits das_error =
    (das_error.device_reset, codes "DEVICE_RESET")
    ∷ (das_error.device_locked, codes "DEVICE_LOCKED")
    ∷ (das_error.device_access, codes "DEVICE_ACCESS")
    ∷ (das_error.device_data, codes "DEVICE_DATA")
    ∷ (das_error.port_access, codes "PORT_ACCESS")
    ∷ (das_error.server_locked, codes "SERVER_LOCKED")
    ∷ (das_error.timeout, codes "TIMEOUT")
    ∷ (das_error.command_failed, codes "COMMAND_FAILED")
    ∷ (das_error.parameter, codes "PARAMETER")
    ∷ (das_error.connection, codes "CONNECTION")
    ∷ (das_error.no_server, codes "NO_SERVER")
    ∷ (das_error.fatal, codes "FATAL")
    ∷ []

module _ {W : Type 0} (api : DasApi W) where
  unfoldable pub describe_error : ℕ → Bytes
  unfolding bit_names
  describe_error e =
      let names = bit_names (error_bits api.das_error) e [] in
      if e == 0
      then codes "0x0"
      else api.hex8 e ++ (if bytes_eq names [] then [] else codes " (" ++ (names ++ codes ")"))

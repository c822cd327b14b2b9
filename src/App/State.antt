-- ===== src/App/State.antt =====
-- The state of the application, its log and its filter.
use tc397tools.Prelude.{
  codes, ℕ, ◌+◌, Bool, true, false, ◌&&◌, ◌||◌, Option, none, List, [], ◌∷◌, ◌++◌, ltb, ◌==◌,
  if◌then◌else◌, length, drop, Bytes, bytes_eq,
}
use tc397tools.Json.{Sign, VarEntry}
use tc397tools.Codec.{Floats, lower}
use tc397tools.Das.{DasConfig, DasClient, DasApi, DapDevice}
use tc397tools.Elf.{Platform}
use tc397tools.ElfIndex.{ElfIndex}

-- What lies outside, over one state W: the server, the files, the USB list and floating point. The
-- fuel is that of resolve_type.
pub record Env (W : Type 0) : Type 0 where
  pub api : DasApi W
  pub platform : Platform W
  pub devices : W → List DapDevice × W
  pub floats : Floats
  pub fuel : ℕ

pub record WatchItem : Type 0 where
  pub expression : Bytes
  pub address : ℕ
  pub byte_size : ℕ
  pub type_name : Bytes
  pub is_signed : Sign
  pub value : Bytes
  pub hex : Bytes
  pub error : Bytes
  pub edit_buf : Bytes

-- The function that a task runs.
pub data Job : Type 0 where
  connect_job : DasConfig → Job
  load_job : Bytes → Bytes → Bool → Job

-- A std::future that is valid: its function runs, or has returned a text.
pub data Task : Type 0 where
  running : Job → Task
  finished : Bytes → Task

-- `dap_choice` is `none` for -1.
pub record App : Type 0 where
  pub index : ElfIndex
  pub client : DasClient
  pub cfg : DasConfig
  pub elf_path : Bytes
  pub json_path : Bytes
  pub filter : Bytes
  pub filtered : List ℕ
  pub last_filter : Bytes
  pub watch : List WatchItem
  pub connected : Bool
  pub device_name : Bytes
  pub polling : Bool
  pub task : Option Task
  pub busy : Bool
  pub busy_label : Bytes
  pub log : List Bytes
  pub dap_devices : List DapDevice
  pub dap_choice : Option ℕ

-- A log of more than 500 lines loses its first 100.
unfoldable pub cut_log : List Bytes → List Bytes
cut_log log = if ltb 500 (length log) then drop 100 log else log

unfoldable pub add_log : Bytes → App → App
add_log line app = record app { log = cut_log (app.log ++ line ∷ []) }

unfoldable pub starts_with : Bytes → Bytes → Bool
starts_with [] text = true
starts_with (c ∷ part) [] = false
starts_with (c ∷ part) (d ∷ text) = c == d && starts_with part text

-- `text.find(part) != npos`
unfoldable pub contains : Bytes → Bytes → Bool
contains part [] = starts_with part []
contains part (c ∷ text) = starts_with part (c ∷ text) || contains part text

-- The test of rebuild_filter; `f` is in lower case.
unfoldable pub is_listed : Bytes → VarEntry → Bool
is_listed f e =
    bytes_eq f [] || (contains f (lower e.expression) || contains f (lower e.member_name))

-- The loop of rebuild_filter, from the index `i` on.
unfoldable pub listed_from : Bytes → ℕ → List VarEntry → List ℕ
listed_from f i [] = []
listed_from f i (e ∷ entries) =
    let rest = listed_from f (i + 1) entries in if is_listed f e then i ∷ rest else rest

unfoldable pub rebuild_filter : App → App
rebuild_filter app = record app {
  filtered = listed_from (lower app.filter) 0 app.index.entries;
  last_filter = app.filter;
}

-- The client and the index as `main` finds them, with the first configuration, and the list of devices.
unfoldable pub initial_app : Bytes → Bytes → List DapDevice → App
initial_app elf json devices = record {
  index = record { entries = []; handle = none; loaded = false; error = []; elf_path = [] };
  client = record { api_loaded = false; port = none; cfg_addr_map = 0; device_name = [] };
  cfg = record {
    das_home = codes "/opt/Tools/DAS/8.3.0";
    host = codes "127.0.0.1";
    server_index = 0;
    port_type = 3;
    port_sel = 0;
    device_sel = 0;
    addr_map = 0;
    dap_serial = [];
  };
  elf_path = elf;
  json_path = json;
  filter = [];
  filtered = [];
  last_filter = 1 ∷ [];
  watch = [];
  connected = false;
  device_name = [];
  polling = false;
  task = none;
  busy = false;
  busy_label = [];
  log = [];
  dap_devices = devices;
  dap_choice = none;
}

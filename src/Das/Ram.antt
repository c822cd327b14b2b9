-- ===== src/Das/Ram.antt =====
-- A server with a memory that can be read and written, for the tests.
use tc397tools.Prelude.{ℕ, true, Option, none, some, [], ◌∷◌, refl, codes}
use tc397tools.Das.State.{DasClient, DasApi, Transfer, fetch, store, Waited}
use tc397tools.Das.Memory.{span, success, Serves}
use tc397tools.Das.Stores.{poke, Stores}

-- The memory, and the list that was sent last.
abbrev pub Ram : Type 0
Ram = (ℕ → ℕ) × Option Transfer

abbrev pub memory : Ram → ℕ → ℕ
memory ram = ram.0

abbrev answer : Option Transfer → (ℕ → ℕ) → Waited × Ram
answer none m = (success [], (m, none))
answer (some (fetch a n)) m = (success (span m a n), (m, none))
answer (some (store a bytes)) m = (success bytes, (poke a bytes m, none))

abbrev pub ram_server : DasApi Ram
ram_server = record {
  das_api_load = λ w. ((0, true), w);
  init = λ w. (0, w);
  get_das_servers = λ host w. ((0, (0 ∷ 0 ∷ 0 ∷ 1 ∷ []) ∷ []), w);
  file_exists = λ path w. true;
  spawn_server = λ program w. (true, w);
  dap_serials = λ w. ([], w);
  open_port = λ i w. ((0, some 7), w);
  close_port = λ port w. w;
  map_port = λ port port_type sel w. (0, w);
  connect_to_device = λ port device w. ((0, codes "TC397"), w);
  init_device = λ port w. (0, w);
  send_list = λ port map transfer w. (0, (w.0, some transfer));
  wait_list = λ port w. answer w.1 w.0;
  hex8 = λ n. [];
  hex = λ n. [];
  das_error = record {
    device_reset = 1;
    device_locked = 2;
    device_access = 4;
    device_data = 8;
    port_access = 16;
    server_locked = 32;
    timeout = 64;
    command_failed = 128;
    parameter = 256;
    connection = 512;
    no_server = 1024;
    fatal = 2048;
  };
}

pub ram_server-Serves : Serves ram_server memory
ram_server-Serves = record {
  takes = λ port map a n w h. refl;
  answers = λ port map a n w h. refl;
  keeps = λ port map a n w h. refl;
}

pub ram_server-Stores : Stores ram_server memory
ram_server-Stores = record {
  takes = λ port map a bytes w h. refl;
  answers = λ port map a bytes w h. refl;
  puts = λ port map a bytes w h. refl;
}

-- All bytes are 0.
abbrev pub empty_ram : Ram
empty_ram = ((λ a. 0), none)

abbrev pub open_client : DasClient
open_client = record {
  api_loaded = true;
  port = some 7;
  cfg_addr_map = 0;
  device_name = codes "TC397";
}

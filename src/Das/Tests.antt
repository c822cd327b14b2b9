-- ===== src/Das/Tests.antt =====
-- The client against a server that answers every request.
use tc397tools.Prelude.{
  Bytes, bytes_eq, if◌then◌else◌, length, ℕ, ◌%◌, true, Option, none, some, List, [], ◌∷◌, ◌≡◌,
  refl, arith, codes,
}
use tc397tools.Prelude.Result.{ok}
use tc397tools.Das.State.{DasConfig, DasClient, DasApi, Transfer, fetch, store, Waited, connected}
use tc397tools.Das.Connect.{connect}
use tc397tools.Das.Transfers.{read, write}
use mathlib.Core.List.{Perm}
use tc397tools.Das.Devices.{Usb, DapDevice, device_less, dap_devices_of, list_dap_devices}
use tc397tools.Das.Listed.{IsListing, Ordered, list_dap_devices-Ordered}
use tc397tools.Das.Stores.{poke, write-poke, read-write}
use tc397tools.Das.Ram.{
  memory, ram_server, ram_server-Serves, ram_server-Stores, empty_ram, open_client,
}
use tc397tools.Das.Connection.{is_ok, connect-connected}
use tc397tools.Das.Memory.{span, success, read-span}

-- Each byte is the lowest byte of its address.
abbrev low_bytes : ℕ → ℕ
low_bytes a = a % 256

abbrev reply : Option Transfer → Waited
reply none = success []
reply (some (fetch a n)) = success (span low_bytes a n)
reply (some (store a bytes)) = success bytes

-- The state of the server is the list it was sent last.
abbrev server : DasApi (Option Transfer)
server = record {
  das_api_load = λ w. ((0, true), w);
  init = λ w. (0, w);
  get_das_servers = λ host w. ((0, (0 ∷ 0 ∷ 0 ∷ 1 ∷ []) ∷ []), w);
  file_exists = λ path w. true;
  spawn_server = λ program w. (true, w);
  dap_serials = λ w. ([], w);
  open_port = λ i w. ((0, some 7), w);
  close_port = λ port w. w;
  map_port = λ port port_type sel w. (0, w);
  connect_to_device = λ port device w. ((0, codes "TC397"), w);
  init_device = λ port w. (0, w);
  send_list = λ port map transfer w. (0, some transfer);
  wait_list = λ port w. (reply w, w);
  hex8 = λ n. [];
  hex = λ n. [];
  das_error = record {
    device_reset = 1;
    device_locked = 2;
    device_access = 4;
    device_data = 8;
    port_access = 16;
    server_locked = 32;
    timeout = 64;
    command_failed = 128;
    parameter = 256;
    connection = 512;
    no_server = 1024;
    fatal = 2048;
  };
}

abbrev settings : DasConfig
settings = record {
  das_home = codes "/opt/Tools/DAS/8.3.0";
  host = codes "127.0.0.1";
  server_index = 0;
  port_type = 3;
  port_sel = 0;
  device_sel = 0;
  addr_map = 0;
  dap_serial = [];
}

abbrev on_port : DasClient
on_port = record { api_loaded = true; port = some 7; cfg_addr_map = 0; device_name = codes "TC397" }

connect-connected_example :
    connected (connect server settings on_port none).1
    ≡ is_ok (connect server settings on_port none).0
connect-connected_example = connect-connected server settings on_port none

read-span_example : (read server 0x70000100 3 on_port none).0 ≡ ok (0 ∷ 1 ∷ 2 ∷ [])
unfolding span
read-span_example =
    read-span server (λ w. low_bytes)
      record {
        takes = λ port map a n w h. refl;
        answers = λ port map a n w h. refl;
        keeps = λ port map a n w h. refl;
      }
      0x70000100 3 7 on_port none refl

write-poke_example :
    ((write ram_server 0x70000100 (5 ∷ 6 ∷ []) open_client empty_ram).0 ≡ ok tt)
    × (memory (write ram_server 0x70000100 (5 ∷ 6 ∷ []) open_client empty_ram).2
        ≡ poke 0x70000100 (5 ∷ 6 ∷ []) (memory empty_ram))
write-poke_example =
    write-poke ram_server memory ram_server-Stores 0x70000100 7 (5 ∷ 6 ∷ []) open_client empty_ram
      refl

read-write_example :
    (read ram_server 0x70000100 2 open_client
      (write ram_server 0x70000100 (5 ∷ 6 ∷ []) open_client empty_ram).2).0
    ≡ ok (5 ∷ 6 ∷ [])
read-write_example =
    read-write ram_server memory 0x70000100 7 (5 ∷ 6 ∷ []) open_client empty_ram ram_server-Serves
      ram_server-Stores refl (omega arith)

-- Two devices, of which the second directory entry has the lower bus number.
abbrev line_of : Bytes → Option Bytes
line_of path =
    if bytes_eq path (codes "/sys/bus/usb/devices/2-1/busnum")
    then some (codes "2")
    else if bytes_eq path (codes "/sys/bus/usb/devices/1-1/busnum")
    then some (codes "1")
    else some (codes "058b ")

abbrev first_digit : Bytes → ℕ
first_digit [] = 0
first_digit (c ∷ text) = c

abbrev usb : Usb (Unit {0})
usb = record {
  read_dir = λ path w. some (codes ".." ∷ codes "2-1" ∷ codes "1-1" ∷ []);
  first_line = λ path w. line_of path;
  atoi = first_digit;
}

list_dap_devices-Ordered_example :
    (devices : List DapDevice) × IsListing usb tt
      (codes ".." ∷ codes "2-1" ∷ codes "1-1" ∷ [])
      devices
    × Perm (list_dap_devices usb tt) devices
    × Ordered (list_dap_devices usb tt)
list_dap_devices-Ordered_example =
    list_dap_devices-Ordered usb tt (codes ".." ∷ codes "2-1" ∷ codes "1-1" ∷ []) refl

list_dap_devices_test : length (list_dap_devices usb tt) ≡ 2
unfolding list_dap_devices tc397tools.Prelude.Sort.sort dap_devices_of
    tc397tools.Das.Devices.is_dap_device bytes_eq tc397tools.Codec.lower
    tc397tools.Das.Devices.read_text_file tc397tools.Das.Devices.strip_end device_less
    tc397tools.Das.Devices.dap_device
list_dap_devices_test = refl

-- ===== src/App/Tests.antt =====
-- The application on a server with a memory and a file system without files.
use tc397tools.Prelude.{
  ℕ, true, false, Option, none, some, List, [], ◌∷◌, ◌++◌, ◌≡◌, bytes_eq, ◌↔◌, refl, arith, codes,
  Bytes, length, ◌≤◌,
}
use mathlib.Core.List.{Memᴰ, map}
use tc397tools.Prelude.Result.{ok}
use tc397tools.Json.{VarEntry, empty_entry, parse_index_json, sign_no}
use tc397tools.Codec.{Floats, decode_value, encode_value, to_hex}
use tc397tools.Das.{connected}
use tc397tools.Das.Ram.{
  Ram, memory, ram_server, ram_server-Serves, ram_server-Stores, empty_ram, open_client,
}
use tc397tools.Elf.{Platform}
use tc397tools.App.State.{Env, WatchItem, App, initial_app, rebuild_filter}
use tc397tools.App.Watch.{write_item, poll_reads}
use tc397tools.App.Polling.{shows, poll_reads-shows}
use tc397tools.App.Actions.{
  press_connect, press_load, run_task, pump, press_add, draw_variables, act,
}
use tc397tools.App.Invariant.{Reach, begin, next}
use tc397tools.App.Filter.{IsShown, rebuild_filter-IsShown}
use tc397tools.App.Reachable.{press_add-ok, connected_agrees, busy_ends}
use tc397tools.App.Writing.{write_item-ok}

abbrev no_files : Platform Ram
no_files = record {
  exists = λ path w. false;
  mtime = λ path w. 0;
  read_file = λ path w. none;
  open_output = λ path w. (false, w);
  write_output = λ path text w. (false, w);
  load_elf = λ path w. none;
  out_of_range_text = codes "out of range";
  invalid_argument_text = codes "invalid argument";
}

abbrev no_floats : Floats
no_floats = record {
  print_double = λ bytes. [];
  print_float = λ bytes. [];
  stod = λ text. ok [];
  stof = λ text. ok [];
}

abbrev desk : Env Ram
desk = record {
  api = ram_server;
  platform = no_files;
  devices = λ w. ([], w);
  floats = no_floats;
  fuel = 10;
}

abbrev first_app : App
first_app = initial_app (codes "a.elf") (codes "a.json") []

abbrev connecting : App
connecting = (act desk press_connect first_app empty_ram).1

first_reached : Reach desk first_app empty_ram
first_reached = begin (codes "a.elf") (codes "a.json") [] empty_ram

connecting_reached : Reach desk connecting empty_ram
unfolding act initial_app
connecting_reached = next press_connect first_reached refl

-- A file system with an index of one variable and without the ELF file.
abbrev index_text : Bytes
index_text = codes "{\"entries_by_member\":{\"n\":[{\"expression\":\"n\",\"address\":16}]}}"

abbrev index_entry : VarEntry
index_entry = record empty_entry { expression = codes "n"; address = 16 }

index_text_parsed : parse_index_json index_text ≡ (index_entry ∷ [], ok tt)
unfolding parse_index_json tc397tools.Json.expect tc397tools.Json.index_loop tc397tools.Json.str
    bytes_eq tc397tools.Json.read_groups tc397tools.Json.groups_loop tc397tools.Json.read_group
    tc397tools.Json.items_loop tc397tools.Json.parse_entry tc397tools.Json.read_field
    tc397tools.Json.uint_
index_text_parsed = refl

abbrev index_only : Platform Ram
index_only = record no_files {
  exists = λ path w. bytes_eq path (codes "a.json");
  read_file = λ path w. some index_text;
}

abbrev bench : Env Ram
bench = record desk { platform = index_only }

abbrev loading : App
loading = (act bench (press_load false) first_app empty_ram).1

abbrev loaded_index : App
loaded_index = (act bench run_task loading empty_ram).1

abbrev behind : Ram
behind = (act bench run_task loading empty_ram).2

abbrev listing : App
listing = (act bench pump loaded_index behind).1

loading_reached : Reach bench loading empty_ram
unfolding act initial_app
loading_reached = next (press_load false) (begin (codes "a.elf") (codes "a.json") [] empty_ram) refl

load_returned : (act bench run_task loading empty_ram).0 ≡ ok tt
unfolding act initial_app tc397tools.App.Actions.run_task_of tc397tools.App.Actions.run_job
    tc397tools.App.Actions.load_text tc397tools.ElfIndex.load tc397tools.ElfIndex.needs_index
    bytes_eq tc397tools.ElfIndex.read_index tc397tools.ElfIndex.open_handle
load_returned = rw index_text_parsed refl

loaded_reached : Reach bench loaded_index behind
loaded_reached = next run_task loading_reached load_returned

listing_reached : Reach bench listing behind
unfolding act initial_app
listing_reached = next pump loaded_reached refl

press_add-ok_example : (act bench (press_add 0) listing behind).0 ≡ ok tt
press_add-ok_example = press_add-ok bench 0 listing_reached

connected_agrees_example :
    (listing.busy ≡ false → (listing.task ≡ none) × (listing.connected ≡ connected listing.client))
    × (length listing.log ≤ 500)
connected_agrees_example = connected_agrees bench listing_reached

busy_ends_example :
    (act desk pump
      (act desk run_task connecting empty_ram).1
      (act desk run_task connecting empty_ram).2).1.busy
    ≡ false
unfolding act initial_app tc397tools.App.Actions.run_task_of tc397tools.App.Actions.run_job
    tc397tools.App.Actions.connect_text tc397tools.Das.connect tc397tools.Das.disconnect
    tc397tools.Das.ensure_api tc397tools.Das.ensure_server tc397tools.Das.server_ready
    tc397tools.Das.connect_server tc397tools.Das.select_port tc397tools.Prelude.bytes_eq
    tc397tools.Das.open_selected tc397tools.Das.open_device tc397tools.Das.load_api
busy_ends_example = busy_ends desk connecting_reached refl refl

abbrev speed : WatchItem
speed = record {
  expression = codes "speed";
  address = 0x70000100;
  byte_size = 2;
  type_name = codes "uint16";
  is_signed = sign_no;
  value = [];
  hex = [];
  error = [];
  edit_buf = codes "770";
}

abbrev connected_app : App
connected_app = record first_app { connected = true; client = open_client }

write_item-ok_example :
    (write_item desk speed connected_app empty_ram).0
    ≡ ok (record speed {
      hex = to_hex (2 ∷ 3 ∷ []);
      value = decode_value no_floats (2 ∷ 3 ∷ []) (codes "uint16") false;
      error = [];
    })
unfolding initial_app encode_value tc397tools.Codec.trim tc397tools.Codec.is_float_type
    tc397tools.Prelude.bytes_eq tc397tools.Codec.encode_integer tc397tools.Prelude.Stoull.stoull
    tc397tools.Prelude.Stoull.digit_value tc397tools.Prelude.Stoull.read_digits
    tc397tools.App.Watch.is_yes
write_item-ok_example =
    write_item-ok desk memory ram_server-Serves ram_server-Stores speed connected_app empty_ram 7
      (2 ∷ 3 ∷ []) refl refl refl refl refl (omega arith)

abbrev entry_of : Bytes → VarEntry
entry_of expression = record {
  member_name = expression;
  expression = expression;
  type_name = codes "uint16";
  address = 0x70000100;
  byte_size = 2;
  is_signed = sign_no;
}

abbrev filtering : App
filtering = record first_app {
  filter = codes "PEE";
  index = record first_app.index {
    entries = entry_of (codes "torque") ∷ entry_of (codes "Speed") ∷ [];
  };
}

rebuild_filter-IsShown_example :
    Memᴰ 1 (rebuild_filter filtering).filtered ↔ IsShown (codes "PEE") filtering.index.entries 1
rebuild_filter-IsShown_example = rebuild_filter-IsShown filtering 1

poll_reads-shows_example :
    ((poll_reads desk (record connected_app { watch = speed ∷ [] }) empty_ram).0 ≡ ok tt)
    × ((poll_reads desk (record connected_app { watch = speed ∷ [] }) empty_ram).1
        ≡ record connected_app { watch = map (shows desk (memory empty_ram)) (speed ∷ []) })
unfolding initial_app
poll_reads-shows_example =
    poll_reads-shows desk memory ram_server-Serves (record connected_app { watch = speed ∷ [] })
      empty_ram 7 refl refl

-- ===== src/App/Writing.antt =====
-- write_item against a server that gives access to its memory.
use tc397tools.Prelude.{ℕ, ◌%◌, ◌^◌, ◌≤◌, true, false, some, [], ◌≡◌, refl, sym, length, Bytes}
use tc397tools.Prelude.Result.{ok}
use tc397tools.Codec.{encode_value, decode_value, to_hex}
use tc397tools.Das.Keeps.{write-keeps}
use tc397tools.Das.Memory.{Serves}
use tc397tools.Das.Stores.{Stores, write-poke, read-write}
use tc397tools.App.State.{Env, WatchItem, App, add_log}
use tc397tools.App.Watch.{transfer, shown, write_item, is_yes}

module _ {W : Type 0} (env : Env W) (memory : W → ℕ → ℕ) (serves : Serves env.api memory)
    (stores : Stores env.api memory) where
  transfer-ok :
      (it : WatchItem) (app : App) (w : W) (port : ℕ) (bytes : Bytes)
      → app.client.port ≡ some port
      → encode_value env.floats it.edit_buf it.type_name it.byte_size ≡ ok bytes
      → length bytes ≡ it.byte_size
      → length bytes ≤ 2 ^ 32
      → (transfer env it app w).0 ≡ ok bytes
  unfolding transfer add_log
  transfer-ok it app w port bytes opened encoded size short =
      let address : ℕ = it.address % 2 ^ 32 in
      let written = write-poke env.api memory stores address port bytes app.client w opened in
      let back =
        read-write env.api memory address port bytes app.client w serves stores opened short in
      rw (encoded, written.0, write-keeps env.api address bytes app.client w, sym size) back

  -- Where no task runs, the application is connected, and the text in the field of an item stands for as many bytes as
  -- the item has, at most 2 ^ 32, write_item leaves no error in the item, and shows there the bytes of the text, as they
  -- were read back from the target.
  pub write_item-ok :
      (it : WatchItem) (app : App) (w : W) (port : ℕ) (bytes : Bytes)
      → app.busy ≡ false
      → app.connected ≡ true
      → app.client.port ≡ some port
      → encode_value env.floats it.edit_buf it.type_name it.byte_size ≡ ok bytes
      → length bytes ≡ it.byte_size
      → length bytes ≤ 2 ^ 32
      → (write_item env it app w).0
        ≡ ok (record it {
          hex = to_hex bytes;
          value = decode_value env.floats bytes it.type_name (is_yes it.is_signed);
          error = [];
        })
  unfolding write_item shown
  write_item-ok it app w port bytes free tied opened encoded size short =
      simp
        (free, tied, transfer-ok it app w port bytes opened encoded size short, write_item, shown)
        refl

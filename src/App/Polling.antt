-- ===== src/App/Polling.antt =====
-- poll_reads against a server that gives access to its memory.
use tc397tools.Prelude.{
  ℕ, ◌%◌, ◌^◌, true, some, List, [], ◌∷◌, ◌≡◌, refl, ap, ◌∙◌, ◌==◌, if◌then◌else◌, map, codes,
  Bool-cases, inl, inr,
}
use tc397tools.Prelude.Result.{ok}
use tc397tools.Codec.{decode_value, to_hex}
use tc397tools.Das.{read}
use tc397tools.Das as Das
use tc397tools.Das.Keeps.{read-keeps}
use tc397tools.Das.Memory.{Serves, span, read-span, read-memory}
use tc397tools.App.State.{Env, WatchItem, App}
use tc397tools.App.Watch.{shown, poll_item, poll_items, poll_reads, is_yes}

module _ {W : Type 0} (env : Env W) where
  -- What an item is to show of a memory.
  abbrev pub shows : (ℕ → ℕ) → WatchItem → WatchItem
  shows memory it =
      if it.byte_size == 0 then record it { error = codes "unknown size" } else record it {
        hex = to_hex (span memory (it.address % 2 ^ 32) it.byte_size);
        value =
            decode_value env.floats (span memory (it.address % 2 ^ 32) it.byte_size) it.type_name
              (is_yes it.is_signed);
        error = [];
      }

module _ {W : Type 0} (env : Env W) (memory : W → ℕ → ℕ) (serves : Serves env.api memory) where
  poll_item-shows :
      (it : WatchItem) (app : App) (w : W) (port : ℕ)
      → app.client.port ≡ some port
      → ((poll_item env it app w).0 ≡ ok (shows env (memory w) it))
        × ((poll_item env it app w).1 ≡ app)
        × (memory (poll_item env it app w).2 ≡ memory w)
  unfolding poll_item shown
  poll_item-shows it app w port opened = elim (Bool-cases (it.byte_size == 0)) [
    | inl empty ↦ rw empty (refl, refl, refl)
    | inr sized ↦
        let a : ℕ = it.address % 2 ^ 32 in
        rw (sized, read-span env.api memory serves a it.byte_size port app.client w opened)
          (
            refl,
            ap (λ (c : Das.DasClient). record app { client = c })
                (read-keeps env.api a it.byte_size app.client w),
            read-memory env.api memory serves a it.byte_size app.client w,
          )
  ]

  poll_items-shows :
      (items : List WatchItem) (app : App) (w : W) (port : ℕ)
      → app.client.port ≡ some port
      → ((poll_items env items app w).0 ≡ ok (map (shows env (memory w)) items))
        × ((poll_items env items app w).1 ≡ app)
        × (memory (poll_items env items app w).2 ≡ memory w)
  unfolding poll_items
  poll_items-shows [] app w port opened = (refl, refl, refl)
  poll_items-shows (it ∷ items) app w port opened =
      let first = poll_item env it app w in
      let h = poll_item-shows it app w port opened in
      let rest = poll_items-shows items app first.2 port opened in
      rw (h.0, h.1, rest.0, rest.1, h.2) (refl, refl, rest.2 ∙ h.2)

  -- Against a server that gives access to its memory, where the flag says that the application is connected and the port
  -- is open, poll_reads changes nothing but the items, and shows in each the bytes of the memory at its address, as
  -- many as its size, in hexadecimal and as a value, with no error; an item of size 0 gets an error and keeps the rest.
  pub poll_reads-shows :
      (app : App) (w : W) (port : ℕ)
      → app.connected ≡ true
      → app.client.port ≡ some port
      → ((poll_reads env app w).0 ≡ ok tt)
        × ((poll_reads env app w).1 ≡ record app { watch = map (shows env (memory w)) app.watch })
  unfolding poll_reads
  poll_reads-shows app w port tied opened =
      let h = poll_items-shows app.watch app w port opened in simp (tied, h.0, h.1) (refl, refl)

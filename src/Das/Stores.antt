-- ===== src/Das/Stores.antt =====
-- DasClient::write against a memory that the server gives access to.
use tc397tools.Prelude.{
  ℕ, zero, suc, ◌+◌, ◌%◌, ◌^◌, ◌≤◌, ◌<◌, true, false, some, [], ◌∷◌, ◌≡◌, refl, ap, ◌∙◌, arith,
  ◌==◌, length, take, drop, length-take, length-drop, Bytes, codes, if◌then◌else◌,
}
use tc397tools.Prelude.Result.{ok}
use tc397tools.Das.State.{max_transfer, DasClient, DasApi, store}
use tc397tools.Das.Transfers.{chunk_size, check_waited, run_transaction, write_loop, read, write}
use tc397tools.Das.Memory.{span, success, Serves, read-span}

abbrev put : ℕ → ℕ → (ℕ → ℕ) → ℕ → ℕ
put x b memory y = if y == x then b else memory y

-- The memory with the bytes from an address on; addresses have 32 bits.
unfoldable pub poke : ℕ → Bytes → (ℕ → ℕ) → ℕ → ℕ
poke a [] memory = memory
poke a (b ∷ bytes) memory = poke (a + 1) bytes (put (a % 2 ^ 32) b memory)

poke_wraps :
    (a b : ℕ) (bytes : Bytes) (memory : ℕ → ℕ)
    → a % 2 ^ 32 ≡ b % 2 ^ 32
    → poke a bytes memory ≡ poke b bytes memory
unfolding poke
poke_wraps a b [] memory h = refl
poke_wraps a b (x ∷ bytes) memory h =
    rw (h, poke_wraps (a + 1) (b + 1) bytes (put (b % 2 ^ 32) x memory) (omega arith)) refl

-- The bytes in two parts.
poke_parts :
    (n a : ℕ) (bytes : Bytes) (memory : ℕ → ℕ)
    → n ≤ length bytes
    → poke (a + n) (drop n bytes) (poke a (take n bytes) memory) ≡ poke a bytes memory
unfolding poke
poke_parts zero a bytes memory h = ap (λ (k : ℕ). poke k bytes memory) (omega arith)
poke_parts (suc n) a [] memory h = absurd (omega arith)
poke_parts (suc n) a (b ∷ bytes) memory h =
    ap (λ (k : ℕ). poke k (drop n bytes) (poke (a + 1) (take n bytes) (put (a % 2 ^ 32) b memory)))
      (omega arith)
    ∙ poke_parts n (a + 1) bytes (put (a % 2 ^ 32) b memory) (omega arith)

-- Bytes behind an address leave it as it was.
poke_above :
    (x d a : ℕ) (bytes : Bytes) (memory : ℕ → ℕ)
    → a ≡ x + suc d
    → d + length bytes < 2 ^ 32
    → poke a bytes memory (x % 2 ^ 32) ≡ memory (x % 2 ^ 32)
unfolding poke
poke_above x d a [] memory e h = refl
poke_above x d a (b ∷ bytes) memory e h =
    let other : (x % 2 ^ 32 == a % 2 ^ 32) ≡ false = ground arith in
    poke_above x (suc d) (a + 1) bytes (put (a % 2 ^ 32) b memory) (omega arith) (omega arith)
    ∙ rw other refl

span-poke :
    (a : ℕ) (bytes : Bytes) (memory : ℕ → ℕ)
    → length bytes ≤ 2 ^ 32
    → span (poke a bytes memory) a (length bytes) ≡ bytes
unfolding poke span
span-poke a [] memory h = refl
span-poke a (b ∷ bytes) memory h =
    let same : (a % 2 ^ 32 == a % 2 ^ 32) ≡ true = ground arith in
    let first =
      poke_above a 0 (a + 1) bytes (put (a % 2 ^ 32) b memory) (omega arith) (omega arith) in
    rw (first, same, span-poke (a + 1) bytes (put (a % 2 ^ 32) b memory) (omega arith)) refl

-- A server that takes each list with one write transaction of at most max_transfer bytes, and puts the
-- bytes into its memory.
pub record Stores {W : Type 0} (api : DasApi W) (memory : W → ℕ → ℕ) : Type 0 where
  pub takes :
      (port map a : ℕ) (bytes : Bytes) (w : W)
      → length bytes ≤ max_transfer
      → (api.send_list port map (store a bytes) w).0 ≡ 0
  pub answers :
      (port map a : ℕ) (bytes : Bytes) (w : W)
      → length bytes ≤ max_transfer
      → (api.wait_list port (api.send_list port map (store a bytes) w).1).0 ≡ success bytes
  pub puts :
      (port map a : ℕ) (bytes : Bytes) (w : W)
      → length bytes ≤ max_transfer
      → memory (api.wait_list port (api.send_list port map (store a bytes) w).1).1
        ≡ poke a bytes (memory w)

module _ {W : Type 0} (api : DasApi W) (memory : W → ℕ → ℕ) (stores : Stores api memory) where
  run_transaction-poke :
      (port map a : ℕ) (bytes verb : Bytes) (c : DasClient) (w : W)
      → length bytes ≤ max_transfer
      → ((run_transaction api port map (store a bytes) verb c w).0 ≡ ok bytes)
        × (memory (run_transaction api port map (store a bytes) verb c w).2
            ≡ poke a bytes (memory w))
  unfolding run_transaction check_waited
  run_transaction-poke port map a bytes verb c w h =
      rw (stores.takes port map a bytes w h, run_transaction)
        (rw (stores.answers port map a bytes w h, check_waited)
          (refl, stores.puts port map a bytes w h))

  write_loop-poke :
      (fuel port map address offset : ℕ) (bytes : Bytes) (c : DasClient) (w : W)
      → length bytes ≤ fuel
      → ((write_loop api fuel port map address offset bytes c w).0 ≡ ok tt)
        × (memory (write_loop api fuel port map address offset bytes c w).2
            ≡ poke (address + offset) bytes (memory w))
  unfolding write_loop poke
  write_loop-poke zero port map address offset [] c w h = (refl, refl)
  write_loop-poke zero port map address offset (b ∷ bytes) c w h = absurd (omega arith)
  write_loop-poke (suc fuel) port map address offset [] c w h = (refl, refl)
  write_loop-poke (suc fuel) port map address offset (b ∷ bytes) c w h =
      let size : ℕ = chunk_size (suc (length bytes)) in
      let a : ℕ = (address + offset) % 2 ^ 32 in
      let part : Bytes = take size (b ∷ bytes) in
      let run = run_transaction api port map (store a part) (codes "write") c w in
      let some_bytes : (1 ≤ size) × (size ≤ suc (length bytes)) = ground arith in
      let fits : length part ≤ max_transfer = ground (arith, length-take size (b ∷ bytes)) in
      let goes_on : (suc (length bytes) == 0) ≡ false = ground arith in
      let done = run_transaction-poke port map a part (codes "write") c w fits in
      let rest =
        write_loop-poke fuel port map address (offset + size) (drop size (b ∷ bytes)) run.1 run.2
          (omega (arith, length-drop size (b ∷ bytes))) in
      rw (goes_on, done.0)
        (
          rest.0,
          rest.1
              ∙ ap (poke (address + (offset + size)) (drop size (b ∷ bytes)))
                  (done.1 ∙ poke_wraps a (address + offset) part (memory w) (omega arith))
              ∙ ap
                  (λ (k : ℕ).
                    poke k (drop size (b ∷ bytes)) (poke (address + offset) part (memory w)))
                  (omega arith)
              ∙ poke_parts size (address + offset) (b ∷ bytes) (memory w) some_bytes.1,
        )

  -- On an open port of such a server, write returns normally, and the memory is the one before with the bytes from
  -- the address on, and nothing else changed, whatever their number.
  pub write-poke :
      (address port : ℕ) (bytes : Bytes) (c : DasClient) (w : W)
      → c.port ≡ some port
      → ((write api address bytes c w).0 ≡ ok tt)
        × (memory (write api address bytes c w).2 ≡ poke address bytes (memory w))
  unfolding write
  write-poke address port bytes c w h =
      let done =
        write_loop-poke (length bytes) port (c.cfg_addr_map % 2 ^ 8) address 0 bytes
          (record c { port = some port }) w (omega arith) in
      rw (h, write) (done.0, done.1 ∙ ap (λ (k : ℕ). poke k bytes (memory w)) (omega arith))

-- On an open port of a server that gives access to its memory, what read returns behind a write of at most 2 ^ 32
-- bytes, of the same address and number, is the bytes that were written.
pub read-write :
    {W : Type 0} (api : DasApi W) (memory : W → ℕ → ℕ) (address port : ℕ) (bytes : Bytes)
    (c : DasClient) (w : W)
    → Serves api memory
    → Stores api memory
    → c.port ≡ some port
    → length bytes ≤ 2 ^ 32
    → (read api address (length bytes) c (write api address bytes c w).2).0 ≡ ok bytes
read-write api memory address port bytes c w serves stores h short =
    read-span api memory serves address (length bytes) port c (write api address bytes c w).2 h
    ∙ ap (λ m. ok (span m address (length bytes)))
        (write-poke api memory stores address port bytes c w h).1
    ∙ ap ok (span-poke address bytes (memory w) short)

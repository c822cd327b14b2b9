-- ===== src/Das/Memory.antt =====
-- DasClient::read against a memory that the server gives access to.
use tc397tools.Prelude.{
  ℕ, zero, suc, ◌+◌, ◌-◌, ◌%◌, ◌^◌, ◌≤◌, false, some, [], ◌∷◌, ◌++◌, ◌≡◌, refl, sym, ap, ◌∙◌, arith,
  ◌==◌, Bytes, codes, inl, inr, Option-cases,
}
use mathlib.Core.List.{append_assoc, append-nil}
use tc397tools.Prelude.Result.{ok}
use tc397tools.Das.State.{max_transfer, DasClient, DasApi, Transfer, fetch, Waited}
use tc397tools.Das.Transfers.{chunk_size, check_waited, run_transaction, read_loop, read}

-- The n bytes from an address on; addresses have 32 bits.
unfoldable pub span : (ℕ → ℕ) → ℕ → ℕ → Bytes
span memory a zero = []
span memory a (suc n) = memory (a % 2 ^ 32) ∷ span memory (a + 1) n

pub span-append :
    (memory : ℕ → ℕ) (a m n : ℕ) → span memory a (m + n) ≡ span memory a m ++ span memory (a + m) n
unfolding span
span-append memory a zero n =
    ap (span memory a) {x = zero + n} {y = n} (omega arith)
    ∙ ap (λ (k : ℕ). span memory k n) (omega arith)
span-append memory a (suc m) n =
    let split : suc m + n ≡ suc (m + n) = omega arith in
    let place : a + 1 + m ≡ a + suc m = omega arith in
    rw (split, span)
      (ap (◌∷◌ (memory (a % 2 ^ 32))) (
        span-append memory (a + 1) m n
        ∙ ap (λ (k : ℕ). span memory (a + 1) m ++ span memory k n) place))

span_wraps :
    (memory : ℕ → ℕ) (a b n : ℕ) → a % 2 ^ 32 ≡ b % 2 ^ 32 → span memory a n ≡ span memory b n
unfolding span
span_wraps memory a b zero h = refl
span_wraps memory a b (suc n) h = rw (h, span_wraps memory (a + 1) (b + 1) n (omega arith)) refl

chunks_join :
    (memory : ℕ → ℕ) (address offset left size : ℕ) (out : Bytes)
    → size ≤ left
    → (out ++ span memory ((address + offset) % 2 ^ 32) size)
        ++ span memory (address + (offset + size)) (left - size)
      ≡ out ++ span memory (address + offset) left
chunks_join memory address offset left size out h =
    append_assoc out _ _
    ∙ ap (◌++◌ out) (
        ap (λ (t : Bytes). t ++ span memory (address + (offset + size)) (left - size))
          (span_wraps memory ((address + offset) % 2 ^ 32) (address + offset) size (omega arith))
        ∙ ap (λ (k : ℕ). span memory (address + offset) size ++ span memory k (left - size))
            (omega arith)
        ∙ sym (span-append memory (address + offset) size (left - size))
        ∙ ap (span memory (address + offset)) {x = size + (left - size)} {y = left} (omega arith))

abbrev pub success : Bytes → Waited
success buffer = record { error = 0; list_status = 0; tx_status = 0; buffer = buffer }

-- A server that takes each list with one read transaction of at most max_transfer bytes, and answers it
-- with the bytes of its memory, which it keeps.
pub record Serves {W : Type 0} (api : DasApi W) (memory : W → ℕ → ℕ) : Type 0 where
  pub takes :
      (port map a n : ℕ) (w : W) → n ≤ max_transfer → (api.send_list port map (fetch a n) w).0 ≡ 0
  pub answers :
      (port map a n : ℕ) (w : W)
      → n ≤ max_transfer
      → (api.wait_list port (api.send_list port map (fetch a n) w).1).0
        ≡ success (span (memory w) a n)
  pub keeps :
      (port map a n : ℕ) (w : W)
      → n ≤ max_transfer
      → memory (api.wait_list port (api.send_list port map (fetch a n) w).1).1 ≡ memory w

module _ {W : Type 0} (api : DasApi W) (memory : W → ℕ → ℕ) (serves : Serves api memory) where
  run_transaction-span :
      (port map a n : ℕ) (verb : Bytes) (c : DasClient) (w : W)
      → n ≤ max_transfer
      → ((run_transaction api port map (fetch a n) verb c w).0 ≡ ok (span (memory w) a n))
        × (memory (run_transaction api port map (fetch a n) verb c w).2 ≡ memory w)
  unfolding run_transaction check_waited
  run_transaction-span port map a n verb c w h =
      rw (serves.takes port map a n w h, run_transaction)
        (rw (serves.answers port map a n w h, check_waited) (refl, serves.keeps port map a n w h))

  read_loop-span :
      (fuel port map address left offset : ℕ) (out : Bytes) (c : DasClient) (w : W)
      → left ≤ fuel
      → (read_loop api fuel port map address left offset out c w).0
        ≡ ok (out ++ span (memory w) (address + offset) left)
  unfolding read_loop span
  read_loop-span zero port map address zero offset out c w h = ap ok (sym (append-nil out))
  read_loop-span zero port map address (suc left) offset out c w h = absurd (omega arith)
  read_loop-span (suc fuel) port map address zero offset out c w h = ap ok (sym (append-nil out))
  read_loop-span (suc fuel) port map address (suc left) offset out c w h =
      let size : ℕ = chunk_size (suc left) in
      let fits : size ≤ max_transfer = ground arith in
      let some_bytes : (1 ≤ size) × (size ≤ suc left) = ground arith in
      let goes_on : (suc left == 0) ≡ false = ground arith in
      let request : Transfer = fetch ((address + offset) % 2 ^ 32) size in
      let run = run_transaction api port map request (codes "read") c w in
      let chunk =
        run_transaction-span port map ((address + offset) % 2 ^ 32) size (codes "read") c w fits in
      rw (goes_on, chunk.0)
        (read_loop-span fuel port map address (suc left - size) (offset + size)
            (out ++ span (memory w) ((address + offset) % 2 ^ 32) size) run.1 run.2 (omega arith)
          ∙ ap
              (λ (m : ℕ → ℕ). ok (
                (out ++ span (memory w) ((address + offset) % 2 ^ 32) size)
                ++ span m (address + (offset + size)) (suc left - size)))
              chunk.1
          ∙ ap ok (chunks_join (memory w) address offset (suc left) size out some_bytes.1))

  -- On an open port of such a server, read returns the bytes of the memory from the address on, as many as
  -- asked for, whatever their number: no chunk is larger than the server takes, and they join without
  -- gap or overlap.
  pub read-span :
      (address byte_count port : ℕ) (c : DasClient) (w : W)
      → c.port ≡ some port
      → (read api address byte_count c w).0 ≡ ok (span (memory w) address byte_count)
  unfolding read
  read-span address byte_count port c w h =
      rw (h, read)
        (read_loop-span byte_count port (c.cfg_addr_map % 2 ^ 8) address byte_count 0 []
            (record c { port = some port }) w (omega arith)
          ∙ ap (λ (k : ℕ). ok (span (memory w) k byte_count)) (omega arith))

  read_loop-memory :
      (fuel port map address left offset : ℕ) (out : Bytes) (c : DasClient) (w : W)
      → memory (read_loop api fuel port map address left offset out c w).2 ≡ memory w
  unfolding read_loop
  read_loop-memory zero port map address zero offset out c w = refl
  read_loop-memory zero port map address (suc left) offset out c w =
      let goes_on : (suc left == 0) ≡ false = ground arith in rw goes_on refl
  read_loop-memory (suc fuel) port map address zero offset out c w = refl
  read_loop-memory (suc fuel) port map address (suc left) offset out c w =
      let size : ℕ = chunk_size (suc left) in
      let fits : size ≤ max_transfer = ground arith in
      let goes_on : (suc left == 0) ≡ false = ground arith in
      let request : Transfer = fetch ((address + offset) % 2 ^ 32) size in
      let run = run_transaction api port map request (codes "read") c w in
      let chunk =
        run_transaction-span port map ((address + offset) % 2 ^ 32) size (codes "read") c w fits in
      rw (goes_on, chunk.0)
        (read_loop-memory fuel port map address (suc left - size) (offset + size)
            (out ++ span (memory w) ((address + offset) % 2 ^ 32) size) run.1 run.2
          ∙ chunk.1)

  -- A read keeps the memory.
  pub read-memory :
      (address byte_count : ℕ) (c : DasClient) (w : W)
      → memory (read api address byte_count c w).2 ≡ memory w
  unfolding read
  read-memory address byte_count c w = elim (Option-cases c.port) [
    | inl closed ↦ rw (closed, read) refl
    | inr (port, open_) ↦
        rw (open_, read)
          (read_loop-memory byte_count port (c.cfg_addr_map % 2 ^ 8) address byte_count 0 []
            (record c { port = some port }) w)
  ]

-- ===== src/Das/Keeps.antt =====
-- What read and write leave as it was: the client.
use tc397tools.Prelude.{
  ℕ, zero, suc, ◌-◌, ◌+◌, ◌%◌, ◌^◌, some, [], ◌∷◌, ◌++◌, take, drop, ◌≡◌, refl, arith, ◌==◌, length,
  Bytes, codes, Bool-cases, inl, inr, Option-cases,
}
use tc397tools.Prelude.Result.{Result, ok, err, undefined, stuck}
use tc397tools.Das.State.{DasClient, DasApi, Transfer, fetch, store, M, step_into}
use tc397tools.Das.Transfers.{
  chunk_size, check_waited, run_transaction, read_loop, read, write_loop, write,
}

-- A step that keeps the client, and what follows it.
step_into-keeps :
    {W A B : Type 0} (r : Result A) (c c' : DasClient) (w : W) (next : A → M W B)
    → c' ≡ c
    → ((a : A) (w' : W) → (next a c w').1 ≡ c)
    → (step_into r c' w next).1 ≡ c
step_into-keeps (ok a) c c' w next h k = rw h (k a w)
step_into-keeps (err e) c c' w next h k = h
step_into-keeps undefined c c' w next h k = h
step_into-keeps stuck c c' w next h k = h

module _ {W : Type 0} (api : DasApi W) where
  run_transaction-keeps :
      (port map : ℕ) (transfer : Transfer) (verb : Bytes) (c : DasClient) (w : W)
      → (run_transaction api port map transfer verb c w).1 ≡ c
  unfolding run_transaction check_waited
  run_transaction-keeps port map transfer verb c w = ground arith

  read_loop-keeps :
      (fuel port map address left offset : ℕ) (out : Bytes) (c : DasClient) (w : W)
      → (read_loop api fuel port map address left offset out c w).1 ≡ c
  unfolding read_loop
  read_loop-keeps zero port map address left offset out c w = ground arith
  read_loop-keeps (suc fuel) port map address left offset out c w = elim (Bool-cases (left == 0)) [
    | inl done ↦ rw (done, read_loop) refl
    | inr more ↦
        let request : Transfer = fetch ((address + offset) % 2 ^ 32) (chunk_size left) in
        let run = run_transaction api port map request (codes "read") c w in
        rw (more, read_loop)
          (step_into-keeps {B = Bytes} run.0 c run.1 run.2 _
            (run_transaction-keeps port map request (codes "read") c w)
            (λ bytes w'.
              read_loop-keeps fuel port map address (left - chunk_size left)
                (offset + chunk_size left) (out ++ bytes) c w'))
  ]

  pub read-keeps : (address n : ℕ) (c : DasClient) (w : W) → (read api address n c w).1 ≡ c
  unfolding read
  read-keeps address n c w = elim (Option-cases c.port) [
    | inl closed ↦ rw (closed, read) refl
    | inr (port, opened) ↦
        rw (opened, read)
          (read_loop-keeps n port (c.cfg_addr_map % 2 ^ 8) address n 0 []
            (record c { port = some port }) w)
  ]

  write_loop-keeps :
      (fuel port map address offset : ℕ) (bytes : Bytes) (c : DasClient) (w : W)
      → (write_loop api fuel port map address offset bytes c w).1 ≡ c
  unfolding write_loop
  write_loop-keeps zero port map address offset [] c w = refl
  write_loop-keeps zero port map address offset (b ∷ bytes) c w = refl
  write_loop-keeps (suc fuel) port map address offset bytes c w =
      elim (Bool-cases (length bytes == 0)) [
        | inl done ↦ rw (done, write_loop) refl
        | inr more ↦
            let size : ℕ = chunk_size (length bytes) in
            let request : Transfer = store ((address + offset) % 2 ^ 32) (take size bytes) in
            let run = run_transaction api port map request (codes "write") c w in
            rw (more, write_loop)
              (step_into-keeps {B = Unit {0}} run.0 c run.1 run.2 _
                (run_transaction-keeps port map request (codes "write") c w)
                (λ buffer w'.
                  write_loop-keeps fuel port map address (offset + size) (drop size bytes) c w'))
      ]

  pub write-keeps :
      (address : ℕ) (bytes : Bytes) (c : DasClient) (w : W) → (write api address bytes c w).1 ≡ c
  unfolding write
  write-keeps address bytes c w = elim (Option-cases c.port) [
    | inl closed ↦ rw (closed, write) refl
    | inr (port, opened) ↦
        rw (opened, write)
          (write_loop-keeps (length bytes) port (c.cfg_addr_map % 2 ^ 8) address 0 bytes
            (record c { port = some port }) w)
  ]

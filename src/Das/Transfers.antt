-- ===== src/Das/Transfers.antt =====
-- run_transaction, DasClient::read and DasClient::write of TasGui/src/das_client.cpp.
use tc397tools.Prelude.{
  ℕ, zero, suc, ◌+◌, ◌-◌, ◌%◌, ◌^◌, not, ◌||◌, none, some, [], ◌∷◌, ◌++◌, ltb, ◌==◌, if◌then◌else◌,
  length, take, drop, Bytes, codes,
}
use tc397tools.Prelude.Result.{stuck}
use tc397tools.Das.State.{
  max_transfer, Transfer, fetch, store, Waited, DasApi, M, ◌>>=◌, pure, fail, outside, client,
  describe_error,
}

-- `std::min<size_t>(kMaxTransfer, n)`
abbrev pub chunk_size : ℕ → ℕ
chunk_size n = if ltb n max_transfer then n else max_transfer

module _ {W : Type 0} (api : DasApi W) where
  -- The checks behind wait_list; snprintf writes 159 characters at most.
  unfoldable pub check_waited : Bytes → Waited → M W Bytes
  unfolding describe_error
  check_waited verb done =
      if not (done.error == 0) || not (done.list_status == 0) || not (done.tx_status == 0)
      then fail (
          take 159 (
            verb
            ++ (codes " failed: api="
                ++ (describe_error api done.error
                    ++ (codes " list=0x"
                        ++ (api.hex done.list_status
                            ++ (codes " tx=0x" ++ api.hex done.tx_status)))))))
      else pure done.buffer

  unfoldable pub run_transaction : ℕ → ℕ → Transfer → Bytes → M W Bytes
  unfolding check_waited
  run_transaction port addr_map transfer verb = do
    e ← outside (api.send_list port addr_map transfer)
    if e == 0
        then (do done ← outside (api.wait_list port); check_waited verb done)
        else fail (verb ++ (codes " send_list failed: " ++ describe_error api e))

  -- The loop of read, from `offset` on, with the bytes read so far. Each round reads one byte at least,
  -- so `byte_count` rounds are enough.
  unfoldable pub read_loop : ℕ → ℕ → ℕ → ℕ → ℕ → ℕ → Bytes → M W Bytes
  read_loop zero port addr_map address left offset out =
      if left == 0 then pure out else λ c w. (stuck, c, w)
  read_loop (suc fuel) port addr_map address left offset out =
      let size = chunk_size left in
      let more = (do
        chunk ←
            run_transaction port addr_map (fetch ((address + offset) % 2 ^ 32) size) (codes "read")
        read_loop fuel port addr_map address (left - size) (offset + size) (out ++ chunk)) in
      if left == 0 then pure out else more

  unfoldable pub read : ℕ → ℕ → M W Bytes
  read address byte_count = do
    c ← client
    elim c.port [
      | none ↦ fail (codes "TAS is not connected")
      | some port ↦ read_loop byte_count port (c.cfg_addr_map % 2 ^ 8) address byte_count 0 []
    ]

  -- The loop of write; the list is what stands in `data` from `offset` on.
  unfoldable pub write_loop : ℕ → ℕ → ℕ → ℕ → ℕ → Bytes → M W (Unit {0})
  write_loop zero port addr_map address offset bytes = elim bytes [
    | [] ↦ pure tt
    | ◌∷◌ _ _ ↦ λ c w. (stuck, c, w)
  ]
  write_loop (suc fuel) port addr_map address offset bytes =
      let size = chunk_size (length bytes) in
      let more = (do
        buffer ←
            run_transaction port addr_map (store ((address + offset) % 2 ^ 32) (take size bytes))
              (codes "write")
        write_loop fuel port addr_map address (offset + size) (drop size bytes)) in
      if length bytes == 0 then pure tt else more

  unfoldable pub write : ℕ → Bytes → M W (Unit {0})
  write address bytes = do
    c ← client
    elim c.port [
      | none ↦ fail (codes "TAS is not connected")
      | some port ↦ write_loop (length bytes) port (c.cfg_addr_map % 2 ^ 8) address 0 bytes
    ]

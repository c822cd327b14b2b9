-- ===== src/ElfIndex/Loaded.antt =====
-- When an index is loaded, and what resolve leaves as it was.
use tc397tools.Prelude.{
  ℕ, Bool, false, Option, none, some, List, [], ◌≡◌, refl, arith, ◌==◌, Bytes, Bool-cases, inl, inr,
  Option-cases,
}
use tc397tools.Prelude.Result.{Result, ok, err, undefined, stuck}
use tc397tools.Json.{VarEntry, parse_index_json}
use tc397tools.Elf.{Platform, Handle, tc397_elf_write_member_index, tc397_elf_open}
use tc397tools.ElfIndex.State.{ElfIndex, zeros}
use tc397tools.ElfIndex.Load.{
  Loading, needs_index, open_handle, read_index, regenerate, load, kept_handle, parsed, generated,
}
use tc397tools.ElfIndex.Resolve.{resolve}

-- The answer of load says whether the index is loaded.
abbrev Says : {W : Type 0} → Loading W → Type 0
Says done = (b : Bool) → done.0 ≡ ok b → (done.1).loaded ≡ b

module _ {W : Type 0} (platform : Platform W) where
  kept_handle-Says :
      (r : Result (Option Handle × Option Bytes)) (index : ElfIndex) (w : W)
      → Says (kept_handle platform r index w)
  kept_handle-Says (ok (handle, error)) index w b h = ground arith
  kept_handle-Says (err e) index w b h = ground arith
  kept_handle-Says undefined index w b h = ground arith
  kept_handle-Says stuck index w b h = ground arith

  open_handle-Says :
      (elf_path : Bytes) (index : ElfIndex) (w : W) → Says (open_handle platform elf_path index w)
  unfolding open_handle
  open_handle-Says elf_path index w = elim (Bool-cases (platform.exists elf_path w)) [
    | inl there ↦
        rw (there, open_handle)
          (kept_handle-Says (tc397_elf_open platform (some elf_path) (some (zeros 4096)) w)
            (record index { handle = none }) w)
    | inr missing ↦ rw (missing, open_handle) (λ b h. ground arith)
  ]

  parsed-Says :
      (elf_path : Bytes) (entries : List VarEntry) (r : Result (Unit {0})) (index : ElfIndex)
      (w : W)
      → index.loaded ≡ false
      → Says (parsed platform elf_path entries r index w)
  parsed-Says elf_path entries (ok done) index w k =
      open_handle-Says elf_path (record index { entries = entries }) w
  parsed-Says elf_path entries (err e) index w k = λ b h. ground arith
  parsed-Says elf_path entries undefined index w k = λ b h. ground arith
  parsed-Says elf_path entries stuck index w k = λ b h. ground arith

  read_index-Says :
      (elf_path json_path : Bytes) (index : ElfIndex) (w : W)
      → index.loaded ≡ false
      → Says (read_index platform elf_path json_path index w)
  unfolding read_index
  read_index-Says elf_path json_path index w k =
      elim (Option-cases (platform.read_file json_path w)) [
        | inl missing ↦ rw (missing, read_index) (λ b h. ground arith)
        | inr (text, there) ↦
            rw (there, read_index)
              (parsed-Says elf_path (parse_index_json text).0 (parse_index_json text).1 index w k)
      ]

  generated-Says :
      (elf_path json_path : Bytes) (r : Result (ℕ × Option Bytes)) (index : ElfIndex) (w : W)
      → index.loaded ≡ false
      → Says (generated platform elf_path json_path r index w)
  generated-Says elf_path json_path (ok (code, error)) index w k = elim (Bool-cases (code == 0)) [
    | inl fine ↦ rw fine (read_index-Says elf_path json_path index w k)
    | inr wrong ↦ rw wrong (λ b h. ground arith)
  ]
  generated-Says elf_path json_path (err e) index w k = λ b h. ground arith
  generated-Says elf_path json_path undefined index w k = λ b h. ground arith
  generated-Says elf_path json_path stuck index w k = λ b h. ground arith

  regenerate-Says :
      (fuel : ℕ) (elf_path json_path : Bytes) (max_depth : ℕ) (index : ElfIndex) (w : W)
      → index.loaded ≡ false
      → Says (regenerate platform fuel elf_path json_path max_depth index w)
  unfolding regenerate
  regenerate-Says fuel elf_path json_path max_depth index w k =
      elim (Bool-cases (platform.exists elf_path w)) [
        | inl there ↦
            let run =
              tc397_elf_write_member_index platform fuel (some elf_path) (some json_path) max_depth
                (some []) (some (zeros 4096)) w in
            rw (there, regenerate) (generated-Says elf_path json_path run.0 index run.1 k)
        | inr missing ↦ rw (missing, regenerate) (λ b h. ground arith)
      ]

  pub load_returns :
      (fuel : ℕ) (elf_path json_path : Bytes) (max_depth : ℕ) (force_regen : Bool)
      (index : ElfIndex) (w : W) (b : Bool)
      → (load platform fuel elf_path json_path max_depth force_regen index w).0 ≡ ok b
      → (load platform fuel elf_path json_path max_depth force_regen index w).1.loaded ≡ b
  unfolding load
  load_returns fuel elf_path json_path max_depth force_regen index w =
      let begun : ElfIndex = record index { error = []; loaded = false; elf_path = elf_path } in
      elim (Bool-cases (needs_index platform elf_path json_path force_regen w)) [
        | inl stale ↦
            rw (stale, load) (regenerate-Says fuel elf_path json_path max_depth begun w refl)
        | inr fresh ↦ rw (fresh, load) (read_index-Says elf_path json_path begun w refl)
      ]

  pub resolve-keeps :
      (fuel : ℕ) (expr : Bytes) (index : ElfIndex)
      → ((resolve platform fuel expr index).1.entries ≡ index.entries)
        × ((resolve platform fuel expr index).1.loaded ≡ index.loaded)
  unfolding resolve
  resolve-keeps fuel expr index = elim (Option-cases index.handle) [
    | inl closed ↦ rw (closed, resolve) (refl, refl)
    | inr (handle, opened) ↦ rw (opened, resolve) (refl, refl)
  ]

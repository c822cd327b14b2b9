-- ===== src/ElfIndex/Load.antt =====
-- ElfIndex::load. The C interface is that of Elf; the file system is its parameter.
use tc397tools.Prelude.{
  ℕ, Bool, true, false, not, ◌||◌, Option, none, some, List, [], ◌++◌, ltb, if◌then◌else◌, ◌==◌,
  Bytes, codes,
}
use tc397tools.Prelude.Result.{Result, ok, err, undefined, stuck}
use tc397tools.Json.{VarEntry, parse_index_json}
use tc397tools.Elf.{Platform, Handle, what, tc397_elf_write_member_index, tc397_elf_open}
use tc397tools.ElfIndex.State.{ElfIndex, zeros, text_of}

-- What load returns, the index and the file system behind it.
abbrev pub Loading : Type 0 → Type 0
Loading W = Result Bool × ElfIndex × W

module _ {W : Type 0} (platform : Platform W) where
  -- `error_ = …; return false;`
  abbrev fails : Bytes → ElfIndex → W → Loading W
  fails text index w = (ok false, record index { error = text }, w)

  unfoldable pub needs_index : Bytes → Bytes → Bool → W → Bool
  needs_index elf_path json_path force_regen w =
      if force_regen || not (platform.exists json_path w)
      then true
      else if platform.exists elf_path w
      then ltb (platform.mtime json_path w) (platform.mtime elf_path w)
      else false

  abbrev pub kept_handle : Result (Option Handle × Option Bytes) → ElfIndex → W → Loading W
  kept_handle (ok (handle, error)) index w =
      (ok true, record index { handle = handle; loaded = true }, w)
  kept_handle (err e) index w = (err e, index, w)
  kept_handle undefined index w = (undefined, index, w)
  kept_handle stuck index w = (stuck, index, w)

  -- Behind parse_index_json: the handle is closed and opened again where the file is there.
  unfoldable pub open_handle : Bytes → ElfIndex → W → Loading W
  open_handle elf_path index w =
      if platform.exists elf_path w
      then kept_handle (tc397_elf_open platform (some elf_path) (some (zeros 4096)) w)
          (record index { handle = none }) w
      else (ok true, record index { loaded = true }, w)

  -- `if (!parse_index_json(text)) return false;`
  abbrev pub parsed : Bytes → List VarEntry → Result (Unit {0}) → ElfIndex → W → Loading W
  parsed elf_path entries (ok done) index w =
      open_handle elf_path (record index { entries = entries }) w
  parsed elf_path entries (err e) index w =
      fails (codes "failed to parse index JSON: " ++ what platform e)
        (record index { entries = entries }) w
  parsed elf_path entries undefined index w = (undefined, record index { entries = entries }, w)
  parsed elf_path entries stuck index w = (stuck, record index { entries = entries }, w)

  -- From the opening of the index on.
  unfoldable pub read_index : Bytes → Bytes → ElfIndex → W → Loading W
  read_index elf_path json_path index w = elim (platform.read_file json_path w) [
    | none ↦ fails (codes "cannot open index JSON: " ++ json_path) index w
    | some text ↦ parsed elf_path (parse_index_json text).0 (parse_index_json text).1 index w
  ]

  abbrev pub generated : Bytes → Bytes → Result (ℕ × Option Bytes) → ElfIndex → W → Loading W
  generated elf_path json_path (ok (code, error)) index w =
      if code == 0
      then read_index elf_path json_path index w
      else fails (codes "index generation failed: " ++ text_of error) index w
  generated elf_path json_path (err e) index w = (err e, index, w)
  generated elf_path json_path undefined index w = (undefined, index, w)
  generated elf_path json_path stuck index w = (stuck, index, w)

  -- The branch of `need_regen`.
  unfoldable pub regenerate : ℕ → Bytes → Bytes → ℕ → ElfIndex → W → Loading W
  regenerate fuel elf_path json_path max_depth index w =
      let (result, w₁) =
        tc397_elf_write_member_index platform fuel (some elf_path) (some json_path) max_depth
          (some []) (some (zeros 4096)) w in
      if not (platform.exists elf_path w)
      then fails (codes "ELF file not found: " ++ elf_path) index w
      else generated elf_path json_path result index w₁

  unfoldable pub load : ℕ → Bytes → Bytes → ℕ → Bool → ElfIndex → W → Loading W
  load fuel elf_path json_path max_depth force_regen index w =
      let begun = record index { error = []; loaded = false; elf_path = elf_path } in
      if needs_index elf_path json_path force_regen w
      then regenerate fuel elf_path json_path max_depth begun w
      else read_index elf_path json_path begun w

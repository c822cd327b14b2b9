-- ===== src/ElfIndex/Regenerated.antt =====
-- ElfIndex::load with `force_regen`: what is read of the index that the resolver has written.
use mathlib.Core.List.{map, Perm}
use tc397tools.Prelude.{
  ℕ, ◌^◌, ◌<◌, true, false, ◌||◌, Option, some, List, [], ◌≡◌, refl, ap, ◌∙◌, arith, ◌==◌, leb,
  Bytes, All, Bool-cases, inl, inr,
}
use tc397tools.Prelude.Result.{ok}
use tc397tools.Dwarf.{MemberPath}
use tc397tools.Json.{VarEntry, parse_index_json, to_member_index_json}
use tc397tools.Json.Entry.{IsItem, entry_of}
use tc397tools.Json.RoundTrip.{index_entries, parse_index_json-to_member_index_json}
use tc397tools.Elf.{
  Image, Platform, Handle, open_image, index_items, index_text, write_text, write_member_index_json,
  tc397_elf_write_member_index, tc397_elf_open, copy_string,
}
use tc397tools.ElfIndex.State.{ElfIndex, zeros}
use tc397tools.ElfIndex.Load.{needs_index, open_handle, read_index, regenerate, load}

-- The file at `json_path` can be opened and written, then reads back as what was written; the ELF file stays.
pub record Writable {W : Type 0} (platform : Platform W) (elf_path json_path : Bytes) : Type 0 where
  pub opens : (w : W) → (platform.open_output json_path w).0 ≡ true
  pub writes :
      (text : Bytes) (w : W)
      → (platform.write_output json_path text (platform.open_output json_path w).1).0 ≡ true
  pub reads_back :
      (text : Bytes) (w : W)
      → platform.read_file json_path
          (platform.write_output json_path text (platform.open_output json_path w).1).1
        ≡ some text
  pub keeps_elf :
      (text : Bytes) (w : W)
      → platform.load_elf elf_path
          (platform.write_output json_path text (platform.open_output json_path w).1).1
        ≡ platform.load_elf elf_path w

module _ {W : Type 0} (platform : Platform W) (elf_path json_path : Bytes)
    (writable : Writable platform elf_path json_path) where
  abbrev after_write : Bytes → W → W
  after_write text w = (platform.write_output json_path text (platform.open_output json_path w).1).1

  write_text-ok :
      (text : Bytes) (w : W) → write_text platform json_path text w ≡ (ok tt, after_write text w)
  unfolding write_text
  write_text-ok text w = rw (writable.opens w, writable.writes text w, write_text) refl

  index_text-ok :
      (fuel max_depth : ℕ) (version : Bytes) (image : Option Image) (handle : Handle)
      (items : List MemberPath)
      → 0 < max_depth
      → max_depth < 2 ^ 31
      → open_image image elf_path ≡ ok handle
      → index_items fuel max_depth handle ≡ ok items
      → index_text fuel elf_path max_depth version image
        ≡ ok (to_member_index_json elf_path items max_depth version)
  unfolding index_text
  index_text-ok fuel max_depth version image handle items some_depth short opened listed =
      let deep : (max_depth == 0 || leb (2 ^ 31) max_depth) ≡ false = ground arith in
      rw (deep, opened, listed, index_text) refl

  open_handle-ok :
      (index : ElfIndex) (w : W) (handle : Handle)
      → open_image (platform.load_elf elf_path w) elf_path ≡ ok handle
      → ((open_handle platform elf_path index w).0 ≡ ok true)
        × ((open_handle platform elf_path index w).1.entries ≡ index.entries)
  unfolding open_handle tc397_elf_open
  open_handle-ok index w handle opened = elim (Bool-cases (platform.exists elf_path w)) [
    | inl there ↦ rw (there, open_handle, opened) (refl, refl)
    | inr missing ↦ rw (missing, open_handle) (refl, refl)
  ]

  read_index-ok :
      (text : Bytes) (entries : List VarEntry) (index : ElfIndex) (w : W) (handle : Handle)
      → platform.read_file json_path w ≡ some text
      → parse_index_json text ≡ (entries, ok tt)
      → open_image (platform.load_elf elf_path w) elf_path ≡ ok handle
      → ((read_index platform elf_path json_path index w).0 ≡ ok true)
        × ((read_index platform elf_path json_path index w).1.entries ≡ entries)
  unfolding read_index
  read_index-ok text entries index w handle there read opened =
      rw (there, read_index, read)
        (open_handle-ok (record index { entries = entries }) w handle opened)

  written_index :
      (fuel max_depth : ℕ) (buffer : Option Bytes) (w : W) (handle : Handle)
      (items : List MemberPath)
      → 0 < max_depth
      → max_depth < 2 ^ 31
      → open_image (platform.load_elf elf_path w) elf_path ≡ ok handle
      → index_items fuel max_depth handle ≡ ok items
      → tc397_elf_write_member_index platform fuel
          (some elf_path)
          (some json_path)
          max_depth
          (some [])
          buffer
          w
        ≡ (
          ok (0, copy_string [] buffer),
          after_write (to_member_index_json elf_path items max_depth []) w,
        )
  unfolding tc397_elf_write_member_index write_member_index_json
  written_index fuel max_depth buffer w handle items some_depth short opened listed =
      rw
        (
          index_text-ok fuel max_depth [] (platform.load_elf elf_path w) handle items some_depth
              short opened listed,
          write_text-ok (to_member_index_json elf_path items max_depth []) w,
        )
        refl

  -- Where the JSON file can be written and reads back, the ELF file is there and stays and can be opened, the depth is a
  -- positive int, and index_items, the resolver's pass over the handle, ends with the fuel given and succeeds with
  -- items whose addresses and sizes are below 2 ^ 64, a forced load of the index succeeds, and the entries are those of
  -- these items, a permutation of them.
  pub load-index_items :
      (fuel max_depth : ℕ) (index : ElfIndex) (w : W) (handle : Handle) (items : List MemberPath)
      → 0 < max_depth
      → max_depth < 2 ^ 31
      → platform.exists elf_path w ≡ true
      → open_image (platform.load_elf elf_path w) elf_path ≡ ok handle
      → index_items fuel max_depth handle ≡ ok items
      → All IsItem items
      → ((load platform fuel elf_path json_path max_depth true index w).0 ≡ ok true)
        × ((load platform fuel elf_path json_path max_depth true index w).1.entries
            ≡ index_entries items)
        × Perm (index_entries items) (map entry_of items)
  unfolding load needs_index regenerate
  load-index_items fuel max_depth index w handle items some_depth short there opened listed sized =
      let text : Bytes = to_member_index_json elf_path items max_depth [] in
      let back = parse_index_json-to_member_index_json elf_path items max_depth [] sized in
      let begun : ElfIndex = record index { error = []; loaded = false; elf_path = elf_path } in
      let done =
        read_index-ok text (index_entries items) begun (after_write text w) handle
          (writable.reads_back text w) back.0
          (ap (λ image. open_image image elf_path) (writable.keeps_elf text w) ∙ opened) in
      let run =
        written_index fuel max_depth (some (zeros 4096)) w handle items some_depth short opened
          listed in
      rw (there, run) (done.0, done.1, back.1)

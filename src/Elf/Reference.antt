-- ===== src/Elf/Reference.antt =====
-- resolve_reference, ResolverHandle and write_member_index_json.
use tc397tools.Prelude.{
  ℕ, ◌^◌, Bool, not, ◌||◌, Option, none, some, List, ◌++◌, map, leb, ◌==◌, if◌then◌else◌, Bytes,
  codes,
}
use tc397tools.Prelude.Result.{Result, ok, err, undefined, stuck, runtime_error, throw, ◌>>=◌}
use tc397tools.Prelude.Sort.{sort}
use tc397tools.Expression.{ParsedExpression, parse_expression}
use tc397tools.Dwarf.{
  MemberPath, VariableRef, Resolver, construct, available, resolve, build_member_index, item_less,
}
use tc397tools.Dwarf as Dwarf
use tc397tools.Symbols.{ElfSection, resolve_symbol, add_symbol_variables_to_index}
use tc397tools.Json.{to_member_index_json}
use tc397tools.Elf.Files.{Image, Platform}

-- ResolverHandle: the loaded file, and the resolver with what it has parsed so far.
pub record Handle : Type 0 where
  pub sections : List ElfSection
  pub dwarf : Resolver

unfoldable pub open_image : Option Image → Bytes → Result Handle
open_image none path = err (runtime_error (codes "failed to load ELF: " ++ path))
open_image (some image) path = do
  dwarf ← construct image.debug_info image.debug_abbrev
  ok (record { sections = image.sections; dwarf = dwarf })

-- ResolverHandle::resolve; the resolver keeps what it has parsed.
unfoldable pub resolve_on : ℕ → Bytes → Bool → Bool → Handle → Result VariableRef × Handle
resolve_on fuel expression include_zero_size include_notype handle =
    let in_symbols = λ (parsed : ParsedExpression). (do
      found ← resolve_symbol handle.sections parsed include_zero_size include_notype
      elim found [
        | some ref ↦ ok (record ref { expression = expression })
        | none ↦ err (runtime_error (codes "ELF variable not found: " ++ expression))
      ]) in
    let run : Dwarf.M VariableRef = Dwarf.◌>>=◌ (Dwarf.lift (parse_expression expression)) λ parsed.
      Dwarf.◌>>=◌ (resolve fuel parsed) λ found. elim found [
        | some ref ↦ Dwarf.pure (record ref { expression = expression })
        | none ↦ Dwarf.lift (in_symbols parsed)
      ] in
    let (result, dwarf) = run handle.dwarf in (result, record handle { dwarf = dwarf })

unfoldable pub resolve_reference :
    {W : Type 0} → Platform W → ℕ → Bytes → Bytes → Bool → Bool → W → Result VariableRef
resolve_reference platform fuel elf_path expression include_zero_size include_notype w = do
  parsed ← parse_expression expression
  elim (platform.load_elf elf_path w) [
    | none ↦ err (runtime_error (codes "failed to load ELF: " ++ elf_path))
    | some image ↦ (do
      dwarf ← construct image.debug_info image.debug_abbrev
      from_dwarf ← (resolve fuel parsed dwarf).0
      elim from_dwarf [
        | some ref ↦ ok (record ref { expression = expression })
        | none ↦ (do
          from_symbols ← resolve_symbol image.sections parsed include_zero_size include_notype
          elim from_symbols [
            | some ref ↦ ok (record ref { expression = expression })
            | none ↦ err (runtime_error (codes "ELF variable not found: " ++ expression))
          ])
      ])
  ]

-- The items that write_member_index_json writes, for an open file.
unfoldable pub index_items : ℕ → ℕ → Handle → Result (List MemberPath)
index_items fuel max_depth handle =
    let members = (build_member_index max_depth fuel handle.dwarf).0 in
    if not (available handle.dwarf)
    then throw "ELF has no usable DWARF .debug_info/.debug_abbrev"
    else do
      items ← members
      let seen = map (λ (item : MemberPath). item.expression) items
      ok (
          sort item_less
            (add_symbol_variables_to_index handle.sections
              (record { seen = seen; items = items })).items)

-- The text that write_member_index_json writes. `max_depth` is the 32 bits of an int.
unfoldable pub index_text : ℕ → Bytes → ℕ → Bytes → Option Image → Result Bytes
index_text fuel elf_path max_depth mcu_version image =
    if max_depth == 0 || leb (2 ^ 31) max_depth
    then throw "max_depth must be greater than zero"
    else do
      handle ← open_image image elf_path
      items ← index_items fuel max_depth handle
      ok (to_member_index_json elf_path items max_depth mcu_version)

-- The part of write_member_index_json that writes: the file is opened, then written.
unfoldable pub write_text : {W : Type 0} → Platform W → Bytes → Bytes → W → Result (Unit {0}) × W
write_text platform json_path text w =
    let (opened, w₁) = platform.open_output json_path w in
    let (written, w₂) = platform.write_output json_path text w₁ in
    if not opened
    then (err (runtime_error (codes "failed to open JSON output: " ++ json_path)), w₁)
    else if not written
    then (err (runtime_error (codes "failed to write JSON output: " ++ json_path)), w₂)
    else (ok tt, w₂)

abbrev then_write : {W : Type 0} → Platform W → Bytes → Result Bytes → W → Result (Unit {0}) × W
then_write platform json_path (ok text) w = write_text platform json_path text w
then_write platform json_path (err e) w = (err e, w)
then_write platform json_path undefined w = (undefined, w)
then_write platform json_path stuck w = (stuck, w)

unfoldable pub write_member_index_json :
    {W : Type 0} → Platform W → ℕ → Bytes → Bytes → ℕ → Bytes → W → Result (Unit {0}) × W
write_member_index_json platform fuel elf_path json_path max_depth mcu_version w =
    then_write platform json_path
      (index_text fuel elf_path max_depth mcu_version (platform.load_elf elf_path w)) w

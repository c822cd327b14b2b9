-- ===== src/Elf/Fresh.antt =====
-- Opening a handle and resolving on it, and resolve_reference, which does both.
use tc397tools.Prelude.{ℕ, Bool, Bytes, Option, none, some, List, ◌≡◌, refl, sym, codes, ◌++◌}
use tc397tools.Prelude.Result.{Result, ok, err, undefined, stuck, runtime_error, ◌>>=◌}
use tc397tools.Expression.{ParsedExpression, parse_expression}
use tc397tools.Dwarf.{VariableRef, construct, resolve}
use tc397tools.Dwarf as Dwarf
use tc397tools.Symbols.{ElfSection, resolve_symbol}
use tc397tools.Elf.Files.{Platform, Image}
use tc397tools.Elf.Reference.{Handle, open_image, resolve_on, resolve_reference}

module _ (fuel : ℕ) (expression : Bytes) (zero_size notype : Bool) where
  -- What comes of a handle that has just been opened: that of ResolverHandle::resolve on it. An expression that
  -- does not parse is reported before a file that cannot be opened.
  abbrev pub opened_then : Result Handle → Result VariableRef
  opened_then (ok handle) = (resolve_on fuel expression zero_size notype handle).0
  opened_then (err e) = parse_expression expression >>= λ parsed. err e
  opened_then undefined = parse_expression expression >>= λ parsed. undefined
  opened_then stuck = parse_expression expression >>= λ parsed. stuck

  abbrev from_symbols : List ElfSection → ParsedExpression → Result VariableRef
  from_symbols sections parsed = resolve_symbol sections parsed zero_size notype >>= λ found.
      elim found [
        | some ref ↦ ok (record ref { expression = expression })
        | none ↦ err (runtime_error (codes "ELF variable not found: " ++ expression))
      ]

  -- A search in the DWARF information, and then in the symbols, on a state or on its value.
  found_either :
      (x : Result (Option VariableRef)) (dwarf : Dwarf.Resolver) (symbols : Result VariableRef)
      → (Dwarf.step_into x dwarf (λ found. elim found as (λ found. Dwarf.M VariableRef) [
        | some ref ↦ Dwarf.pure (record ref { expression = expression })
        | none ↦ Dwarf.lift symbols
      ])).0
        ≡ (x >>= λ found. elim found as (λ found. Result VariableRef) [
          | some ref ↦ ok (record ref { expression = expression })
          | none ↦ symbols
        ])
  found_either (ok none) dwarf symbols = refl
  found_either (ok (some ref)) dwarf symbols = refl
  found_either (err e) dwarf symbols = refl
  found_either undefined dwarf symbols = refl
  found_either stuck dwarf symbols = refl

  abbrev both : List ElfSection → ParsedExpression → Dwarf.Resolver → Result VariableRef
  both sections parsed dwarf = (resolve fuel parsed dwarf).0 >>= λ found. elim found [
    | some ref ↦ ok (record ref { expression = expression })
    | none ↦ from_symbols sections parsed
  ]

  on_handle :
      (p : Result ParsedExpression) (sections : List ElfSection) (dwarf : Dwarf.Resolver)
      → (p >>= λ parsed. both sections parsed dwarf)
        ≡ (Dwarf.step_into p dwarf (λ parsed. Dwarf.◌>>=◌ (resolve fuel parsed) λ found.
            elim found as (λ found. Dwarf.M VariableRef) [
              | some ref ↦ Dwarf.pure (record ref { expression = expression })
              | none ↦ Dwarf.lift (from_symbols sections parsed)
            ])).0
  on_handle (ok parsed) sections dwarf =
      let found = resolve fuel parsed dwarf in
      sym (found_either found.0 found.1 (from_symbols sections parsed))
  on_handle (err e) sections dwarf = refl
  on_handle undefined sections dwarf = refl
  on_handle stuck sections dwarf = refl

  on_image :
      (sections : List ElfSection) (x : Result Dwarf.Resolver)
      → (parse_expression expression >>= λ parsed. x >>= λ dwarf. both sections parsed dwarf)
        ≡ opened_then (x >>= λ dwarf. ok (record { sections = sections; dwarf = dwarf }))
  unfolding resolve_on
  on_image sections (ok dwarf) = on_handle (parse_expression expression) sections dwarf
  on_image sections (err e) = refl
  on_image sections undefined = refl
  on_image sections stuck = refl

  on_file :
      (file : Option Image) (elf_path : Bytes)
      → (parse_expression expression >>= λ parsed. elim file as (λ file. Result VariableRef) [
        | none ↦ err (runtime_error (codes "failed to load ELF: " ++ elf_path))
        | some image ↦ construct image.debug_info image.debug_abbrev >>= λ dwarf.
            both image.sections parsed dwarf
      ])
        ≡ opened_then (open_image file elf_path)
  unfolding open_image
  on_file none elf_path = refl
  on_file (some image) elf_path =
      on_image image.sections (construct image.debug_info image.debug_abbrev)

-- resolve_reference gives what opening a handle on the file and resolving on it gives, the errors included, but that
-- an expression that does not parse is reported before a file that cannot be opened.
pub resolve_on-resolve_reference :
    {W : Type 0} (platform : Platform W) (fuel : ℕ) (elf_path expression : Bytes)
    (zero_size notype : Bool) (w : W)
    → resolve_reference platform fuel elf_path expression zero_size notype w
      ≡ opened_then fuel expression zero_size notype
          (open_image (platform.load_elf elf_path w) elf_path)
unfolding resolve_reference
resolve_on-resolve_reference platform fuel elf_path expression zero_size notype w =
    on_file fuel expression zero_size notype (platform.load_elf elf_path w) elf_path

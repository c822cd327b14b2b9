-- ===== src/Elf/Sources.antt =====
-- Where the items of the index come from that write_member_index_json writes, and what stands in it.
use tc397tools.Prelude.{
  ℕ, List, [], ◌∷◌, map, ◌≡◌, refl, arith, subst, All, Bool-cases, inl, inr, ◌⊎◌, Bytes, some,
  bytes_eq, bytes_eq_iff,
}
use tc397tools.Prelude.Result.{Result, ok, err, undefined, stuck, ◌>>=◌, Result-cases}
use tc397tools.Prelude.Sort.{sort}
use tc397tools.Prelude.Sorted.{All-sort}
use tc397tools.Dwarf.{
  Resolver, MemberPath, available, item_less, build_member_index, construct, seen_before,
}
use tc397tools.Dwarf.Runs.{gives}
use tc397tools.Dwarf.Table.{IsTable, All-weaken}
use tc397tools.Dwarf.Layout.{IsTraced}
use tc397tools.Dwarf.Settled.{any_end}
use tc397tools.Dwarf.Indexed.{Indexes, build_member_index-Runs}
use tc397tools.Dwarf.Used.{opened, Used-IsTable}
use tc397tools.Symbols.{ElfSymbol, ElfSection, symbol_item, add_symbol_variables_to_index}
use tc397tools.Symbols.Added.{IsSymbol, add_symbol_variables_to_index-All}
use tc397tools.Symbols.Listed.{Listed, IsBacked, add_symbol_variables_to_index-Listed, sort-Listed}
use tc397tools.Elf.Files.{Image}
use tc397tools.Elf.Reference.{Handle, open_image, index_items}

-- An item says what the debug information says, or what a symbol says.
abbrev pub IsSource : Resolver → ℕ → List ElfSection → MemberPath → Type 0
IsSource r fuel sections item =
    IsTraced r fuel item
    ⊎ ((symbol : ElfSymbol) × IsSymbol sections symbol × (item ≡ symbol_item symbol))

abbrev GivenItems : (List MemberPath → Type 0) → Result (List MemberPath) → Type 0
GivenItems P (ok items) = P items
GivenItems P (err e) = Unit
GivenItems P undefined = Unit
GivenItems P stuck = Unit

-- What index_items does with the items of the debug information.
abbrev complete : List ElfSection → Result (List MemberPath) → Result (List MemberPath)
complete sections members = members >>= λ items.
    let seen = map (λ (item : MemberPath). item.expression) items in
    ok (
      sort item_less
        (add_symbol_variables_to_index sections (record { seen = seen; items = items })).items)

complete-IsSource :
    (fuel : ℕ) (sections : List ElfSection) (x : Result (List MemberPath) × Resolver)
    → Indexes fuel (Unit {0}) x
    → GivenItems (All (IsSource x.1 fuel sections)) (complete sections x.0)
complete-IsSource fuel sections (ok items, r) (gives h) =
    All-sort (IsSource r fuel sections) item_less _ (
      add_symbol_variables_to_index-All (IsSource r fuel sections) sections _
        (λ symbol s. inr (symbol, s, refl)) (All-weaken _ _ items (λ item t. inl t) h.1))
complete-IsSource fuel sections (err e, r) h = tt
complete-IsSource fuel sections (undefined, r) h = tt
complete-IsSource fuel sections (stuck, r) h = tt

-- Where there is an index, it is what `complete` makes of the items of the debug information.
given_items :
    (P : List MemberPath → Type 0) (fuel max_depth : ℕ) (handle : Handle) (items : List MemberPath)
    → GivenItems P (complete handle.sections (build_member_index max_depth fuel handle.dwarf).0)
    → index_items fuel max_depth handle ≡ ok items
    → P items
unfolding index_items
given_items P fuel max_depth handle items h e =
    let good : GivenItems P (index_items fuel max_depth handle) =
      elim (Bool-cases (available handle.dwarf)) [
        | inl usable ↦ rw usable h
        | inr bare ↦ rw bare tt
      ] in
    subst (GivenItems P) e good

opened-IsTable :
    (image : Image) (path : Bytes) (handle : Handle)
    → open_image (some image) path ≡ ok handle
    → IsTable handle.dwarf
unfolding open_image
opened-IsTable image path handle e = Used-IsTable image.debug_info image.debug_abbrev handle.dwarf (
    opened (elim (Result-cases (construct image.debug_info image.debug_abbrev)) [
      | inl (dwarf, constructed) ↦ ground arith
      | inr other ↦ absurd (ground arith)
    ]))

-- For a file that has been opened, each item that write_member_index_json writes says what the DWARF information
-- says of a variable or of a member below it, or is the item of a variable of a symbol table.
pub index_items-IsSource :
    (image : Image) (path : Bytes) (fuel max_depth : ℕ) (handle : Handle) (items : List MemberPath)
    → open_image (some image) path ≡ ok handle
    → index_items fuel max_depth handle ≡ ok items
    → All (IsSource (build_member_index max_depth fuel handle.dwarf).1 fuel handle.sections) items
index_items-IsSource image path fuel max_depth handle items opens e =
    given_items
      (All (IsSource (build_member_index max_depth fuel handle.dwarf).1 fuel handle.sections)) fuel
      max_depth handle items
      (complete-IsSource fuel handle.sections (build_member_index max_depth fuel handle.dwarf) (
        build_member_index-Runs max_depth fuel (Unit {0}) handle.dwarf
          (opened-IsTable image path handle opens) (λ parsed. any_end _ fuel)))
      e

items-IsBacked :
    (items : List MemberPath)
    → IsBacked (record { seen = map (λ (item : MemberPath). item.expression) items; items = items })
unfolding seen_before
items-IsBacked [] e h = absurd (ground arith)
items-IsBacked (item ∷ items) e h = elim (Bool-cases (bytes_eq item.expression e)) [
  | inl same ↦ inl ((bytes_eq_iff item.expression e).0 same)
  | inr other ↦ inr (items-IsBacked items e (ground arith))
]

complete-Listed :
    (sections : List ElfSection) (symbol : ElfSymbol) (members : Result (List MemberPath))
    → IsSymbol sections symbol
    → GivenItems (Listed symbol.name) (complete sections members)
complete-Listed sections symbol (ok items) s =
    sort-Listed item_less symbol.name _
      (add_symbol_variables_to_index-Listed sections _ symbol (items-IsBacked items) s)
complete-Listed sections symbol (err e) s = tt
complete-Listed sections symbol undefined s = tt
complete-Listed sections symbol stuck s = tt

-- An item with the name of each variable of the symbol tables stands in the index that write_member_index_json writes.
pub index_items-Listed :
    (fuel max_depth : ℕ) (handle : Handle) (items : List MemberPath) (symbol : ElfSymbol)
    → index_items fuel max_depth handle ≡ ok items
    → IsSymbol handle.sections symbol
    → Listed symbol.name items
index_items-Listed fuel max_depth handle items symbol e s =
    given_items (Listed symbol.name) fuel max_depth handle items
      (complete-Listed handle.sections symbol (build_member_index max_depth fuel handle.dwarf).0 s)
      e

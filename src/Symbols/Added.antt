-- ===== src/Symbols/Added.antt =====
-- What holds of all items of an index that add_symbol_variables_to_index extends.
use mathlib.Core.List.{Memᴰ}
use tc397tools.Prelude.{true, List, [], ◌∷◌, ◌≡◌, refl, either, All}
use tc397tools.Dwarf.{MemberPath, Index}
use tc397tools.Dwarf.Layout.{add_item-All}
use tc397tools.Symbols.{
  ElfSymbol, ElfSection, is_indexed, is_symbol_table, symbol_item, add_symbols,
  add_symbol_variables_to_index,
}

-- A variable of a symbol table.
pub record IsSymbol (sections : List ElfSection) (symbol : ElfSymbol) : Type 0 where
  pub table : ElfSection
  pub stands : Memᴰ table sections
  pub holds_symbols : is_symbol_table table ≡ true
  pub listed : Memᴰ symbol table.symbols
  pub kept : is_indexed symbol ≡ true

module _ (P : MemberPath → Type 0) where
  add_symbols-All :
      (symbols : List ElfSymbol) (ix : Index)
      → ((symbol : ElfSymbol)
          → Memᴰ symbol symbols
          → is_indexed symbol ≡ true
          → P (symbol_item symbol))
      → All P ix.items
      → All P (add_symbols symbols ix).items
  unfolding add_symbols
  add_symbols-All [] ix each h = h
  add_symbols-All (symbol ∷ symbols) ix each h =
      add_symbols-All symbols _ (λ s m. each s (Memᴰ.tail m))
        (either (λ (i : Index). All P i.items) (is_indexed symbol) _ _
          (λ kept. add_item-All P (symbol_item symbol) ix (each symbol (Memᴰ.head refl) kept) h)
          (λ k. h))

  -- What holds of the items of an index, and of the item of each variable of the symbol tables, holds of all.
  pub add_symbol_variables_to_index-All :
      (sections : List ElfSection) (ix : Index)
      → ((symbol : ElfSymbol) → IsSymbol sections symbol → P (symbol_item symbol))
      → All P ix.items
      → All P (add_symbol_variables_to_index sections ix).items
  unfolding add_symbol_variables_to_index
  add_symbol_variables_to_index-All [] ix each h = h
  add_symbol_variables_to_index-All (table ∷ sections) ix each h =
      add_symbol_variables_to_index-All sections _
        (λ symbol s. each symbol (record {
          table = s.table;
          stands = Memᴰ.tail s.stands;
          holds_symbols = s.holds_symbols;
          listed = s.listed;
          kept = s.kept;
        }))
        (either (λ (i : Index). All P i.items) (is_symbol_table table) _ _
          (λ holds.
            add_symbols-All table.symbols ix
              (λ symbol m kept. each symbol (record {
                table = table;
                stands = Memᴰ.head refl;
                holds_symbols = holds;
                listed = m;
                kept = kept;
              }))
              h)
          (λ k. h))

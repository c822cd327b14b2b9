-- ===== src/Symbols/Distinct.antt =====
-- The expressions of the index, which add_symbol_variables_to_index extends.
use tc397tools.Prelude.{
  Bool, true, false, List, [], ◌∷◌, ◌++◌, ◌≡◌, refl, ap, arith, if◌then◌else◌, Bool-cases, inl, inr,
  All, All-append, Bytes, bytes_eq, bytes_eq_iff,
}
use tc397tools.Dwarf.{MemberPath, Index, seen_before, add_item}
use tc397tools.Symbols.{
  ElfSymbol, ElfSection, is_indexed, is_symbol_table, symbol_item, add_symbols,
  add_symbol_variables_to_index,
}

abbrev pub Differ : MemberPath → MemberPath → Type 0
Differ x y = bytes_eq x.expression y.expression ≡ false

abbrev pub Distinct : List MemberPath → Type 0
Distinct [] = Unit
Distinct (x ∷ xs) = All (Differ x) xs × Distinct xs

abbrev pub IsSeen : List Bytes → MemberPath → Type 0
IsSeen seen item = seen_before item.expression seen ≡ true

-- No two items have one expression, and all expressions have been seen.
abbrev pub IsIndex : Index → Type 0
IsIndex ix = All (IsSeen ix.seen) ix.items × Distinct ix.items

pub IsSeen-later :
    (e : Bytes) (seen : List Bytes) (items : List MemberPath)
    → All (IsSeen seen) items
    → All (IsSeen (e ∷ seen)) items
unfolding seen_before
IsSeen-later e seen [] h = tt
IsSeen-later e seen (item ∷ items) h = (ground arith, IsSeen-later e seen items h.1)

pub seen_now : (e : Bytes) (seen : List Bytes) → seen_before e (e ∷ seen) ≡ true
unfolding seen_before
seen_now e seen = rw ((bytes_eq_iff e e).1 refl) refl

differs :
    (seen : List Bytes) (x y : MemberPath)
    → IsSeen seen x
    → seen_before y.expression seen ≡ false
    → Differ x y
differs seen x y hx hy = elim (Bool-cases (bytes_eq x.expression y.expression)) [
  | inl same ↦
      let both =
        ap (λ (e : Bytes). seen_before e seen) ((bytes_eq_iff x.expression y.expression).0 same) in
      absurd (ground arith)
  | inr other ↦ other
]

Distinct-snoc :
    (seen : List Bytes) (items : List MemberPath) (item : MemberPath)
    → All (IsSeen seen) items
    → seen_before item.expression seen ≡ false
    → Distinct items
    → Distinct (items ++ item ∷ [])
Distinct-snoc seen [] item h new d = (tt, tt)
Distinct-snoc seen (x ∷ items) item h new d = (
  All-append (Differ x) items (item ∷ []) d.0 (differs seen x item h.0 new, tt),
  Distinct-snoc seen items item h.1 new d.1,
)

pub add_item-IsIndex : (item : MemberPath) (ix : Index) → IsIndex ix → IsIndex (add_item item ix)
unfolding add_item
add_item-IsIndex item ix h = elim (Bool-cases (seen_before item.expression ix.seen)) [
  | inl old ↦ rw old h
  | inr new ↦ rw new (
    All-append (IsSeen (item.expression ∷ ix.seen)) ix.items (item ∷ [])
        (IsSeen-later item.expression ix.seen ix.items h.0) (seen_now item.expression ix.seen, tt),
    Distinct-snoc ix.seen ix.items item h.0 new h.1,
  )
]

either-IsIndex : (b : Bool) (x y : Index) → IsIndex x → IsIndex y → IsIndex (if b then x else y)
either-IsIndex true x y hx hy = hx
either-IsIndex false x y hx hy = hy

add_symbols-IsIndex :
    (symbols : List ElfSymbol) (ix : Index) → IsIndex ix → IsIndex (add_symbols symbols ix)
unfolding add_symbols
add_symbols-IsIndex [] ix h = h
add_symbols-IsIndex (symbol ∷ symbols) ix h =
    add_symbols-IsIndex symbols (if is_indexed symbol then add_item (symbol_item symbol) ix else ix)
      (either-IsIndex (is_indexed symbol) _ _ (add_item-IsIndex (symbol_item symbol) ix h) h)

-- Adding the symbols of all tables to an index whose expressions are distinct and seen gives such an index.
pub add_symbol_variables_to_index-IsIndex :
    (sections : List ElfSection) (ix : Index)
    → IsIndex ix
    → IsIndex (add_symbol_variables_to_index sections ix)
unfolding add_symbol_variables_to_index
add_symbol_variables_to_index-IsIndex [] ix h = h
add_symbol_variables_to_index-IsIndex (table ∷ sections) ix h =
    add_symbol_variables_to_index-IsIndex sections
      (if is_symbol_table table then add_symbols table.symbols ix else ix)
      (either-IsIndex (is_symbol_table table) _ _ (add_symbols-IsIndex table.symbols ix h) h)

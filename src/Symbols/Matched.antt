-- ===== src/Symbols/Matched.antt =====
-- Which symbols resolve_symbol takes for an expression, and what it says of one.
use mathlib.Core.List.{Memᴰ}
use tc397tools.Prelude.{
  ℕ, ◌+◌, ◌≢◌, ◌⊎◌, inl, inr, Bool, true, false, not, ◌||◌, ◌&&◌, List, ◌≡◌, arith, ◌==◌,
  bytes_eq_iff, Bool-cases, if◌then◌else◌,
}
use tc397tools.Reader.{wrap64}
use tc397tools.Expression.{ParsedExpression}
use tc397tools.Dwarf.{VariableRef, value_or, has_value, index_outside}
use tc397tools.Symbols.{
  ElfSymbol, ElfSection, is_symbol_table, is_match, symbol_type_name, binding_name,
}

module _ (sections : List ElfSection) (expr : ParsedExpression) (zero_size notype : Bool) where
  -- A variable of a symbol table with the name that is looked for.
  pub record IsCandidate (table : ElfSection) (symbol : ElfSymbol) : Type 0 where
    pub stands : Memᴰ table sections
    pub holds_symbols : (table.type ≡ 2) ⊎ (table.type ≡ 11)
    pub listed : Memᴰ symbol table.symbols
    pub readable : symbol.readable ≡ true
    pub named : symbol.name ≡ expr.root_name
    pub placed : symbol.section_index ≢ 0
    pub typed :
        (symbol.type ≡ 1)
        ⊎ ((symbol.type ≡ 5) ⊎ ((symbol.type ≡ 6) ⊎ ((notype ≡ true) × (symbol.type ≡ 0))))
    pub sized : (symbol.size ≢ 0) ⊎ (zero_size ≡ true)

  -- The reference says what the symbol says, with the index added.
  pub record Describes (table : ElfSection) (symbol : ElfSymbol) (ref : VariableRef) : Type 0 where
    pub base_name : ref.base_name ≡ symbol.name
    pub address : ref.address ≡ wrap64 (symbol.value + value_or expr.index 0)
    pub byte_size : ref.byte_size ≡ (if has_value expr.index then 1 else symbol.size)
    pub variable_size : ref.variable_size ≡ symbol.size
    pub indexed : ref.indexed ≡ has_value expr.index
    pub signed_known : ref.signed_known ≡ false
    pub inside : index_outside expr.index symbol.size ≡ false
    pub source : ref.source ≡ table.name
    pub symbol_type : ref.symbol_type ≡ symbol_type_name symbol.type
    pub binding : ref.binding ≡ binding_name symbol.bind

  pub record IsAnswer (ref : VariableRef) : Type 0 where
    pub table : ElfSection
    pub symbol : ElfSymbol
    pub candidate : IsCandidate table symbol
    pub describes : Describes table symbol ref

  matched_type :
      (type : ℕ)
      → (type == 1 || type == 5 || type == 6 || (notype && type == 0)) ≡ true
      → (type ≡ 1) ⊎ ((type ≡ 5) ⊎ ((type ≡ 6) ⊎ ((notype ≡ true) × (type ≡ 0))))
  matched_type type h = elim (Bool-cases (type == 1)) [
    | inl object ↦ inl (ground arith)
    | inr a ↦ elim (Bool-cases (type == 5)) [
      | inl common ↦ inr (inl (ground arith))
      | inr b ↦ elim (Bool-cases (type == 6)) [
        | inl tls ↦ inr (inr (inl (ground arith)))
        | inr c ↦ inr (inr (inr (ground arith, ground arith)))
      ]
    ]
  ]

  matched_size :
      (size : ℕ) → not (size == 0 && not zero_size) ≡ true → (size ≢ 0) ⊎ (zero_size ≡ true)
  matched_size size h = elim (Bool-cases (size == 0)) [
    | inl empty ↦ inr (ground arith)
    | inr some_size ↦ inl (λ e. absurd (ground arith))
  ]

  table_type :
      (table : ElfSection) → is_symbol_table table ≡ true → (table.type ≡ 2) ⊎ (table.type ≡ 11)
  table_type table h = elim (Bool-cases (table.type == 2)) [
    | inl symtab ↦ inl (ground arith)
    | inr other ↦ inr (ground arith)
  ]

  pub is_match-IsCandidate :
      (table : ElfSection) (symbol : ElfSymbol)
      → Memᴰ table sections
      → is_symbol_table table ≡ true
      → Memᴰ symbol table.symbols
      → is_match expr zero_size notype symbol ≡ true
      → IsCandidate table symbol
  unfolding is_match
  is_match-IsCandidate table symbol m holds listed h = record {
    stands = m;
    holds_symbols = table_type table holds;
    listed = listed;
    readable = ground arith;
    named = (bytes_eq_iff symbol.name expr.root_name).0 (ground arith);
    placed = λ e. absurd (ground arith);
    typed = matched_type symbol.type (ground arith);
    sized = matched_size symbol.size (ground arith);
  }

  type_matches :
      (type : ℕ)
      → (type ≡ 1) ⊎ ((type ≡ 5) ⊎ ((type ≡ 6) ⊎ ((notype ≡ true) × (type ≡ 0))))
      → (type == 1 || type == 5 || type == 6 || (notype && type == 0)) ≡ true
  type_matches type (inl a) = ground arith
  type_matches type (inr (inl b)) = ground arith
  type_matches type (inr (inr (inl c))) = ground arith
  type_matches type (inr (inr (inr (d, e)))) = ground arith

  size_matches :
      (size : ℕ) → (size ≢ 0) ⊎ (zero_size ≡ true) → not (size == 0 && not zero_size) ≡ true
  size_matches size (inl a) = ground arith
  size_matches size (inr b) = ground arith

  pub IsCandidate-is_match :
      (table : ElfSection) (symbol : ElfSymbol)
      → IsCandidate table symbol
      → is_match expr zero_size notype symbol ≡ true
  unfolding is_match
  IsCandidate-is_match table symbol c =
      let readable = c.readable in
      let named = (bytes_eq_iff symbol.name expr.root_name).1 c.named in
      let placed = c.placed in
      let typed = type_matches symbol.type c.typed in
      let sized = size_matches symbol.size c.sized in ground arith

  pub symbol_table_of :
      (table : ElfSection) (symbol : ElfSymbol)
      → IsCandidate table symbol
      → is_symbol_table table ≡ true
  symbol_table_of table symbol c = by_type c.holds_symbols
    where
      by_type : (table.type ≡ 2) ⊎ (table.type ≡ 11) → is_symbol_table table ≡ true
      by_type (inl a) = ground arith
      by_type (inr b) = ground arith

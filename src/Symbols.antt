-- ===== src/Symbols.antt =====
-- The symbol-table functions of cpp/tc397_elfio_resolver.cpp. What ELFIO reads from the file is a
-- parameter: the sections and their symbols.
pub mod Distinct
pub mod Matched
pub mod Collected
pub mod Least
pub mod Added
pub mod Listed
mod Tests
use tc397tools.Prelude.{
  ℕ, ◌+◌, Bool, false, not, ◌&&◌, ◌||◌, Option, none, some, List, [], ◌∷◌, ◌++◌, ltb, ◌==◌,
  if◌then◌else◌, get_elem?, Bytes, bytes_eq, codes,
}
use tc397tools.Prelude.Result.{Result, ok, err, runtime_error, ◌>>=◌}
use tc397tools.Prelude.Sort.{sort}
use tc397tools.Reader.{wrap64}
use tc397tools.Expression.{ParsedExpression}
use tc397tools.Dwarf.{
  MemberPath, Index, VariableRef, add_item, value_or, has_value, index_suffix, index_outside,
}

-- What `get_symbol` gives for one symbol; `readable` is its result.
pub record ElfSymbol : Type 0 where
  pub readable : Bool
  pub name : Bytes
  pub value : ℕ
  pub size : ℕ
  pub bind : ℕ
  pub type : ℕ
  pub section_index : ℕ

pub record ElfSection : Type 0 where
  pub type : ℕ
  pub name : Bytes
  pub symbols : List ElfSymbol

abbrev pub sht_symtab : ℕ
sht_symtab = 2

abbrev pub sht_dynsym : ℕ
sht_dynsym = 11

abbrev pub stt_notype : ℕ
stt_notype = 0

abbrev pub stt_object : ℕ
stt_object = 1

abbrev pub stt_common : ℕ
stt_common = 5

abbrev pub stt_tls : ℕ
stt_tls = 6

unfoldable pub symbol_type_name : ℕ → Bytes
symbol_type_name type =
    if type == 0
    then codes "STT_NOTYPE"
    else if type == 1
    then codes "STT_OBJECT"
    else if type == 2
    then codes "STT_FUNC"
    else if type == 3
    then codes "STT_SECTION"
    else if type == 4
    then codes "STT_FILE"
    else if type == 5
    then codes "STT_COMMON"
    else if type == 6
    then codes "STT_TLS"
    else codes "STT_UNKNOWN"

unfoldable pub binding_name : ℕ → Bytes
binding_name bind =
    if bind == 0
    then codes "STB_LOCAL"
    else if bind == 1
    then codes "STB_GLOBAL"
    else if bind == 2
    then codes "STB_WEAK"
    else codes "STB_UNKNOWN"

abbrev pub is_symbol_table : ElfSection → Bool
is_symbol_table sec = sec.type == sht_symtab || sec.type == sht_dynsym

-- The tests that `continue` for a symbol of add_symbol_variables_to_index.
unfoldable pub is_indexed : ElfSymbol → Bool
is_indexed sym =
    sym.readable
    && not (bytes_eq sym.name [] || sym.section_index == 0 || sym.size == 0)
    && (sym.type == stt_object || sym.type == stt_common || sym.type == stt_tls)

abbrev pub symbol_item : ElfSymbol → MemberPath
symbol_item sym = record {
  member_name = sym.name;
  expression = sym.name;
  base_name = sym.name;
  address = sym.value;
  byte_offset = 0;
  byte_size = sym.size;
  signed_known = false;
  is_signed = false;
  type_name = [];
}

unfoldable pub add_symbols : List ElfSymbol → Index → Index
add_symbols [] ix = ix
add_symbols (sym ∷ symbols) ix =
    add_symbols symbols (if is_indexed sym then add_item (symbol_item sym) ix else ix)

unfoldable pub add_symbol_variables_to_index : List ElfSection → Index → Index
add_symbol_variables_to_index [] ix = ix
add_symbol_variables_to_index (sec ∷ sections) ix =
    add_symbol_variables_to_index sections
      (if is_symbol_table sec then add_symbols sec.symbols ix else ix)

-- The tests that `continue` for a symbol of resolve_symbol.
unfoldable pub is_match : ParsedExpression → Bool → Bool → ElfSymbol → Bool
is_match expr include_zero_size include_notype sym =
    sym.readable
    && not (not (bytes_eq sym.name expr.root_name) || sym.section_index == 0)
    && (sym.type == stt_object
        || sym.type == stt_common
        || sym.type == stt_tls
        || (include_notype && sym.type == stt_notype))
    && not (sym.size == 0 && not include_zero_size)

-- `reader.sections[section_index]->get_name()`, where there is such a section.
abbrev section_name_at : List ElfSection → ℕ → Bytes
section_name_at sections i = elim (get_elem? sections i) [ none ↦ [] | some sec ↦ sec.name ]

unfoldable pub symbol_ref :
    List ElfSection → ElfSection → ParsedExpression → ElfSymbol → VariableRef
unfolding symbol_type_name binding_name
symbol_ref sections sec expr sym = record {
  expression = expr.base_expression ++ index_suffix expr.index;
  base_name = sym.name;
  address = wrap64 (sym.value + value_or expr.index 0);
  byte_size = if has_value expr.index then 1 else sym.size;
  variable_size = sym.size;
  indexed = has_value expr.index;
  signed_known = false;
  is_signed = false;
  source = sec.name;
  symbol_type = symbol_type_name sym.type;
  binding = binding_name sym.bind;
  section_name = section_name_at sections sym.section_index;
  type_name = [];
}

module _ (sections : List ElfSection) (expr : ParsedExpression)
    (include_zero_size include_notype : Bool) where
  -- The loop over the symbols of one table.
  unfoldable pub match_symbols :
      ElfSection → List ElfSymbol → List VariableRef → Result (List VariableRef)
  unfolding is_match symbol_ref
  match_symbols sec [] matches = ok matches
  match_symbols sec (sym ∷ symbols) matches =
      let next = match_symbols sec symbols (matches ++ symbol_ref sections sec expr sym ∷ []) in
      let skip = match_symbols sec symbols matches in
      if not (is_match expr include_zero_size include_notype sym)
      then skip
      else if index_outside expr.index sym.size
      then err (runtime_error (codes "byte index is outside " ++ (expr.root_name ++ codes " size")))
      else next

  unfoldable pub match_sections : List ElfSection → List VariableRef → Result (List VariableRef)
  unfolding match_symbols
  match_sections [] matches = ok matches
  match_sections (sec ∷ rest) matches = do
    matches₁ ← (if is_symbol_table sec then match_symbols sec sec.symbols matches else ok matches)
    match_sections rest matches₁

-- `<` of the tuples (variable_size == 0, address == 0, binding == "STB_LOCAL"), as a number.
unfoldable pub rank : VariableRef → ℕ
rank ref =
    (if ref.variable_size == 0 then 4 else 0)
    + (if ref.address == 0 then 2 else 0)
    + (if bytes_eq ref.binding (codes "STB_LOCAL") then 1 else 0)

abbrev pub ref_less : VariableRef → VariableRef → Bool
ref_less a b = ltb (rank a) (rank b)

abbrev pub front : List VariableRef → Option VariableRef
front [] = none
front (x ∷ xs) = some x

unfoldable pub resolve_symbol :
    List ElfSection → ParsedExpression → Bool → Bool → Result (Option VariableRef)
resolve_symbol sections expr include_zero_size include_notype = elim expr.fields [
  | ◌∷◌ _ _ ↦ ok none
  | [] ↦ (do
    matches ← match_sections sections expr include_zero_size include_notype sections []
    ok (front (sort ref_less matches)))
]

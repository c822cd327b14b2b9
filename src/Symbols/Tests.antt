-- ===== src/Symbols/Tests.antt =====
-- The symbol search on a table with a local and a global symbol of one name.
use tc397tools.Prelude.{ℕ, true, false, none, some, inl, arith, [], ◌∷◌, refl, codes, bytes_eq}
use tc397tools.Prelude.Sort.{sort}
use tc397tools.Expression.{ParsedExpression}
use tc397tools.Dwarf.{VariableRef}
use tc397tools.Symbols.{
  ElfSymbol, ElfSection, symbol_ref, is_match, match_symbols, match_sections, rank, resolve_symbol,
}
use mathlib.Core.List.{Memᴰ}
use tc397tools.Symbols.Matched.{IsCandidate}
use tc397tools.Symbols.Least.{Best, resolve_symbol-Best}

abbrev counter : ℕ → ℕ → ElfSymbol
counter value bind = record {
  readable = true;
  name = codes "counter";
  value = value;
  size = 4;
  bind = bind;
  type = 1;
  section_index = 1;
}

abbrev table : ElfSection
table = record {
  type = 2;
  name = codes ".symtab";
  symbols = counter 0x70000000 0 ∷ counter 0x70000010 1 ∷ [];
}

abbrev counter_expression : ParsedExpression
counter_expression = record {
  base_expression = codes "counter";
  root_name = codes "counter";
  fields = [];
  index = none;
}

abbrev global_ref : VariableRef
global_ref = symbol_ref (table ∷ []) table counter_expression (counter 0x70000010 1)

local_counter : IsCandidate (table ∷ []) counter_expression false false table (counter 0x70000000 0)
local_counter = record {
  stands = Memᴰ.head refl;
  holds_symbols = inl refl;
  listed = Memᴰ.head refl;
  readable = refl;
  named = refl;
  placed = λ e. absurd (omega (arith, e));
  typed = inl refl;
  sized = inl (λ e. absurd (omega (arith, e)));
}

resolve_symbol-Best_example :
    Best (table ∷ []) counter_expression false false (some global_ref) (counter 0x70000000 0)
unfolding resolve_symbol match_sections match_symbols is_match symbol_ref rank sort bytes_eq
resolve_symbol-Best_example =
    resolve_symbol-Best (table ∷ []) counter_expression false false (some global_ref) table
      (counter 0x70000000 0) refl refl local_counter

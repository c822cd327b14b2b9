-- ===== src/Symbols/Collected.antt =====
-- The matches that resolve_symbol collects are all candidates, each with the reference that says what it says.
use mathlib.Core.List.{Memᴰ}
use mathlib.Core.List.Memᴰ
use tc397tools.Prelude.{
  inl, inr, Bool, true, false, List, [], ◌∷◌, ◌++◌, ◌≡◌, refl, sym, ap, subst, All, All-append,
  Bool-cases, if◌then◌else◌,
}
use tc397tools.Prelude.Result.{Result, ok, err, undefined, stuck, ◌>>=◌}
use tc397tools.Expression.{ParsedExpression}
use tc397tools.Dwarf.{VariableRef, index_outside}
use tc397tools.Symbols.{
  ElfSymbol, ElfSection, is_symbol_table, is_match, symbol_ref, match_symbols, match_sections,
}
use tc397tools.Symbols.Matched.{Describes, IsAnswer, is_match-IsCandidate}

module _ (sections : List ElfSection) (expr : ParsedExpression) (zero_size notype : Bool) where
  described :
      (table : ElfSection) (symbol : ElfSymbol)
      → index_outside expr.index symbol.size ≡ false
      → Describes sections expr zero_size notype table symbol
          (symbol_ref sections table expr symbol)
  unfolding symbol_ref
  described table symbol inside = record {
    base_name = refl;
    address = refl;
    byte_size = refl;
    variable_size = refl;
    indexed = refl;
    signed_known = refl;
    inside = inside;
    source = refl;
    symbol_type = refl;
    binding = refl;
  }

  abbrev pub Answers : Result (List VariableRef) → Type 0
  Answers (ok matches) = All (IsAnswer sections expr zero_size notype) matches
  Answers (err e) = Unit
  Answers undefined = Unit
  Answers stuck = Unit

  match_symbols-Answers :
      (table : ElfSection) (symbols : List ElfSymbol) (matches : List VariableRef)
      → Memᴰ table sections
      → is_symbol_table table ≡ true
      → ((symbol : ElfSymbol) → Memᴰ symbol symbols → Memᴰ symbol table.symbols)
      → All (IsAnswer sections expr zero_size notype) matches
      → Answers (match_symbols sections expr zero_size notype table symbols matches)
  unfolding match_symbols
  match_symbols-Answers table [] matches m holds within h = h
  match_symbols-Answers table (symbol ∷ symbols) matches m holds within h =
      let later = λ (s : ElfSymbol) (k : Memᴰ s symbols). within s (Memᴰ.tail k) in
      elim (Bool-cases (is_match expr zero_size notype symbol)) [
        | inr other ↦
            rw (other, match_symbols) (match_symbols-Answers table symbols matches m holds later h)
        | inl this ↦ elim (Bool-cases (index_outside expr.index symbol.size)) [
          | inl beyond ↦ rw (this, match_symbols) (rw beyond tt)
          | inr inside ↦
              let answer : IsAnswer sections expr zero_size notype
                  (symbol_ref sections table expr symbol) =
                record {
                  table = table;
                  symbol = symbol;
                  candidate =
                      is_match-IsCandidate sections expr zero_size notype table symbol m holds
                        (within symbol (Memᴰ.head refl)) this;
                  describes = described table symbol inside;
                } in
              rw (this, match_symbols)
                (rw inside (
                  match_symbols-Answers table symbols _ m holds later (
                    All-append _ matches (symbol_ref sections table expr symbol ∷ []) h
                      (answer, tt))))
        ]
      ]

  -- What stood in the matches before, and the reference of a symbol that matches.
  abbrev pub Kept : VariableRef → Result (List VariableRef) → Type 0
  Kept ref (ok matches) = Memᴰ ref matches
  Kept ref (err e) = Unit
  Kept ref undefined = Unit
  Kept ref stuck = Unit

  match_symbols-Kept :
      (table : ElfSection) (symbols : List ElfSymbol) (matches : List VariableRef)
      (ref : VariableRef)
      → Memᴰ ref matches
      → Kept ref (match_symbols sections expr zero_size notype table symbols matches)
  unfolding match_symbols
  match_symbols-Kept table [] matches ref m = m
  match_symbols-Kept table (symbol ∷ symbols) matches ref m =
      elim (Bool-cases (is_match expr zero_size notype symbol)) [
        | inr other ↦ rw (other, match_symbols) (match_symbols-Kept table symbols matches ref m)
        | inl this ↦ elim (Bool-cases (index_outside expr.index symbol.size)) [
          | inl beyond ↦ rw (this, match_symbols) (rw beyond tt)
          | inr inside ↦
              rw (this, match_symbols)
                (rw inside (match_symbols-Kept table symbols _ ref (Memᴰ.append_left _ m)))
        ]
      ]

  match_symbols-found :
      (table : ElfSection) (symbols : List ElfSymbol) (matches : List VariableRef)
      (symbol : ElfSymbol)
      → Memᴰ symbol symbols
      → is_match expr zero_size notype symbol ≡ true
      → Kept
          (symbol_ref sections table expr symbol)
          (match_symbols sections expr zero_size notype table symbols matches)
  unfolding match_symbols
  match_symbols-found table [] matches symbol m matched = elim m [ ]
  match_symbols-found table (first ∷ symbols) matches symbol (Memᴰ.head e) matched =
      let this = subst (λ (s : ElfSymbol). is_match expr zero_size notype s ≡ true) e matched in
      elim (Bool-cases (index_outside expr.index first.size)) [
        | inl beyond ↦ rw (this, match_symbols) (rw beyond tt)
        | inr inside ↦
            let placed : Memᴰ (symbol_ref sections table expr symbol)
                (matches ++ symbol_ref sections table expr first ∷ []) =
              Memᴰ.append_right matches (Memᴰ.head (ap (symbol_ref sections table expr) e)) in
            rw (this, match_symbols) (rw inside (match_symbols-Kept table symbols _ _ placed))
      ]
  match_symbols-found table (first ∷ symbols) matches symbol (Memᴰ.tail m) matched =
      elim (Bool-cases (is_match expr zero_size notype first)) [
        | inr other ↦
            rw (other, match_symbols) (match_symbols-found table symbols matches symbol m matched)
        | inl this ↦ elim (Bool-cases (index_outside expr.index first.size)) [
          | inl beyond ↦ rw (this, match_symbols) (rw beyond tt)
          | inr inside ↦
              rw (this, match_symbols)
                (rw inside (match_symbols-found table symbols _ symbol m matched))
        ]
      ]

  abbrev table_matches : ElfSection → List VariableRef → Result (List VariableRef)
  table_matches table matches =
      if is_symbol_table table
      then match_symbols sections expr zero_size notype table table.symbols matches
      else ok matches

  then-Answers :
      (x : Result (List VariableRef)) (next : List VariableRef → Result (List VariableRef))
      → Answers x
      → ((matches : List VariableRef)
          → All (IsAnswer sections expr zero_size notype) matches
          → Answers (next matches))
      → Answers (x >>= next)
  then-Answers (ok matches) next h k = k matches h
  then-Answers (err e) next h k = tt
  then-Answers undefined next h k = tt
  then-Answers stuck next h k = tt

  then-Kept :
      (ref : VariableRef) (x : Result (List VariableRef))
      (next : List VariableRef → Result (List VariableRef))
      → Kept ref x
      → ((matches : List VariableRef) → Memᴰ ref matches → Kept ref (next matches))
      → Kept ref (x >>= next)
  then-Kept ref (ok matches) next h k = k matches h
  then-Kept ref (err e) next h k = tt
  then-Kept ref undefined next h k = tt
  then-Kept ref stuck next h k = tt

  any-Kept :
      (ref : VariableRef) (x : Result (List VariableRef))
      (next : List VariableRef → Result (List VariableRef))
      → ((matches : List VariableRef) → Kept ref (next matches))
      → Kept ref (x >>= next)
  any-Kept ref (ok matches) next k = k matches
  any-Kept ref (err e) next k = tt
  any-Kept ref undefined next k = tt
  any-Kept ref stuck next k = tt

  table-Answers :
      (table : ElfSection) (matches : List VariableRef)
      → Memᴰ table sections
      → All (IsAnswer sections expr zero_size notype) matches
      → Answers (table_matches table matches)
  table-Answers table matches m h = elim (Bool-cases (is_symbol_table table)) [
    | inl holds ↦ rw holds (match_symbols-Answers table table.symbols matches m holds (λ s k. k) h)
    | inr other ↦ rw other h
  ]

  table-Kept :
      (table : ElfSection) (matches : List VariableRef) (ref : VariableRef)
      → Memᴰ ref matches
      → Kept ref (table_matches table matches)
  table-Kept table matches ref m = elim (Bool-cases (is_symbol_table table)) [
    | inl holds ↦ rw holds (match_symbols-Kept table table.symbols matches ref m)
    | inr other ↦ rw other m
  ]

  -- All that match_sections collects answers the expression.
  pub match_sections-Answers :
      (rest : List ElfSection) (matches : List VariableRef)
      → ((table : ElfSection) → Memᴰ table rest → Memᴰ table sections)
      → All (IsAnswer sections expr zero_size notype) matches
      → Answers (match_sections sections expr zero_size notype rest matches)
  unfolding match_sections
  match_sections-Answers [] matches within h = h
  match_sections-Answers (table ∷ rest) matches within h =
      then-Answers (table_matches table matches) _
        (table-Answers table matches (within table (Memᴰ.head refl)) h)
        (λ more k. match_sections-Answers rest more (λ t m. within t (Memᴰ.tail m)) k)

  match_sections-Kept :
      (rest : List ElfSection) (matches : List VariableRef) (ref : VariableRef)
      → Memᴰ ref matches
      → Kept ref (match_sections sections expr zero_size notype rest matches)
  unfolding match_sections
  match_sections-Kept [] matches ref m = m
  match_sections-Kept (table ∷ rest) matches ref m =
      then-Kept ref (table_matches table matches) _ (table-Kept table matches ref m)
        (λ more k. match_sections-Kept rest more ref k)

  -- The reference of each candidate is collected.
  pub match_sections-found :
      (rest : List ElfSection) (matches : List VariableRef) (table : ElfSection)
      (symbol : ElfSymbol)
      → Memᴰ table rest
      → is_symbol_table table ≡ true
      → Memᴰ symbol table.symbols
      → is_match expr zero_size notype symbol ≡ true
      → Kept
          (symbol_ref sections table expr symbol)
          (match_sections sections expr zero_size notype rest matches)
  unfolding match_sections
  match_sections-found [] matches table symbol m holds listed matched = elim m [ ]
  match_sections-found (first ∷ rest) matches table symbol (Memᴰ.head e) holds listed matched =
      let this = subst (λ (t : ElfSection). is_symbol_table t ≡ true) e holds in
      let here = subst (λ (t : ElfSection). Memᴰ symbol t.symbols) e listed in
      let collected : Kept (symbol_ref sections first expr symbol) (table_matches first matches) =
        rw this (match_symbols-found first first.symbols matches symbol here matched) in
      subst
        (λ (t : ElfSection).
          Kept (symbol_ref sections t expr symbol)
            (match_sections sections expr zero_size notype (first ∷ rest) matches))
        (sym e)
        (then-Kept _ (table_matches first matches) _ collected
          (λ more k. match_sections-Kept rest more _ k))
  match_sections-found (first ∷ rest) matches table symbol (Memᴰ.tail m) holds listed matched =
      any-Kept _ (table_matches first matches) _
        (λ more. match_sections-found rest more table symbol m holds listed matched)

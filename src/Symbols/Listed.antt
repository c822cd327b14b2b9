-- ===== src/Symbols/Listed.antt =====
-- Which expressions stand in an index that add_symbol_variables_to_index extends.
use mathlib.Core.List.{Memᴰ}
use tc397tools.Prelude.{
  Bool, true, List, [], ◌∷◌, ◌++◌, ◌≡◌, refl, sym, subst, arith, if◌then◌else◌, Bool-cases, inl,
  inr, either, ◌⊎◌, Bytes, bytes_eq, bytes_eq_iff,
}
use tc397tools.Prelude.Sort.{insert_sorted, sort}
use tc397tools.Dwarf.{MemberPath, Index, seen_before, add_item}
use tc397tools.Symbols.{
  ElfSymbol, ElfSection, is_indexed, is_symbol_table, symbol_item, add_symbols,
  add_symbol_variables_to_index,
}
use tc397tools.Symbols.Added.{IsSymbol}

-- An item with the expression stands in the list.
abbrev pub Listed : Bytes → List MemberPath → Type 0
Listed e [] = ⊥
Listed e (item ∷ items) = (item.expression ≡ e) ⊎ Listed e items

Listed-front : (e : Bytes) (xs ys : List MemberPath) → Listed e xs → Listed e (xs ++ ys)
Listed-front e [] ys h = absurd h
Listed-front e (x ∷ xs) ys (inl this) = inl this
Listed-front e (x ∷ xs) ys (inr later) = inr (Listed-front e xs ys later)

Listed-last : (item : MemberPath) (xs : List MemberPath) → Listed item.expression (xs ++ item ∷ [])
Listed-last item [] = inl refl
Listed-last item (x ∷ xs) = inr (Listed-last item xs)

-- What has been seen stands in the list.
abbrev pub IsBacked : Index → Type 0
IsBacked ix = (e : Bytes) → seen_before e ix.seen ≡ true → Listed e ix.items

-- The second index has all expressions of the first.
pub record Extends (ix larger : Index) : Type 0 where
  pub backed : IsBacked larger
  pub keeps : (e : Bytes) → Listed e ix.items → Listed e larger.items

then-Extends : {x y z : Index} → Extends x y → Extends y z → Extends x z
then-Extends h k = record { backed = k.backed; keeps = λ e l. k.keeps e (h.keeps e l) }

add_item-Extends :
    (item : MemberPath) (ix : Index)
    → IsBacked ix
    → Extends ix (add_item item ix) × Listed item.expression (add_item item ix).items
unfolding add_item seen_before
add_item-Extends item ix h = elim (Bool-cases (seen_before item.expression ix.seen)) [
  | inl old ↦ rw (old, add_item) (record { backed = h; keeps = λ e l. l }, h item.expression old)
  | inr new ↦
      rw (new, add_item)
        (
          record {
            backed = λ e s. elim (Bool-cases (bytes_eq item.expression e)) [
              | inl same ↦
                  subst (λ (x : Bytes). Listed x (ix.items ++ item ∷ []))
                    ((bytes_eq_iff item.expression e).0 same) (Listed-last item ix.items)
              | inr other ↦ Listed-front e ix.items (item ∷ []) (h e (ground arith))
            ];
            keeps = λ e l. Listed-front e ix.items (item ∷ []) l;
          },
          Listed-last item ix.items,
        )
]

no_more-Extends : (ix : Index) → IsBacked ix → Extends ix ix
no_more-Extends ix h = record { backed = h; keeps = λ e l. l }

one-Extends :
    (test : Bool) (ix larger : Index)
    → IsBacked ix
    → (test ≡ true → Extends ix larger)
    → Extends ix (if test then larger else ix)
one-Extends test ix larger h k =
    either (Extends ix) test larger ix k (λ other. no_more-Extends ix h)

add_symbols-Extends :
    (symbols : List ElfSymbol) (ix : Index) → IsBacked ix → Extends ix (add_symbols symbols ix)
unfolding add_symbols
add_symbols-Extends [] ix h = no_more-Extends ix h
add_symbols-Extends (symbol ∷ symbols) ix h =
    let one =
      one-Extends (is_indexed symbol) ix _ h
        (λ kept. (add_item-Extends (symbol_item symbol) ix h).0) in
    then-Extends one (add_symbols-Extends symbols _ one.backed)

pub add_symbol_variables_to_index-Extends :
    (sections : List ElfSection) (ix : Index)
    → IsBacked ix
    → Extends ix (add_symbol_variables_to_index sections ix)
unfolding add_symbol_variables_to_index
add_symbol_variables_to_index-Extends [] ix h = no_more-Extends ix h
add_symbol_variables_to_index-Extends (table ∷ sections) ix h =
    let one =
      one-Extends (is_symbol_table table) ix _ h
        (λ holds. add_symbols-Extends table.symbols ix h) in
    then-Extends one (add_symbol_variables_to_index-Extends sections _ one.backed)

add_symbols-Listed :
    (symbols : List ElfSymbol) (ix : Index) (symbol : ElfSymbol)
    → IsBacked ix
    → Memᴰ symbol symbols
    → is_indexed symbol ≡ true
    → Listed symbol.name (add_symbols symbols ix).items
unfolding add_symbols
add_symbols-Listed [] ix symbol h m kept = elim m [ ]
add_symbols-Listed (first ∷ symbols) ix symbol h (Memᴰ.head e) kept =
    let (larger, listed) = add_item-Extends (symbol_item first) ix h in
    let taken = subst (λ (s : ElfSymbol). is_indexed s ≡ true) e kept in
    let named =
      subst (λ (s : ElfSymbol). Listed s.name (add_item (symbol_item first) ix).items) (sym e)
        listed in
    subst
      (λ (b : Bool).
        Listed symbol.name
          (add_symbols symbols (if b then add_item (symbol_item first) ix else ix)).items)
      (sym taken) ((add_symbols-Extends symbols _ larger.backed).keeps symbol.name named)
add_symbols-Listed (first ∷ symbols) ix symbol h (Memᴰ.tail m) kept =
    let one =
      one-Extends (is_indexed first) ix _ h (λ k. (add_item-Extends (symbol_item first) ix h).0) in
    add_symbols-Listed symbols _ symbol one.backed m kept

stands-Listed :
    (sections : List ElfSection) (ix : Index) (symbol : ElfSymbol) (table : ElfSection)
    → IsBacked ix
    → Memᴰ table sections
    → is_symbol_table table ≡ true
    → Memᴰ symbol table.symbols
    → is_indexed symbol ≡ true
    → Listed symbol.name (add_symbol_variables_to_index sections ix).items
unfolding add_symbol_variables_to_index
stands-Listed [] ix symbol table h m holds listed kept = elim m [ ]
stands-Listed (first ∷ sections) ix symbol table h (Memᴰ.head e) holds listed kept =
    let found =
      add_symbols-Listed first.symbols ix symbol h
        (subst (λ (t : ElfSection). Memᴰ symbol t.symbols) e listed) kept in
    let taken = subst (λ (t : ElfSection). is_symbol_table t ≡ true) e holds in
    let backed = (add_symbols-Extends first.symbols ix h).backed in
    subst
      (λ (b : Bool).
        Listed symbol.name
          (add_symbol_variables_to_index sections
            (if b then add_symbols first.symbols ix else ix)).items)
      (sym taken)
      ((add_symbol_variables_to_index-Extends sections _ backed).keeps symbol.name found)
stands-Listed (first ∷ sections) ix symbol table h (Memᴰ.tail m) holds listed kept =
    let one =
      one-Extends (is_symbol_table first) ix _ h (λ k. add_symbols-Extends first.symbols ix h) in
    stands-Listed sections _ symbol table one.backed m holds listed kept

-- The name of every variable of the symbol tables stands in the index.
pub add_symbol_variables_to_index-Listed :
    (sections : List ElfSection) (ix : Index) (symbol : ElfSymbol)
    → IsBacked ix
    → IsSymbol sections symbol
    → Listed symbol.name (add_symbol_variables_to_index sections ix).items
add_symbol_variables_to_index-Listed sections ix symbol h s =
    stands-Listed sections ix symbol s.table h s.stands s.holds_symbols s.listed s.kept

insert_sorted-Listed :
    (less : MemberPath → MemberPath → Bool) (e : Bytes) (x : MemberPath) (ys : List MemberPath)
    → Listed e (x ∷ ys)
    → Listed e (insert_sorted less x ys)
unfolding insert_sorted
insert_sorted-Listed less e x [] h = h
insert_sorted-Listed less e x (y ∷ ys) h = elim (Bool-cases (less y x)) [
  | inr behind ↦ rw (behind, insert_sorted) h
  | inl before ↦
      rw (before, insert_sorted)
        (elim h [
          | inl this ↦ inr (insert_sorted-Listed less e x ys (inl this))
          | inr (inl next) ↦ inl next
          | inr (inr later) ↦ inr (insert_sorted-Listed less e x ys (inr later))
        ])
]

-- Sorting keeps every expression.
pub sort-Listed :
    (less : MemberPath → MemberPath → Bool) (e : Bytes) (xs : List MemberPath)
    → Listed e xs
    → Listed e (sort less xs)
unfolding sort
sort-Listed less e [] h = h
sort-Listed less e (x ∷ xs) (inl this) = insert_sorted-Listed less e x (sort less xs) (inl this)
sort-Listed less e (x ∷ xs) (inr later) =
    insert_sorted-Listed less e x (sort less xs) (inr (sort-Listed less e xs later))

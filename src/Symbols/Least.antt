-- ===== src/Symbols/Least.antt =====
-- Which of the matching symbols resolve_symbol returns.
use tc397tools.Prelude.{
  ℕ, ◌+◌, ◌<◌, ◌≢◌, ◌⊎◌, ◌==◌, if◌then◌else◌, ap, ◌∙◌, bytes_eq, codes, ◌≤◌, Bool, Option, none,
  some, List, [], ◌∷◌, ◌≡◌, refl, subst, arith, Bytes, Bool-cases, inl, inr, All, ltb→lt, ltb→ge,
}
use mathlib.Core.List.{Memᴰ}
use tc397tools.Prelude.Sort.{insert_sorted, sort}
use tc397tools.Prelude.Sorted.{All-sort, Memᴰ-sort}
use tc397tools.Dwarf.Table.{All-Memᴰ}
use tc397tools.Prelude.Result.{Result, ok, err, undefined, stuck, ◌>>=◌}
use tc397tools.Expression.{ParsedExpression}
use tc397tools.Dwarf.{VariableRef}
use tc397tools.Symbols.{
  ElfSymbol, ElfSection, match_sections, rank, ref_less, front, resolve_symbol, binding_name,
  symbol_ref,
}
use tc397tools.Symbols.Matched.{
  IsCandidate, Describes, IsAnswer, IsCandidate-is_match, symbol_table_of,
}
use tc397tools.Symbols.Collected.{Answers, Kept, match_sections-Answers, match_sections-found}
use tc397tools.Reader.{wrap64}
use tc397tools.Dwarf.{value_or}

abbrev IsLeast : VariableRef → List VariableRef → Type 0
IsLeast x = All (λ y. rank x ≤ rank y)

abbrev LeastFirst : List VariableRef → Type 0
LeastFirst [] = Unit
LeastFirst (x ∷ xs) = IsLeast x xs

IsLeast-lower :
    (x y : VariableRef) (xs : List VariableRef) → rank x ≤ rank y → IsLeast y xs → IsLeast x xs
IsLeast-lower x y [] h l = tt
IsLeast-lower x y (z ∷ xs) h l = (omega (arith, h, l.0), IsLeast-lower x y xs h l.1)

insert_sorted-IsLeast :
    (x y : VariableRef) (ys : List VariableRef)
    → rank y ≤ rank x
    → IsLeast y ys
    → IsLeast y (insert_sorted ref_less x ys)
unfolding insert_sorted
insert_sorted-IsLeast x y [] h l = (h, tt)
insert_sorted-IsLeast x y (z ∷ ys) h l = elim (Bool-cases (ref_less z x)) [
  | inl before ↦ rw before (l.0, insert_sorted-IsLeast x y ys h l.1)
  | inr behind ↦ rw behind (h, l)
]

insert_sorted-LeastFirst :
    (x : VariableRef) (ys : List VariableRef)
    → LeastFirst ys
    → LeastFirst (insert_sorted ref_less x ys)
unfolding insert_sorted
insert_sorted-LeastFirst x [] l = tt
insert_sorted-LeastFirst x (y ∷ ys) l = elim (Bool-cases (ref_less y x)) [
  | inl before ↦
      rw before (insert_sorted-IsLeast x y ys (omega (arith, ltb→lt (rank y) (rank x) before)) l)
  | inr behind ↦
      let low : rank x ≤ rank y = ltb→ge (rank y) (rank x) behind in
      rw behind (low, IsLeast-lower x y ys low l)
]

sort-LeastFirst : (xs : List VariableRef) → LeastFirst (sort ref_less xs)
unfolding sort
sort-LeastFirst [] = tt
sort-LeastFirst (x ∷ xs) = insert_sorted-LeastFirst x (sort ref_less xs) (sort-LeastFirst xs)

-- 0 comes last: where one of two numbers is 0, it is the second, and otherwise T decides.
abbrev pub Prefers : ℕ → ℕ → Type 0 → Type 0
Prefers m n T = ((m ≢ 0) × (n ≡ 0)) ⊎ ((((m ≡ 0) × (n ≡ 0)) ⊎ ((m ≢ 0) × (n ≢ 0))) × T)

-- By size, then by the address with the index, then by the binding, where 0 is a local symbol.
abbrev pub NoWorse : ParsedExpression → ElfSymbol → ElfSymbol → Type 0
NoWorse expr a b = Prefers a.size b.size (
    Prefers (wrap64 (a.value + value_or expr.index 0)) (wrap64 (b.value + value_or expr.index 0))
      (Prefers a.bind b.bind Unit))

abbrev weight : ℕ → ℕ → ℕ
weight w m = if m == 0 then w else 0

weight-Prefers :
    (T : Type 0) (w m n rest rest' : ℕ)
    → weight w m + rest ≤ weight w n + rest'
    → rest' < w
    → (rest ≤ rest' → T)
    → Prefers m n T
weight-Prefers T w m n rest rest' le small t = elim (Bool-cases (m == 0)) [
  | inl m_zero ↦ elim (Bool-cases (n == 0)) [
    | inl n_zero ↦
        let le' : rest ≤ rest' = ground arith in inr (inl (ground arith, ground arith), t le')
    | inr n_some ↦ absurd (ground arith)
  ]
  | inr m_some ↦ elim (Bool-cases (n == 0)) [
    | inl n_zero ↦ inl (λ e. absurd (ground arith), ground arith)
    | inr n_some ↦
        let le' : rest ≤ rest' = ground arith in
        inr (inr (λ e. absurd (ground arith), λ e. absurd (ground arith)), t le')
  ]
]

-- Only a symbol of binding 0 is a local one.
binding_name_local : (bind : ℕ) → bytes_eq (binding_name bind) (codes "STB_LOCAL") ≡ (bind == 0)
unfolding binding_name bytes_eq
binding_name_local bind = elim (Bool-cases (bind == 0)) [
  | inl zero_bind ↦ rw zero_bind refl
  | inr some_bind ↦ elim (Bool-cases (bind == 1)) [
    | inl one ↦ rw some_bind (rw one refl)
    | inr not_one ↦ elim (Bool-cases (bind == 2)) [
      | inl two ↦ rw some_bind (rw not_one (rw two refl))
      | inr other ↦ rw some_bind (rw not_one (rw other refl))
    ]
  ]
]

module _ (sections : List ElfSection) (expr : ParsedExpression) (zero_size notype : Bool) where
  -- The rank of a reference with the size, the address and the binding of a symbol.
  rank-weight :
      (symbol : ElfSymbol) (ref : VariableRef)
      → ref.variable_size ≡ symbol.size
      → ref.address ≡ wrap64 (symbol.value + value_or expr.index 0)
      → ref.binding ≡ binding_name symbol.bind
      → rank ref
        ≡ weight 4 symbol.size
          + (weight 2 (wrap64 (symbol.value + value_or expr.index 0)) + weight 1 symbol.bind)
  unfolding rank
  rank-weight symbol ref size address binding =
      let local : bytes_eq ref.binding (codes "STB_LOCAL") ≡ (symbol.bind == 0) =
        ap (λ (b : Bytes). bytes_eq b (codes "STB_LOCAL")) binding
        ∙ binding_name_local symbol.bind in
      simp (size, address, local) (omega arith)

  rank-symbol_ref :
      (table : ElfSection) (symbol : ElfSymbol)
      → rank (symbol_ref sections table expr symbol)
        ≡ weight 4 symbol.size
          + (weight 2 (wrap64 (symbol.value + value_or expr.index 0)) + weight 1 symbol.bind)
  unfolding symbol_ref
  rank-symbol_ref table symbol =
      rank-weight symbol (symbol_ref sections table expr symbol) refl refl refl

  rank-NoWorse :
      (table table' : ElfSection) (a b : ElfSymbol) (ref : VariableRef)
      → Describes sections expr zero_size notype table a ref
      → rank ref ≤ rank (symbol_ref sections table' expr b)
      → NoWorse expr a b
  rank-NoWorse table table' a b ref d le =
      let at = λ (s : ElfSymbol). wrap64 (s.value + value_or expr.index 0) in
      let own = rank-weight a ref d.variable_size d.address d.binding in
      weight-Prefers _ 4 a.size b.size (weight 2 (at a) + weight 1 a.bind)
        (weight 2 (at b) + weight 1 b.bind) (omega (arith, own, rank-symbol_ref table' b, le))
        (ground arith)
        λ le₁.
          weight-Prefers _ 2 (at a) (at b) (weight 1 a.bind) (weight 1 b.bind) le₁ (ground arith)
            λ le₂.
              weight-Prefers Unit 1 a.bind b.bind 0 0 (omega (arith, le₂)) (omega arith) (λ k. tt)

  -- What was found answers the expression with a symbol that is no worse than the other one.
  abbrev pub Best : Option VariableRef → ElfSymbol → Type 0
  Best none other = ⊥
  Best (some ref) other =
      (answer : IsAnswer sections expr zero_size notype ref) × NoWorse expr answer.symbol other

  front-Best :
      (sorted : List VariableRef) (table : ElfSection) (other : ElfSymbol)
      → All (IsAnswer sections expr zero_size notype) sorted
      → LeastFirst sorted
      → Memᴰ (symbol_ref sections table expr other) sorted
      → Best (front sorted) other
  front-Best [] table other h l m = elim m [ ]
  front-Best (x ∷ xs) table other h l m =
      let least : rank x ≤ rank (symbol_ref sections table expr other) =
        All-Memᴰ (λ y. rank x ≤ rank y) (x ∷ xs) _ (omega arith, l) m in
      (h.0, rank-NoWorse h.0.table table h.0.symbol other x h.0.describes least)

  sorted_matches :
      (collected : Result (List VariableRef)) (found : Option VariableRef)
      → (collected >>= λ matches. ok (front (sort ref_less matches))) ≡ ok found
      → (matches : List VariableRef) × (collected ≡ ok matches)
        × (front (sort ref_less matches) ≡ found)
  sorted_matches (ok matches) found e = (matches, refl, cc)
  sorted_matches (err thrown) found e = cc
  sorted_matches undefined found e = cc
  sorted_matches stuck found e = cc

  abbrev collected_matches : Result (List VariableRef)
  collected_matches = match_sections sections expr zero_size notype sections []

  collected-IsAnswer :
      (matches : List VariableRef)
      → collected_matches ≡ ok matches
      → All (IsAnswer sections expr zero_size notype) (sort ref_less matches)
  collected-IsAnswer matches e =
      All-sort (IsAnswer sections expr zero_size notype) ref_less matches (
        subst (Answers sections expr zero_size notype) e
          (match_sections-Answers sections expr zero_size notype sections [] (λ t m. m) tt))

  -- Where the expression has no fields and some symbol of the tables is a candidate for it, what resolve_symbol returns
  -- is a reference, to a candidate that is no worse than this one: by a size that is not 0, then by an address that is not 0,
  -- then by not being a local symbol.
  pub resolve_symbol-Best :
      (found : Option VariableRef) (table : ElfSection) (other : ElfSymbol)
      → expr.fields ≡ []
      → resolve_symbol sections expr zero_size notype ≡ ok found
      → IsCandidate sections expr zero_size notype table other
      → Best found other
  unfolding resolve_symbol match_sections
  resolve_symbol-Best found table other no_fields e candidate =
      let run = rw no_fields at e in
      let (matches, collected, first) = sorted_matches collected_matches found run in
      let there : Memᴰ (symbol_ref sections table expr other) matches =
        subst (Kept sections expr zero_size notype (symbol_ref sections table expr other)) collected
          (match_sections-found sections expr zero_size notype sections [] table other
            candidate.stands (symbol_table_of sections expr zero_size notype table other candidate)
            candidate.listed
            (IsCandidate-is_match sections expr zero_size notype table other candidate)) in
      subst (λ (f : Option VariableRef). Best f other) first
        (front-Best (sort ref_less matches) table other (collected-IsAnswer matches collected)
          (sort-LeastFirst matches) (Memᴰ-sort ref_less _ matches there))

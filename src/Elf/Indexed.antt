-- ===== src/Elf/Indexed.antt =====
-- No expression stands twice in the index that write_member_index_json writes.
use tc397tools.Prelude.{
  ℕ, Bool, not, ◌||◌, List, [], ◌∷◌, map, ◌≡◌, arith, ltb, ◌==◌, subst, bytes_eq_iff, All,
  Bool-cases, inl, inr,
}
use tc397tools.Prelude.Result.{Result, ok, err, undefined, stuck, ◌>>=◌}
use tc397tools.Prelude.Sort.{insert_sorted, sort}
use tc397tools.Prelude.Sorted.{All-insert_sorted, All-sort}
use tc397tools.Dwarf.{
  Resolver, MemberPath, Index, M, step_into, available, parse_all_cus, named_variables,
  index_variables, item_less, no_items, build_member_index,
}
use tc397tools.Symbols.{add_symbol_variables_to_index}
use tc397tools.Symbols.Distinct.{
  Differ, Distinct, IsSeen, IsSeen-later, seen_now, add_symbol_variables_to_index-IsIndex,
}
use tc397tools.Elf.Reference.{Handle, index_items}
use tc397tools.Elf.Members.{Good, index_variables-Good}

Differ-sym : (x y : MemberPath) → Differ x y → Differ y x
Differ-sym x y h =
    ground (arith, bytes_eq_iff x.expression y.expression, bytes_eq_iff y.expression x.expression)

insert_sorted-Distinct :
    (less : MemberPath → MemberPath → Bool) (x : MemberPath) (ys : List MemberPath)
    → All (Differ x) ys
    → Distinct ys
    → Distinct (insert_sorted less x ys)
unfolding insert_sorted
insert_sorted-Distinct less x [] h d = (tt, tt)
insert_sorted-Distinct less x (y ∷ ys) h d = elim (Bool-cases (less y x)) [
  | inl before ↦ rw before (
    All-insert_sorted (Differ y) less x ys (Differ-sym x y h.0) d.0,
    insert_sorted-Distinct less x ys h.1 d.1,
  )
  | inr behind ↦ rw behind (h, d)
]

sort-Distinct :
    (less : MemberPath → MemberPath → Bool) (xs : List MemberPath)
    → Distinct xs
    → Distinct (sort less xs)
unfolding sort
sort-Distinct less [] d = tt
sort-Distinct less (x ∷ xs) d =
    insert_sorted-Distinct less x (sort less xs) (All-sort (Differ x) less xs d.0)
      (sort-Distinct less xs d.1)

abbrev GoodItems : Result (List MemberPath) → Type 0
GoodItems (ok items) = Distinct items
GoodItems (err e) = Unit
GoodItems undefined = Unit
GoodItems stuck = Unit

any_step :
    {A : Type 0} (r : Result A) (s : Resolver) (f : A → M (List MemberPath))
    → ((a : A) → GoodItems (f a s).0)
    → GoodItems (step_into r s f).0
any_step (ok a) s f h = h a
any_step (err e) s f h = tt
any_step undefined s f h = tt
any_step stuck s f h = tt

sorted_items :
    (r : Result Index) (s : Resolver)
    → Good r
    → GoodItems (step_into r s (λ ix s'. (ok (sort item_less ix.items), s'))).0
sorted_items (ok ix) s g = sort-Distinct item_less ix.items g.1
sorted_items (err e) s g = tt
sorted_items undefined s g = tt
sorted_items stuck s g = tt

build_member_index-Distinct :
    (max_depth fuel : ℕ) (r : Resolver) → GoodItems (build_member_index max_depth fuel r).0
unfolding build_member_index
build_member_index-Distinct max_depth fuel r =
    let parsed = parse_all_cus r in
    let variables = sort (λ a b. ltb a.offset b.offset) (named_variables parsed.1.dies) in
    let built = index_variables max_depth fuel variables no_items parsed.1 in
    elim (Bool-cases (not (available r) || max_depth == 0)) [
      | inl closed ↦ rw closed tt
      | inr open_ ↦ rw open_ (
          any_step {A = Unit {0}} parsed.0 parsed.1 _ λ done.
            sorted_items built.0 built.1
              (index_variables-Good max_depth fuel variables no_items parsed.1 (tt, tt)))
    ]

All-IsSeen :
    (items : List MemberPath)
    → All (IsSeen (map (λ (item : MemberPath). item.expression) items)) items
All-IsSeen [] = tt
All-IsSeen (x ∷ items) = (
  seen_now x.expression (map (λ (item : MemberPath). item.expression) items),
  IsSeen-later x.expression (map (λ (item : MemberPath). item.expression) items) items
      (All-IsSeen items),
)

with_symbols :
    (r : Result (List MemberPath)) (handle : Handle)
    → GoodItems r
    → GoodItems (
        r >>= λ items.
        let seen = map (λ (item : MemberPath). item.expression) items in
        ok (
          sort item_less
            (add_symbol_variables_to_index handle.sections
              (record { seen = seen; items = items })).items))
with_symbols (ok items) handle d =
    let seen = map (λ (item : MemberPath). item.expression) items in
    let ix : Index = record { seen = seen; items = items } in
    sort-Distinct item_less (add_symbol_variables_to_index handle.sections ix).items
      (add_symbol_variables_to_index-IsIndex handle.sections ix (All-IsSeen items, d)).1
with_symbols (err e) handle d = tt
with_symbols undefined handle d = tt
with_symbols stuck handle d = tt

-- The items that write_member_index_json writes, those of the debug information and of the symbol tables, sorted, never
-- hold an expression twice.
pub index_items-Distinct :
    (fuel max_depth : ℕ) (handle : Handle) (items : List MemberPath)
    → index_items fuel max_depth handle ≡ ok items
    → Distinct items
unfolding index_items
index_items-Distinct fuel max_depth handle items h =
    let members = (build_member_index max_depth fuel handle.dwarf).0 in
    let good : GoodItems (index_items fuel max_depth handle) =
      elim (Bool-cases (available handle.dwarf)) [
        | inl usable ↦
            rw usable (
              with_symbols members handle (build_member_index-Distinct max_depth fuel handle.dwarf))
        | inr bare ↦ rw bare tt
      ] in
    subst GoodItems h good

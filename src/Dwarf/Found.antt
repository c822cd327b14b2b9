-- ===== src/Dwarf/Found.antt =====
-- What DwarfResolver::resolve finds.
use tc397tools.Prelude.{
  ℕ, ◌<◌, ◌^◌, ◌+◌, true, Option, none, some, List, [], ◌∷◌, ◌++◌, ◌≡◌, refl, subst, arith, Bytes,
  Bool-cases, ◌⊎◌, inl, inr,
}
use tc397tools.Prelude.Result.{Result, ok, err, undefined, stuck}
use tc397tools.Expression.{ParsedExpression}
use tc397tools.Reader.{wrap64}
use tc397tools.Dwarf.Data.{Die, dw_at_type}
use tc397tools.Dwarf.State.{Resolver, M, step_into, available}
use tc397tools.Dwarf.Types.{
  address_from_location, resolve_type, ref_attr, byte_size, signedness, name_of,
}
use tc397tools.Dwarf.Members.{has_value, value_or}
use tc397tools.Dwarf.Resolve.{
  VariableRef, Walk, index_outside, index_suffix, find_variable, walk_fields, finish_resolve,
  resolve_root, resolve,
}

-- The reference bears the names of the expression, an index makes it a byte, and the address has 64 bits.
pub record Answers (expr : ParsedExpression) (ref : VariableRef) : Type 0 where
  pub root : ref.base_name ≡ expr.root_name
  pub whole : ref.expression ≡ expr.base_expression ++ index_suffix expr.index
  pub is_indexed : ref.indexed ≡ has_value expr.index
  pub one_byte : has_value expr.index ≡ true → ref.byte_size ≡ 1
  pub address_fits : ref.address < 2 ^ 64

abbrev Good : ParsedExpression → Result (Option VariableRef) → Type 0
Good expr (ok (some ref)) = Answers expr ref
Good expr (ok none) = Unit
Good expr (err e) = Unit
Good expr undefined = Unit
Good expr stuck = Unit

abbrev GoodStep : ParsedExpression → Result (Option VariableRef) × Resolver → Type 0
GoodStep expr done = Good expr done.0

option_step :
    {A : Type 0} (expr : ParsedExpression) (r : Result (Option A)) (s : Resolver)
    (f : Option A → M (Option VariableRef))
    → GoodStep expr (f none s)
    → ((a : A) → GoodStep expr (f (some a) s))
    → GoodStep expr (step_into r s f)
option_step expr (ok none) s f g h = g
option_step expr (ok (some a)) s f g h = h a
option_step expr (err e) s f g h = tt
option_step expr undefined s f g h = tt
option_step expr stuck s f g h = tt

wrap64-fits : (n : ℕ) → wrap64 n < 2 ^ 64
wrap64-fits n = omega arith

finish_resolve-Good :
    (expr : ParsedExpression) (a n : ℕ) (w : Walk) → Good expr (finish_resolve expr a n w)
unfolding finish_resolve
finish_resolve-Good expr a n w = elim (Bool-cases (index_outside expr.index w.final_size)) [
  | inl outside ↦ rw outside tt
  | inr inside ↦ rw inside record {
    root = refl;
    whole = refl;
    is_indexed = refl;
    one_byte = λ h. rw h refl;
    address_fits = wrap64-fits (a + w.byte_offset + value_or expr.index 0);
  }
]

resolve_root-Good :
    (fuel : ℕ) (expr : ParsedExpression) (root : Die) (s : Resolver)
    → GoodStep expr (resolve_root fuel expr root s)
unfolding resolve_root
resolve_root-Good fuel expr root s =
    option_step {A = ℕ} expr (address_from_location s.cus root) s _ tt λ a.
      let found = resolve_type fuel (ref_attr root dw_at_type) s in
      option_step {A = Die} expr found.0 found.1 _ tt λ t.
        let walked =
          walk_fields fuel expr.fields
            (record {
              current_type = some t;
              byte_offset = 0;
              final_size = value_or (byte_size t) 0;
              final_signed = signedness t;
              final_type_name = name_of t;
              traversed = expr.root_name;
            })
            found.1 in
        option_step {A = Walk} expr walked.0 walked.1 _ tt
          λ w. finish_resolve-Good expr a (value_or (byte_size t) 0) w

pub fields_cases :
    (fields : List Bytes)
    → (fields ≡ []) ⊎ ((f : Bytes) × (rest : List Bytes) × (fields ≡ f ∷ rest))
fields_cases [] = inl refl
fields_cases (f ∷ rest) = inr (f, rest, refl)

resolve-Good :
    (fuel : ℕ) (expr : ParsedExpression) (s : Resolver) → GoodStep expr (resolve fuel expr s)
unfolding resolve
resolve-Good fuel expr s = elim (Bool-cases (available s)) [
  | inr closed ↦ rw closed tt
  | inl open_ ↦ elim (fields_cases expr.fields) [
    | inl none_ ↦ simp (open_, none_) tt
    | inr (f, rest, some_) ↦
        let root = find_variable expr.root_name s in
        simp (open_, some_)
          (option_step {A = Die} expr root.0 root.1 _ tt
            (λ die. resolve_root-Good fuel expr die root.1))
  ]
]

-- A reference that DwarfResolver::resolve finds bears the root name and the whole base expression with its index, is
-- indexed where the expression has an index, has one byte there, and an address below 2 ^ 64.
pub resolve-Answers :
    (fuel : ℕ) (expr : ParsedExpression) (s : Resolver) (ref : VariableRef)
    → (resolve fuel expr s).0 ≡ ok (some ref)
    → Answers expr ref
resolve-Answers fuel expr s ref h = subst (Good expr) h (resolve-Good fuel expr s)

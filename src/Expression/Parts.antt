-- ===== src/Expression/Parts.antt =====
-- The parts that parse_expression finds between the dots.
use tc397tools.Prelude.{
  ℕ, Bool, true, false, Option, List, [], ◌∷◌, ◌++◌, ◌≡◌, refl, sym, ap, ◌∙◌, arith, if◌then◌else◌,
  ◌==◌, Bool-cases, inl, inr, All, ==_iff, Bytes, bytes_eq,
}
use mathlib.Core.List.{append_assoc, append-nil}
use tc397tools.Prelude.Result.{Result, ok, err, undefined, stuck, ◌>>=◌}
use tc397tools.Expression.{
  ParsedExpression, split_index, split_dots, take_parts, parse_expression, unparsed,
  invalid_reference,
}

-- The parts with a dot between them.
unfoldable pub join : List Bytes → Bytes
join [] = []
join (part ∷ []) = part
join (part ∷ next ∷ parts) = part ++ b'.' ∷ join (next ∷ parts)

split_dots-cons :
    (part text : Bytes)
    → (first : Bytes) × (parts : List Bytes) × (split_dots part text ≡ first ∷ parts)
unfolding split_dots
split_dots-cons part [] = (part, [], refl)
split_dots-cons part (c ∷ text) = elim (Bool-cases (c == b'.')) [
  | inl dot ↦ (part, split_dots [] text, rw dot refl)
  | inr other ↦
      let (first, parts, e) = split_dots-cons (part ++ c ∷ []) text in (first, parts, rw other e)
]

join-split_dots : (part text : Bytes) → join (split_dots part text) ≡ part ++ text
unfolding split_dots join
join-split_dots part [] = sym (append-nil part)
join-split_dots part (c ∷ text) = elim (Bool-cases (c == b'.')) [
  | inl dot ↦
      let (first, parts, e) = split_dots-cons [] text in
      let back : join (first ∷ parts) ≡ text = ap join (sym e) ∙ join-split_dots [] text in
      let is_dot : c ≡ b'.' = (==_iff c b'.').0 dot in
      rw (dot, e)
        (ap (λ (t : Bytes). part ++ b'.' ∷ t) back ∙ ap (λ (k : ℕ). part ++ k ∷ text) (sym is_dot))
  | inr other ↦ rw other (join-split_dots (part ++ c ∷ []) text ∙ append_assoc part (c ∷ []) text)
]

abbrev pub IsPart : Bytes → Type 0
IsPart part = bytes_eq part [] ≡ false

take_parts-next :
    (expression part : Bytes) (parts : List Bytes) (parsed : ParsedExpression)
    → IsPart part
    → IsPart parsed.root_name
    → take_parts expression (part ∷ parts) parsed
      ≡ take_parts expression parts (record parsed { fields = parsed.fields ++ part ∷ [] })
unfolding take_parts
take_parts-next expression part parts parsed full h = rw (full, h) refl

take_parts-first :
    (expression part base : Bytes) (parts : List Bytes) (index : Option ℕ)
    (result : ParsedExpression)
    → take_parts expression (part ∷ parts) (unparsed base index) ≡ ok result
    → IsPart part
      × (take_parts expression parts (record (unparsed base index) { root_name = part })
          ≡ ok result)
unfolding take_parts bytes_eq
take_parts-first expression [] base parts index result e = cc
take_parts-first expression (c ∷ part) base parts index result e = (refl, e)

take_parts-fields :
    (expression : Bytes) (parts : List Bytes) (parsed result : ParsedExpression)
    → IsPart parsed.root_name
    → take_parts expression parts parsed ≡ ok result
    → (result.root_name ≡ parsed.root_name)
      × (result.fields ≡ parsed.fields ++ parts)
      × (result.base_expression ≡ parsed.base_expression)
      × All IsPart parts
unfolding take_parts
take_parts-fields expression [] parsed result h e =
    let same : result ≡ parsed = cc in
    (
      ap (λ (p : ParsedExpression). p.root_name) same,
      ap (λ (p : ParsedExpression). p.fields) same ∙ sym (append-nil parsed.fields),
      ap (λ (p : ParsedExpression). p.base_expression) same,
      tt,
    )
take_parts-fields expression (part ∷ parts) parsed result h e =
    elim (Bool-cases (bytes_eq part [])) [
      | inl empty ↦ absurd (ground arith)
      | inr full ↦
          let next : ParsedExpression = record parsed { fields = parsed.fields ++ part ∷ [] } in
          let (root, fields, base, all) =
            take_parts-fields expression parts next result h
              (sym (take_parts-next expression part parts parsed full h) ∙ e) in
          (root, fields ∙ append_assoc parsed.fields (part ∷ []) parts, base, (full, all))
    ]

split-parts :
    (expression base : Bytes) (index : Option ℕ) (result : ParsedExpression)
    → take_parts expression (split_dots [] base) (unparsed base index) ≡ ok result
    → (join (result.root_name ∷ result.fields) ≡ result.base_expression)
      × All IsPart (result.root_name ∷ result.fields)
split-parts expression base index result e =
    let (first, parts, cut) = split_dots-cons [] base in
    let (full, later) =
      take_parts-first expression first base parts index result (rw (sym cut) e) in
    let (root, fields, same_base, all) =
      take_parts-fields expression parts (record (unparsed base index) { root_name = first }) result
        full later in
    rw (root, fields, same_base) (ap join (sym cut) ∙ join-split_dots [] base, (full, all))

behind_test :
    (empty : Bool) (expression : Bytes) (parsed : Result ParsedExpression)
    (result : ParsedExpression)
    → (if empty then invalid_reference expression else parsed) ≡ ok result
    → parsed ≡ ok result
behind_test true expression parsed result e = cc
behind_test false expression parsed result e = e

behind_index :
    (split : Result (Bytes × Option ℕ)) (expression : Bytes) (result : ParsedExpression)
    → (split >>= λ (base, index).
        (if bytes_eq base []
          then invalid_reference expression
          else take_parts expression (split_dots [] base) (unparsed base index)))
      ≡ ok result
    → (join (result.root_name ∷ result.fields) ≡ result.base_expression)
      × All IsPart (result.root_name ∷ result.fields)
behind_index (ok (base, index)) expression result e =
    split-parts expression base index result (behind_test (bytes_eq base []) expression _ result e)
behind_index (err thrown) expression result e = cc
behind_index undefined expression result e = cc
behind_index stuck expression result e = cc

-- Where parse_expression succeeds, the root name and the fields joined by dots are the base expression,
-- and none of them is empty.
pub parse_expression-parts :
    (expression : Bytes) (result : ParsedExpression)
    → parse_expression expression ≡ ok result
    → (join (result.root_name ∷ result.fields) ≡ result.base_expression)
      × All IsPart (result.root_name ∷ result.fields)
unfolding parse_expression
parse_expression-parts expression result e =
    behind_index (split_index expression) expression result e

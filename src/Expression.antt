-- ===== src/Expression.antt =====
-- parse_uint and parse_expression of cpp/tc397_elfio_resolver.cpp.
pub mod Parts
mod Tests
use tc397tools.Prelude.{
  ℕ, ◌&&◌, ◌||◌, Option, none, some, List, [], ◌∷◌, ◌++◌, ◌==◌, if◌then◌else◌, Bytes, codes,
  bytes_eq,
}
use tc397tools.Prelude.Result.{Result, ok, err, runtime_error, ◌>>=◌}
use tc397tools.Prelude.Stoull.{stoull}

pub record ParsedExpression : Type 0 where
  pub base_expression : Bytes
  pub root_name : Bytes
  pub fields : List Bytes
  pub index : Option ℕ

-- `text.size() > 2 && text[0] == '0' && (text[1] == 'x' || text[1] == 'X')`
abbrev base_of : Bytes → ℕ
base_of (z ∷ x ∷ d ∷ rest) = if z == b'0' && (x == b'x' || x == b'X') then 16 else 10
base_of text = 10

abbrev pub invalid_integer : Bytes → Result ℕ
invalid_integer text = err (runtime_error (codes "invalid integer: " ++ text))

-- `pos != text.size()` is that text is left over.
unfoldable pub parse_uint : Bytes → Result ℕ
parse_uint text = do
  (value, rest) ← stoull (base_of text) text
  elim rest [ [] ↦ ok value | ◌∷◌ _ _ ↦ invalid_integer text ]

abbrev pub invalid_reference {ℓ} : {A : Type ℓ} → Bytes → Result A
invalid_reference expression =
    err (runtime_error (codes "invalid variable reference: " ++ expression))

-- The text before the last `[` and the text behind it.
unfoldable pub rsplit_bracket : Bytes → Option (Bytes × Bytes)
rsplit_bracket [] = none
rsplit_bracket (c ∷ cs) = elim (rsplit_bracket cs) [
  | some (before, behind) ↦ some (c ∷ before, behind)
  | none ↦ if c == b'[' then some ([], cs) else none
]

-- The text before a closing `]` at the end.
unfoldable pub strip_bracket : Bytes → Option Bytes
strip_bracket [] = none
strip_bracket (c ∷ []) = if c == b']' then some [] else none
strip_bracket (c ∷ d ∷ cs) = elim (strip_bracket (d ∷ cs)) [ none ↦ none | some t ↦ some (c ∷ t) ]

-- The base expression and the index.
unfoldable pub split_index : Bytes → Result (Bytes × Option ℕ)
unfolding rsplit_bracket strip_bracket
split_index expression = elim (rsplit_bracket expression) [
  | none ↦ ok (expression, none)
  | some (before, behind) ↦ elim (strip_bracket behind) [
    | none ↦ invalid_reference expression
    | some inner ↦ (do index ← parse_uint inner; ok (before, some index))
  ]
]

-- The parts between the dots: what the calls of `find('.', start)` cut out, in order.
unfoldable pub split_dots : Bytes → Bytes → List Bytes
split_dots part [] = part ∷ []
split_dots part (c ∷ cs) =
    let rest = split_dots [] cs in
    let more = split_dots (part ++ c ∷ []) cs in if c == b'.' then part ∷ rest else more

-- One round of the `while (true)` for each part.
unfoldable pub take_parts : Bytes → List Bytes → ParsedExpression → Result ParsedExpression
take_parts expression [] parsed = ok parsed
take_parts expression (part ∷ parts) parsed =
    let with_root = take_parts expression parts (record parsed { root_name = part }) in
    let with_field =
      take_parts expression parts (record parsed { fields = parsed.fields ++ part ∷ [] }) in
    if bytes_eq part []
    then invalid_reference expression
    else if bytes_eq parsed.root_name []
    then with_root
    else with_field

abbrev pub unparsed : Bytes → Option ℕ → ParsedExpression
unparsed base index = record { base_expression = base; root_name = []; fields = []; index = index }

unfoldable pub parse_expression : Bytes → Result ParsedExpression
parse_expression expression = do
  (base, index) ← split_index expression
  let parsed = take_parts expression (split_dots [] base) (unparsed base index)
  if bytes_eq base [] then invalid_reference expression else parsed

-- ===== src/Json/Entries.antt =====
-- parse_entry, ElfIndex::parse_index_json and the reading of a resolver's answer, of
-- TasGui/src/elf_index.cpp. The fuel of the loops is the length of the text.
use tc397tools.Prelude.{
  ℕ, zero, suc, ◌%◌, ◌^◌, List, [], ◌∷◌, ◌++◌, ◌==◌, if◌then◌else◌, length, Bytes, codes, bytes_eq,
}
use tc397tools.Prelude.Result.{Result, ok, err, undefined, stuck, ◌>>=◌}
use tc397tools.Json.Scan.{
  ws, expect, str, uint_, skip_value, signed_field, head_or_zero, Sign, sign_unknown,
}

pub record VarEntry : Type 0 where
  pub member_name : Bytes
  pub expression : Bytes
  pub type_name : Bytes
  pub address : ℕ
  pub byte_size : ℕ
  pub is_signed : Sign

abbrev pub empty_entry : VarEntry
empty_entry = record {
  member_name = [];
  expression = [];
  type_name = [];
  address = 0;
  byte_size = 0;
  is_signed = sign_unknown;
}

abbrev read_text : Bytes → (Bytes → VarEntry) → Result (VarEntry × Bytes)
read_text text set_field = do (value, rest) ← str text; ok (set_field value, rest)

abbrev read_number : Bytes → (ℕ → VarEntry) → Result (VarEntry × Bytes)
read_number text set_field = let (value, rest) = uint_ text in ok (set_field value, rest)

-- The chain of tests on the key, behind `expect(':')`.
unfoldable pub read_field : ℕ → Bytes → VarEntry → Bytes → Result (VarEntry × Bytes)
read_field fuel name e text =
    if bytes_eq name (codes "member_name")
    then read_text text (λ v. record e { member_name = v })
    else if bytes_eq name (codes "expression")
    then read_text text (λ v. record e { expression = v })
    else if bytes_eq name (codes "type_name")
    then read_text text (λ v. record e { type_name = v })
    else if bytes_eq name (codes "address")
    then read_number text (λ v. record e { address = v })
    else if bytes_eq name (codes "byte_size")
    then read_number text (λ v. record e { byte_size = v % 2 ^ 32 })
    else if bytes_eq name (codes "signed")
    then (do (v, rest) ← signed_field fuel text; ok (record e { is_signed = v }, rest))
    else (do rest ← skip_value fuel text; ok (e, rest))

-- `std::string key = js.str(); js.expect(':');` and the field.
unfoldable pub read_pair : ℕ → VarEntry → Bytes → Result (VarEntry × Bytes)
read_pair fuel e text = do
  (name, rest) ← str text
  value ← expect b':' rest
  read_field fuel name e value

-- The `while (true)` of parse_entry, up to its `break`.
unfoldable pub entry_loop : ℕ → VarEntry → Bytes → Result (VarEntry × Bytes)
unfolding read_pair
entry_loop zero e text = stuck
entry_loop (suc fuel) e text = do
  (e', rest) ← read_pair fuel e text
  let next = do behind ← expect b',' rest; entry_loop fuel e' behind
  if head_or_zero (ws rest) == b',' then next else ok (e', ws rest)

-- parse_entry: the entry that it appends, and the text behind it.
unfoldable pub parse_entry : ℕ → Bytes → Result (VarEntry × Bytes)
unfolding entry_loop
parse_entry fuel text = do
  inside ← expect b'{' text
  let loop = entry_loop fuel empty_entry inside
  (e, rest) ← (if head_or_zero (ws inside) == b'}' then ok (empty_entry, ws inside) else loop)
  behind ← expect b'}' rest
  ok (e, behind)

-- A loop that appends to `entries_` returns what it has appended also where it throws.
abbrev pub Reading : Type 0
Reading = List VarEntry × Result Bytes

abbrev pub then_read : List VarEntry → Result Bytes → (Bytes → Reading) → Reading
then_read entries (ok text) f = f text
then_read entries (err e) f = (entries, err e)
then_read entries undefined f = (entries, undefined)
then_read entries stuck f = (entries, stuck)

abbrev append_entry : List VarEntry → Result (VarEntry × Bytes) → Reading
append_entry entries (ok (e, rest)) = (entries ++ e ∷ [], ok rest)
append_entry entries (err e) = (entries, err e)
append_entry entries undefined = (entries, undefined)
append_entry entries stuck = (entries, stuck)

-- The entries of one member, up to the `break`.
unfoldable pub items_loop : ℕ → List VarEntry → Bytes → Reading
items_loop zero entries text = (entries, stuck)
items_loop (suc fuel) entries text =
    let (entries', result) = append_entry entries (parse_entry fuel text) in
    then_read entries' result λ rest.
      let next = then_read entries' (expect b',' rest) (items_loop fuel entries') in
      if head_or_zero (ws rest) == b',' then next else (entries', ok (ws rest))

-- `js.str(); js.expect(':'); js.expect('[');`
abbrev open_group : Bytes → Result Bytes
open_group text = do (name, rest) ← str text; value ← expect b':' rest; expect b'[' value

-- One member: its name and its entries in brackets.
unfoldable pub read_group : ℕ → List VarEntry → Bytes → Reading
read_group fuel entries text = then_read entries (open_group text) λ inside.
    let loop = items_loop fuel entries inside in
    let (entries', result) =
      (if head_or_zero (ws inside) == b']' then (entries, ok (ws inside)) else loop) in
    (entries', result >>= expect b']')

-- The members, up to the `break`.
unfoldable pub groups_loop : ℕ → List VarEntry → Bytes → Reading
groups_loop zero entries text = (entries, stuck)
groups_loop (suc fuel) entries text =
    let (entries', result) = read_group fuel entries text in
    then_read entries' result λ rest.
      let next = then_read entries' (expect b',' rest) (groups_loop fuel entries') in
      if head_or_zero (ws rest) == b',' then next else (entries', ok (ws rest))

-- The value of `entries_by_member`.
unfoldable pub read_groups : ℕ → List VarEntry → Bytes → Reading
read_groups fuel entries text = then_read entries (expect b'{' text) λ inside.
    let loop = groups_loop fuel entries inside in
    let (entries', result) =
      (if head_or_zero (ws inside) == b'}' then (entries, ok (ws inside)) else loop) in
    (entries', result >>= expect b'}')

abbrev read_key : Bytes → Result (Bytes × Bytes)
read_key text = do (name, rest) ← str text; value ← expect b':' rest; ok (name, value)

abbrev with_key : List VarEntry → Result (Bytes × Bytes) → (Bytes → Bytes → Reading) → Reading
with_key entries (ok (name, value)) f = f name value
with_key entries (err e) f = (entries, err e)
with_key entries undefined f = (entries, undefined)
with_key entries stuck f = (entries, stuck)

-- The outer loop of parse_index_json.
unfoldable pub index_loop : ℕ → List VarEntry → Bytes → Reading
index_loop zero entries text = (entries, stuck)
index_loop (suc fuel) entries text = with_key entries (read_key text) λ name value.
    let (entries', result) =
      (if bytes_eq name (codes "entries_by_member")
        then read_groups fuel entries value
        else (entries, skip_value fuel value)) in
    then_read entries' result λ rest.
      let next = then_read entries' (expect b',' rest) (index_loop fuel entries') in
      if head_or_zero (ws rest) == b',' then next else (entries', ok (ws rest))

-- parse_index_json: `entries_` and whether it returns true, or the exception that it catches.
unfoldable pub parse_index_json : Bytes → List VarEntry × Result (Unit {0})
parse_index_json text =
    let fuel = suc (length text) in
    let (entries, result) = then_read [] (expect b'{' text) λ inside.
      let loop = index_loop fuel [] inside in
      if head_or_zero (ws inside) == b'}' then ([], expect b'}' inside) else loop in
    (entries, result >>= λ rest. ok tt)

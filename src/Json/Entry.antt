-- ===== src/Json/Entry.antt =====
-- parse_entry reads back what to_json writes for a MemberPath.
use tc397tools.Prelude.{ℕ, suc, ◌%◌, ◌^◌, ◌<◌, [], ◌∷◌, ◌++◌, ◌≡◌, refl, ap, ◌∙◌, Bytes}
use mathlib.Core.List.{append_assoc}
use tc397tools.Prelude.Result.{ok}
use tc397tools.Prelude.Decimal.{to_string}
use tc397tools.Dwarf.{MemberPath}
use tc397tools.Json.Writer.{quoted, key, signed_text, member_to_json}
use tc397tools.Json.Scan.{ws, expect}
use tc397tools.Json.Entries.{VarEntry, empty_entry, read_pair, entry_loop, parse_entry}
use tc397tools.Json.Pairs.{
  read_member_name, read_expression, skip_base_name, read_address, skip_byte_offset, read_byte_size,
  read_signed, read_type_name, sign_of,
}

-- The entry that stands for an item: its size is cut to 32 bits.
abbrev pub entry_of : MemberPath → VarEntry
entry_of item = record {
  member_name = item.member_name;
  expression = item.expression;
  type_name = item.type_name;
  address = item.address;
  byte_size = item.byte_size % 2 ^ 32;
  is_signed = sign_of item.signed_known item.is_signed;
}

-- The text of an item from a key on, with `rest` behind it.
module _ (item : MemberPath) (rest : Bytes) where
  abbrev from_type_name : Bytes
  from_type_name = key "type_name" ++ (quoted item.type_name ++ b'}' ∷ rest)

  abbrev from_signed : Bytes
  from_signed =
      key "signed" ++ (signed_text item.signed_known item.is_signed ++ b',' ∷ from_type_name)

  abbrev from_byte_size : Bytes
  from_byte_size = key "byte_size" ++ (to_string item.byte_size ++ b',' ∷ from_signed)

  abbrev from_byte_offset : Bytes
  from_byte_offset = key "byte_offset" ++ (to_string item.byte_offset ++ b',' ∷ from_byte_size)

  abbrev from_address : Bytes
  from_address = key "address" ++ (to_string item.address ++ b',' ∷ from_byte_offset)

  abbrev from_base_name : Bytes
  from_base_name = key "base_name" ++ (quoted item.base_name ++ b',' ∷ from_address)

  abbrev from_expression : Bytes
  from_expression = key "expression" ++ (quoted item.expression ++ b',' ∷ from_base_name)

  abbrev from_member_name : Bytes
  from_member_name = key "member_name" ++ (quoted item.member_name ++ b',' ∷ from_expression)

onto :
    (k v : Bytes) (c : ℕ) (t : Bytes) {t' : Bytes} (rest : Bytes)
    → t ++ rest ≡ t'
    → (k ++ (v ++ c ∷ t)) ++ rest ≡ k ++ (v ++ c ∷ t')
onto k v c t rest h =
    append_assoc k (v ++ c ∷ t) rest
    ∙ ap (λ (s : Bytes). k ++ s) (append_assoc v (c ∷ t) rest)
    ∙ ap (λ (s : Bytes). k ++ (v ++ c ∷ s)) h

member_to_json-append :
    (item : MemberPath) (rest : Bytes)
    → member_to_json item ++ rest ≡ b'{' ∷ from_member_name item rest
unfolding member_to_json
member_to_json-append item rest = ap (◌∷◌ b'{') (
    onto (key "member_name") (quoted item.member_name) b',' _ rest (
      onto (key "expression") (quoted item.expression) b',' _ rest (
        onto (key "base_name") (quoted item.base_name) b',' _ rest (
          onto (key "address") (to_string item.address) b',' _ rest (
            onto (key "byte_offset") (to_string item.byte_offset) b',' _ rest (
              onto (key "byte_size") (to_string item.byte_size) b',' _ rest (
                onto (key "signed") (signed_text item.signed_known item.is_signed) b',' _ rest
                  (onto (key "type_name") (quoted item.type_name) b'}' [] rest refl))))))))

entry_step :
    (fuel : ℕ) (e e' : VarEntry) (text t : Bytes)
    → read_pair fuel e text ≡ ok (e', b',' ∷ t)
    → entry_loop (suc fuel) e text ≡ entry_loop fuel e' t
unfolding entry_loop expect
entry_step fuel e e' text t h = rw h

entry_last :
    (fuel : ℕ) (e e' : VarEntry) (text t : Bytes)
    → read_pair fuel e text ≡ ok (e', b'}' ∷ t)
    → entry_loop (suc fuel) e text ≡ ok (e', b'}' ∷ t)
unfolding entry_loop ws
entry_last fuel e e' text t h = rw h

-- The numbers of an item are uint64_t values.
pub record IsItem (item : MemberPath) : Type 0 where
  pub address_fits : item.address < 2 ^ 64
  pub size_fits : item.byte_size < 2 ^ 64

-- The fuel for the eight pairs of an item.
abbrev pub eight : ℕ → ℕ
eight f = suc (suc (suc (suc (suc (suc (suc (suc f)))))))

module _ (item : MemberPath) where
  abbrev e1 : VarEntry
  e1 = record empty_entry { member_name = item.member_name }

  abbrev e2 : VarEntry
  e2 = record e1 { expression = item.expression }

  abbrev e3 : VarEntry
  e3 = record e2 { address = item.address }

  abbrev e4 : VarEntry
  e4 = record e3 { byte_size = item.byte_size % 2 ^ 32 }

  abbrev e5 : VarEntry
  e5 = record e4 { is_signed = sign_of item.signed_known item.is_signed }

  entry_loop-item :
      (f : ℕ) (rest : Bytes)
      → IsItem item
      → entry_loop (eight f) empty_entry (from_member_name item rest)
        ≡ ok (entry_of item, b'}' ∷ rest)
  entry_loop-item f rest h =
      entry_step _ empty_entry e1 _ (from_expression item rest)
        (read_member_name _ empty_entry _ item.member_name)
      ∙ entry_step _ e1 e2 _ (from_base_name item rest) (read_expression _ e1 _ item.expression)
      ∙ entry_step _ e2 e2 _ (from_address item rest) (skip_base_name _ e2 item.base_name _)
      ∙ entry_step _ e2 e3 _ (from_byte_offset item rest)
          (read_address _ e2 item.address b',' _ refl h.address_fits)
      ∙ entry_step _ e3 e3 _ (from_byte_size item rest)
          (skip_byte_offset _ e3 item.byte_offset b',' _ refl)
      ∙ entry_step _ e3 e4 _ (from_signed item rest)
          (read_byte_size _ e3 item.byte_size b',' _ refl h.size_fits)
      ∙ entry_step _ e4 e5 _ (from_type_name item rest)
          (read_signed _ e4 _ item.signed_known item.is_signed)
      ∙ entry_last f e5 (entry_of item) _ rest (read_type_name f e5 _ item.type_name)

-- parse_entry, at the text that to_json writes for an item, appends the item's entry and leaves what
-- follows; the fuel is 8 or more.
pub parse_entry-member_to_json :
    (f : ℕ) (item : MemberPath) (rest : Bytes)
    → IsItem item
    → parse_entry (eight f) (member_to_json item ++ rest) ≡ ok (entry_of item, rest)
unfolding parse_entry expect
parse_entry-member_to_json f item rest h =
    rw (member_to_json-append item rest) (rw (entry_loop-item item f rest h))

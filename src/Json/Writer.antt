-- ===== src/Json/Writer.antt =====
-- json_escape, to_json and to_member_index_json of cpp/tc397_elfio_resolver.cpp.
use Prim.Native.String.{String}
use tc397tools.Prelude.{
  ℕ, ◌+◌, ◌-◌, ◌/◌, ◌%◌, Bool, true, false, List, [], ◌∷◌, ◌++◌, ltb, ◌==◌, if◌then◌else◌, length,
  Bytes, bytes_eq, codes,
}
use tc397tools.Prelude.Decimal.{to_string}
use tc397tools.Prelude.Sort.{bytes_less}
use tc397tools.Dwarf.{MemberPath, VariableRef}

-- A hexadecimal digit, in lower case.
unfoldable pub hex_digit : ℕ → ℕ
hex_digit d = if ltb d 10 then b'0' + d else b'a' + (d - 10)

abbrev pub escaped : ℕ → Bytes
escaped c = b'\\' ∷ c ∷ []

-- What json_escape writes for one character.
unfoldable pub escape_char : ℕ → Bytes
unfolding hex_digit
escape_char c =
    if c == b'\\'
    then escaped b'\\'
    else if c == b'"'
    then escaped b'"'
    else if c == b'\n'
    then escaped b'n'
    else if c == b'\r'
    then escaped b'r'
    else if c == b'\t'
    then escaped b't'
    else if ltb c 0x20
    then b'\\' ∷ b'u' ∷ b'0' ∷ b'0' ∷ hex_digit (c / 16) ∷ hex_digit (c % 16) ∷ []
    else c ∷ []

unfoldable pub json_escape : Bytes → Bytes
unfolding escape_char
json_escape [] = []
json_escape (c ∷ text) = escape_char c ++ json_escape text

-- `"` text `"`, and `"` key `":`.
abbrev pub quoted : Bytes → Bytes
quoted text = b'"' ∷ (json_escape text ++ b'"' ∷ [])

abbrev pub key : String → Bytes
key name = b'"' ∷ (codes name ++ b'"' ∷ b':' ∷ [])

abbrev pub boolean : Bool → Bytes
boolean true = codes "true"
boolean false = codes "false"

abbrev pub signed_text : Bool → Bool → Bytes
signed_text known is_signed = if known then boolean is_signed else codes "null"

-- to_json(const VariableRef&).
unfoldable pub variable_to_json : VariableRef → Bytes
unfolding json_escape
variable_to_json ref =
    b'{'
    ∷ (key "expression"
        ++ (quoted ref.expression
            ++ b','
              ∷ (key "base_name"
                  ++ (quoted ref.base_name
                      ++ b','
                        ∷ (key "address"
                            ++ (to_string ref.address
                                ++ b','
                                  ∷ (key "byte_size"
                                      ++ (to_string ref.byte_size
                                          ++ b','
                                            ∷ (key "variable_size"
                                                ++ (to_string ref.variable_size
                                                    ++ b','
                                                      ∷ (key "indexed"
                                                          ++ (boolean ref.indexed
                                                            ++ b','
                                                            ∷ (key "signed"
                                                            ++ (signed_text ref.signed_known
                                                            ref.is_signed
                                                            ++ b','
                                                            ∷ (key "source"
                                                            ++ (quoted ref.source
                                                            ++ b','
                                                            ∷ (key "symbol_type"
                                                            ++ (quoted ref.symbol_type
                                                            ++ b','
                                                            ∷ (key "binding"
                                                            ++ (quoted ref.binding
                                                            ++ b','
                                                            ∷ (key "section_name"
                                                            ++ (quoted ref.section_name
                                                            ++ b','
                                                            ∷ (key "type_name"
                                                            ++ (quoted ref.type_name
                                                            ++ b'}' ∷ []))))))))))))))))))))))))

-- to_json(const MemberPath&).
unfoldable pub member_to_json : MemberPath → Bytes
unfolding json_escape
member_to_json item =
    b'{'
    ∷ (key "member_name"
        ++ (quoted item.member_name
            ++ b','
              ∷ (key "expression"
                  ++ (quoted item.expression
                      ++ b','
                        ∷ (key "base_name"
                            ++ (quoted item.base_name
                                ++ b','
                                  ∷ (key "address"
                                      ++ (to_string item.address
                                          ++ b','
                                            ∷ (key "byte_offset"
                                                ++ (to_string item.byte_offset
                                                    ++ b','
                                                      ∷ (key "byte_size"
                                                          ++ (to_string item.byte_size
                                                            ++ b','
                                                            ∷ (key "signed"
                                                            ++ (signed_text item.signed_known
                                                            item.is_signed
                                                            ++ b','
                                                            ∷ (key "type_name"
                                                            ++ (quoted item.type_name
                                                            ++ b'}' ∷ []))))))))))))))))

-- `by_member[item.member_name].push_back(&item)`, in a std::map over strings.
unfoldable pub push_by_member :
    MemberPath → List (Bytes × List MemberPath) → List (Bytes × List MemberPath)
push_by_member item [] = (item.member_name, item ∷ []) ∷ []
push_by_member item ((name, items) ∷ groups) =
    if bytes_eq name item.member_name
    then (name, items ++ item ∷ []) ∷ groups
    else if bytes_less item.member_name name
    then (item.member_name, item ∷ []) ∷ (name, items) ∷ groups
    else (name, items) ∷ push_by_member item groups

unfoldable pub group_by_member :
    List MemberPath → List (Bytes × List MemberPath) → List (Bytes × List MemberPath)
unfolding push_by_member
group_by_member [] groups = groups
group_by_member (item ∷ items) groups = group_by_member items (push_by_member item groups)

-- The items of one member, with a comma before each but the first.
unfoldable pub items_to_json : List MemberPath → Bytes
unfolding member_to_json
items_to_json [] = []
items_to_json (item ∷ []) = member_to_json item
items_to_json (item ∷ next ∷ items) = member_to_json item ++ b',' ∷ items_to_json (next ∷ items)

unfoldable pub group_to_json : Bytes × List MemberPath → Bytes
unfolding items_to_json json_escape
group_to_json (name, items) = quoted name ++ b':' ∷ b'[' ∷ (items_to_json items ++ b']' ∷ [])

unfoldable pub groups_to_json : List (Bytes × List MemberPath) → Bytes
unfolding group_to_json
groups_to_json [] = []
groups_to_json (group ∷ []) = group_to_json group
groups_to_json (group ∷ next ∷ groups) =
    group_to_json group ++ b',' ∷ groups_to_json (next ∷ groups)

abbrev pub version_text : Bytes → Bytes
version_text [] = codes "null"
version_text (c ∷ text) = quoted (c ∷ text)

-- `max_depth` is positive where this is called.
unfoldable pub to_member_index_json : Bytes → List MemberPath → ℕ → Bytes → Bytes
unfolding group_by_member groups_to_json json_escape
to_member_index_json elf_path items max_depth mcu_version =
    let groups = group_by_member items [] in
    b'{'
    ∷ (key "elf_path"
        ++ (quoted elf_path
            ++ b','
              ∷ (key "max_depth"
                  ++ (to_string max_depth
                      ++ b','
                        ∷ (key "mcu_version"
                            ++ (version_text mcu_version
                                ++ b','
                                  ∷ (key "entry_count"
                                      ++ (to_string (length items)
                                          ++ b','
                                            ∷ (key "member_count"
                                                ++ (to_string (length groups)
                                                    ++ b','
                                                      ∷ (key "entries_by_member"
                                                          ++ b'{'
                                                            ∷ (groups_to_json groups
                                                            ++ b'}' ∷ b'}' ∷ []))))))))))))

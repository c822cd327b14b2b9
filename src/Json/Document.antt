-- ===== src/Json/Document.antt =====
-- The whole document: parse_index_json after to_member_index_json.
use Prim.Native.String.{String}
use tc397tools.Prelude.{
  ℕ, suc, ◌+◌, ◌≤◌, false, List, [], ◌∷◌, ◌++◌, map, ◌≡◌, refl, arith, length, length-append, Bytes,
  bytes_eq, codes, All, All-append,
}
use tc397tools.Prelude.Result.{ok}
use tc397tools.Dwarf.{MemberPath}
use tc397tools.Json.Writer.{
  key, member_to_json, items_to_json, group_to_json, groups_to_json, group_by_member, json_escape,
  version_text, push_by_member,
}
use tc397tools.Json.Scan.{ws, expect, skip_value, match_word}
use tc397tools.Json.Entries.{VarEntry, read_groups, index_loop}
use tc397tools.Json.Pairs.{str-key, skip_value-quoted}
use tc397tools.Json.Entry.{entry_of, IsItem}
use tc397tools.Json.Index.{IsGroup, ungroup, steps, groups_loop-groups_to_json, group_not_closed}

-- A key whose value is skipped.
pub index_skip :
    (fuel : ℕ) (entries : List VarEntry) (name : String) (value text : Bytes)
    → json_escape (codes name) ≡ codes name
    → bytes_eq (codes name) (codes "entries_by_member") ≡ false
    → skip_value fuel (value ++ b',' ∷ text) ≡ ok (b',' ∷ text)
    → index_loop (suc fuel) entries (key name ++ (value ++ b',' ∷ text))
      ≡ index_loop fuel entries text
unfolding index_loop expect ws
index_skip fuel entries name value text plain other h =
    rw (str-key name plain (value ++ b',' ∷ text)) (rw (other, h))

pub skip_value-version_text :
    (fuel : ℕ) (version text : Bytes)
    → skip_value (suc fuel) (version_text version ++ b',' ∷ text) ≡ ok (b',' ∷ text)
unfolding skip_value match_word
skip_value-version_text fuel [] text = refl
skip_value-version_text fuel (c ∷ version) text = skip_value-quoted fuel (c ∷ version) (b',' ∷ text)

-- The groups of the map hold the items, and none is empty.
push_by_member-IsGroup :
    (item : MemberPath) (groups : List (Bytes × List MemberPath))
    → IsItem item
    → All IsGroup groups
    → All IsGroup (push_by_member item groups)
unfolding push_by_member
push_by_member-IsGroup item [] i g = ((i, tt), tt)
push_by_member-IsGroup item ((name, []) ∷ groups) i g = absurd g.0
push_by_member-IsGroup item ((name, first ∷ items) ∷ groups) i g = ground (
  arith,
  push_by_member-IsGroup item groups i g.1,
  All-append IsItem (first ∷ items) (item ∷ []) g.0 (i, tt),
)

pub group_by_member-IsGroup :
    (items : List MemberPath) (groups : List (Bytes × List MemberPath))
    → All IsItem items
    → All IsGroup groups
    → All IsGroup (group_by_member items groups)
unfolding group_by_member
group_by_member-IsGroup [] groups i g = g
group_by_member-IsGroup (item ∷ items) groups i g =
    group_by_member-IsGroup items (push_by_member item groups) i.1
      (push_by_member-IsGroup item groups i.0 g)

length-items_to_json : (items : List MemberPath) → length items ≤ length (items_to_json items)
unfolding items_to_json member_to_json
length-items_to_json [] = omega arith
length-items_to_json (item ∷ []) = omega arith
length-items_to_json (item ∷ next ∷ items) = omega (
  arith,
  length-append {0} (member_to_json item) (b',' ∷ items_to_json (next ∷ items)),
  length-items_to_json (next ∷ items),
)

length-group_to_json :
    (name : Bytes) (items : List MemberPath)
    → length items + 4 ≤ length (group_to_json (name, items))
unfolding group_to_json
length-group_to_json name items = omega (
  arith,
  length-append {0} (json_escape name ++ b'"' ∷ [])
      (b':' ∷ b'[' ∷ (items_to_json items ++ b']' ∷ [])),
  length-append {0} (json_escape name) (b'"' ∷ []),
  length-append {0} (items_to_json items) (b']' ∷ []),
  length-items_to_json items,
)

pub steps_le :
    (groups : List (Bytes × List MemberPath)) → steps groups ≤ length (groups_to_json groups) + 9
unfolding groups_to_json
steps_le [] = omega arith
steps_le ((name, items) ∷ []) = omega (arith, length-group_to_json name items)
steps_le ((name, items) ∷ next ∷ groups) = omega (
  arith,
  length-append {0} (group_to_json (name, items)) (b',' ∷ groups_to_json (next ∷ groups)),
  length-group_to_json name items,
  steps_le (next ∷ groups),
)

read_groups_lem :
    (groups : List (Bytes × List MemberPath)) (fuel : ℕ) (rest : Bytes)
    → All IsGroup groups
    → steps groups ≤ fuel
    → read_groups fuel [] (b'{' ∷ (groups_to_json groups ++ b'}' ∷ rest))
      ≡ (map entry_of (ungroup groups), ok rest)
unfolding read_groups expect
read_groups_lem [] fuel rest g h = unfold groups_to_json ws in refl
read_groups_lem ((name, []) ∷ groups) fuel rest g h = absurd g.0
read_groups_lem ((name, item ∷ items) ∷ groups) fuel rest g h =
    rw (group_not_closed (name, item ∷ items) groups (b'}' ∷ rest)) (
      rw (groups_loop-groups_to_json groups name item items fuel [] rest g.0 g.1 h)
        (unfold ws in refl))

pub index_groups :
    (groups : List (Bytes × List MemberPath)) (fuel : ℕ)
    → All IsGroup groups
    → steps groups ≤ fuel
    → index_loop
        (suc fuel)
        []
        (key "entries_by_member" ++ b'{' ∷ (groups_to_json groups ++ b'}' ∷ b'}' ∷ []))
      ≡ (map entry_of (ungroup groups), ok (b'}' ∷ []))
unfolding index_loop expect ws bytes_eq json_escape
index_groups groups fuel g h =
    rw (str-key "entries_by_member" refl (b'{' ∷ (groups_to_json groups ++ b'}' ∷ b'}' ∷ [])))
      (rw (read_groups_lem groups fuel (b'}' ∷ []) g h))

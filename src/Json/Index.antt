-- ===== src/Json/Index.antt =====
-- parse_index_json reads back what to_member_index_json writes.
use tc397tools.Prelude.{
  ℕ, zero, suc, ◌+◌, ◌-◌, ◌≤◌, false, List, [], ◌∷◌, ◌++◌, map, ◌≡◌, refl, sym, ap, ◌∙◌, arith,
  length, Bytes, ◌==◌, All,
}
use mathlib.Core.List.{append_assoc, append-nil, map-append}
use tc397tools.Prelude.Result.{ok}
use tc397tools.Dwarf.{MemberPath}
use tc397tools.Json.Writer.{quoted, member_to_json, items_to_json, group_to_json, groups_to_json}
use tc397tools.Json.Scan.{ws, expect, head_or_zero}
use tc397tools.Json.Entries.{VarEntry, parse_entry, items_loop, groups_loop, read_group}
use tc397tools.Json.Text.{str-quoted}
use tc397tools.Json.Entry.{entry_of, IsItem, eight, parse_entry-member_to_json}

-- parse_entry with any fuel that is enough.
parse_entry-enough :
    (fuel : ℕ) (item : MemberPath) (rest : Bytes)
    → 8 ≤ fuel
    → IsItem item
    → parse_entry fuel (member_to_json item ++ rest) ≡ ok (entry_of item, rest)
parse_entry-enough fuel item rest h i =
    ap (λ (n : ℕ). parse_entry n (member_to_json item ++ rest)) {y = eight (fuel - 8)} (omega arith)
    ∙ parse_entry-member_to_json (fuel - 8) item rest i

items_step :
    (fuel : ℕ) (entries : List VarEntry) (item : MemberPath) (rest : Bytes)
    → 8 ≤ fuel
    → IsItem item
    → items_loop (suc fuel) entries (member_to_json item ++ b',' ∷ rest)
      ≡ items_loop fuel (entries ++ entry_of item ∷ []) rest
unfolding items_loop expect
items_step fuel entries item rest h i = rw (parse_entry-enough fuel item (b',' ∷ rest) h i)

items_last :
    (fuel : ℕ) (entries : List VarEntry) (item : MemberPath) (rest : Bytes)
    → 8 ≤ fuel
    → IsItem item
    → items_loop (suc fuel) entries (member_to_json item ++ b']' ∷ rest)
      ≡ (entries ++ entry_of item ∷ [], ok (b']' ∷ rest))
unfolding items_loop ws
items_last fuel entries item rest h i = rw (parse_entry-enough fuel item (b']' ∷ rest) h i)

items_loop-items_to_json :
    (items : List MemberPath) (first : MemberPath) (fuel : ℕ) (entries : List VarEntry)
    (rest : Bytes)
    → All IsItem (first ∷ items)
    → length items + 9 ≤ fuel
    → items_loop fuel entries (items_to_json (first ∷ items) ++ b']' ∷ rest)
      ≡ (entries ++ map entry_of (first ∷ items), ok (b']' ∷ rest))
unfolding items_to_json
items_loop-items_to_json items first zero entries rest hi hf = absurd (omega arith)
items_loop-items_to_json [] first (suc fuel) entries rest hi hf =
    items_last fuel entries first rest (omega arith) hi.0
items_loop-items_to_json (next ∷ items) first (suc fuel) entries rest hi hf =
    ap (items_loop (suc fuel) entries)
      (append_assoc (member_to_json first) (b',' ∷ items_to_json (next ∷ items)) (b']' ∷ rest))
    ∙ items_step fuel entries first (items_to_json (next ∷ items) ++ b']' ∷ rest) (omega arith) hi.0
    ∙ items_loop-items_to_json items next fuel (entries ++ entry_of first ∷ []) rest hi.1
        (omega arith)
    ∙ ap (λ (t : List VarEntry). (t, ok (b']' ∷ rest)))
        (append_assoc entries (entry_of first ∷ []) (map entry_of (next ∷ items)))

-- A group of the map holds one item at least.
abbrev pub IsGroup : Bytes × List MemberPath → Type 0
IsGroup (name, []) = ⊥
IsGroup (name, item ∷ items) = All IsItem (item ∷ items)

abbrev pub ungroup : List (Bytes × List MemberPath) → List MemberPath
ungroup [] = []
ungroup ((name, items) ∷ groups) = items ++ ungroup groups

-- The steps that a list of groups takes.
abbrev pub steps : List (Bytes × List MemberPath) → ℕ
steps [] = 9
steps ((name, items) ∷ groups) = suc (length items + steps groups)

steps_bound : (groups : List (Bytes × List MemberPath)) → 9 ≤ steps groups
steps_bound [] = omega arith
steps_bound ((name, items) ∷ groups) = omega (arith, steps_bound groups)

-- Items begin with a brace, and groups with a quote.
not_closed :
    (item : MemberPath) (items : List MemberPath) (t : Bytes)
    → (head_or_zero (ws (items_to_json (item ∷ items) ++ t)) == b']') ≡ false
unfolding items_to_json member_to_json ws
not_closed item [] t = refl
not_closed item (next ∷ items) t = refl

pub group_not_closed :
    (group : Bytes × List MemberPath) (groups : List (Bytes × List MemberPath)) (t : Bytes)
    → (head_or_zero (ws (groups_to_json (group ∷ groups) ++ t)) == b'}') ≡ false
unfolding groups_to_json group_to_json ws
group_not_closed (name, items) [] t = refl
group_not_closed (name, items) (next ∷ groups) t = refl

group_to_json-append :
    (name : Bytes) (items : List MemberPath) (rest : Bytes)
    → group_to_json (name, items) ++ rest
      ≡ quoted name ++ b':' ∷ b'[' ∷ (items_to_json items ++ b']' ∷ rest)
unfolding group_to_json
group_to_json-append name items rest =
    append_assoc (quoted name) (b':' ∷ b'[' ∷ (items_to_json items ++ b']' ∷ [])) rest
    ∙ ap (λ (t : Bytes). quoted name ++ b':' ∷ b'[' ∷ t)
        (append_assoc (items_to_json items) (b']' ∷ []) rest)

read_group_lem :
    (fuel : ℕ) (entries : List VarEntry) (name : Bytes) (item : MemberPath)
    (items : List MemberPath) (rest : Bytes)
    → All IsItem (item ∷ items)
    → length items + 9 ≤ fuel
    → read_group fuel entries (group_to_json (name, item ∷ items) ++ rest)
      ≡ (entries ++ map entry_of (item ∷ items), ok rest)
unfolding read_group expect ws
read_group_lem fuel entries name item items rest g h =
    ap (read_group fuel entries) (group_to_json-append name (item ∷ items) rest)
    ∙ rw (str-quoted name) (
        rw (not_closed item items (b']' ∷ rest))
          (rw (items_loop-items_to_json items item fuel entries rest g h)))

groups_step :
    (fuel : ℕ) (entries entries' : List VarEntry) (text rest : Bytes)
    → read_group fuel entries text ≡ (entries', ok (b',' ∷ rest))
    → groups_loop (suc fuel) entries text ≡ groups_loop fuel entries' rest
unfolding groups_loop expect ws
groups_step fuel entries entries' text rest h = rw h

groups_last :
    (fuel : ℕ) (entries entries' : List VarEntry) (text rest : Bytes)
    → read_group fuel entries text ≡ (entries', ok (b'}' ∷ rest))
    → groups_loop (suc fuel) entries text ≡ (entries', ok (b'}' ∷ rest))
unfolding groups_loop ws
groups_last fuel entries entries' text rest h = rw h

pub groups_loop-groups_to_json :
    (groups : List (Bytes × List MemberPath)) (name : Bytes) (item : MemberPath)
    (items : List MemberPath) (fuel : ℕ) (entries : List VarEntry) (rest : Bytes)
    → All IsItem (item ∷ items)
    → All IsGroup groups
    → steps ((name, item ∷ items) ∷ groups) ≤ fuel
    → groups_loop fuel entries (groups_to_json ((name, item ∷ items) ∷ groups) ++ b'}' ∷ rest)
      ≡ (entries ++ map entry_of (ungroup ((name, item ∷ items) ∷ groups)), ok (b'}' ∷ rest))
unfolding groups_to_json
groups_loop-groups_to_json groups name item items zero entries rest hi hg hf = absurd (omega arith)
groups_loop-groups_to_json [] name item items (suc fuel) entries rest hi hg hf =
    groups_last fuel entries _ _ rest
      (read_group_lem fuel entries name item items (b'}' ∷ rest) hi (omega arith))
    ∙ ap (λ (t : List MemberPath). (entries ++ map entry_of t, ok (b'}' ∷ rest)))
        (sym (append-nil (item ∷ items)))
groups_loop-groups_to_json ((next, []) ∷ groups) name item items (suc fuel) entries rest hi hg hf =
    absurd hg.0
groups_loop-groups_to_json ((next, first ∷ others) ∷ groups) name item items (suc fuel) entries rest
      hi hg hf =
    let behind : Bytes = groups_to_json ((next, first ∷ others) ∷ groups) in
    ap (groups_loop (suc fuel) entries)
      (append_assoc (group_to_json (name, item ∷ items)) (b',' ∷ behind) (b'}' ∷ rest))
    ∙ groups_step fuel entries _ _ (behind ++ b'}' ∷ rest) (
        read_group_lem fuel entries name item items (b',' ∷ (behind ++ b'}' ∷ rest)) hi
          (omega (arith, steps_bound groups)))
    ∙ groups_loop-groups_to_json groups next first others fuel
        (entries ++ map entry_of (item ∷ items)) rest hg.0 hg.1 (omega arith)
    ∙ ap (λ (t : List VarEntry). (t, ok (b'}' ∷ rest)))
        (joined
          ∙ ap (λ (t : List VarEntry). entries ++ t)
              (sym
                (map-append entry_of (item ∷ items) (ungroup ((next, first ∷ others) ∷ groups)))))
  where
    joined :
        (entries ++ map entry_of (item ∷ items))
          ++ map entry_of (ungroup ((next, first ∷ others) ∷ groups))
        ≡ entries
          ++ (map entry_of (item ∷ items)
              ++ map entry_of (ungroup ((next, first ∷ others) ∷ groups)))
    joined = append_assoc entries _ _

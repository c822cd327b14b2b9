-- ===== src/Json/RoundTrip.antt =====
-- What ElfIndex::load reads is what the resolver's member index holds.
use tc397tools.Prelude.{
  ℕ, suc, ◌+◌, ◌-◌, ◌≤◌, ◌<◌, List, [], ◌∷◌, ◌++◌, map, ◌≡◌, refl, ap, ◌∙◌, arith, length,
  length-append, Bytes, bytes_eq, All, Bool-cases, inl, inr,
}
use mathlib.Core.List.{append_assoc, append-nil, Perm, perm_middle}
use mathlib.Core.List.Perm
use tc397tools.Prelude.Sort.{bytes_less}
use tc397tools.Prelude.Result.{ok}
use tc397tools.Prelude.Decimal.{to_string}
use tc397tools.Dwarf.{MemberPath}
use tc397tools.Json.Writer.{
  quoted, key, groups_to_json, group_by_member, push_by_member, to_member_index_json, json_escape,
  version_text,
}
use tc397tools.Json.Scan.{ws, expect}
use tc397tools.Json.Entries.{VarEntry, index_loop, parse_index_json}
use tc397tools.Json.Pairs.{skip_value-quoted, skip_value-to_string}
use tc397tools.Json.Entry.{entry_of, IsItem}
use tc397tools.Json.Entries.{empty_entry}
use tc397tools.Json.Index.{ungroup, steps}
use tc397tools.Json.Document.{
  index_skip, index_groups, skip_value-version_text, group_by_member-IsGroup, steps_le,
}

push_by_member-perm :
    (item : MemberPath) (groups : List (Bytes × List MemberPath))
    → Perm (ungroup (push_by_member item groups)) (item ∷ ungroup groups)
unfolding push_by_member
push_by_member-perm item [] = Perm.refl _
push_by_member-perm item ((name, items) ∷ groups) =
    elim (Bool-cases (bytes_eq name item.member_name)) [
      | inl same ↦ rw (same, append_assoc) (perm_middle items (ungroup groups))
      | inr other ↦ elim (Bool-cases (bytes_less item.member_name name)) [
        | inl less ↦ rw (other, less) (Perm.refl (item ∷ (items ++ ungroup groups)))
        | inr more ↦
            rw (other, more)
              (Perm.trans (Perm.append_left items (push_by_member-perm item groups))
                (perm_middle items (ungroup groups)))
      ]
    ]

-- Grouping by member keeps every item, as often.
group_by_member-perm :
    (items : List MemberPath) (groups : List (Bytes × List MemberPath))
    → Perm (ungroup (group_by_member items groups)) (items ++ ungroup groups)
unfolding group_by_member
group_by_member-perm [] groups = Perm.refl _
group_by_member-perm (item ∷ items) groups =
    Perm.trans (group_by_member-perm items (push_by_member item groups)) (
      Perm.trans (Perm.append_left items (push_by_member-perm item groups))
        (perm_middle items (ungroup groups)))

length_behind : (k v : Bytes) (c : ℕ) (t : Bytes) → length t < length (k ++ (v ++ c ∷ t))
length_behind k v c t = omega (arith, length-append {0} k (v ++ c ∷ t), length-append {0} v (c ∷ t))

-- The entries that are read: those of the items, in the order of the groups.
abbrev pub index_entries : List MemberPath → List VarEntry
index_entries items = map entry_of (ungroup (group_by_member items []))

module _ (elf_path : Bytes) (items : List MemberPath) (max_depth : ℕ) (version : Bytes) where
  abbrev groups : List (Bytes × List MemberPath)
  groups = group_by_member items []

  abbrev from_entries : Bytes
  from_entries = key "entries_by_member" ++ b'{' ∷ (groups_to_json groups ++ b'}' ∷ b'}' ∷ [])

  abbrev from_member_count : Bytes
  from_member_count = key "member_count" ++ (to_string (length groups) ++ b',' ∷ from_entries)

  abbrev from_entry_count : Bytes
  from_entry_count = key "entry_count" ++ (to_string (length items) ++ b',' ∷ from_member_count)

  abbrev from_version : Bytes
  from_version = key "mcu_version" ++ (version_text version ++ b',' ∷ from_entry_count)

  abbrev from_depth : Bytes
  from_depth = key "max_depth" ++ (to_string max_depth ++ b',' ∷ from_version)

  abbrev from_path : Bytes
  from_path = key "elf_path" ++ (quoted elf_path ++ b',' ∷ from_depth)

  document : to_member_index_json elf_path items max_depth version ≡ b'{' ∷ from_path
  unfolding to_member_index_json
  document = refl

  index_loop-document :
      (f : ℕ)
      → All IsItem items
      → steps groups ≤ f
      → index_loop (suc (suc (suc (suc (suc (suc f)))))) [] from_path
        ≡ (index_entries items, ok (b'}' ∷ []))
  unfolding bytes_eq json_escape
  index_loop-document f h enough =
      index_skip _ [] "elf_path" (quoted elf_path) from_depth refl refl
        (skip_value-quoted _ elf_path _)
      ∙ index_skip _ [] "max_depth" (to_string max_depth) from_version refl refl
          (skip_value-to_string _ empty_entry max_depth b',' _ refl)
      ∙ index_skip _ [] "mcu_version" (version_text version) from_entry_count refl refl
          (skip_value-version_text _ version _)
      ∙ index_skip _ [] "entry_count" (to_string (length items)) from_member_count refl refl
          (skip_value-to_string _ empty_entry (length items) b',' _ refl)
      ∙ index_skip _ [] "member_count" (to_string (length groups)) from_entries refl refl
          (skip_value-to_string _ empty_entry (length groups) b',' _ refl)
      ∙ index_groups groups f (group_by_member-IsGroup items [] h tt) enough

  document_long : steps groups + 4 ≤ length from_path
  document_long = omega (
    arith,
    length_behind (key "elf_path") (quoted elf_path) b',' from_depth,
    length_behind (key "max_depth") (to_string max_depth) b',' from_version,
    length_behind (key "mcu_version") (version_text version) b',' from_entry_count,
    length_behind (key "entry_count") (to_string (length items)) b',' from_member_count,
    length_behind (key "member_count") (to_string (length groups)) b',' from_entries,
    length-append {0} (groups_to_json groups) (b'}' ∷ b'}' ∷ []),
    steps_le groups,
  )

  -- Where the addresses and sizes of the items are below 2 ^ 64, parse_index_json accepts what
  -- to_member_index_json writes, and the entries that it reads are those of the items, grouped by
  -- member name: a permutation of the entries of the items.
  pub parse_index_json-to_member_index_json :
      All IsItem items
      → (parse_index_json (to_member_index_json elf_path items max_depth version)
          ≡ (index_entries items, ok tt))
        × Perm (index_entries items) (map entry_of items)
  unfolding parse_index_json
  parse_index_json-to_member_index_json h = (
    rw document (
        unfold expect ws in
        rw (at_fuel ∙ index_loop-document (length from_path - 4) h (omega (arith, document_long)))),
    Perm.map entry_of (rw append-nil at (group_by_member-perm items [])),
  )
    where
      at_fuel :
          index_loop (suc (suc (length from_path))) [] from_path
          ≡ index_loop (suc (suc (suc (suc (suc (suc (length from_path - 4))))))) [] from_path
      at_fuel = ap (λ (n : ℕ). index_loop n [] from_path) (omega (arith, document_long))

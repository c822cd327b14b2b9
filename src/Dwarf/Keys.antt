-- ===== src/Dwarf/Keys.antt =====
-- No key stands twice in the table of dies.
use mathlib.Core.List.{Memᴰ}
use tc397tools.Prelude.{
  ℕ, false, some, List, [], ◌∷◌, ◌≡◌, sym, ap, arith, ◌==◌, inl, inr, All, Bool-cases, Option-cases,
}
use tc397tools.Prelude.Table.{lookup, insert}
use tc397tools.Dwarf.Data.{Die}
use tc397tools.Dwarf.State.{push_child, link_child}
use tc397tools.Dwarf.Table.{All-insert, All-Memᴰ}

-- No key stands twice.
abbrev pub AreKeys : List (ℕ × Die) → Type 0
AreKeys [] = Unit
AreKeys ((k, die) ∷ dies) = All (λ (entry : ℕ × Die). (entry.0 == k) ≡ false) dies × AreKeys dies

pub insert-AreKeys :
    (j : ℕ) (new : Die) (dies : List (ℕ × Die)) → AreKeys dies → AreKeys (insert j new dies)
unfolding insert
insert-AreKeys j new [] h = (tt, tt)
insert-AreKeys j new ((k, die) ∷ dies) h = elim (Bool-cases (k == j)) [
  | inl same ↦ rw (same, insert) h
  | inr other ↦
      let apart : (j == k) ≡ false = ground arith in
      rw (other, insert)
        ((
          All-insert (λ (entry : ℕ × Die). (entry.0 == k) ≡ false) j new dies apart h.0,
          insert-AreKeys j new dies h.1,
        ))
]

pub link_child-AreKeys :
    (stack : List ℕ) (off : ℕ) (dies : List (ℕ × Die))
    → AreKeys dies
    → AreKeys (link_child stack off dies)
unfolding link_child push_child
link_child-AreKeys [] off dies h = h
link_child-AreKeys (p ∷ stack) off dies h = elim (Option-cases (lookup p dies)) [
  | inl absent ↦ rw (absent, push_child) (insert-AreKeys p _ dies h)
  | inr (d, e) ↦ rw (e, push_child) (insert-AreKeys p _ dies h)
]

-- An entry is what its key finds.
pub AreKeys-lookup :
    (k : ℕ) (die : Die) (dies : List (ℕ × Die))
    → AreKeys dies
    → Memᴰ (k, die) dies
    → lookup k dies ≡ some die
unfolding lookup
AreKeys-lookup k die [] h m = elim m [ ]
AreKeys-lookup k die ((j, d) ∷ dies) h (Memᴰ.head e) =
    let same : j ≡ k = ap (λ (entry : ℕ × Die). entry.0) (sym e) in
    let here : some d ≡ some die = ap (λ (entry : ℕ × Die). some entry.1) (sym e) in ground arith
AreKeys-lookup k die ((j, d) ∷ dies) h (Memᴰ.tail m) =
    let apart : (k == j) ≡ false =
      All-Memᴰ (λ (entry : ℕ × Die). (entry.0 == j) ≡ false) dies (k, die) h.0 m in
    ground (arith, AreKeys-lookup k die dies h.1 m)

-- ===== src/Dwarf/Table.antt =====
-- The table of dies that parse_cu builds.
use mathlib.Core.List.{Memᴰ}
use tc397tools.Prelude.{
  ℕ, zero, suc, ◌+◌, ◌≤◌, ◌<◌, true, some, List, [], ◌∷◌, ◌≡◌, refl, subst, sym, arith, ◌==◌,
  ==_iff, if◌then◌else◌, All, All-append, ◌⊎◌, inl, inr, Bool-cases, Option-cases,
}
use tc397tools.Prelude.Table.{lookup, insert}
use tc397tools.Dwarf.Data.{Die, CuHeader}
use tc397tools.Dwarf.State.{Resolver, push_child, link_child, mark_parsed, pop}
use tc397tools.Dwarf.Members.{has_value}

module _ {ℓ} {V : Type ℓ} where
  -- What `find` gives behind `m[at] = value`.
  pub lookup-insert :
      (at wanted : ℕ) (value : V) (table : List (ℕ × V))
      → lookup wanted (insert at value table)
        ≡ (if at == wanted then some value else lookup wanted table)
  unfolding lookup insert
  lookup-insert at wanted value ((key, old) ∷ table) =
      ground (arith, lookup-insert at wanted value table)
  lookup-insert at wanted value [] = refl

  pub All-insert {κ} :
      (P : ℕ × V → Type κ) (k : ℕ) (v : V) (m : List (ℕ × V))
      → P (k, v)
      → All P m
      → All P (insert k v m)
  unfolding insert
  All-insert P k v [] h hs = (h, tt)
  All-insert P k v ((j, w) ∷ m) h hs = elim (Bool-cases (j == k)) [
    | inl same ↦ rw same (subst (λ (i : ℕ). P (i, v)) (sym ((==_iff j k).0 same)) h, hs.1)
    | inr other ↦ rw other (hs.0, All-insert P k v m h hs.1)
  ]

  pub lookup-All {κ} :
      (P : ℕ × V → Type κ) (k : ℕ) (v : V) (m : List (ℕ × V))
      → All P m
      → lookup k m ≡ some v
      → P (k, v)
  unfolding lookup
  lookup-All P k v [] hs e = absurd (ground arith)
  lookup-All P k v ((j, w) ∷ m) hs e = elim (Bool-cases (j == k)) [
    | inl same ↦ subst P {x = (j, w)} {y = (k, v)} (ground arith) hs.0
    | inr other ↦ lookup-All P k v m hs.1 (rw (other, lookup) at e)
  ]

pub All-Memᴰ {ℓ κ} :
    {A : Type ℓ} (P : A → Type κ) (xs : List A) (a : A) → All P xs → Memᴰ a xs → P a
All-Memᴰ P [] a h m = elim m [ ]
All-Memᴰ P (x ∷ xs) a h (Memᴰ.head e) = subst P (sym e) h.0
All-Memᴰ P (x ∷ xs) a h (Memᴰ.tail m) = All-Memᴰ P xs a h.1 m

-- The table has a die at this offset.
abbrev pub Stands : List (ℕ × Die) → ℕ → Type 0
Stands dies k = has_value (lookup k dies) ≡ true

pub Stands-insert :
    (k j : ℕ) (die : Die) (dies : List (ℕ × Die)) → Stands dies j → Stands (insert k die dies) j
Stands-insert k j die dies h = rw (lookup-insert k j die dies) (ground arith)

pub Stands-new : (k : ℕ) (die : Die) (dies : List (ℕ × Die)) → Stands (insert k die dies) k
Stands-new k die dies = rw (lookup-insert k k die dies) (ground arith)

-- A unit starts there, and the offset is behind its header and before its end.
abbrev pub InUnit : List CuHeader → ℕ → ℕ → Type 0
InUnit [] start off = ⊥
InUnit (cu ∷ cus) start off =
    ((cu.start ≡ start) × (start + 11 ≤ off) × (off < cu.stop)) ⊎ InUnit cus start off

pub InUnit-mark_parsed :
    (i : ℕ) (cus : List CuHeader) (start off : ℕ)
    → InUnit cus start off
    → InUnit (mark_parsed i cus) start off
unfolding mark_parsed
InUnit-mark_parsed zero (cu ∷ cus) start off h = h
InUnit-mark_parsed (suc i) (cu ∷ cus) start off (inl h) = inl h
InUnit-mark_parsed (suc i) (cu ∷ cus) start off (inr h) = inr (InUnit-mark_parsed i cus start off h)
InUnit-mark_parsed (suc i) [] start off h = h
InUnit-mark_parsed zero [] start off h = h

-- An entry has its offset for a key and lies in a unit of its own start; its children are further
-- behind, and have entries.
pub record IsEntry (cus : List CuHeader) (dies : List (ℕ × Die)) (entry : ℕ × Die) : Type 0 where
  pub keyed : entry.1.offset ≡ entry.0
  pub placed : InUnit cus entry.1.cu_start entry.0
  pub linked : All (λ c. (entry.0 < c) × Stands dies c) entry.1.children

pub record IsTable (r : Resolver) : Type 0 where
  pub entries : All (IsEntry r.cus r.dies) r.dies

-- The dies whose children are read: they stand in the table, before `off`.
abbrev pub IsOpen : List (ℕ × Die) → ℕ → List ℕ → Type 0
IsOpen dies off = All (λ p. (p < off) × Stands dies p)

pub All-weaken {ℓ κ ν} :
    {A : Type ℓ} (P : A → Type κ) (Q : A → Type ν) (xs : List A)
    → ((a : A) → P a → Q a)
    → All P xs
    → All Q xs
All-weaken P Q [] f h = tt
All-weaken P Q (x ∷ xs) f h = (f x h.0, All-weaken P Q xs f h.1)

module _ (cus : List CuHeader) (dies dies' : List (ℕ × Die))
    (keeps : (c : ℕ) → Stands dies c → Stands dies' c) where
  IsEntry-later : (entry : ℕ × Die) → IsEntry cus dies entry → IsEntry cus dies' entry
  IsEntry-later entry h = record {
    keyed = h.keyed;
    placed = h.placed;
    linked = All-weaken _ _ entry.1.children (λ c k. (k.0, keeps c k.1)) h.linked;
  }

  -- With the die at `off` among the children of the die on top.
  link_child-entries :
      (stack : List ℕ) (off : ℕ)
      → IsOpen dies off stack
      → Stands dies' off
      → All (IsEntry cus dies) dies
      → All (IsEntry cus dies') (link_child stack off dies)
  unfolding link_child push_child
  link_child-entries [] off open_ new h = All-weaken _ _ dies IsEntry-later h
  link_child-entries (p ∷ stack) off open_ new h = elim (Option-cases (lookup p dies)) [
    | inl absent ↦ absurd (ground arith)
    | inr (d, e) ↦
        let entry = IsEntry-later (p, d) (lookup-All (IsEntry cus dies) p d dies h e) in
        rw (e, push_child)
          (All-insert (IsEntry cus dies') p _ dies
            (record {
              keyed = entry.keyed;
              placed = entry.placed;
              linked = All-append _ d.children (off ∷ []) entry.linked ((open_.0.0, new), tt);
            })
            (All-weaken _ _ dies IsEntry-later h))
  ]

link_child-Stands :
    (stack : List ℕ) (off : ℕ) (dies : List (ℕ × Die)) (c : ℕ)
    → Stands dies c
    → Stands (link_child stack off dies) c
unfolding link_child push_child
link_child-Stands [] off dies c h = h
link_child-Stands (p ∷ stack) off dies c h = elim (Option-cases (lookup p dies)) [
  | inl absent ↦ rw (absent, push_child) (Stands-insert p c _ dies h)
  | inr (d, e) ↦ rw (e, push_child) (Stands-insert p c _ dies h)
]

pub IsOpen-later :
    (dies : List (ℕ × Die)) (off off' : ℕ) (stack : List ℕ)
    → off ≤ off'
    → IsOpen dies off stack
    → IsOpen dies off' stack
IsOpen-later dies off off' stack le = All-weaken _ _ stack (λ p h. (omega arith, h.1))

-- What a round of parse_cu does to the table.
module _ (cus : List CuHeader) (dies : List (ℕ × Die)) (stack : List ℕ) (off : ℕ) (die : Die)
    (at_offset : die.offset ≡ off) (placed : InUnit cus die.cu_start off)
    (fresh : die.children ≡ []) (open_ : IsOpen dies off stack) where
  abbrev pub entered : List (ℕ × Die)
  entered = insert off die (link_child stack off dies)

  Stands-later : (c : ℕ) → Stands dies c → Stands entered c
  Stands-later c h = Stands-insert off c die _ (link_child-Stands stack off dies c h)

  pub entered-entries : All (IsEntry cus dies) dies → All (IsEntry cus entered) entered
  entered-entries h =
      let new = Stands-new off die (link_child stack off dies) in
      All-insert (IsEntry cus entered) off die _
        (record { keyed = at_offset; placed = placed; linked = rw fresh tt })
        (link_child-entries cus dies entered Stands-later stack off open_ new h)

  pub entered-IsOpen : (off' : ℕ) → off < off' → IsOpen entered off' (off ∷ stack)
  entered-IsOpen off' lt = (
    (lt, Stands-new off die _),
    All-weaken _ _ stack (λ p h. (omega arith, Stands-later p h.1)) open_,
  )

pub pop-IsOpen :
    (dies : List (ℕ × Die)) (off off' : ℕ) (stack : List ℕ)
    → off < off'
    → IsOpen dies off stack
    → IsOpen dies off' (pop stack)
pop-IsOpen dies off off' [] lt h = tt
pop-IsOpen dies off off' (p ∷ stack) lt h = IsOpen-later dies off off' stack (omega arith) h.1

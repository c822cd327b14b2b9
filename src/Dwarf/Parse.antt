-- ===== src/Dwarf/Parse.antt =====
-- parse_cu, get_die and find_variable of DwarfResolver end, and keep the table of dies sound.
use tc397tools.Prelude.{
  ℕ, zero, suc, ◌+◌, ◌-◌, ◌≤◌, ◌<◌, true, some, List, [], ◌∷◌, ◌≡◌, refl, subst, sym, arith, ltb,
  ◌==◌, if◌then◌else◌, ◌⊎◌, inl, inr, either, All, Bool-cases, Option-cases, ltb→lt, ap, ◌∙◌, ◌++◌,
  ◌&&◌, leb, length, length-append, All-append,
}
use tc397tools.Prelude.Result.{Result}
use tc397tools.Prelude.Ends.{of_ne_stuck}
use tc397tools.Prelude.Table.{lookup}
use tc397tools.Dwarf.Data.{Abbrev, CuHeader}
use tc397tools.Dwarf.Scan.{cu_containing}
use tc397tools.Dwarf.State.{Resolver, M, abbrevs_for, die_loop, mark_parsed, parse_cu, get_die, pop}
use tc397tools.Dwarf.Build.{parse_cus, parse_all_cus}
use tc397tools.Dwarf.Tables.{parse_abbrevs-ne-stuck}
use tc397tools.Dwarf.Attributes.{read_uleb-Behind, read_die-Read}
use tc397tools.Dwarf.Runs.{Runs, gives, ◌⟫=◌, lift-step, unstuck}
use tc397tools.Dwarf.Table.{
  InUnit, InUnit-mark_parsed, IsTable, IsOpen, pop-IsOpen, entered-entries, entered-IsOpen,
  All-weaken,
}
use mathlib.Core.List.{append_assoc, append-nil}

-- A unit with this start and end is in the list.
abbrev pub HasUnit : List CuHeader → CuHeader → Type 0
HasUnit [] cu = ⊥
HasUnit (c ∷ cus) cu = ((c.start ≡ cu.start) × (c.stop ≡ cu.stop)) ⊎ HasUnit cus cu

HasUnit-InUnit :
    (cus : List CuHeader) (cu : CuHeader) (off : ℕ)
    → HasUnit cus cu
    → cu.start + 11 ≤ off
    → off < cu.stop
    → InUnit cus cu.start off
HasUnit-InUnit [] cu off h low high = elim h [ ]
HasUnit-InUnit (c ∷ cus) cu off (inl h) low high = inl (h.0, low, omega (arith, h.1))
HasUnit-InUnit (c ∷ cus) cu off (inr h) low high = inr (HasUnit-InUnit cus cu off h low high)

-- The method ends and leaves a sound table, with an exception or without.
abbrev pub Sound : {A : Type 0} → Type 0 → Result A × Resolver → Type 0
Sound {A} S = Runs S (λ (a : A) (r : Resolver). IsTable r) IsTable

marked-IsTable :
    (i : ℕ) (r : Resolver) → IsTable r → IsTable (record r { cus = mark_parsed i r.cus })
marked-IsTable i r h = record {
  entries =
      All-weaken _ _ r.dies
        (λ entry k. record {
          keyed = k.keyed;
          placed = InUnit-mark_parsed i r.cus entry.1.cu_start entry.0 k.placed;
          linked = k.linked;
        })
        h.entries;
}

abbrevs_for-Sound :
    (S : Type 0) (offset : ℕ) (r : Resolver)
    → IsTable r
    → Runs S
        (λ (t : List (ℕ × Abbrev)) (r' : Resolver). (r'.cus ≡ r.cus) × IsTable r')
        IsTable
        (abbrevs_for offset r)
unfolding abbrevs_for
abbrevs_for-Sound S offset r h = elim (Option-cases (lookup offset r.abbrev_cache)) [
  | inr (table, e) ↦ rw (e, abbrevs_for) (gives (refl, h))
  | inl absent ↦
      rw (absent, abbrevs_for)
        (lift-step {P = λ (t : List (ℕ × Abbrev)). Unit} r _ h
          (of_ne_stuck _ (parse_abbrevs-ne-stuck r.abbrev_bytes offset) (λ t e. tt))
          λ t done. gives (refl, record { entries = h.entries }))
]

abbrev Looped : Resolver → Result (Unit {0}) × Resolver → Type 0
Looped r = Runs ⊥ (λ (a : Unit {0}) (r' : Resolver). (r'.cus ≡ r.cus) × IsTable r') IsTable

-- The loop of parse_cu, with fuel for the bytes that are left of the unit.
die_loop-Sound :
    (fuel : ℕ) (cu : CuHeader) (table : List (ℕ × Abbrev)) (off : ℕ) (stack : List ℕ) (r : Resolver)
    → cu.stop - off < fuel
    → cu.start + 11 ≤ off
    → HasUnit r.cus cu
    → IsOpen r.dies off stack
    → IsTable r
    → Looped r (die_loop fuel cu table off stack r)
unfolding die_loop
die_loop-Sound zero cu table off stack r enough low unit_ open_ h = absurd (omega arith)
die_loop-Sound (suc fuel) cu table off stack r enough low unit_ open_ h =
    elim (Bool-cases (ltb off cu.stop)) [
      | inr done ↦ rw (done, die_loop) (gives (refl, h))
      | inl inside ↦
          let high : off < cu.stop = ltb→lt off cu.stop inside in
          rw (inside, die_loop)
            (lift-step r _ h (read_uleb-Behind r.info off) λ (code, off₁) later.
              either (λ (m : M (Unit {0})). Looped r (m r)) (code == 0) _ _
                (λ skip.
                  die_loop-Sound fuel cu table off₁ (pop stack) r (omega arith) (omega arith) unit_
                    (pop-IsOpen r.dies off off₁ stack later open_) h)
                (λ enter.
                  lift-step r _ h (read_die-Read r.info cu table off code off₁) λ (die, off₂) read.
                    let placed : InUnit r.cus die.cu_start off =
                      subst (λ (s : ℕ). InUnit r.cus s off) (sym read.in_unit)
                        (HasUnit-InUnit r.cus cu off unit_ low high) in
                    let round =
                      entered-entries r.cus r.dies stack off die read.at_offset placed
                        read.no_children open_ in
                    let opened =
                      entered-IsOpen r.cus r.dies stack off die read.at_offset placed
                        read.no_children open_ off₂ (omega arith) in
                    die_loop-Sound fuel cu table off₂ _ _ (omega arith) (omega arith) unit_
                      (either (IsOpen _ off₂) die.has_children (off ∷ stack) stack (λ e. opened)
                        (λ e. opened.1))
                      (record { entries = round h.entries })))
    ]

abbrev marked : ℕ → CuHeader → List CuHeader → List CuHeader
marked i cu cus = if cu.parsed then cus else mark_parsed i cus

-- parse_cu ends for every unit, and leaves a sound table, with an exception or without.
pub parse_cu-Runs :
    (i : ℕ) (cu : CuHeader) (r : Resolver)
    → HasUnit r.cus cu
    → IsTable r
    → Runs ⊥
        (λ (a : Unit {0}) (r' : Resolver). (r'.cus ≡ marked i cu r.cus) × IsTable r')
        IsTable
        (parse_cu i cu r)
unfolding parse_cu
parse_cu-Runs i cu r unit_ h = elim (Bool-cases cu.parsed) [
  | inl done ↦ simp (done, parse_cu) (gives (refl, h))
  | inr fresh ↦
      simp (fresh, parse_cu)
        (abbrevs_for-Sound ⊥ cu.abbrev_offset r h ⟫= λ table r₁ (same, h₁).
          die_loop-Sound (suc cu.stop) cu table (cu.start + 11) [] r₁ (omega arith) (omega arith)
            (subst (λ cus. HasUnit cus cu) (sym same) unit_) tt h₁
          ⟫= λ done r₂ (same₂, h₂).
              gives (ap (mark_parsed i) (same₂ ∙ same), marked-IsTable i r₂ h₂))
]

HasUnit-append :
    (done : List CuHeader) (cu : CuHeader) (cus : List CuHeader) → HasUnit (done ++ cu ∷ cus) cu
HasUnit-append [] cu cus = inl (refl, refl)
HasUnit-append (c ∷ done) cu cus = inr (HasUnit-append done cu cus)

mark_parsed-append :
    (done : List CuHeader) (cu : CuHeader) (cus : List CuHeader)
    → mark_parsed (length done) (done ++ cu ∷ cus)
      ≡ (done ++ record cu { parsed = true } ∷ []) ++ cus
unfolding mark_parsed
mark_parsed-append [] cu cus = refl
mark_parsed-append (c ∷ done) cu cus = ap (◌∷◌ c) (mark_parsed-append done cu cus)

-- All units have been parsed.
abbrev pub IsParsed : List CuHeader → Type 0
IsParsed = All (λ cu. cu.parsed ≡ true)

marked-append :
    (done : List CuHeader) (cu : CuHeader) (cus : List CuHeader)
    → (c : CuHeader) × (c.parsed ≡ true)
      × (marked (length done) cu (done ++ cu ∷ cus) ≡ (done ++ c ∷ []) ++ cus)
marked-append done cu cus = elim (Bool-cases cu.parsed) [
  | inl parsed ↦ (cu, parsed, simp parsed (sym (append_assoc done (cu ∷ []) cus)))
  | inr fresh ↦ (record cu { parsed = true }, refl, simp fresh (mark_parsed-append done cu cus))
]

parse_cus-Runs :
    (done cus : List CuHeader) (r : Resolver)
    → r.cus ≡ done ++ cus
    → IsParsed done
    → IsTable r
    → Runs ⊥
        (λ (a : Unit {0}) (r' : Resolver). IsParsed r'.cus × IsTable r')
        IsTable
        (parse_cus (length done) cus r)
unfolding parse_cus
parse_cus-Runs done [] r e parsed h = gives (subst IsParsed (sym (e ∙ append-nil done)) parsed, h)
parse_cus-Runs done (cu ∷ cus) r e parsed h =
    parse_cu-Runs (length done) cu r
      (subst (λ us. HasUnit us cu) (sym e) (HasUnit-append done cu cus)) h
    ⟫= λ a r₁ (same, h₁).
        let (c, marked_, shape) = marked-append done cu cus in
        let next : length (done ++ c ∷ []) ≡ length done + 1 =
          omega (arith, length-append {0} done (c ∷ [])) in
        subst
          (λ (i : ℕ).
            Runs ⊥ (λ (a : Unit {0}) (r' : Resolver). IsParsed r'.cus × IsTable r') IsTable
              (parse_cus i cus r₁))
          next
          (parse_cus-Runs (done ++ c ∷ []) cus r₁ (same ∙ ap (marked (length done) cu) e ∙ shape)
            (All-append _ done (c ∷ []) parsed (marked_, tt)) h₁)

-- parse_all_cus ends; where it throws nothing, all units have been parsed.
pub parse_all_cus-Runs :
    (r : Resolver)
    → IsTable r
    → Runs ⊥
        (λ (a : Unit {0}) (r' : Resolver). IsParsed r'.cus × IsTable r')
        IsTable
        (parse_all_cus r)
unfolding parse_all_cus
parse_all_cus-Runs r h = parse_cus-Runs [] r.cus r refl tt h

pub cu_containing-HasUnit :
    (cus : List CuHeader) (offset i : ℕ) (cu : CuHeader)
    → cu_containing cus offset ≡ some (i, cu)
    → HasUnit cus cu
unfolding cu_containing
cu_containing-HasUnit [] offset i cu e = absurd (ground arith)
cu_containing-HasUnit (c ∷ cus) offset i cu e =
    elim (Bool-cases (leb c.start offset && ltb offset c.stop)) [
      | inl here ↦ inl (ground arith)
      | inr later ↦ elim (Option-cases (cu_containing cus offset)) [
        | inl absent ↦ absurd (ground arith)
        | inr ((j, d), found) ↦ inr (cu_containing-HasUnit cus offset j cu (ground arith))
      ]
    ]

-- get_die ends, and leaves a sound table.
pub get_die-Sound :
    (S : Type 0) (offset : ℕ) (r : Resolver) → IsTable r → Sound S (get_die offset r)
unfolding get_die
get_die-Sound S offset r h = elim (Option-cases (lookup offset r.dies)) [
  | inr (die, e) ↦ rw (e, get_die) (gives h)
  | inl absent ↦ elim (Option-cases (cu_containing r.cus offset)) [
    | inl outside ↦ rw (absent, get_die) (rw (outside) (gives h))
    | inr ((i, cu), e) ↦
        rw (absent, get_die)
          (rw e (
            unstuck (parse_cu-Runs i cu r (cu_containing-HasUnit r.cus offset i cu e) h)
            ⟫= λ a r' (same, h'). gives h'))
  ]
]

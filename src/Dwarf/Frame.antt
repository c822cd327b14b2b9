-- ===== src/Dwarf/Frame.antt =====
-- parse_cu changes only the dies of its own unit.
use mathlib.Core.List.{Memᴰ}
use tc397tools.Prelude.{
  ℕ, zero, suc, ◌+◌, ◌≤◌, Bool, true, false, ◌&&◌, some, List, [], ◌∷◌, ◌≡◌, refl, subst, sym, ◌∙◌,
  ap, arith, ltb, leb, ◌==◌, if◌then◌else◌, inl, inr, either, All, Bool-cases, Option-cases,
}
use tc397tools.Prelude.Result.{Result}
use tc397tools.Prelude.Ends.{of_ne_stuck}
use tc397tools.Prelude.Table.{lookup, insert}
use tc397tools.Dwarf.Data.{Abbrev, CuHeader, Die}
use tc397tools.Dwarf.State.{
  Resolver, M, abbrevs_for, die_loop, mark_parsed, parse_cu, pop, push_child, link_child,
}
use tc397tools.Dwarf.Tables.{parse_abbrevs-ne-stuck}
use tc397tools.Dwarf.Attributes.{read_uleb-Behind, read_die-Read}
use tc397tools.Dwarf.Runs.{Runs, gives, stops, ◌⟫=◌, lift-step}
use tc397tools.Dwarf.Table.{lookup-insert}
use tc397tools.Dwarf.Keys.{AreKeys, insert-AreKeys, link_child-AreKeys}

-- The test of cu_containing.
abbrev pub inside : CuHeader → ℕ → Bool
inside cu k = leb cu.start k && ltb k cu.stop

-- Outside the unit nothing has changed.
pub record IsFrame (cu : CuHeader) (dies dies' : List (ℕ × Die)) : Type 0 where
  pub same : (k : ℕ) → inside cu k ≡ false → lookup k dies' ≡ lookup k dies
  pub keeps : (k : ℕ) (die : Die) → inside cu k ≡ false → Memᴰ (k, die) dies → Memᴰ (k, die) dies'

pub no_change-IsFrame : (cu : CuHeader) (dies : List (ℕ × Die)) → IsFrame cu dies dies
no_change-IsFrame cu dies = record { same = λ k h. refl; keeps = λ k die h m. m }

then-IsFrame :
    {cu : CuHeader} {a b c : List (ℕ × Die)} → IsFrame cu a b → IsFrame cu b c → IsFrame cu a c
then-IsFrame h k = record {
  same = λ at out. k.same at out ∙ h.same at out;
  keeps = λ at die out m. k.keeps at die out (h.keeps at die out m);
}

Memᴰ-insert :
    (j k : ℕ) (new die : Die) (dies : List (ℕ × Die))
    → (j == k) ≡ false
    → Memᴰ (k, die) dies
    → Memᴰ (k, die) (insert j new dies)
unfolding insert
Memᴰ-insert j k new die [] other m = elim m [ ]
Memᴰ-insert j k new die ((i, d) ∷ dies) other (Memᴰ.head e) = elim (Bool-cases (i == j)) [
  | inl same ↦ absurd (ground arith)
  | inr apart ↦ rw (apart, insert) (Memᴰ.head e)
]
Memᴰ-insert j k new die ((i, d) ∷ dies) other (Memᴰ.tail m) = elim (Bool-cases (i == j)) [
  | inl same ↦ rw (same, insert) (Memᴰ.tail m)
  | inr apart ↦ rw (apart, insert) (Memᴰ.tail (Memᴰ-insert j k new die dies other m))
]

insert-IsFrame :
    (cu : CuHeader) (j : ℕ) (new : Die) (dies : List (ℕ × Die))
    → inside cu j ≡ true
    → IsFrame cu dies (insert j new dies)
insert-IsFrame cu j new dies h =
    let apart = λ (k : ℕ) (out : inside cu k ≡ false).
      elim (Bool-cases (j == k)) as (λ x. (j == k) ≡ false) [
        | inl same ↦ absurd (ground arith)
        | inr other ↦ other
      ] in
    record {
      same = λ k out.
          lookup-insert j k new dies
          ∙ ap (λ (b : Bool). if b then some new else lookup k dies) (apart k out);
      keeps = λ k die out m. Memᴰ-insert j k new die dies (apart k out) m;
    }

abbrev AllInside : CuHeader → List ℕ → Type 0
AllInside cu = All (λ p. inside cu p ≡ true)

link_child-IsFrame :
    (cu : CuHeader) (stack : List ℕ) (off : ℕ) (dies : List (ℕ × Die))
    → AllInside cu stack
    → IsFrame cu dies (link_child stack off dies)
unfolding link_child push_child
link_child-IsFrame cu [] off dies h = no_change-IsFrame cu dies
link_child-IsFrame cu (p ∷ stack) off dies h = elim (Option-cases (lookup p dies)) [
  | inl absent ↦ rw (absent, push_child) (insert-IsFrame cu p _ dies h.0)
  | inr (d, e) ↦ rw (e, push_child) (insert-IsFrame cu p _ dies h.0)
]

AllInside-pop : (cu : CuHeader) (stack : List ℕ) → AllInside cu stack → AllInside cu (pop stack)
AllInside-pop cu [] h = tt
AllInside-pop cu (p ∷ stack) h = h.1

abbrev Anyway : Resolver → Type 0
Anyway r = Unit

-- The units and what has been remembered are the same.
abbrev AlsoSame : Resolver → Resolver → Type 0
AlsoSame r r' = (r'.cus ≡ r.cus) × (r'.variable_cache ≡ r.variable_cache)

abbrev Framed : CuHeader → Resolver → Result (Unit {0}) × Resolver → Type 0
Framed cu r =
    Runs (Unit {0})
      (λ (a : Unit {0}) (r' : Resolver).
        AlsoSame r r' × IsFrame cu r.dies r'.dies × AreKeys r'.dies)
      Anyway

die_loop-Framed :
    (fuel : ℕ) (cu : CuHeader) (table : List (ℕ × Abbrev)) (off : ℕ) (stack : List ℕ)
    (r₀ r : Resolver)
    → cu.start ≤ off
    → AllInside cu stack
    → AlsoSame r₀ r
    → IsFrame cu r₀.dies r.dies
    → AreKeys r.dies
    → Framed cu r₀ (die_loop fuel cu table off stack r)
unfolding die_loop
die_loop-Framed zero cu table off stack r₀ r low open_ same h keys = stops tt tt
die_loop-Framed (suc fuel) cu table off stack r₀ r low open_ same h keys =
    elim (Bool-cases (ltb off cu.stop)) [
      | inr done ↦ rw (done, die_loop) (gives (same, h, keys))
      | inl high ↦
          let here : inside cu off ≡ true = ground arith in
          rw (high, die_loop)
            (lift-step r _ tt (read_uleb-Behind r.info off) λ (code, off₁) later.
              either (λ (m : M (Unit {0})). Framed cu r₀ (m r)) (code == 0) _ _
                (λ skip.
                  die_loop-Framed fuel cu table off₁ (pop stack) r₀ r (omega arith)
                    (AllInside-pop cu stack open_) same h keys)
                (λ enter.
                  lift-step r _ tt (read_die-Read r.info cu table off code off₁) λ (die, off₂) read.
                    die_loop-Framed fuel cu table off₂ _ r₀ _ (omega arith)
                      (either (AllInside cu) die.has_children (off ∷ stack) stack
                        (λ e. (here, open_)) (λ e. open_))
                      same
                      (then-IsFrame h (
                        then-IsFrame (link_child-IsFrame cu stack off r.dies open_)
                          (insert-IsFrame cu off die (link_child stack off r.dies) here)))
                      (insert-AreKeys off die _ (link_child-AreKeys stack off r.dies keys))))
    ]

abbrevs_for-Framed :
    (offset : ℕ) (r : Resolver)
    → Runs
        (Unit {0})
        (λ (t : List (ℕ × Abbrev)) (r' : Resolver). AlsoSame r r' × (r'.dies ≡ r.dies))
        Anyway
        (abbrevs_for offset r)
unfolding abbrevs_for
abbrevs_for-Framed offset r = elim (Option-cases (lookup offset r.abbrev_cache)) [
  | inr (table, e) ↦ rw (e, abbrevs_for) (gives ((refl, refl), refl))
  | inl absent ↦
      rw (absent, abbrevs_for)
        (lift-step {P = λ (t : List (ℕ × Abbrev)). Unit} r _ tt
          (of_ne_stuck _ (parse_abbrevs-ne-stuck r.abbrev_bytes offset) (λ t e. tt))
          λ t done. gives ((refl, refl), refl))
]

-- A unit that has not been parsed is marked, and outside it nothing changes.
pub parse_cu-Framed :
    (i : ℕ) (cu : CuHeader) (r : Resolver)
    → cu.parsed ≡ false
    → AreKeys r.dies
    → Runs
        (Unit {0})
        (λ (a : Unit {0}) (r' : Resolver).
          (r'.cus ≡ mark_parsed i r.cus)
          × (r'.variable_cache ≡ r.variable_cache)
          × IsFrame cu r.dies r'.dies
          × AreKeys r'.dies)
        Anyway
        (parse_cu i cu r)
unfolding parse_cu
parse_cu-Framed i cu r fresh keys =
    simp (fresh, parse_cu)
      (abbrevs_for-Framed cu.abbrev_offset r ⟫= λ table r₁ (same, kept).
        die_loop-Framed (suc cu.stop) cu table (cu.start + 11) [] r r₁ (omega arith) tt same
          (subst (λ dies. IsFrame cu r.dies dies) (sym kept) (no_change-IsFrame cu r.dies))
          (subst AreKeys (sym kept) keys)
        ⟫= λ done r₂ (same₂, h₂, keys₂). gives (ap (mark_parsed i) same₂.0, same₂.1, h₂, keys₂))

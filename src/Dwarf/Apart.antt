-- ===== src/Dwarf/Apart.antt =====
-- The units of a DwarfResolver: which offsets they hold, and which of them have been parsed.
use tc397tools.Prelude.{
  ℕ, zero, suc, ◌≤◌, Bool, true, false, ◌&&◌, some, none, List, [], ◌∷◌, ◌≡◌, refl, subst, sym, ap,
  arith, ltb, leb, ◌==◌, if◌then◌else◌, inl, inr, All, Bool-cases, Option-cases,
}
use tc397tools.Dwarf.Data.{CuHeader}
use tc397tools.Dwarf.Scan.{cu_containing}
use tc397tools.Dwarf.State.{mark_parsed}
use tc397tools.Dwarf.Types.{unit_size}
use tc397tools.Dwarf.Frame.{inside}

-- Whether the unit of an offset has been parsed, or there is none.
unfoldable pub is_settled : List CuHeader → ℕ → Bool
is_settled [] k = true
is_settled (cu ∷ cus) k = if inside cu k then cu.parsed else is_settled cus k

-- Each unit stops before the later ones start.
abbrev pub AreApart : List CuHeader → Type 0
AreApart [] = Unit
AreApart (cu ∷ cus) = All (λ (c : CuHeader). cu.stop ≤ c.start) cus × AreApart cus

pub is_settled-mark_parsed :
    (i : ℕ) (cus : List CuHeader) (k : ℕ)
    → is_settled cus k ≡ true
    → is_settled (mark_parsed i cus) k ≡ true
unfolding is_settled mark_parsed
is_settled-mark_parsed zero [] k h = refl
is_settled-mark_parsed (suc i) [] k h = refl
is_settled-mark_parsed zero (cu ∷ cus) k h = ground arith
is_settled-mark_parsed (suc i) (cu ∷ cus) k h = ground (arith, is_settled-mark_parsed i cus k)

mark_parsed-Later :
    (n i : ℕ) (cus : List CuHeader)
    → All (λ (c : CuHeader). n ≤ c.start) cus
    → All (λ (c : CuHeader). n ≤ c.start) (mark_parsed i cus)
unfolding mark_parsed
mark_parsed-Later n zero [] h = tt
mark_parsed-Later n (suc i) [] h = tt
mark_parsed-Later n zero (cu ∷ cus) h = h
mark_parsed-Later n (suc i) (cu ∷ cus) h = (h.0, mark_parsed-Later n i cus h.1)

pub mark_parsed-AreApart :
    (i : ℕ) (cus : List CuHeader) → AreApart cus → AreApart (mark_parsed i cus)
unfolding mark_parsed
mark_parsed-AreApart zero [] h = tt
mark_parsed-AreApart (suc i) [] h = tt
mark_parsed-AreApart zero (cu ∷ cus) h = h
mark_parsed-AreApart (suc i) (cu ∷ cus) h =
    (mark_parsed-Later cu.stop i cus h.0, mark_parsed-AreApart i cus h.1)

pub unit_size-mark_parsed :
    (i : ℕ) (cus : List CuHeader) (start : ℕ)
    → unit_size (mark_parsed i cus) start ≡ unit_size cus start
unfolding unit_size mark_parsed
unit_size-mark_parsed zero [] start = refl
unit_size-mark_parsed (suc i) [] start = refl
unit_size-mark_parsed zero (cu ∷ cus) start = refl
unit_size-mark_parsed (suc i) (cu ∷ cus) start =
    ap (λ (n : ℕ). if cu.start == start then cu.address_size else n)
      (unit_size-mark_parsed i cus start)

-- A unit that cu_containing finds starts no earlier than the bound of all.
cu_containing-Later :
    (n : ℕ) (cus : List CuHeader) (off i : ℕ) (cu : CuHeader)
    → All (λ (c : CuHeader). n ≤ c.start) cus
    → cu_containing cus off ≡ some (i, cu)
    → n ≤ cu.start
unfolding cu_containing
cu_containing-Later n [] off i cu h e = absurd (ground arith)
cu_containing-Later n (c ∷ cus) off i cu h e =
    elim (Bool-cases (leb c.start off && ltb off c.stop)) [
      | inl here ↦
          let same : c ≡ cu = ground arith in subst (λ (u : CuHeader). n ≤ u.start) same h.0
      | inr later ↦ elim (Option-cases (cu_containing cus off)) [
        | inl absent ↦ absurd (ground arith)
        | inr ((j, d), found) ↦ cu_containing-Later n cus off j cu h.1 (ground arith)
      ]
    ]

-- Marking a unit settles its offsets.
pub marked_settles :
    (cus : List CuHeader) (off i k : ℕ) (cu : CuHeader)
    → AreApart cus
    → cu_containing cus off ≡ some (i, cu)
    → inside cu k ≡ true
    → is_settled (mark_parsed i cus) k ≡ true
unfolding cu_containing is_settled mark_parsed
marked_settles [] off i k cu h e here = absurd (ground arith)
marked_settles (c ∷ cus) off i k cu h e here =
    elim (Bool-cases (leb c.start off && ltb off c.stop)) [
      | inl this ↦
          let same : cu ≡ c = ground arith in
          let first : 0 ≡ i = ground arith in
          let holds : inside c k ≡ true = subst (λ (u : CuHeader). inside u k ≡ true) same here in
          subst (λ (n : ℕ). is_settled (mark_parsed n (c ∷ cus)) k ≡ true) first (rw holds refl)
      | inr later ↦ elim (Option-cases (cu_containing cus off)) [
        | inl absent ↦ absurd (ground arith)
        | inr ((j, d), found) ↦
            let same : cu ≡ d = ground arith in
            let next : suc j ≡ i = ground arith in
            let behind = cu_containing-Later c.stop cus off j d h.0 found in
            let there = subst (λ (u : CuHeader). inside u k ≡ true) same here in
            let out : inside c k ≡ false = ground arith in
            subst (λ (n : ℕ). is_settled (mark_parsed n (c ∷ cus)) k ≡ true) next
              (rw out (marked_settles cus off j k d h.1 found there))
      ]
    ]

-- A unit that has not been parsed holds no settled offset.
pub unsettled_outside :
    (cus : List CuHeader) (off i k : ℕ) (cu : CuHeader)
    → AreApart cus
    → cu_containing cus off ≡ some (i, cu)
    → cu.parsed ≡ false
    → is_settled cus k ≡ true
    → inside cu k ≡ false
unfolding cu_containing is_settled
unsettled_outside [] off i k cu h e fresh settled = absurd (ground arith)
unsettled_outside (c ∷ cus) off i k cu h e fresh settled =
    elim (Bool-cases (leb c.start off && ltb off c.stop)) [
      | inl this ↦
          let same : c ≡ cu = ground arith in
          let fresh_c = subst (λ (u : CuHeader). u.parsed ≡ false) (sym same) fresh in
          subst (λ (u : CuHeader). inside u k ≡ false) same
            (elim (Bool-cases (inside c k)) [ inl here ↦ absurd (ground arith) | inr out ↦ out ])
      | inr later ↦ elim (Option-cases (cu_containing cus off)) [
        | inl absent ↦ absurd (ground arith)
        | inr ((j, d), found) ↦
            let same : d ≡ cu = ground arith in
            let behind = cu_containing-Later c.stop cus off j d h.0 found in
            let fresh_d = subst (λ (u : CuHeader). u.parsed ≡ false) (sym same) fresh in
            subst (λ (u : CuHeader). inside u k ≡ false) same
              (elim (Bool-cases (inside c k)) [
                | inl here ↦ ground arith
                | inr out ↦ unsettled_outside cus off j k d h.1 found fresh_d (ground arith)
              ])
      ]
    ]

-- In a unit that has been parsed all offsets are settled.
pub parsed_settles :
    (cus : List CuHeader) (off i k : ℕ) (cu : CuHeader)
    → AreApart cus
    → cu_containing cus off ≡ some (i, cu)
    → inside cu k ≡ true
    → cu.parsed ≡ true
    → is_settled cus k ≡ true
unfolding cu_containing is_settled
parsed_settles [] off i k cu h e here done = refl
parsed_settles (c ∷ cus) off i k cu h e here done =
    elim (Bool-cases (leb c.start off && ltb off c.stop)) [
      | inl this ↦
          let same : cu ≡ c = ground arith in
          let holds : inside c k ≡ true = subst (λ (u : CuHeader). inside u k ≡ true) same here in
          rw holds (subst (λ (u : CuHeader). u.parsed ≡ true) same done)
      | inr later ↦ elim (Option-cases (cu_containing cus off)) [
        | inl absent ↦ absurd (ground arith)
        | inr ((j, d), found) ↦
            let same : cu ≡ d = ground arith in
            let behind = cu_containing-Later c.stop cus off j d h.0 found in
            let there = subst (λ (u : CuHeader). inside u k ≡ true) same here in
            let out : inside c k ≡ false = ground arith in
            let done_d = subst (λ (u : CuHeader). u.parsed ≡ true) same done in
            rw out (parsed_settles cus off j k d h.1 found there done_d)
      ]
    ]

pub cu_containing-inside :
    (cus : List CuHeader) (off i : ℕ) (cu : CuHeader)
    → cu_containing cus off ≡ some (i, cu)
    → inside cu off ≡ true
unfolding cu_containing
cu_containing-inside [] off i cu e = absurd (ground arith)
cu_containing-inside (c ∷ cus) off i cu e = elim (Bool-cases (leb c.start off && ltb off c.stop)) [
  | inl this ↦
      let same : c ≡ cu = ground arith in subst (λ (u : CuHeader). inside u off ≡ true) same this
  | inr later ↦ elim (Option-cases (cu_containing cus off)) [
    | inl absent ↦ absurd (ground arith)
    | inr ((j, d), found) ↦ cu_containing-inside cus off j cu (ground arith)
  ]
]

pub outside_settled :
    (cus : List CuHeader) (off : ℕ) → cu_containing cus off ≡ none → is_settled cus off ≡ true
unfolding cu_containing is_settled
outside_settled [] off e = refl
outside_settled (c ∷ cus) off e = elim (Bool-cases (leb c.start off && ltb off c.stop)) [
  | inl this ↦ absurd (ground arith)
  | inr later ↦ elim (Option-cases (cu_containing cus off)) [
    | inl absent ↦ rw later (outside_settled cus off absent)
    | inr (found, k) ↦ absurd (ground arith)
  ]
]

-- A settled offset is in no unit, or in one that has been parsed.
pub settled_unit :
    (cus : List CuHeader) (off i : ℕ) (cu : CuHeader)
    → is_settled cus off ≡ true
    → cu_containing cus off ≡ some (i, cu)
    → cu.parsed ≡ true
unfolding cu_containing is_settled
settled_unit [] off i cu h e = absurd (ground arith)
settled_unit (c ∷ cus) off i cu h e = elim (Bool-cases (leb c.start off && ltb off c.stop)) [
  | inl this ↦
      let same : c ≡ cu = ground arith in
      subst (λ (u : CuHeader). u.parsed ≡ true) same (ground arith)
  | inr later ↦ elim (Option-cases (cu_containing cus off)) [
    | inl absent ↦ absurd (ground arith)
    | inr ((j, d), found) ↦ settled_unit cus off j cu (ground arith) (ground arith)
  ]
]

-- ===== src/Dwarf/Names.antt =====
-- What DwarfResolver remembers of the names that it has looked up.
use mathlib.Core.List.{Memᴰ}
use tc397tools.Prelude.{
  ℕ, ◌≤◌, true, bytes_eq, bytes_eq_iff, arith, All, ◌≡◌, refl, sym, ap, subst, Option, none, some,
  List, [], ◌∷◌, inl, inr, Bool-cases, Bytes,
}
use tc397tools.Prelude.Result.{ok, Result-cases}
use tc397tools.Prelude.Table.{lookup}
use tc397tools.Dwarf.Data.{Die, CuHeader, dw_tag_variable}
use tc397tools.Dwarf.Scan.{cu_containing, scan_cus}
use tc397tools.Dwarf.Units.{Tiles, scan_cus-Tiles}
use tc397tools.Dwarf.State.{construct, Resolver, M, pure, get_die}
use tc397tools.Dwarf.Types.{name_of}
use tc397tools.Dwarf.Members.{has_value}
use tc397tools.Dwarf.Resolve.{
  cached_variable, variable_in, name_offsets, search_units, find_variable,
}
use tc397tools.Dwarf.Runs.{Runs, gives, ◌⟫=◌, found-Runs}
use tc397tools.Dwarf.Table.{IsEntry, Stands, All-weaken, All-Memᴰ}
use tc397tools.Dwarf.Keys.{AreKeys, AreKeys-lookup}
use tc397tools.Dwarf.Apart.{AreApart, is_settled}
use tc397tools.Dwarf.Grows.{IsWhole, get_die-Answers, Grows, Anything, parse_cu-Grows}
use tc397tools.Dwarf.Named.{IsEntryOf, variable_in-IsEntryOf}

-- What has been remembered of a name stands in the table.
abbrev pub Remembered : List CuHeader → List (ℕ × Die) → Bytes × Option ℕ → Type 0
Remembered cus dies (name, none) = Unit
Remembered cus dies (name, some off) =
    (die : Die) × (lookup off dies ≡ some die)
    × (is_settled cus off ≡ true)
    × Memᴰ (off, die) dies
    × (die.tag ≡ dw_tag_variable)
    × (name_of die ≡ name)

-- No parsing has thrown, and what has been remembered stands in the table.
pub record IsCalm (r : Resolver) : Type 0 where
  pub whole : IsWhole r
  pub cached : All (Remembered r.cus r.dies) r.variable_cache

Remembered-later :
    (r r' : Resolver)
    → Grows r r'
    → (entry : Bytes × Option ℕ) → Remembered r.cus r.dies entry
    → Remembered r'.cus r'.dies entry
Remembered-later r r' grows (name, none) h = tt
Remembered-later r r' grows (name, some off) (die, found, settled, m, tagged, named) =
    let (found', settled') = grows.answers off (some die) (found, settled) in
    (die, found', settled', grows.stands (off, die) m, tagged, named)

pub IsCalm-later : (r r' : Resolver) → IsCalm r → Grows r r' → IsWhole r' → IsCalm r'
IsCalm-later r r' calm grows whole = record {
  whole = whole;
  cached =
      subst (All (Remembered r'.cus r'.dies)) (sym grows.remembers)
        (All-weaken _ _ r.variable_cache (Remembered-later r r' grows) calm.cached);
}

-- With one more name remembered.
remember-IsCalm :
    (r : Resolver) (name : Bytes) (value : Option ℕ)
    → IsCalm r
    → Remembered r.cus r.dies (name, value)
    → IsCalm (record r { variable_cache = (name, value) ∷ r.variable_cache })
remember-IsCalm r name value calm new = record {
  whole = record {
    table = record { entries = calm.whole.table.entries };
    keys = calm.whole.keys;
    apart = calm.whole.apart;
    settled = calm.whole.settled;
  };
  cached = (new, calm.cached);
}

entry-Remembered :
    (r : Resolver) (name : Bytes) (die : Die)
    → IsWhole r
    → IsEntryOf name r.dies die
    → Remembered r.cus r.dies (name, some die.offset)
entry-Remembered r name die whole (key, m, tagged, named) =
    let keyed : key ≡ die.offset =
      sym (All-Memᴰ (IsEntry r.cus r.dies) r.dies (key, die) whole.table.entries m).keyed in
    let at_offset = subst (λ (k : ℕ). Memᴰ (k, die) r.dies) keyed m in
    let found = AreKeys-lookup die.offset die r.dies whole.keys at_offset in
    (die, found, whole.settled die.offset (ap has_value found), at_offset, tagged, named)

cached_variable-Remembered :
    (cus : List CuHeader) (dies : List (ℕ × Die)) (name : Bytes) (off : ℕ)
    (cache : List (Bytes × Option ℕ))
    → All (Remembered cus dies) cache
    → cached_variable name cache ≡ some (some off)
    → Remembered cus dies (name, some off)
unfolding cached_variable
cached_variable-Remembered cus dies name off [] h e = absurd (ground arith)
cached_variable-Remembered cus dies name off ((key, value) ∷ cache) h e =
    elim (Bool-cases (bytes_eq key name)) [
      | inl this ↦
          let same : key ≡ name = (bytes_eq_iff key name).0 this in
          let here : value ≡ some off = ground arith in
          subst (λ (entry : Bytes × Option ℕ). Remembered cus dies entry)
            (ap (λ (k : Bytes). (k, some off)) same)
            (subst (λ (v : Option ℕ). Remembered cus dies (key, v)) here h.0)
      | inr other ↦
          cached_variable-Remembered cus dies name off cache h.1 (rw (other, cached_variable) at e)
    ]

-- A die that a search finds stands in the table.
abbrev pub Seeks : Bytes → Option Die → Resolver → Type 0
Seeks name none r = IsCalm r
Seeks name (some die) r = IsCalm r × IsEntryOf name r.dies die

search_units-Seeks :
    (name : Bytes) (offsets : List ℕ) (r : Resolver)
    → IsCalm r
    → Runs (Unit {0}) (Seeks name) Anything (search_units name offsets r)
unfolding search_units
search_units-Seeks name [] r calm = gives (remember-IsCalm r name none calm tt)
search_units-Seeks name (offset ∷ offsets) r calm =
    found-Runs (cu_containing r.cus offset) _ _ r
      (λ outside. search_units-Seeks name offsets r calm)
      λ (i, cu) e. parse_cu-Grows r offset i cu calm.whole e ⟫= λ done r₁ (grows, whole₁, settles).
        let calm₁ = IsCalm-later r r₁ calm grows whole₁ in
        found-Runs (variable_in cu.start name r₁.dies) _ _ r₁
          (λ absent. search_units-Seeks name offsets r₁ calm₁)
          (λ die found.
            let entry = variable_in-IsEntryOf cu.start name r₁.dies die found in
            gives (
              remember-IsCalm r₁ name (some die.offset) calm₁
                  (entry-Remembered r₁ name die whole₁ entry),
              entry,
            ))

pub find_variable-Seeks :
    (name : Bytes) (r : Resolver)
    → IsCalm r
    → Runs (Unit {0}) (Seeks name) Anything (find_variable name r)
unfolding find_variable
find_variable-Seeks name r calm = by_cache (cached_variable name r.variable_cache) refl
  where
    by_cache :
        (known : Option (Option ℕ))
        → cached_variable name r.variable_cache ≡ known
        → (let next : M (Option Die) = elim known [
          | some none ↦ pure none
          | some (some offset) ↦ get_die offset
          | none ↦ search_units name (name_offsets name r.info 0)
        ] in
            Runs (Unit {0}) (Seeks name) Anything (next r))
    by_cache none e = search_units-Seeks name (name_offsets name r.info 0) r calm
    by_cache (some none) e = gives calm
    by_cache (some (some off)) e =
        let (die, found, settled, m, tagged, named) =
          cached_variable-Remembered r.cus r.dies name off r.variable_cache calm.cached e in
        subst (Runs (Unit {0}) (Seeks name) Anything)
          (sym (get_die-Answers r off (some die) (found, settled)))
          (gives (calm, (off, m, tagged, named)))

Tiles-later :
    (n off : ℕ) (cus : List CuHeader)
    → Tiles n off cus
    → All (λ (cu : CuHeader). off ≤ cu.start) cus
Tiles-later n off [] h = tt
Tiles-later n off (cu ∷ cus) (starts, long, fits, later) = (
  omega (arith, starts),
  All-weaken (λ (c : CuHeader). cu.stop ≤ c.start) (λ (c : CuHeader). off ≤ c.start) cus
      (λ c h. omega (arith, long, h)) (Tiles-later n cu.stop cus later),
)

Tiles-AreApart : (n off : ℕ) (cus : List CuHeader) → Tiles n off cus → AreApart cus
Tiles-AreApart n off [] h = tt
Tiles-AreApart n off (cu ∷ cus) (starts, long, fits, later) =
    (Tiles-later n cu.stop cus later, Tiles-AreApart n cu.stop cus later)

-- Nothing has been parsed or remembered.
untouched-IsCalm : (r : Resolver) → r.dies ≡ [] → r.variable_cache ≡ [] → AreApart r.cus → IsCalm r
unfolding lookup
untouched-IsCalm r no_dies no_names apart = record {
  whole = record {
    table = record { entries = subst (λ dies. All (IsEntry r.cus dies) dies) (sym no_dies) tt };
    keys = subst AreKeys (sym no_dies) tt;
    apart = apart;
    settled = λ k there. absurd (nothing k (subst (λ dies. Stands dies k) no_dies there));
  };
  cached = subst (All (Remembered r.cus r.dies)) (sym no_names) tt;
}
  where
    nothing : (k : ℕ) → Stands [] k → ⊥
    nothing k h = ground arith

pub opened-IsCalm :
    (info abbrev_bytes : Bytes) (r : Resolver) → construct info abbrev_bytes ≡ ok r → IsCalm r
unfolding construct
opened-IsCalm [] abbrev_bytes r e =
    let none_there : r.cus ≡ [] = ground arith in
    untouched-IsCalm r (ground arith) (ground arith) (subst AreApart (sym none_there) tt)
opened-IsCalm (b ∷ info) abbrev_bytes r e = elim (Result-cases (scan_cus (b ∷ info))) [
  | inl (cus, scanned) ↦
      let same : r.cus ≡ cus = ground arith in
      untouched-IsCalm r (ground arith) (ground arith)
        (subst AreApart (sym same) (Tiles-AreApart _ 0 cus (scan_cus-Tiles (b ∷ info) cus scanned)))
  | inr other ↦ absurd (ground arith)
]

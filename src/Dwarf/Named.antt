-- ===== src/Dwarf/Named.antt =====
-- The search for a variable in `resolve` of DwarfResolver, behind parse_all_cus.
use mathlib.Core.List.{Memᴰ}
use tc397tools.Prelude.{
  ℕ, ◌≢◌, ◌&&◌, Option, none, some, List, [], ◌∷◌, map, ◌≡◌, refl, ap, sym, subst, arith, Bytes,
  ◌==◌, bytes_eq, bytes_eq_iff, inl, inr, Bool-cases,
}
use tc397tools.Dwarf.Data.{Die, dw_tag_variable}
use tc397tools.Dwarf.Scan.{cu_containing}
use tc397tools.Dwarf.State.{Resolver, M, get_die, pure}
use tc397tools.Dwarf.Types.{name_of}
use tc397tools.Dwarf.Resolve.{
  variable_in, cached_variable, name_offsets, search_units, find_variable,
}
use tc397tools.Dwarf.Runs.{Runs, gives, found-Runs}
use tc397tools.Dwarf.Parse.{IsParsed}
use tc397tools.Dwarf.Settled.{parse_cu-parsed, cu_containing-parsed}
use tc397tools.Dwarf.Layout.{dies_of}

-- A variable of the table with this name.
abbrev pub IsNamed : Bytes → Resolver → Die → Type 0
IsNamed name r die = Memᴰ die (dies_of r) × (die.tag ≡ dw_tag_variable) × (name_of die ≡ name)

Memᴰ-dies :
    (k : ℕ) (d : Die) (dies : List (ℕ × Die))
    → Memᴰ (k, d) dies
    → Memᴰ d (map (λ (entry : ℕ × Die). entry.1) dies)
Memᴰ-dies k d [] m = elim m [ ]
Memᴰ-dies k d (entry ∷ dies) (Memᴰ.head e) = Memᴰ.head (ap (λ (x : ℕ × Die). x.1) e)
Memᴰ-dies k d (entry ∷ dies) (Memᴰ.tail m) = Memᴰ.tail (Memᴰ-dies k d dies m)

-- An entry of the table for a variable with this name.
abbrev pub IsEntryOf : Bytes → List (ℕ × Die) → Die → Type 0
IsEntryOf name dies die =
    (key : ℕ) × Memᴰ (key, die) dies × (die.tag ≡ dw_tag_variable) × (name_of die ≡ name)

pub IsEntryOf-IsNamed :
    (name : Bytes) (r : Resolver) (die : Die) → IsEntryOf name r.dies die → IsNamed name r die
IsEntryOf-IsNamed name r die (key, m, tagged, named) = (Memᴰ-dies key die r.dies m, tagged, named)

pub variable_in-IsEntryOf :
    (start : ℕ) (name : Bytes) (dies : List (ℕ × Die)) (die : Die)
    → variable_in start name dies ≡ some die
    → IsEntryOf name dies die
unfolding variable_in
variable_in-IsEntryOf start name [] die e = absurd (ground arith)
variable_in-IsEntryOf start name ((key, d) ∷ dies) die e =
    elim (Bool-cases
      (d.cu_start == start && d.tag == dw_tag_variable && bytes_eq (name_of d) name)) [
        | inl this ↦
            let same : d ≡ die = ground arith in
            (
              key,
              Memᴰ.head (ap (λ (x : Die). (key, x)) (sym same)),
              subst (λ (x : Die). x.tag ≡ dw_tag_variable) same (ground arith),
              subst (λ (x : Die). name_of x ≡ name) same
                  (ground (arith, bytes_eq_iff (name_of d) name)),
            )
        | inr other ↦
            let (k, m, tagged, named) =
              variable_in-IsEntryOf start name dies die (rw (other, variable_in) at e) in
            (k, Memᴰ.tail m, tagged, named)
      ]

pub some_ne_none : {A : Type 0} (a : A) → some a ≢ none
some_ne_none a e = cc

-- What a search for a variable leaves: all units are still parsed, and a die that it found has the name.
abbrev pub Finds : Resolver → Bytes → Option Die → Resolver → Type 0
Finds before name none r = IsParsed r.cus
Finds before name (some die) r = IsParsed r.cus × (r.dies ≡ before.dies) × IsNamed name r die

abbrev pub Any : Resolver → Type 0
Any r = Unit

pub search_units-Finds :
    {S : Type 0} (name : Bytes) (offsets : List ℕ) (r : Resolver)
    → IsParsed r.cus
    → Runs S (Finds r name) Any (search_units name offsets r)
unfolding search_units
search_units-Finds name [] r h = gives h
search_units-Finds name (offset ∷ offsets) r h =
    found-Runs (cu_containing r.cus offset) _ _ r (λ outside. search_units-Finds name offsets r h)
      λ (i, cu) e. rw (parse_cu-parsed i cu r (cu_containing-parsed r.cus offset i cu h e)) (
        found-Runs (variable_in cu.start name r.dies) _ _ r
          (λ absent. search_units-Finds name offsets r h)
          (λ die found. gives (
            h,
            refl,
            IsEntryOf-IsNamed name r die (variable_in-IsEntryOf cu.start name r.dies die found),
          )))

pub find_variable-Finds :
    {S : Type 0} (name : Bytes) (r : Resolver)
    → IsParsed r.cus
    → cached_variable name r.variable_cache ≡ none
    → Runs S (Finds r name) Any (find_variable name r)
unfolding find_variable
find_variable-Finds {S} name r parsed unknown =
    by_cache (cached_variable name r.variable_cache) unknown
  where
    by_cache :
        (known : Option (Option ℕ))
        → known ≡ none
        → (let next : M (Option Die) = elim known [
          | some none ↦ pure none
          | some (some offset) ↦ get_die offset
          | none ↦ search_units name (name_offsets name r.info 0)
        ] in
            Runs S (Finds r name) Any (next r))
    by_cache none e = search_units-Finds name (name_offsets name r.info 0) r parsed
    by_cache (some found) e = absurd (some_ne_none found e)

-- ===== src/Dwarf/Grows.antt =====
-- A DwarfResolver whose parsing throws nothing keeps every answer that it has given.
use mathlib.Core.List.{Memᴰ}
use tc397tools.Prelude.{
  ℕ, true, false, Option, some, none, List, [], ◌∷◌, ◌≡◌, refl, ◌∙◌, ap, arith, inl, inr,
  Bool-cases, Option-cases,
}
use tc397tools.Prelude.Result.{ok}
use tc397tools.Prelude.Table.{lookup}
use tc397tools.Dwarf.Data.{CuHeader, Die}
use tc397tools.Dwarf.Scan.{cu_containing}
use tc397tools.Dwarf.State.{Resolver, M, mark_parsed, parse_cu, get_die}
use tc397tools.Dwarf.Types.{unit_size}
use tc397tools.Dwarf.Runs.{Runs, gives, ◌⟫=◌, relax, both, weaken_both}
use tc397tools.Dwarf.Members.{has_value}
use tc397tools.Dwarf.Table.{Stands, IsTable}
use tc397tools.Dwarf.Parse.{parse_cu-Runs, cu_containing-HasUnit}
use tc397tools.Dwarf.Keys.{AreKeys}
use tc397tools.Dwarf.Frame.{inside, IsFrame, parse_cu-Framed}
use tc397tools.Dwarf.Apart.{
  is_settled, AreApart, is_settled-mark_parsed, mark_parsed-AreApart, unit_size-mark_parsed,
  marked_settles, unsettled_outside, parsed_settles, cu_containing-inside, outside_settled,
  settled_unit,
}

-- No die of the table lies in a unit that has not been parsed: no parsing has thrown.
pub record IsWhole (r : Resolver) : Type 0 where
  pub table : IsTable r
  pub keys : AreKeys r.dies
  pub apart : AreApart r.cus
  pub settled : (k : ℕ) → Stands r.dies k → is_settled r.cus k ≡ true

-- What get_die answers, and will answer.
abbrev pub Answers : Resolver → ℕ → Option Die → Type 0
Answers r off found = (lookup off r.dies ≡ found) × (is_settled r.cus off ≡ true)

pub get_die-Answers :
    (r : Resolver) (off : ℕ) (found : Option Die)
    → Answers r off found
    → get_die off r ≡ (ok found, r)
unfolding get_die parse_cu
get_die-Answers r off (some die) h = rw (h.0, get_die) refl
get_die-Answers r off none h = elim (Option-cases (cu_containing r.cus off)) [
  | inl outside ↦ rw (h.0, get_die) (rw outside refl)
  | inr ((i, cu), e) ↦
      let parsed = settled_unit r.cus off i cu h.1 e in
      rw (h.0, get_die) (rw e (simp (parsed) (ap (λ (d : Option Die). (ok d, r)) h.0)))
]

-- The second state gives all answers of the first, and more.
pub record Grows (r larger : Resolver) : Type 0 where
  pub answers : (off : ℕ) (found : Option Die) → Answers r off found → Answers larger off found
  pub stands : (entry : ℕ × Die) → Memᴰ entry r.dies → Memᴰ entry larger.dies
  pub sizes : (start : ℕ) → unit_size larger.cus start ≡ unit_size r.cus start
  pub remembers : larger.variable_cache ≡ r.variable_cache

pub no_growth : (r : Resolver) → Grows r r
no_growth r = record {
  answers = λ o f h. h;
  stands = λ e m. m;
  sizes = λ s. refl;
  remembers = refl;
}

pub then-Grows : {x y z : Resolver} → Grows x y → Grows y z → Grows x z
then-Grows h k = record {
  answers = λ o f a. k.answers o f (h.answers o f a);
  stands = λ e m. k.stands e (h.stands e m);
  sizes = λ s. k.sizes s ∙ h.sizes s;
  remembers = k.remembers ∙ h.remembers;
}

Stands-Memᴰ : (k : ℕ) (die : Die) (dies : List (ℕ × Die)) → Memᴰ (k, die) dies → Stands dies k
unfolding lookup
Stands-Memᴰ k die [] m = elim m [ ]
Stands-Memᴰ k die ((j, d) ∷ dies) (Memᴰ.head e) =
    let same : k ≡ j = ap (λ (entry : ℕ × Die). entry.0) e in ground arith
Stands-Memᴰ k die ((j, d) ∷ dies) (Memᴰ.tail m) = ground (arith, Stands-Memᴰ k die dies m)

-- The state behind a unit that has been parsed.
module _ (r larger : Resolver) (off i : ℕ) (cu : CuHeader) (whole : IsWhole r)
    (found : cu_containing r.cus off ≡ some (i, cu)) (fresh : cu.parsed ≡ false)
    (marked : larger.cus ≡ mark_parsed i r.cus) (frame : IsFrame cu r.dies larger.dies)
    (cached : larger.variable_cache ≡ r.variable_cache) (table : IsTable larger)
    (keys : AreKeys larger.dies) where
  outside_of : (k : ℕ) → is_settled r.cus k ≡ true → inside cu k ≡ false
  outside_of k = unsettled_outside r.cus off i k cu whole.apart found fresh

  stays_settled : (k : ℕ) → is_settled r.cus k ≡ true → is_settled larger.cus k ≡ true
  stays_settled k h = rw marked (is_settled-mark_parsed i r.cus k h)

  framed-Grows : Grows r larger
  framed-Grows = record {
    answers = λ k d a. (frame.same k (outside_of k a.1) ∙ a.0, stays_settled k a.1);
    stands = λ (k, die) m.
        frame.keeps k die (outside_of k (whole.settled k (Stands-Memᴰ k die r.dies m))) m;
    sizes = λ start. ap (λ cus. unit_size cus start) marked ∙ unit_size-mark_parsed i r.cus start;
    remembers = cached;
  }

  framed-IsWhole : IsWhole larger
  framed-IsWhole = record {
    table = table;
    keys = keys;
    apart = rw marked (mark_parsed-AreApart i r.cus whole.apart);
    settled = λ k there. elim (Bool-cases (inside cu k)) [
      | inl here ↦ rw marked (marked_settles r.cus off i k cu whole.apart found here)
      | inr out ↦ stays_settled k (whole.settled k (rw (frame.same k out) at there))
    ];
  }

abbrev pub Anything : Resolver → Type 0
Anything r = Unit

-- parse_cu, of the unit of an offset: where it throws nothing, this offset is settled.
pub parse_cu-Grows :
    (r : Resolver) (off i : ℕ) (cu : CuHeader)
    → IsWhole r
    → cu_containing r.cus off ≡ some (i, cu)
    → Runs
        (Unit {0})
        (λ (a : Unit {0}) (r' : Resolver).
          Grows r r' × IsWhole r' × ((k : ℕ) → inside cu k ≡ true → is_settled r'.cus k ≡ true))
        Anything
        (parse_cu i cu r)
unfolding parse_cu
parse_cu-Grows r off i cu whole found = elim (Bool-cases cu.parsed) [
  | inl done ↦
      simp (done, parse_cu)
        (gives (
          no_growth r,
          whole,
          λ k here. parsed_settles r.cus off i k cu whole.apart found here done,
        ))
  | inr fresh ↦
      weaken_both
        (λ a r' ((marked, cached, frame, keys), (same, table)). (
          framed-Grows r r' off i cu whole found fresh marked frame cached table keys,
          framed-IsWhole r r' off i cu whole found fresh marked frame cached table keys,
          λ k here. rw marked (marked_settles r.cus off i k cu whole.apart found here),
        ))
        (λ r' k. tt)
        (both (parse_cu-Framed i cu r fresh whole.keys)
          (parse_cu-Runs i cu r (cu_containing-HasUnit r.cus off i cu found) whole.table))
]

-- The answer stays in every state that gives all answers of the one behind the method.
abbrev pub Stays : {A : Type 0} → M A → A → Resolver → Type 0
Stays m a r = (larger : Resolver) → Grows r larger → m larger ≡ (ok a, larger)

-- A method that only adds answers, and whose own answer stays.
abbrev pub Reaches : {A : Type 0} → M A → Resolver → Type 0
Reaches {A} m r =
    Runs (Unit {0}) (λ (a : A) (r' : Resolver). Grows r r' × IsWhole r' × Stays m a r') Anything
      (m r)

pub get_die-Grows :
    (offset : ℕ) (r : Resolver)
    → IsWhole r
    → Runs
        (Unit {0})
        (λ (found : Option Die) (r' : Resolver). Grows r r' × IsWhole r' × Answers r' offset found)
        Anything
        (get_die offset r)
unfolding get_die
get_die-Grows offset r whole = elim (Option-cases (lookup offset r.dies)) [
  | inr (die, e) ↦
      rw (e, get_die) (gives (no_growth r, whole, (e, whole.settled offset (ap has_value e))))
  | inl absent ↦ elim (Option-cases (cu_containing r.cus offset)) [
    | inl outside ↦
        rw (absent, get_die)
          (rw outside (gives (no_growth r, whole, (absent, outside_settled r.cus offset outside))))
    | inr ((i, cu), e) ↦
        rw (absent, get_die)
          (rw e (
            parse_cu-Grows r offset i cu whole e ⟫= λ done r' (grows, whole', settles).
            gives
              (grows, whole', (refl, settles offset (cu_containing-inside r.cus offset i cu e)))))
  ]
]

pub get_die-Reaches : (offset : ℕ) (r : Resolver) → IsWhole r → Reaches (get_die offset) r
get_die-Reaches offset r whole =
    relax
      (λ found r' (grows, whole', answer). (
        grows,
        whole',
        λ larger more. get_die-Answers larger offset found (more.answers offset found answer),
      ))
      (get_die-Grows offset r whole)

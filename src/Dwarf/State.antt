-- ===== src/Dwarf/State.antt =====
-- The state of DwarfResolver, and its methods' monad: an exception keeps what was changed before it.
use tc397tools.Prelude.{
  ℕ, zero, suc, ◌+◌, Bool, true, false, Option, none, some, List, [], ◌∷◌, ◌++◌, ltb, ◌==◌,
  if◌then◌else◌, Bytes,
}
use tc397tools.Prelude.Result.{Result, ok, err, undefined, stuck, throw}
use tc397tools.Prelude.Result as Result
use tc397tools.Prelude.Table.{lookup, insert}
use tc397tools.Reader.{read_uleb}
use tc397tools.Dwarf.Data.{AttrSpec, Abbrev, AttrValue, Die, CuHeader}
use tc397tools.Dwarf.Scan.{scan_cus, cu_containing, parse_abbrevs}
use tc397tools.Dwarf.Forms.{read_attr}

-- `dies` stands in one order; the order of an unordered_map is not specified.
pub record Resolver : Type 0 where
  pub info : Bytes
  pub abbrev_bytes : Bytes
  pub cus : List CuHeader
  pub abbrev_cache : List (ℕ × List (ℕ × Abbrev))
  pub dies : List (ℕ × Die)
  pub variable_cache : List (Bytes × Option ℕ)

abbrev pub M : Type 0 → Type 0
M A = Resolver → Result A × Resolver

abbrev pub step_into : {A B : Type 0} → Result A → Resolver → (A → M B) → Result B × Resolver
step_into (ok a) r f = f a r
step_into (err e) r f = (err e, r)
step_into undefined r f = (undefined, r)
step_into stuck r f = (stuck, r)

infixl 5 ◌>>=◌ ◌>>◌
abbrev pub ◌>>=◌ : {A B : Type 0} → M A → (A → M B) → M B
◌>>=◌ m f r = step_into (m r).0 (m r).1 f

abbrev pub ◌>>◌ : {B : Type 0} → M (Unit {0}) → M B → M B
◌>>◌ first second = first >>= λ done. second

abbrev pub pure : {A : Type 0} → A → M A
pure a r = (ok a, r)

-- A step that reads and does not change the state.
abbrev pub lift : {A : Type 0} → Result A → M A
lift x r = (x, r)

abbrev pub get : M Resolver
get r = (ok r, r)

abbrev pub put : Resolver → M (Unit {0})
put r' r = (ok tt, r')

-- The constructor, on the bytes of .debug_info and .debug_abbrev.
unfoldable pub construct : Bytes → Bytes → Result Resolver
construct [] abbrev_bytes = ok (record {
  info = [];
  abbrev_bytes = abbrev_bytes;
  cus = [];
  abbrev_cache = [];
  dies = [];
  variable_cache = [];
})
construct (b ∷ bs) abbrev_bytes = Result.◌>>=◌ (scan_cus (b ∷ bs)) λ cus. ok (record {
  info = b ∷ bs;
  abbrev_bytes = abbrev_bytes;
  cus = cus;
  abbrev_cache = [];
  dies = [];
  variable_cache = [];
})

unfoldable pub available : Resolver → Bool
available r = elim r.info [
  | [] ↦ false
  | ◌∷◌ _ _ ↦ elim r.abbrev_bytes [ [] ↦ false | ◌∷◌ _ _ ↦ true ]
]

unfoldable pub abbrevs_for : ℕ → M (List (ℕ × Abbrev))
abbrevs_for abbrev_offset r = elim (lookup abbrev_offset r.abbrev_cache) [
  | some table ↦ (ok table, r)
  | none ↦
      (do
        table ← lift (parse_abbrevs r.abbrev_bytes abbrev_offset)
        put (record r { abbrev_cache = insert abbrev_offset table r.abbrev_cache })
        pure table)
        r
]

-- `for (const auto& spec : abbr.attrs) die.attrs[spec.name] = read_attr(spec.form, off, cu);`
unfoldable pub read_attrs :
    List AttrSpec → Bytes → ℕ → CuHeader → List (ℕ × AttrValue) → Result (List (ℕ × AttrValue) × ℕ)
read_attrs [] info off cu attrs = ok (attrs, off)
read_attrs (spec ∷ specs) info off cu attrs =
    Result.◌>>=◌ (read_attr info spec.form off cu)
      λ (value, off₁). read_attrs specs info off₁ cu (insert spec.name value attrs)

-- `dies[parent].children.push_back(offset)`, where `operator[]` adds an empty Die if there is none.
unfoldable pub push_child : ℕ → ℕ → List (ℕ × Die) → List (ℕ × Die)
push_child parent offset dies = elim (lookup parent dies) [
  | some die ↦ insert parent (record die { children = die.children ++ offset ∷ [] }) dies
  | none ↦
      insert parent
        (record {
          offset = 0;
          cu_start = 0;
          tag = 0;
          has_children = false;
          attrs = [];
          children = offset ∷ [];
        })
        dies
]

-- The top of `stack` is its head.
unfoldable pub link_child : List ℕ → ℕ → List (ℕ × Die) → List (ℕ × Die)
unfolding push_child
link_child [] offset dies = dies
link_child (parent ∷ stack) offset dies = push_child parent offset dies

abbrev pub pop : List ℕ → List ℕ
pop [] = []
pop (top ∷ stack) = stack

-- What one round of parse_cu does with a code that is not 0: the Die and the offset behind it.
unfoldable pub read_die : Bytes → CuHeader → List (ℕ × Abbrev) → ℕ → ℕ → ℕ → Result (Die × ℕ)
unfolding read_attrs
read_die info cu table die_offset code off = elim (lookup code table) [
  | none ↦ throw "missing DWARF abbrev code"
  | some abbr ↦ Result.◌>>=◌ (read_attrs abbr.attrs info off cu []) λ (attrs, off₁). ok (
    record {
      offset = die_offset;
      cu_start = cu.start;
      tag = abbr.tag;
      has_children = abbr.has_children;
      attrs = attrs;
      children = [];
    },
    off₁,
  )
]

-- The loop of parse_cu. Each round moves `off`, so the size of the section bounds the rounds.
unfoldable pub die_loop : ℕ → CuHeader → List (ℕ × Abbrev) → ℕ → List ℕ → M (Unit {0})
unfolding read_die link_child
die_loop zero cu table off stack = lift stuck
die_loop (suc fuel) cu table off stack =
    let round = (do
      r ← get
      (code, off₁) ← lift (read_uleb r.info off)
      let skip = die_loop fuel cu table off₁ (pop stack)
      let enter = (do
        (die, off₂) ← lift (read_die r.info cu table off code off₁)
        put (record r { dies = insert off die (link_child stack off r.dies) })
        die_loop fuel cu table off₂ (if die.has_children then off ∷ stack else stack))
      if code == 0 then skip else enter) in
    if ltb off cu.stop then round else pure tt

-- `cu.parsed = true`, for the unit at index i.
unfoldable pub mark_parsed : ℕ → List CuHeader → List CuHeader
mark_parsed i [] = []
mark_parsed zero (cu ∷ cus) = record cu { parsed = true } ∷ cus
mark_parsed (suc i) (cu ∷ cus) = cu ∷ mark_parsed i cus

unfoldable pub parse_cu : ℕ → CuHeader → M (Unit {0})
unfolding die_loop mark_parsed
parse_cu i cu =
    let parse = (do
      table ← abbrevs_for cu.abbrev_offset
      r ← get
      die_loop (suc cu.stop) cu table (cu.start + 11) []
      r' ← get
      put (record r' { cus = mark_parsed i r'.cus })) in
    if cu.parsed then pure tt else parse

unfoldable pub get_die : ℕ → M (Option Die)
get_die offset r = elim (lookup offset r.dies) [
  | some die ↦ (ok (some die), r)
  | none ↦ elim (cu_containing r.cus offset) [
    | none ↦ (ok none, r)
    | some (i, cu) ↦ (do parse_cu i cu; r' ← get; pure (lookup offset r'.dies)) r
  ]
]

-- ===== src/App/Filter.antt =====
-- The rows that rebuild_filter shows.
use tc397tools.Prelude.{
  ℕ, zero, suc, ◌+◌, Bool, true, false, some, List, [], ◌∷◌, ◌++◌, ◌≡◌, ◌↔◌, ◌⊎◌, inl, inr, refl,
  ap, ◌∙◌, arith, get_elem?, if◌then◌else◌, either, subst, Bytes, bytes_eq, Bool-cases,
}
use mathlib.Core.List.{Memᴰ}
use mathlib.Core.List.Memᴰ.{head, tail}
use tc397tools.Json.{VarEntry}
use tc397tools.Codec.{lower}
use tc397tools.App.State.{App, starts_with, contains, is_listed, listed_from, rebuild_filter}

-- The part stands somewhere in the text.
abbrev Within : Bytes → Bytes → Type 0
Within part text = (before : Bytes) × (after : Bytes) × (text ≡ before ++ (part ++ after))

starts_with_iff :
    (part text : Bytes)
    → (starts_with part text ≡ true) ↔ ((after : Bytes) × (text ≡ part ++ after))
unfolding starts_with
starts_with_iff [] text = (λ h. (text, refl), λ h. refl)
starts_with_iff (c ∷ part) [] =
    (λ h. absurd (ground arith), λ h. let e = h.1 in absurd (ground arith))
starts_with_iff (c ∷ part) (d ∷ text) = (
  λ h.
      let same : (c ≡ d) × (starts_with part text ≡ true) = ground arith in
      let rest = (starts_with_iff part text).0 same.1 in (rest.0, rw (same.0, rest.1) refl),
  λ h.
      let e = h.1 in
      let same : (c ≡ d) × (text ≡ part ++ h.0) = ground arith in
      let rest : starts_with part text ≡ true = (starts_with_iff part text).1 (h.0, same.1) in
      ground arith,
)

found : (part text : Bytes) → contains part text ≡ true → Within part text
unfolding contains
found part [] h = let at = (starts_with_iff part []).0 h in ([], at.0, at.1)
found part (c ∷ text) h = elim (Bool-cases (starts_with part (c ∷ text))) [
  | inl here ↦ let at = (starts_with_iff part (c ∷ text)).0 here in ([], at.0, at.1)
  | inr later ↦ let rest = found part text (ground arith) in (c ∷ rest.0, rest.1, ap (◌∷◌ c) rest.2)
]

finds :
    (part text before after : Bytes) → text ≡ before ++ (part ++ after) → contains part text ≡ true
unfolding contains
finds part [] [] after e = (starts_with_iff part []).1 (after, e)
finds part [] (b ∷ before) after e = absurd (ground arith)
finds part (c ∷ text) [] after e =
    let here : starts_with part (c ∷ text) ≡ true =
      (starts_with_iff part (c ∷ text)).1 (after, e) in
    rw here refl
finds part (c ∷ text) (b ∷ before) after e =
    let rest : contains part text ≡ true = finds part text before after (ground arith) in
    ground arith

-- What a row of the filter is to be: an entry whose expression or leaf member has the text of the field in it,
-- in lower case.
abbrev pub IsShown : Bytes → List VarEntry → ℕ → Type 0
IsShown filter entries i =
    (e : VarEntry) × (get_elem? entries i ≡ some e)
    × (Within (lower filter) (lower e.expression) ⊎ Within (lower filter) (lower e.member_name))

is_listed-Within :
    (f : Bytes) (e : VarEntry)
    → is_listed f e ≡ true
    → Within f (lower e.expression) ⊎ Within f (lower e.member_name)
unfolding is_listed bytes_eq
is_listed-Within [] e h = inl ([], lower e.expression, refl)
is_listed-Within (c ∷ f) e h = elim (Bool-cases (contains (c ∷ f) (lower e.expression))) [
  | inl here ↦ inl (found (c ∷ f) (lower e.expression) here)
  | inr other ↦ inr (found (c ∷ f) (lower e.member_name) (ground arith))
]

Within-is_listed :
    (f : Bytes) (e : VarEntry)
    → Within f (lower e.expression) ⊎ Within f (lower e.member_name)
    → is_listed f e ≡ true
unfolding is_listed
Within-is_listed f e (inl at) =
    let here : contains f (lower e.expression) ≡ true =
      finds f (lower e.expression) at.0 at.1 at.2 in
    ground arith
Within-is_listed f e (inr at) =
    let here : contains f (lower e.member_name) ≡ true =
      finds f (lower e.member_name) at.0 at.1 at.2 in
    ground arith

abbrev Listed : Bytes → ℕ → List VarEntry → ℕ → Type 0
Listed f i entries k =
    (j : ℕ) × (k ≡ i + j)
    × ((e : VarEntry) × (get_elem? entries j ≡ some e) × (is_listed f e ≡ true))

later :
    (f : Bytes) (i k : ℕ) (e : VarEntry) (entries : List VarEntry)
    → Listed f (i + 1) entries k
    → Listed f i (e ∷ entries) k
later f i k e entries (j, at, rest) = (suc j, omega arith, rest)

-- The rows behind a test, given what holds of the rows of the later entries.
with_head :
    (b : Bool) (f : Bytes) (i k : ℕ) (e : VarEntry) (entries : List VarEntry) (rows : List ℕ)
    → is_listed f e ≡ b
    → (Memᴰ k rows → Listed f (i + 1) entries k)
    → Memᴰ k (if b then i ∷ rows else rows)
    → Listed f i (e ∷ entries) k
with_head true f i k e entries rows h rest (head at) = (0, omega arith, (e, refl, h))
with_head true f i k e entries rows h rest (tail m) = later f i k e entries (rest m)
with_head false f i k e entries rows h rest m = later f i k e entries (rest m)

listed :
    (f : Bytes) (i k : ℕ) (entries : List VarEntry)
    → Memᴰ k (listed_from f i entries)
    → Listed f i entries k
unfolding listed_from
listed f i k [] m = elim m [ ]
listed f i k (e ∷ entries) m =
    with_head (is_listed f e) f i k e entries (listed_from f (i + 1) entries) refl
      (λ m'. listed f (i + 1) k entries m') m

lists :
    (f : Bytes) (i j : ℕ) (e : VarEntry) (entries : List VarEntry)
    → get_elem? entries j ≡ some e
    → is_listed f e ≡ true
    → Memᴰ (i + j) (listed_from f i entries)
unfolding listed_from
lists f i j e [] at h = absurd (ground arith)
lists f i zero e (x ∷ entries) at h =
    let same : x ≡ e = ground arith in
    let here : is_listed f x ≡ true = ap (is_listed f) same ∙ h in
    rw (here, listed_from) (head (omega arith))
lists f i (suc j) e (x ∷ entries) at h =
    let rest : Memᴰ (i + 1 + j) (listed_from f (i + 1) entries) =
      lists f (i + 1) j e entries at h in
    let moved : Memᴰ (i + suc j) (listed_from f (i + 1) entries) =
      subst (λ (k : ℕ). Memᴰ k (listed_from f (i + 1) entries)) (omega arith) rest in
    either (λ (rows : List ℕ). Memᴰ (i + suc j) rows) (is_listed f x)
      (i ∷ listed_from f (i + 1) entries) (listed_from f (i + 1) entries) (λ k. tail moved)
      (λ k. moved)

-- Behind rebuild_filter, the rows are exactly the indices of the entries whose expression or leaf member has the text
-- of the field in it, in lower case.
pub rebuild_filter-IsShown :
    (app : App) (i : ℕ)
    → Memᴰ i (rebuild_filter app).filtered ↔ IsShown app.filter app.index.entries i
unfolding rebuild_filter
rebuild_filter-IsShown app i = (
  λ m.
      let (j, at, (e, there, shown)) = listed (lower app.filter) 0 i app.index.entries m in
      (
        e,
        ap (get_elem? app.index.entries) {x = i} {y = j} (omega arith) ∙ there,
        is_listed-Within (lower app.filter) e shown,
      ),
  λ (e, there, within).
      subst (λ (k : ℕ). Memᴰ k (listed_from (lower app.filter) 0 app.index.entries)) (omega arith)
        (lists (lower app.filter) 0 i e app.index.entries there
          (Within-is_listed (lower app.filter) e within)),
)

-- ===== src/Prelude/Sorted.antt =====
-- What sort gives: the same elements, as often, in order.
use mathlib.Core.Path.{◌≡◌, refl}
use mathlib.Core.Logic.{inl, inr}
use mathlib.Core.Bool.{Bool, true, false}
use mathlib.Core.List.{List, [], ◌∷◌, Memᴰ, Perm, perm_middle}
use mathlib.Core.List.Perm
use native.Mathlib.Omega.{arith}
use tc397tools.Prelude.Tests.{Bool-cases}
use tc397tools.Prelude.Lists.{All, Bytes}
use tc397tools.Prelude.Sort.{insert_sorted, sort, bytes_less}

insert_sorted-perm {ℓ} :
    {A : Type ℓ} (less : A → A → Bool) (x : A) (ys : List A)
    → Perm (insert_sorted less x ys) (x ∷ ys)
unfolding insert_sorted
insert_sorted-perm less x [] = Perm.refl _
insert_sorted-perm less x (y ∷ ys) = elim (Bool-cases (less y x)) [
  | inl before ↦ rw before (
      Perm.trans (Perm.append_left (y ∷ []) (insert_sorted-perm less x ys))
        (perm_middle (y ∷ []) ys))
  | inr behind ↦ rw behind (Perm.refl _)
]

-- Sorting keeps every element, as often.
pub sort-perm {ℓ} : {A : Type ℓ} (less : A → A → Bool) (xs : List A) → Perm (sort less xs) xs
unfolding sort
sort-perm less [] = Perm.refl _
sort-perm less (x ∷ xs) =
    Perm.trans (insert_sorted-perm less x (sort less xs))
      (Perm.append_left (x ∷ []) (sort-perm less xs))

module _ {ℓ κ} {A : Type ℓ} (P : A → Type κ) (less : A → A → Bool) where
  pub All-insert_sorted : (x : A) (ys : List A) → P x → All P ys → All P (insert_sorted less x ys)
  unfolding insert_sorted
  All-insert_sorted x [] h k = (h, tt)
  All-insert_sorted x (y ∷ ys) h k = elim (Bool-cases (less y x)) [
    | inl before ↦ rw before (k.0, All-insert_sorted x ys h k.1)
    | inr behind ↦ rw behind (h, k)
  ]

  -- What holds of all elements holds of all when they are sorted.
  pub All-sort : (xs : List A) → All P xs → All P (sort less xs)
  unfolding sort
  All-sort [] h = tt
  All-sort (x ∷ xs) h = All-insert_sorted x (sort less xs) h.0 (All-sort xs h.1)

module _ {ℓ} {A : Type ℓ} (less : A → A → Bool) where
  Memᴰ-insert_sorted : (a x : A) (ys : List A) → Memᴰ a (x ∷ ys) → Memᴰ a (insert_sorted less x ys)
  unfolding insert_sorted
  Memᴰ-insert_sorted a x [] m = m
  Memᴰ-insert_sorted a x (y ∷ ys) m = elim (Bool-cases (less y x)) [
    | inr behind ↦ rw behind m
    | inl before ↦ rw before (elim m [
      | Memᴰ.head e ↦ Memᴰ.tail (Memᴰ-insert_sorted a x ys (Memᴰ.head e))
      | Memᴰ.tail (Memᴰ.head e) ↦ Memᴰ.head e
      | Memᴰ.tail (Memᴰ.tail k) ↦ Memᴰ.tail (Memᴰ-insert_sorted a x ys (Memᴰ.tail k))
    ])
  ]

  -- Sorting loses no element.
  pub Memᴰ-sort : (a : A) (xs : List A) → Memᴰ a xs → Memᴰ a (sort less xs)
  unfolding sort
  Memᴰ-sort a [] m = m
  Memᴰ-sort a (x ∷ xs) (Memᴰ.head e) = Memᴰ-insert_sorted a x (sort less xs) (Memᴰ.head e)
  Memᴰ-sort a (x ∷ xs) (Memᴰ.tail m) =
      Memᴰ-insert_sorted a x (sort less xs) (Memᴰ.tail (Memᴰ-sort a xs m))

-- No later element is less than an earlier one.
abbrev pub Sorted {ℓ} : {A : Type ℓ} → (A → A → Bool) → List A → Type 0
Sorted less [] = Unit
Sorted less (x ∷ xs) = All (λ y. less y x ≡ false) xs × Sorted less xs

-- `less` is asymmetric, and its negation is transitive.
pub record IsWeakOrder {ℓ} {A : Type ℓ} (less : A → A → Bool) : Type ℓ where
  pub asym : (x y : A) → less x y ≡ true → less y x ≡ false
  pub trans : (x y z : A) → less y x ≡ false → less z y ≡ false → less z x ≡ false

module _ {ℓ} {A : Type ℓ} (less : A → A → Bool) (order : IsWeakOrder less) where
  All-trans :
      (x y : A) (ys : List A)
      → less y x ≡ false
      → All (λ z. less z y ≡ false) ys
      → All (λ z. less z x ≡ false) ys
  All-trans x y [] h k = tt
  All-trans x y (z ∷ ys) h k = (order.trans x y z h k.0, All-trans x y ys h k.1)

  insert_sorted-Sorted :
      (x : A) (ys : List A) → Sorted less ys → Sorted less (insert_sorted less x ys)
  unfolding insert_sorted
  insert_sorted-Sorted x [] s = (tt, tt)
  insert_sorted-Sorted x (y ∷ ys) s = elim (Bool-cases (less y x)) [
    | inl before ↦ rw before (
      All-insert_sorted (λ z. less z y ≡ false) less x ys (order.asym y x before) s.0,
      insert_sorted-Sorted x ys s.1,
    )
    | inr behind ↦ rw behind ((behind, All-trans x y ys behind s.0), s)
  ]

  pub sort-Sorted : (xs : List A) → Sorted less (sort less xs)
  unfolding sort
  sort-Sorted [] = tt
  sort-Sorted (x ∷ xs) = insert_sorted-Sorted x (sort less xs) (sort-Sorted xs)

bytes_less_asym : (a b : Bytes) → bytes_less a b ≡ true → bytes_less b a ≡ false
unfolding bytes_less
bytes_less_asym a [] h = absurd (ground arith)
bytes_less_asym [] (y ∷ b) h = refl
bytes_less_asym (x ∷ a) (y ∷ b) h = ground (arith, bytes_less_asym a b)

bytes_less_trans :
    (a b c : Bytes) → bytes_less b a ≡ false → bytes_less c b ≡ false → bytes_less c a ≡ false
unfolding bytes_less
bytes_less_trans [] b c h k = refl
bytes_less_trans (x ∷ a) [] c h k = absurd (ground arith)
bytes_less_trans (x ∷ a) (y ∷ b) [] h k = absurd (ground arith)
bytes_less_trans (x ∷ a) (y ∷ b) (z ∷ c) h k = ground (arith, bytes_less_trans a b c)

pub bytes_less-IsWeakOrder : IsWeakOrder bytes_less
bytes_less-IsWeakOrder = record { asym = bytes_less_asym; trans = bytes_less_trans }

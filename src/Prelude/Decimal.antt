-- ===== src/Prelude/Decimal.antt =====
-- std::to_string and `operator<<` of an unsigned 64-bit number: decimal digits.
use Prim.Native.Nat.{ℕ, zero, suc, ◌+◌, ◌*◌, ◌/◌, ◌%◌, ◌^◌, ◌≤◌, ◌<◌}
use mathlib.Core.Path.{◌≡◌, refl, sym, ap, ◌∙◌}
use mathlib.Core.Logic.{inl, inr}
use mathlib.Core.List.{[], ◌∷◌, ◌++◌, append_assoc}
use native.Mathlib.Nat.{pow-suc, div-add-mod, add-mul-mod_self_right}
use native.Mathlib.Omega.{arith}
use tc397tools.Prelude.Tests.{ltb, if◌then◌else◌, Bool-cases, ltb→lt}
use tc397tools.Prelude.Lists.{Bytes, length, length-append, All, All-append}

-- At most k + 1 digits, with no leading zero.
unfoldable pub digits_of : ℕ → ℕ → Bytes
digits_of zero n = (48 + n % 10) ∷ []
digits_of (suc k) n =
    let front = digits_of k (n / 10) in
    if ltb n 10 then (48 + n) ∷ [] else front ++ (48 + n % 10) ∷ []

-- Twenty digits hold every uint64_t.
unfoldable pub to_string : ℕ → Bytes
unfolding digits_of
to_string n = digits_of 19 n

abbrev pub IsDigit : ℕ → Type 0
IsDigit c = (48 ≤ c) × (c ≤ 57)

-- The digits are digits, and there is one at least.
pub digits_of-IsDigit : (k n : ℕ) → All IsDigit (digits_of k n)
unfolding digits_of
digits_of-IsDigit zero n = omega arith
digits_of-IsDigit (suc k) n = elim (Bool-cases (ltb n 10)) [
  | inl small ↦ rw small (omega (arith, ltb→lt n 10 small))
  | inr large ↦
      rw large
        (All-append IsDigit (digits_of k (n / 10)) _ (digits_of-IsDigit k (n / 10)) (omega arith))
]

pub length-digits_of : (k n : ℕ) → (1 ≤ length (digits_of k n)) × (length (digits_of k n) ≤ k + 1)
unfolding digits_of
length-digits_of zero n = omega arith
length-digits_of (suc k) n =
    ground (
      arith,
      length-append (digits_of k (n / 10)) ((48 + n % 10) ∷ []),
      length-digits_of k (n / 10),
    )

abbrev pub Starts : Bytes → Type 0
Starts text = (c : ℕ) × (rest : Bytes) × (text ≡ c ∷ rest) × IsDigit c

digits-Starts : (text : Bytes) → All IsDigit text → 1 ≤ length text → Starts text
digits-Starts [] h l = absurd (omega arith)
digits-Starts (c ∷ rest) h l = (c, rest, refl, h.0)

pub to_string-Starts : (n : ℕ) → Starts (to_string n)
unfolding to_string
to_string-Starts n = digits-Starts _ (digits_of-IsDigit 19 n) (length-digits_of 19 n).0

pub to_string-IsDigit : (n : ℕ) → All IsDigit (to_string n)
unfolding to_string
to_string-IsDigit n = digits_of-IsDigit 19 n

push_digit : (n m : ℕ) → (n / 10 % m * 10 + n % 10) % m ≡ n % m
push_digit n m =
    let whole : n / 10 % m * 10 + n % 10 + 10 * (n / 10 / m) * m ≡ n =
      omega (arith, div-add-mod (n / 10) m, div-add-mod n 10) in
    sym (add-mul-mod_self_right (n / 10 % m * 10 + n % 10) (10 * (n / 10 / m)) m)
    ∙ ap (λ (t : ℕ). t % m) whole

-- A reader that takes one digit after the other, `v` to `v * 10 + d` modulo m, reads the number back.
module _ {ℓ} {A : Type ℓ} (reader : ℕ → Bytes → A) (m : ℕ)
    (step : (v d : ℕ) (rest : Bytes)
      → d < 10
      → reader v ((48 + d) ∷ rest) ≡ reader ((v * 10 + d) % m) rest) where
  pub reader-digits_of :
      (k n : ℕ) (rest : Bytes)
      → n < 10 ^ suc k
      → reader 0 (digits_of k n ++ rest) ≡ reader (n % m) rest
  unfolding digits_of
  reader-digits_of zero n rest h =
      step 0 (n % 10) rest (omega arith) ∙ ap (λ (t : ℕ). reader (t % m) rest) (omega arith)
  reader-digits_of (suc k) n rest h = elim (Bool-cases (ltb n 10)) [
    | inl small ↦
        rw small
          (step 0 n rest (ltb→lt _ _ small) ∙ ap (λ (t : ℕ). reader (t % m) rest) (omega arith))
    | inr large ↦
        rw (large, append_assoc)
          (reader-digits_of k (n / 10) ((48 + n % 10) ∷ rest) (omega (arith, pow-suc 10 (suc k)))
            ∙ step (n / 10 % m) (n % 10) rest (omega arith)
            ∙ ap (λ (t : ℕ). reader t rest) (push_digit n m))
  ]

  pub reader-to_string :
      (n : ℕ) (rest : Bytes) → n < 10 ^ 20 → reader 0 (to_string n ++ rest) ≡ reader (n % m) rest
  unfolding to_string
  reader-to_string n rest h = reader-digits_of 19 n rest h

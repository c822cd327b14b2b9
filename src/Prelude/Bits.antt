-- ===== src/Prelude/Bits.antt =====
-- Words, shifts and masks as arithmetic.
use Prim.Native.Nat.{
  ℕ, zero, suc, ◌+◌, ◌-◌, ◌*◌, ◌/◌, ◌%◌, ◌^◌, ◌≤◌, ◌<◌, max, bit_and, bit_or, digits,
  bit_or-bitwise,
}
use mathlib.Core.Path.{◌≡◌, refl, ap, sym, ◌∙◌}
use mathlib.Core.Bool.{Bool, true, ◌&&◌}
use native.Mathlib.Omega.{arith}
use native.Mathlib.Nat.{
  pow-suc, add-mul-mod_self_right, mod-eq_of_lt, div-add-mod, mul-le-mul_right,
}
use tc397tools.Prelude.Tests.{◌==◌, ==_iff}

-- Whether a test holds of every number below n.
unfoldable pub all_below : ℕ → (ℕ → Bool) → Bool
all_below zero test = true
all_below (suc n) test = all_below n test && test n

pub all_below_sound :
    (n : ℕ) (test : ℕ → Bool) (i : ℕ) → all_below n test ≡ true → i < n → test i ≡ true
unfolding all_below
all_below_sound zero test i every below = absurd (omega arith)
all_below_sound (suc n) test i every below = ground (arith, all_below_sound n test i)

table_7f : all_below 256 (λ b. bit_and b 0x7f == b % 128) ≡ true
unfolding all_below
table_7f = refl

table_80 : all_below 256 (λ b. bit_and b 0x80 == b / 128 * 128) ≡ true
unfolding all_below
table_80 = refl

pub low_group : (b : ℕ) → b < 256 → bit_and b 0x7f ≡ b % 128
low_group b h = (==_iff _ _).0 (all_below_sound 256 _ b table_7f h)

pub top_bit : (b : ℕ) → b < 256 → bit_and b 0x80 ≡ b / 128 * 128
top_bit b h = (==_iff _ _).0 (all_below_sound 256 _ b table_80 h)

-- The law of `bit_or` for the lowest digit.
abbrev or_digits : ℕ → ℕ → ℕ → ℕ
or_digits n a b = digits (λ c. c) max n a b

or_digits_enough : (n m a b : ℕ) → a ≤ n → a ≤ m → or_digits n a b ≡ or_digits m a b
or_digits_enough zero zero a b p q = refl
or_digits_enough zero (suc m) zero b p q = refl
or_digits_enough zero (suc m) (suc a) b p q = absurd (omega arith)
or_digits_enough (suc n) zero zero b p q = refl
or_digits_enough (suc n) zero (suc a) b p q = absurd (omega arith)
or_digits_enough (suc n) (suc m) zero b p q = refl
or_digits_enough (suc n) (suc m) (suc a) b p q =
    omega (arith, or_digits_enough n m (suc a / 2) (b / 2) (omega arith) (omega arith))

pub zero-bit_or : (b : ℕ) → bit_or 0 b ≡ b
zero-bit_or b = bit_or-bitwise 0 b

bit_or_step : (a b : ℕ) → bit_or a b ≡ bit_or (a / 2) (b / 2) * 2 + max (a % 2) (b % 2)
bit_or_step zero b = omega (arith, zero-bit_or b, zero-bit_or (b / 2))
bit_or_step (suc a) b = omega (
  arith,
  bit_or-bitwise (suc a) b,
  bit_or-bitwise (suc a / 2) (b / 2),
  or_digits_enough a (suc a / 2) (suc a / 2) (b / 2) (omega arith) (omega arith),
)

pub two_pow-suc : (s : ℕ) → 2 ^ suc s ≡ 2 * 2 ^ s
two_pow-suc s = omega (arith, pow-suc 2 s)

-- A number below 2 ^ s and a multiple of 2 ^ s have no bit in common.
pub bit_or_disjoint : (s a c : ℕ) → a < 2 ^ s → bit_or a (c * 2 ^ s) ≡ a + c * 2 ^ s
bit_or_disjoint zero zero c h = omega (arith, zero-bit_or (c * 2 ^ 0))
bit_or_disjoint zero (suc a) c h = absurd (omega arith)
bit_or_disjoint (suc s) a c h =
    let double : c * 2 ^ suc s ≡ 2 * (c * 2 ^ s) =
      omega (arith, ap (λ (t : ℕ). c * t) (two_pow-suc s)) in
    let half : c * 2 ^ suc s / 2 ≡ c * 2 ^ s = omega arith in
    let below : a / 2 < 2 ^ s = omega (arith, two_pow-suc s) in
    omega (
      arith,
      bit_or_step a (c * 2 ^ suc s),
      ap (bit_or (a / 2)) half,
      bit_or_disjoint s (a / 2) c below,
    )

pub two_pow-pos : (s : ℕ) → 0 < 2 ^ s
two_pow-pos zero = omega arith
two_pow-pos (suc s) = omega (arith, two_pow-suc s, two_pow-pos s)

pub two_pow-add : (s t : ℕ) → 2 ^ (s + t) ≡ 2 ^ s * 2 ^ t
two_pow-add zero t = let moved : 0 + t ≡ t = omega arith in rw moved (omega arith)
two_pow-add (suc s) t =
    let moved : suc s + t ≡ suc (s + t) = omega arith in
    omega (
      arith,
      ap (λ (k : ℕ). 2 ^ k) moved,
      two_pow-suc (s + t),
      two_pow-suc s,
      ap (λ (k : ℕ). k * 2 ^ t) (two_pow-suc s),
      two_pow-add s t,
    )

-- Reducing modulo M * S keeps what lies below S.
pub scaled_mod : (r g m s : ℕ) → 0 < m → r < s → (r + g * s) % (m * s) ≡ r + g % m * s
scaled_mod r g m s hm hr =
    let split : r + g * s ≡ (r + g % m * s) + g / m * (m * s) =
      omega (arith, ap (λ (t : ℕ). t * s) (div-add-mod g m)) in
    let room : (g % m + 1) * s ≤ m * s = mul-le-mul_right s (omega (arith)) in
    rw split (add-mul-mod_self_right (r + g % m * s) (g / m) (m * s) ∙ mod-eq_of_lt (omega arith))

-- `result |= uint64_t(g) << s` adds the group, where `result` has not reached bit s.
pub or_group :
    (r g s : ℕ) → r < 2 ^ s → s < 64 → bit_or r (g * 2 ^ s % 2 ^ 64) ≡ (r + g * 2 ^ s) % 2 ^ 64
or_group r g s hr hs =
    let whole : 2 ^ 64 ≡ 2 ^ (64 - s) * 2 ^ s =
      ap (λ (t : ℕ). 2 ^ t) {x = 64} (omega arith) ∙ two_pow-add (64 - s) s in
    let kept : g * 2 ^ s % 2 ^ 64 ≡ g % 2 ^ (64 - s) * 2 ^ s =
      ap (λ (t : ℕ). g * 2 ^ s % t) whole
      ∙ ap (λ (t : ℕ). t % (2 ^ (64 - s) * 2 ^ s)) (omega arith)
      ∙ scaled_mod 0 g (2 ^ (64 - s)) (2 ^ s) (two_pow-pos _) (two_pow-pos s)
      ∙ omega arith in
    let summed : (r + g * 2 ^ s) % 2 ^ 64 ≡ r + g % 2 ^ (64 - s) * 2 ^ s =
      ap (λ (t : ℕ). (r + g * 2 ^ s) % t) whole
      ∙ scaled_mod r g (2 ^ (64 - s)) (2 ^ s) (two_pow-pos _) hr in
    ap (bit_or r) kept ∙ bit_or_disjoint s r (g % 2 ^ (64 - s)) hr ∙ sym summed

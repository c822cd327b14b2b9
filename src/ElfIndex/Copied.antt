-- ===== src/ElfIndex/Copied.antt =====
-- What the reader of a buffer finds of the text that copy_string has put there.
use Prim.Native.Nat.{min}
use tc397tools.Prelude.{
  ℕ, Bool-cases, inl, inr, zero, suc, ◌≤◌, some, [], ◌∷◌, ◌++◌, ◌≡◌, refl, ap, ◌∙◌, arith, ◌==◌,
  length, length-append, length-take, length-drop, take, drop, All, Bytes, false,
}
use tc397tools.Elf.{copy_string}
use tc397tools.ElfIndex.State.{c_str}

-- No byte of a C string is 0.
abbrev pub IsText : Bytes → Type 0
IsText = All (λ b. 1 ≤ b)

-- The text of a C string ends before the first 0.
pub c_str-IsText : (text : Bytes) → IsText text → c_str text ≡ text
unfolding c_str
c_str-IsText [] h = refl
c_str-IsText (b ∷ text) h =
    let more : (b == 0) ≡ false = ground arith in
    rw (more, c_str) (ap (◌∷◌ b) (c_str-IsText text h.1))

c_str-cut : (m : ℕ) (text rest : Bytes) → c_str (take m text ++ 0 ∷ rest) ≡ take m (c_str text)
unfolding c_str
c_str-cut zero text rest = refl
c_str-cut (suc m) [] rest = refl
c_str-cut (suc m) (b ∷ text) rest = elim (Bool-cases (b == 0)) [
  | inl ends ↦ rw (ends, c_str) refl
  | inr more ↦ rw (more, c_str) (ap (◌∷◌ b) (c_str-cut m text rest))
]

take-min : (m : ℕ) (text : Bytes) → take (min m (length text)) text ≡ take m text
take-min zero text =
    ap (λ (k : ℕ). take k text) {x = min zero (length text)} {y = zero} (omega arith)
take-min (suc m) [] = ap (λ (k : ℕ). take {A = ℕ} k []) {x = min (suc m) 0} {y = zero} (omega arith)
take-min (suc m) (b ∷ text) =
    ap (λ (k : ℕ). take k (b ∷ text)) {x = min (suc m) (suc (length text))}
      {y = suc (min m (length text))} (omega arith)
    ∙ ap (◌∷◌ b) (take-min m text)

-- A buffer that is not empty keeps its length under copy_string, and in it is found what stands in the text before
-- the first 0, cut to what the buffer holds beside the 0 at the end.
pub c_str-copy_string :
    (text : Bytes) (c : ℕ) (buffer : Bytes)
    → (filled : Bytes) × (copy_string text (some (c ∷ buffer)) ≡ some filled)
      × (length filled ≡ length (c ∷ buffer))
      × (c_str filled ≡ take (length buffer) (c_str text))
unfolding copy_string
c_str-copy_string text c buffer =
    let n : ℕ = min (length buffer) (length text) in
    (
      take n text ++ 0 ∷ drop n buffer,
      refl,
      omega (
        arith,
        length-append (take n text) (0 ∷ drop n buffer),
        length-take n text,
        length-drop n buffer,
      ),
      ap (λ (t : Bytes). c_str (t ++ 0 ∷ drop n buffer)) (take-min (length buffer) text)
          ∙ c_str-cut (length buffer) text (drop n buffer),
    )

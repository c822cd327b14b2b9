-- ===== src/Json/Text.antt =====
-- JsonScan::str reads back what json_escape wrote, and uint_ what to_string wrote.
use tc397tools.Prelude.{
  ℕ, zero, suc, ◌+◌, ◌*◌, ◌/◌, ◌%◌, ◌^◌, ◌≤◌, ◌<◌, true, false, [], ◌∷◌, ◌++◌, ◌≡◌, refl, ap, ◌∙◌,
  arith, length, length-append, ◌==◌, ==_iff, Bytes,
}
use mathlib.Core.List.{append_assoc, append-nil}
use native.Mathlib.Nat.{mod-eq_of_lt}
use tc397tools.Prelude.Bits.{all_below, all_below_sound}
use tc397tools.Prelude.Result.{ok}
use tc397tools.Prelude.Decimal.{to_string, reader-digits_of, Starts, to_string-Starts}
use tc397tools.Json.Writer.{hex_digit, escape_char, json_escape, quoted}
use tc397tools.Json.Scan.{push_hex, str_loop, str, is_number_char, skip_number, digit_loop, uint_}

-- What the four digits behind `\u` make of a control character.
unicode_table :
    all_below 32 (λ c.
      push_hex (push_hex (push_hex (push_hex 0 48) 48) (hex_digit (c / 16))) (hex_digit (c % 16))
      == c)
    ≡ true
unfolding all_below push_hex hex_digit
unicode_table = refl

unicode_back :
    (c : ℕ)
    → c < 32
    → push_hex (push_hex (push_hex (push_hex 0 48) 48) (hex_digit (c / 16))) (hex_digit (c % 16))
      ≡ c
unicode_back c h = (==_iff _ c).0 (all_below_sound 32 _ c unicode_table h)

-- One round of the loop on one escaped character.
str_loop-escape_char :
    (fuel : ℕ) (out : Bytes) (c : ℕ) (rest : Bytes)
    → str_loop (suc fuel) out (escape_char c ++ rest) ≡ str_loop fuel (out ++ c ∷ []) rest
unfolding str_loop escape_char
str_loop-escape_char fuel out c rest = ground (arith, unicode_back c)

str_loop-json_escape :
    (text : Bytes) (fuel : ℕ) (out rest : Bytes)
    → length text < fuel
    → str_loop fuel out (json_escape text ++ b'"' ∷ rest) ≡ ok (out ++ text, rest)
unfolding json_escape
str_loop-json_escape text zero out rest h = absurd (omega arith)
str_loop-json_escape [] (suc fuel) out rest h = unfold str_loop in rw append-nil
str_loop-json_escape (c ∷ text) (suc fuel) out rest h =
    ap (str_loop (suc fuel) out) (append_assoc (escape_char c) (json_escape text) (b'"' ∷ rest))
    ∙ str_loop-escape_char fuel out c (json_escape text ++ b'"' ∷ rest)
    ∙ str_loop-json_escape text fuel (out ++ c ∷ []) rest (omega arith)
    ∙ ap (λ (t : Bytes). ok (t, rest)) (append_assoc out (c ∷ []) text)

length-json_escape : (text : Bytes) → length text ≤ length (json_escape text)
unfolding json_escape escape_char
length-json_escape [] = omega arith
length-json_escape (c ∷ text) =
    ground (arith, length-append (escape_char c) (json_escape text), length-json_escape text)

-- `str` reads back the text that json_escape wrote between quotes, whatever its bytes, and leaves
-- what follows.
pub str-quoted : (text rest : Bytes) → str (quoted text ++ rest) ≡ ok (text, rest)
unfolding str
str-quoted text rest =
    ap (λ (t : Bytes). str_loop (suc (length t)) [] t)
      (append_assoc (json_escape text) (b'"' ∷ []) rest)
    ∙ str_loop-json_escape text _ [] rest enough
  where
    enough : length text < suc (length (json_escape text ++ b'"' ∷ rest))
    enough = omega (arith, length-append (json_escape text) (b'"' ∷ rest), length-json_escape text)

digit_loop_step :
    (v d : ℕ) (rest : Bytes)
    → d < 10
    → digit_loop v ((48 + d) ∷ rest) ≡ digit_loop ((v * 10 + d) % 2 ^ 64) rest
unfolding digit_loop
digit_loop_step v d rest h = ground arith

digit_loop-stop :
    (v c : ℕ) (rest : Bytes) → is_number_char c ≡ false → digit_loop v (c ∷ rest) ≡ (v, c ∷ rest)
unfolding digit_loop
digit_loop-stop v c rest h = ground arith

uint__digit :
    (d : ℕ) (text : Bytes)
    → 48 ≤ d
    → d ≤ 57
    → uint_ (d ∷ text) ≡ ((digit_loop 0 (d ∷ text)).0, skip_number (digit_loop 0 (d ∷ text)).1)
unfolding uint_
uint__digit d text lo hi = ground arith

uint__digits :
    (text : Bytes)
    → Starts text
    → (rest : Bytes)
    → uint_ (text ++ rest)
      ≡ ((digit_loop 0 (text ++ rest)).0, skip_number (digit_loop 0 (text ++ rest)).1)
uint__digits text (d, tail, e, range) rest = rw e (uint__digit d (tail ++ rest) range.0 range.1)

skip_number-stop :
    (c : ℕ) (rest : Bytes) → is_number_char c ≡ false → skip_number (c ∷ rest) ≡ c ∷ rest
unfolding skip_number
skip_number-stop c rest h = rw h

-- `uint_` reads back a uint64_t that was written in decimal, and leaves what follows.
pub uint_-to_string :
    (n c : ℕ) (rest : Bytes)
    → n < 2 ^ 64
    → is_number_char c ≡ false
    → uint_ (to_string n ++ c ∷ rest) ≡ (n, c ∷ rest)
unfolding to_string
uint_-to_string n c rest hn hc =
    uint__digits (to_string n) (to_string-Starts n) (c ∷ rest)
    ∙ rw (read_back, skip_number-stop c rest hc)
  where
    read_back : digit_loop 0 (to_string n ++ c ∷ rest) ≡ (n, c ∷ rest)
    read_back =
        reader-digits_of digit_loop (2 ^ 64) digit_loop_step 19 n (c ∷ rest) (omega arith)
        ∙ ap (λ (t : ℕ). digit_loop t (c ∷ rest)) (mod-eq_of_lt hn)
        ∙ digit_loop-stop n c rest hc

-- ===== src/Json/Scan.antt =====
-- JsonScan of TasGui/src/elf_index.cpp. The state is the text from `p_` to `end_`.
use tc397tools.Prelude.{
  ℕ, zero, suc, ◌+◌, ◌-◌, ◌*◌, ◌%◌, ◌^◌, Bool, ◌&&◌, ◌||◌, Option, none, some, [], ◌∷◌, ◌++◌, ltb,
  leb, ◌==◌, if◌then◌else◌, length, Bytes, codes, bit_or,
}
use tc397tools.Prelude.Result.{Result, ok, stuck, throw, ◌>>=◌}

abbrev pub is_blank : ℕ → Bool
is_blank c = c == b' ' || c == b'\t' || c == b'\n' || c == b'\r'

unfoldable pub ws : Bytes → Bytes
ws [] = []
ws (c ∷ text) = if is_blank c then ws text else c ∷ text

-- The character that `peek` returns for a text without leading blanks.
abbrev pub head_or_zero : Bytes → ℕ
head_or_zero [] = 0
head_or_zero (c ∷ text) = c

abbrev expect_head : ℕ → Bytes → Result Bytes
expect_head c [] = throw "JSON: expected token"
expect_head c (d ∷ text) = if d == c then ok text else throw "JSON: expected token"

unfoldable pub expect : ℕ → Bytes → Result Bytes
unfolding ws
expect c text = expect_head c (ws text)

-- `v <<= 4; if … v |= …` for one character; one that is no digit adds nothing.
unfoldable pub push_hex : ℕ → ℕ → ℕ
push_hex v h =
    if leb b'0' h && leb h b'9'
    then bit_or (v * 16) (h - b'0')
    else if leb b'a' h && leb h b'f'
    then bit_or (v * 16) (h - b'a' + 10)
    else if leb b'A' h && leb h b'F'
    then bit_or (v * 16) (h - b'A' + 10)
    else v * 16

abbrev small_char : ℕ → Bytes
small_char v = if ltb v 0x80 then v ∷ [] else []

-- What is read behind `\u`: the characters appended, and the text behind it.
unfoldable pub read_unicode : Bytes → Bytes × Bytes
unfolding push_hex
read_unicode (h₁ ∷ h₂ ∷ h₃ ∷ h₄ ∷ text) =
    (small_char (push_hex (push_hex (push_hex (push_hex 0 h₁) h₂) h₃) h₄), text)
read_unicode text = ([], text)

-- `switch (e)` behind a backslash.
unfoldable pub read_escape : ℕ → Bytes → Bytes × Bytes
unfolding read_unicode
read_escape e text =
    if e == b'n'
    then (b'\n' ∷ [], text)
    else if e == b'r'
    then (b'\r' ∷ [], text)
    else if e == b't'
    then (b'\t' ∷ [], text)
    else if e == b'"'
    then (b'"' ∷ [], text)
    else if e == b'\\'
    then (b'\\' ∷ [], text)
    else if e == b'/'
    then (b'/' ∷ [], text)
    else if e == b'u'
    then read_unicode text
    else (e ∷ [], text)

-- One round of the loop of `str`, on a character that is no quote: what it appends, and what is left.
unfoldable pub str_round : ℕ → Bytes → Bytes × Bytes
unfolding read_escape
str_round c [] = (c ∷ [], [])
str_round c (e ∷ text) = if c == b'\\' then read_escape e text else (c ∷ [], e ∷ text)

unfoldable pub str_loop : ℕ → Bytes → Bytes → Result (Bytes × Bytes)
unfolding str_round
str_loop zero out text = stuck
str_loop (suc fuel) out [] = ok (out, [])
str_loop (suc fuel) out (c ∷ text) =
    let more = str_loop fuel (out ++ (str_round c text).0) (str_round c text).1 in
    if c == b'"' then ok (out, text) else more

abbrev str_head : Bytes → Result (Bytes × Bytes)
str_head [] = throw "JSON: expected string"
str_head (c ∷ text) =
    if c == b'"' then str_loop (suc (length text)) [] text else throw "JSON: expected string"

unfoldable pub str : Bytes → Result (Bytes × Bytes)
unfolding ws str_loop
str text = str_head (ws text)

abbrev pub is_digit : ℕ → Bool
is_digit c = leb b'0' c && leb c b'9'

abbrev pub is_number_char : ℕ → Bool
is_number_char c = c == b'.' || c == b'e' || c == b'E' || c == b'+' || c == b'-' || is_digit c

unfoldable pub skip_number : Bytes → Bytes
skip_number [] = []
skip_number (c ∷ text) = if is_number_char c then skip_number text else c ∷ text

unfoldable pub digit_loop : ℕ → Bytes → ℕ × Bytes
digit_loop v [] = (v, [])
digit_loop v (c ∷ text) =
    let more = digit_loop ((v * 10 + (c - b'0')) % 2 ^ 64) text in
    if is_digit c then more else (v, c ∷ text)

abbrev skip_minus : Bytes → Bytes
skip_minus [] = []
skip_minus (c ∷ text) = if c == b'-' then text else c ∷ text

unfoldable pub uint_ : Bytes → ℕ × Bytes
unfolding ws digit_loop skip_number
uint_ text = let (v, rest) = digit_loop 0 (skip_minus (ws text)) in (v, skip_number rest)

unfoldable pub match_lit : Bytes → Bytes → Option Bytes
match_lit [] text = some text
match_lit (l ∷ lit) [] = none
match_lit (l ∷ lit) (c ∷ text) = if l == c then match_lit lit text else none

unfoldable pub match_word : Bytes → Option Bytes
unfolding match_lit
match_word text = elim (match_lit (codes "true") text) [
  | some rest ↦ some rest
  | none ↦ elim (match_lit (codes "false") text) [
    | some rest ↦ some rest
    | none ↦ match_lit (codes "null") text
  ]
]

-- Behind a string in skip_value.
abbrev drop_string : Result (Bytes × Bytes) → Result Bytes
drop_string r = r >>= λ (out, rest). ok rest

-- skip_container behind its first `peek`, and skip_value as a parameter.
unfoldable pub container_loop : (Bytes → Result Bytes) → ℕ → ℕ → Bytes → Result Bytes
container_loop skip close zero text = stuck
container_loop skip close (suc fuel) text = do
  rest ← skip text
  let more = container_loop skip close fuel
  elim (ws rest) [
    | [] ↦ throw "JSON: malformed container"
    | ◌∷◌ c behind ↦
        if c == b','
        then more behind
        else if c == close
        then ok behind
        else throw "JSON: malformed container"
  ]

abbrev container_body : (Bytes → Result Bytes) → ℕ → ℕ → Bytes → Result Bytes
container_body skip close fuel [] = container_loop skip close fuel []
container_body skip close fuel (c ∷ text) =
    if c == close then ok text else container_loop skip close fuel (c ∷ text)

-- skip_value; the fuel bounds the depth of containers and, in each, the number of its values.
unfoldable pub skip_value : ℕ → Bytes → Result Bytes
unfolding ws container_loop
skip_value zero text = stuck
skip_value (suc fuel) text =
    let skip = skip_value fuel in
    elim (ws text) [
      | [] ↦ ok []
      | ◌∷◌ c rest ↦
          if c == b'"'
          then drop_string (str (c ∷ rest))
          else if c == b'{'
          then container_body skip b'}' fuel (ws rest)
          else if c == b'['
          then container_body skip b']' fuel (ws rest)
          else elim (match_word (c ∷ rest)) [
            | some behind ↦ ok behind
            | none ↦ ok (skip_number (c ∷ rest))
          ]
    ]

-- The source's -1, 0 and 1.
pub data Sign : Type 0 where
  sign_unknown sign_no sign_yes : Sign

unfoldable pub signed_field : ℕ → Bytes → Result (Sign × Bytes)
unfolding match_lit ws skip_value
signed_field fuel text = elim (match_lit (codes "true") (ws text)) [
  | some rest ↦ ok (sign_yes, rest)
  | none ↦ elim (match_lit (codes "false") (ws text)) [
    | some rest ↦ ok (sign_no, rest)
    | none ↦ elim (match_lit (codes "null") (ws text)) [
      | some rest ↦ ok (sign_unknown, rest)
      | none ↦ (do rest ← skip_value fuel (ws text); ok (sign_unknown, rest))
    ]
  ]
]

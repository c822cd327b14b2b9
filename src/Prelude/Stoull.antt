-- ===== src/Prelude/Stoull.antt =====
-- std::stoull, as the standard has it: white space, a sign, `0x` in base 16, then digits.
use Prim.Native.Nat.{ℕ, ◌+◌, ◌-◌, ◌*◌, ◌%◌, ◌^◌}
use mathlib.Core.Bool.{Bool, true, false, ◌&&◌, ◌||◌}
use mathlib.Core.List.{[], ◌∷◌}
use tc397tools.Prelude.Tests.{ltb, leb, ◌==◌, if◌then◌else◌}
use tc397tools.Prelude.Lists.{Bytes}
use tc397tools.Prelude.Result.{Result, ok, err, invalid_argument, out_of_range}

abbrev pub is_space : ℕ → Bool
is_space c = c == b' ' || (leb 9 c && leb c 13)

-- The digit that a character stands for; 99 where it stands for none.
unfoldable pub digit_value : ℕ → ℕ
digit_value c =
    if leb b'0' c && leb c b'9'
    then c - b'0'
    else if leb b'a' c && leb c b'z'
    then c - b'a' + 10
    else if leb b'A' c && leb c b'Z'
    then c - b'A' + 10
    else 99

unfoldable pub skip_space : Bytes → Bytes
skip_space [] = []
skip_space (c ∷ cs) = if is_space c then skip_space cs else c ∷ cs

-- The value of the digits in front, and the text behind them.
unfoldable pub read_digits : ℕ → Bytes → ℕ → ℕ × Bytes
read_digits base [] value = (value, [])
read_digits base (c ∷ cs) value =
    let more = read_digits base cs (value * base + digit_value c) in
    if ltb (digit_value c) base then more else (value, c ∷ cs)

abbrev pub starts_with_digit : ℕ → Bytes → Bool
starts_with_digit base [] = false
starts_with_digit base (c ∷ cs) = ltb (digit_value c) base

abbrev pub skip_prefix : ℕ → Bytes → Bytes
skip_prefix base (z ∷ x ∷ rest) =
    if base == 16 && z == b'0' && (x == b'x' || x == b'X') && starts_with_digit 16 rest
    then rest
    else z ∷ x ∷ rest
skip_prefix base text = text

abbrev pub negate : Bool → ℕ → ℕ
negate negative value = if negative then (2 ^ 64 - value) % 2 ^ 64 else value

-- Behind the sign: the value and the text that is left.
unfoldable pub unsigned_value : ℕ → Bool → Bytes → Result (ℕ × Bytes)
unsigned_value base negative text =
    let body = skip_prefix base text in
    let (value, rest) = read_digits base body 0 in
    if starts_with_digit base body
    then (if ltb value (2 ^ 64) then ok (negate negative value, rest) else err out_of_range)
    else err invalid_argument

abbrev signed_value : ℕ → Bytes → Result (ℕ × Bytes)
signed_value base [] = err invalid_argument
signed_value base (c ∷ cs) =
    if c == b'-'
    then unsigned_value base true cs
    else if c == b'+'
    then unsigned_value base false cs
    else unsigned_value base false (c ∷ cs)

-- The value, and the text behind what was read: `*pos` is the length of what was read.
unfoldable pub stoull : ℕ → Bytes → Result (ℕ × Bytes)
unfolding skip_space unsigned_value
stoull base text = signed_value base (skip_space text)

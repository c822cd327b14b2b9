-- ===== src/Json/Pairs.antt =====
-- What read_pair makes of each pair of key and value that to_json writes.
use Prim.Native.String.{String}
use tc397tools.Prelude.{
  ℕ, suc, ◌%◌, ◌^◌, ◌<◌, Bool, true, false, [], ◌∷◌, ◌++◌, ◌≡◌, refl, ap, ◌∙◌, arith, Bytes,
  bytes_eq, codes, if◌then◌else◌, All, none,
}
use mathlib.Core.List.{append_assoc}
use tc397tools.Prelude.Result.{ok}
use tc397tools.Prelude.Decimal.{to_string, IsDigit, Starts, to_string-Starts, to_string-IsDigit}
use tc397tools.Json.Writer.{json_escape, quoted, key, signed_text}
use tc397tools.Json.Scan.{
  expect, str, skip_value, signed_field, Sign, sign_unknown, sign_no, sign_yes, is_number_char,
  skip_number, match_word,
}
use tc397tools.Json.Entries.{VarEntry, read_field, read_pair}
use tc397tools.Json.Text.{str-quoted, uint_-to_string}

module _ (name : String) (plain : json_escape (codes name) ≡ codes name) where
  -- A key, of which json_escape changes nothing, is read as a text.
  pub str-key : (text : Bytes) → str (key name ++ text) ≡ ok (codes name, b':' ∷ text)
  str-key text = ap str same ∙ str-quoted (codes name) (b':' ∷ text)
    where
      same : key name ++ text ≡ quoted (codes name) ++ b':' ∷ text
      same = rw (plain, append_assoc, append_assoc)

  read_pair-key :
      (fuel : ℕ) (e : VarEntry) (text : Bytes)
      → read_pair fuel e (key name ++ text) ≡ read_field fuel (codes name) e text
  unfolding read_pair expect
  read_pair-key fuel e text = rw (str-key text)

module _ (fuel : ℕ) (e : VarEntry) (rest : Bytes) where
  pub read_member_name :
      (v : Bytes)
      → read_pair fuel e (key "member_name" ++ (quoted v ++ rest))
        ≡ ok (record e { member_name = v }, rest)
  unfolding read_field bytes_eq json_escape
  read_member_name v = read_pair-key "member_name" refl fuel e _ ∙ rw (str-quoted v rest)

  pub read_expression :
      (v : Bytes)
      → read_pair fuel e (key "expression" ++ (quoted v ++ rest))
        ≡ ok (record e { expression = v }, rest)
  unfolding read_field bytes_eq json_escape
  read_expression v = read_pair-key "expression" refl fuel e _ ∙ rw (str-quoted v rest)

  pub read_type_name :
      (v : Bytes)
      → read_pair fuel e (key "type_name" ++ (quoted v ++ rest))
        ≡ ok (record e { type_name = v }, rest)
  unfolding read_field bytes_eq json_escape
  read_type_name v = read_pair-key "type_name" refl fuel e _ ∙ rw (str-quoted v rest)

abbrev pub sign_of : Bool → Bool → Sign
sign_of known is_signed = if known then (if is_signed then sign_yes else sign_no) else sign_unknown

pub signed_field-signed_text :
    (fuel : ℕ) (known is_signed : Bool) (rest : Bytes)
    → signed_field fuel (signed_text known is_signed ++ rest) ≡ ok (sign_of known is_signed, rest)
unfolding signed_field
signed_field-signed_text fuel false is_signed rest = refl
signed_field-signed_text fuel true true rest = refl
signed_field-signed_text fuel true false rest = refl

pub read_signed :
    (fuel : ℕ) (e : VarEntry) (rest : Bytes) (known is_signed : Bool)
    → read_pair fuel e (key "signed" ++ (signed_text known is_signed ++ rest))
      ≡ ok (record e { is_signed = sign_of known is_signed }, rest)
unfolding read_field bytes_eq json_escape
read_signed fuel e rest known is_signed =
    read_pair-key "signed" refl fuel e _ ∙ rw (signed_field-signed_text fuel known is_signed rest)

skip_number-digits :
    (text : Bytes) (c : ℕ) (rest : Bytes)
    → All IsDigit text
    → is_number_char c ≡ false
    → skip_number (text ++ c ∷ rest) ≡ c ∷ rest
unfolding skip_number
skip_number-digits [] c rest h stop = rw stop
skip_number-digits (d ∷ text) c rest h stop =
    ground (arith, skip_number-digits text c rest h.1 stop)

match_word_digit : (d : ℕ) (text : Bytes) → IsDigit d → match_word (d ∷ text) ≡ none
unfolding match_word
match_word_digit d text h = ground arith

skip_value_digit :
    (fuel d : ℕ) (text : Bytes)
    → IsDigit d
    → skip_value (suc fuel) (d ∷ text) ≡ ok (skip_number (d ∷ text))
unfolding skip_value
skip_value_digit fuel d text h = ground (arith, match_word_digit d text h)

skip_value_digits :
    (fuel : ℕ) (text rest : Bytes)
    → Starts text
    → skip_value (suc fuel) (text ++ rest) ≡ ok (skip_number (text ++ rest))
skip_value_digits fuel text rest (d, tail, e, range) =
    rw e (skip_value_digit fuel d (tail ++ rest) range)

-- A number is read, or skipped, up to a character that can stand in no number.
module _ (fuel : ℕ) (e : VarEntry) (n c : ℕ) (rest : Bytes) (stop : is_number_char c ≡ false) where
  pub read_address :
      n < 2 ^ 64
      → read_pair fuel e (key "address" ++ (to_string n ++ c ∷ rest))
        ≡ ok (record e { address = n }, c ∷ rest)
  unfolding read_field bytes_eq json_escape
  read_address h = read_pair-key "address" refl fuel e _ ∙ rw (uint_-to_string n c rest h stop)

  pub read_byte_size :
      n < 2 ^ 64
      → read_pair fuel e (key "byte_size" ++ (to_string n ++ c ∷ rest))
        ≡ ok (record e { byte_size = n % 2 ^ 32 }, c ∷ rest)
  unfolding read_field bytes_eq json_escape
  read_byte_size h = read_pair-key "byte_size" refl fuel e _ ∙ rw (uint_-to_string n c rest h stop)

  pub skip_value-to_string : skip_value (suc fuel) (to_string n ++ c ∷ rest) ≡ ok (c ∷ rest)
  skip_value-to_string =
      skip_value_digits fuel (to_string n) (c ∷ rest) (to_string-Starts n)
      ∙ ap ok (skip_number-digits (to_string n) c rest (to_string-IsDigit n) stop)

  pub skip_byte_offset :
      read_pair (suc fuel) e (key "byte_offset" ++ (to_string n ++ c ∷ rest)) ≡ ok (e, c ∷ rest)
  unfolding read_field bytes_eq json_escape
  skip_byte_offset = read_pair-key "byte_offset" refl (suc fuel) e _ ∙ rw skip_value-to_string

pub skip_value-quoted :
    (fuel : ℕ) (v rest : Bytes) → skip_value (suc fuel) (quoted v ++ rest) ≡ ok rest
unfolding skip_value
skip_value-quoted fuel v rest = rw (str-quoted v rest)

pub skip_base_name :
    (fuel : ℕ) (e : VarEntry) (v rest : Bytes)
    → read_pair (suc fuel) e (key "base_name" ++ (quoted v ++ rest)) ≡ ok (e, rest)
unfolding read_field bytes_eq json_escape
skip_base_name fuel e v rest =
    read_pair-key "base_name" refl (suc fuel) e _ ∙ rw (skip_value-quoted fuel v rest)

-- ===== src/ElfIndex/Pairs.antt =====
-- What ElfIndex::resolve makes of each pair of key and value that to_json writes for a variable.
use Prim.Native.String.{String}
use tc397tools.Prelude.{
  ℕ, suc, ◌%◌, ◌^◌, ◌<◌, Bool, true, false, ◌||◌, ◌∷◌, ◌++◌, ◌≡◌, refl, ◌∙◌, arith, Bytes, bytes_eq,
  codes,
}
use tc397tools.Prelude.Result.{ok, ◌>>=◌}
use tc397tools.Prelude.Decimal.{to_string}
use tc397tools.Json.{
  json_escape, quoted, key, boolean, signed_text, ws, expect, skip_value, is_number_char,
  match_word, match_lit,
}
use tc397tools.Json.Text.{str-quoted, uint_-to_string}
use tc397tools.Json.Pairs.{str-key, sign_of, signed_field-signed_text}
use tc397tools.ElfIndex.State.{VarRef}
use tc397tools.ElfIndex.Resolve.{ref_field, ref_pair, ref_loop}

ref_pair-key :
    (name : String) (plain : json_escape (codes name) ≡ codes name) (fuel : ℕ) (ref : VarRef)
    (text : Bytes)
    → ref_pair fuel ref (key name ++ text) ≡ ref_field fuel (codes name) ref text
unfolding ref_pair expect
ref_pair-key name plain fuel ref text = rw (str-key name plain text)

module _ (fuel : ℕ) (ref : VarRef) (rest : Bytes) where
  pub ref_expression :
      (v : Bytes)
      → ref_pair fuel ref (key "expression" ++ (quoted v ++ rest))
        ≡ ok (record ref { expression = v }, rest)
  unfolding ref_field bytes_eq json_escape
  ref_expression v = ref_pair-key "expression" refl fuel ref _ ∙ rw (str-quoted v rest)

  pub ref_type_name :
      (v : Bytes)
      → ref_pair fuel ref (key "type_name" ++ (quoted v ++ rest))
        ≡ ok (record ref { type_name = v }, rest)
  unfolding ref_field bytes_eq json_escape
  ref_type_name v = ref_pair-key "type_name" refl fuel ref _ ∙ rw (str-quoted v rest)

  pub ref_signed :
      (known is_signed : Bool)
      → ref_pair fuel ref (key "signed" ++ (signed_text known is_signed ++ rest))
        ≡ ok (record ref { is_signed = sign_of known is_signed }, rest)
  unfolding ref_field bytes_eq json_escape
  ref_signed known is_signed =
      ref_pair-key "signed" refl fuel ref _
      ∙ rw (signed_field-signed_text fuel known is_signed rest)

module _ (fuel : ℕ) (ref : VarRef) (n c : ℕ) (rest : Bytes) (stop : is_number_char c ≡ false) where
  pub ref_address :
      n < 2 ^ 64
      → ref_pair fuel ref (key "address" ++ (to_string n ++ c ∷ rest))
        ≡ ok (record ref { address = n }, c ∷ rest)
  unfolding ref_field bytes_eq json_escape
  ref_address h = ref_pair-key "address" refl fuel ref _ ∙ rw (uint_-to_string n c rest h stop)

  pub ref_byte_size :
      n < 2 ^ 64
      → ref_pair fuel ref (key "byte_size" ++ (to_string n ++ c ∷ rest))
        ≡ ok (record ref { byte_size = n % 2 ^ 32 }, c ∷ rest)
  unfolding ref_field bytes_eq json_escape
  ref_byte_size h = ref_pair-key "byte_size" refl fuel ref _ ∙ rw (uint_-to_string n c rest h stop)

-- Whether the chain of tests knows a key.
abbrev pub is_field : Bytes → Bool
is_field name =
    bytes_eq name (codes "expression")
    || (bytes_eq name (codes "type_name")
        || (bytes_eq name (codes "address")
            || (bytes_eq name (codes "byte_size") || bytes_eq name (codes "signed"))))

ref_field_other :
    (name : Bytes) (fuel : ℕ) (ref : VarRef) (text : Bytes)
    → is_field name ≡ false
    → ref_field fuel name ref text ≡ (skip_value fuel text >>= λ behind. ok (ref, behind))
unfolding ref_field
ref_field_other name fuel ref text h = ground arith

-- The value of another key is skipped.
pub ref_skip :
    (name : String) (plain : json_escape (codes name) ≡ codes name) (fuel : ℕ) (ref : VarRef)
    (value rest : Bytes)
    → is_field (codes name) ≡ false
    → skip_value fuel value ≡ ok rest
    → ref_pair fuel ref (key name ++ value) ≡ ok (ref, rest)
ref_skip name plain fuel ref value rest other skipped =
    ref_pair-key name plain fuel ref value
    ∙ ref_field_other (codes name) fuel ref value other
    ∙ rw skipped refl

pub skip_value-boolean :
    (fuel : ℕ) (b : Bool) (rest : Bytes) → skip_value (suc fuel) (boolean b ++ rest) ≡ ok rest
unfolding skip_value match_word match_lit ws
skip_value-boolean fuel true rest = refl
skip_value-boolean fuel false rest = refl

pub ref_step :
    (fuel : ℕ) (ref ref' : VarRef) (text t : Bytes)
    → ref_pair fuel ref text ≡ ok (ref', b',' ∷ t)
    → ref_loop (suc fuel) ref text ≡ ref_loop fuel ref' t
unfolding ref_loop expect
ref_step fuel ref ref' text t h = rw h

pub ref_last :
    (fuel : ℕ) (ref ref' : VarRef) (text t : Bytes)
    → ref_pair fuel ref text ≡ ok (ref', b'}' ∷ t)
    → ref_loop (suc fuel) ref text ≡ (ref', ok (b'}' ∷ t))
unfolding ref_loop ws
ref_last fuel ref ref' text t h = rw h

-- ===== src/ElfIndex/Answer.antt =====
-- ElfIndex::resolve reads the variable back that the resolver has written as JSON.
use tc397tools.Prelude.{
  ℕ, suc, ◌-◌, ◌%◌, ◌^◌, ◌≤◌, ◌<◌, [], ◌∷◌, ◌++◌, ◌≡◌, refl, ap, ◌∙◌, arith, length, Bytes,
  bytes_eq,
}
use tc397tools.Prelude.Result.{ok}
use tc397tools.Prelude.Decimal.{to_string}
use tc397tools.Dwarf.{VariableRef}
use tc397tools.Json.{
  json_escape, quoted, key, boolean, signed_text, variable_to_json, ws, expect, empty_entry,
}
use tc397tools.Json.Pairs.{sign_of, skip_value-quoted, skip_value-to_string}
use tc397tools.ElfIndex.State.{VarRef}
use tc397tools.ElfIndex.Pairs.{
  ref_expression, ref_type_name, ref_signed, ref_address, ref_byte_size, ref_skip,
  skip_value-boolean, ref_step, ref_last,
}
use tc397tools.ElfIndex.Resolve.{ref_loop, read_ref}

-- The text of a variable from a key on.
module _ (ref : VariableRef) where
  abbrev from_type_name : Bytes
  from_type_name = key "type_name" ++ (quoted ref.type_name ++ b'}' ∷ [])

  abbrev from_section_name : Bytes
  from_section_name = key "section_name" ++ (quoted ref.section_name ++ b',' ∷ from_type_name)

  abbrev from_binding : Bytes
  from_binding = key "binding" ++ (quoted ref.binding ++ b',' ∷ from_section_name)

  abbrev from_symbol_type : Bytes
  from_symbol_type = key "symbol_type" ++ (quoted ref.symbol_type ++ b',' ∷ from_binding)

  abbrev from_source : Bytes
  from_source = key "source" ++ (quoted ref.source ++ b',' ∷ from_symbol_type)

  abbrev from_signed : Bytes
  from_signed = key "signed" ++ (signed_text ref.signed_known ref.is_signed ++ b',' ∷ from_source)

  abbrev from_indexed : Bytes
  from_indexed = key "indexed" ++ (boolean ref.indexed ++ b',' ∷ from_signed)

  abbrev from_variable_size : Bytes
  from_variable_size = key "variable_size" ++ (to_string ref.variable_size ++ b',' ∷ from_indexed)

  abbrev from_byte_size : Bytes
  from_byte_size = key "byte_size" ++ (to_string ref.byte_size ++ b',' ∷ from_variable_size)

  abbrev from_address : Bytes
  from_address = key "address" ++ (to_string ref.address ++ b',' ∷ from_byte_size)

  abbrev from_base_name : Bytes
  from_base_name = key "base_name" ++ (quoted ref.base_name ++ b',' ∷ from_address)

  abbrev from_expression : Bytes
  from_expression = key "expression" ++ (quoted ref.expression ++ b',' ∷ from_base_name)

  pub variable_text : variable_to_json ref ≡ b'{' ∷ from_expression
  unfolding variable_to_json
  variable_text = refl

  -- What the pairs make of the reference, one after the other.
  abbrev r1 : VarRef → VarRef
  r1 r = record r { expression = ref.expression }

  abbrev r2 : VarRef → VarRef
  r2 r = record (r1 r) { address = ref.address }

  abbrev r3 : VarRef → VarRef
  r3 r = record (r2 r) { byte_size = ref.byte_size % 2 ^ 32 }

  abbrev r4 : VarRef → VarRef
  r4 r = record (r3 r) { is_signed = sign_of ref.signed_known ref.is_signed }

  abbrev r5 : VarRef → VarRef
  r5 r = record (r4 r) { type_name = ref.type_name }

  abbrev twelve : ℕ → ℕ
  twelve f = suc (suc (suc (suc (suc (suc (suc (suc (suc (suc (suc (suc f)))))))))))

  ref_loop-signed :
      (f : ℕ) (r : VarRef)
      → ref_loop (suc (suc (suc (suc (suc (suc f)))))) r from_signed ≡ (
        record r { is_signed = sign_of ref.signed_known ref.is_signed; type_name = ref.type_name },
        ok (b'}' ∷ []),
      )
  unfolding bytes_eq json_escape
  ref_loop-signed f r =
      let s : VarRef = record r { is_signed = sign_of ref.signed_known ref.is_signed } in
      ref_step _ r s _ from_source (ref_signed _ r _ ref.signed_known ref.is_signed)
      ∙ ref_step _ s s _ from_symbol_type
          (ref_skip "source" refl _ s _ _ refl (skip_value-quoted _ ref.source _))
      ∙ ref_step _ s s _ from_binding
          (ref_skip "symbol_type" refl _ s _ _ refl (skip_value-quoted _ ref.symbol_type _))
      ∙ ref_step _ s s _ from_section_name
          (ref_skip "binding" refl _ s _ _ refl (skip_value-quoted _ ref.binding _))
      ∙ ref_step _ s s _ from_type_name
          (ref_skip "section_name" refl _ s _ _ refl (skip_value-quoted _ ref.section_name _))
      ∙ ref_last f s _ _ [] (ref_type_name f s _ ref.type_name)

  ref_loop-variable :
      (f : ℕ) (r : VarRef)
      → ref.address < 2 ^ 64
      → ref.byte_size < 2 ^ 64
      → ref_loop (twelve f) r from_expression ≡ (r5 r, ok (b'}' ∷ []))
  unfolding bytes_eq json_escape
  ref_loop-variable f r ha hs =
      ref_step _ r (r1 r) _ from_base_name (ref_expression _ r _ ref.expression)
      ∙ ref_step _ (r1 r) (r1 r) _ from_address
          (ref_skip "base_name" refl _ (r1 r) _ _ refl (skip_value-quoted _ ref.base_name _))
      ∙ ref_step _ (r1 r) (r2 r) _ from_byte_size (ref_address _ (r1 r) ref.address b',' _ refl ha)
      ∙ ref_step _ (r2 r) (r3 r) _ from_variable_size
          (ref_byte_size _ (r2 r) ref.byte_size b',' _ refl hs)
      ∙ ref_step _ (r3 r) (r3 r) _ from_indexed (
          ref_skip "variable_size" refl _ (r3 r) _ _ refl
            (skip_value-to_string _ empty_entry ref.variable_size b',' _ refl))
      ∙ ref_step _ (r3 r) (r3 r) _ from_signed
          (ref_skip "indexed" refl _ (r3 r) _ _ refl (skip_value-boolean _ ref.indexed _))
      ∙ ref_loop-signed f (r3 r)

  pub read_ref-variable :
      (r : VarRef)
      → ref.address < 2 ^ 64
      → ref.byte_size < 2 ^ 64
      → read_ref r (variable_to_json ref) ≡ (r5 r, ok [])
  unfolding read_ref
  read_ref-variable r ha hs = rw variable_text (
      unfold expect ws in
      rw (at_fuel ∙ ref_loop-variable (length from_expression - 10) r ha hs) refl)
    where
      long : 10 ≤ length from_expression
      long = omega arith

      at_fuel :
          ref_loop (suc (length (b'{' ∷ from_expression))) r from_expression
          ≡ ref_loop (twelve (length from_expression - 10)) r from_expression
      at_fuel = ap (λ (n : ℕ). ref_loop n r from_expression) (omega (arith, long))

-- ===== src/ElfIndex/Resolved.antt =====
-- ElfIndex::resolve, from the variable that the resolver finds to the reference that the client gets.
use tc397tools.Prelude.{
  ℕ, zero, suc, ◌%◌, ◌^◌, ◌≤◌, ◌<◌, Bool, true, false, ◌&&◌, not, Option, some, [], ◌∷◌, ◌++◌, ◌≡◌,
  refl, ap, ◌∙◌, arith, length, take, All, All-append, Bytes, codes, ◌==◌,
}
use tc397tools.Prelude.Result.{ok}
use tc397tools.Prelude.Decimal.{to_string, IsDigit, to_string-IsDigit}
use tc397tools.Dwarf.{VariableRef}
use tc397tools.Json.{
  escape_char, hex_digit, json_escape, quoted, key, boolean, signed_text, variable_to_json,
}
use tc397tools.Json.Pairs.{sign_of}
use tc397tools.Elf.{Platform, Handle, copy_string, resolve_on, tc397_elf_resolve_handle, reply}
use tc397tools.ElfIndex.State.{ElfIndex, VarRef, zeros, text_of}
use tc397tools.ElfIndex.Copied.{IsText, c_str-IsText, c_str-copy_string}
use tc397tools.ElfIndex.Answer.{read_ref-variable}
use tc397tools.ElfIndex.Resolve.{read_reply, finish_ref, resolve, initial_ref}

escape_char-IsText : (c : ℕ) → IsText (escape_char c)
unfolding escape_char hex_digit
escape_char-IsText c = ground arith

json_escape-IsText : (text : Bytes) → IsText (json_escape text)
unfolding json_escape
json_escape-IsText [] = tt
json_escape-IsText (c ∷ text) =
    All-append (λ b. 1 ≤ b) (escape_char c) (json_escape text) (escape_char-IsText c)
      (json_escape-IsText text)

quoted-IsText : (text : Bytes) → IsText (quoted text)
quoted-IsText text = (
  omega arith,
  All-append (λ b. 1 ≤ b) (json_escape text) (b'"' ∷ []) (json_escape-IsText text)
      (omega arith, tt),
)

digits-IsText : (text : Bytes) → All IsDigit text → IsText text
digits-IsText [] h = tt
digits-IsText (d ∷ text) h = (omega (arith, h.0.0), digits-IsText text h.1)

to_string-IsText : (n : ℕ) → IsText (to_string n)
to_string-IsText n = digits-IsText (to_string n) (to_string-IsDigit n)

abbrev no_zero : Bytes → Bool
no_zero [] = true
no_zero (b ∷ text) = not (b == 0) && no_zero text

no_zero-IsText : (text : Bytes) → no_zero text ≡ true → IsText text
no_zero-IsText [] h = tt
no_zero-IsText (b ∷ text) h = (ground arith, no_zero-IsText text (ground arith))

boolean-IsText : (b : Bool) → IsText (boolean b)
boolean-IsText true = no_zero-IsText (codes "true") refl
boolean-IsText false = no_zero-IsText (codes "false") refl

signed_text-IsText : (known is_signed : Bool) → IsText (signed_text known is_signed)
signed_text-IsText true is_signed = boolean-IsText is_signed
signed_text-IsText false is_signed = no_zero-IsText (codes "null") refl

pair-IsText :
    (k v : Bytes) (c : ℕ) (rest : Bytes)
    → no_zero (c ∷ k) ≡ true
    → IsText v
    → IsText rest
    → IsText (k ++ (v ++ c ∷ rest))
pair-IsText k v c rest h hv hr =
    let hc = no_zero-IsText (c ∷ k) h in
    All-append (λ b. 1 ≤ b) k (v ++ c ∷ rest) hc.1
      (All-append (λ b. 1 ≤ b) v (c ∷ rest) hv (hc.0, hr))

variable_to_json-IsText : (ref : VariableRef) → IsText (variable_to_json ref)
unfolding variable_to_json
variable_to_json-IsText ref = (
  omega arith,
  pair-IsText (key "expression") (quoted ref.expression) b',' _ refl (quoted-IsText ref.expression)
      (pair-IsText (key "base_name") (quoted ref.base_name) b',' _ refl
        (quoted-IsText ref.base_name)
        (pair-IsText (key "address") (to_string ref.address) b',' _ refl
          (to_string-IsText ref.address)
          (pair-IsText (key "byte_size") (to_string ref.byte_size) b',' _ refl
            (to_string-IsText ref.byte_size)
            (pair-IsText (key "variable_size") (to_string ref.variable_size) b',' _ refl
              (to_string-IsText ref.variable_size)
              (pair-IsText (key "indexed") (boolean ref.indexed) b',' _ refl
                (boolean-IsText ref.indexed)
                (pair-IsText (key "signed") (signed_text ref.signed_known ref.is_signed) b',' _ refl
                  (signed_text-IsText ref.signed_known ref.is_signed)
                  (pair-IsText (key "source") (quoted ref.source) b',' _ refl
                    (quoted-IsText ref.source)
                    (pair-IsText (key "symbol_type") (quoted ref.symbol_type) b',' _ refl
                      (quoted-IsText ref.symbol_type)
                      (pair-IsText (key "binding") (quoted ref.binding) b',' _ refl
                        (quoted-IsText ref.binding)
                        (pair-IsText (key "section_name") (quoted ref.section_name) b',' _ refl
                          (quoted-IsText ref.section_name)
                          (pair-IsText (key "type_name") (quoted ref.type_name) b'}' [] refl
                            (quoted-IsText ref.type_name) tt))))))))))),
)

length-zeros : (n : ℕ) → length (zeros n) ≡ n
unfolding zeros
length-zeros zero = refl
length-zeros (suc n) = omega (arith, length-zeros n)

take_all : (n : ℕ) (text : Bytes) → length text ≤ n → take n text ≡ text
take_all zero [] h = refl
take_all zero (b ∷ text) h = absurd (omega arith)
take_all (suc n) [] h = refl
take_all (suc n) (b ∷ text) h = ap (◌∷◌ b) (take_all n text (omega arith))

-- A text that fits is found in a fresh buffer as it is.
text_of-copy_string :
    (n : ℕ) (text : Bytes)
    → IsText text
    → length text ≤ n
    → text_of (copy_string text (some (zeros (suc n)))) ≡ text
unfolding zeros text_of
text_of-copy_string n text h fits =
    let copied = c_str-copy_string text 0 (zeros n) in
    rw copied.1 (
      copied.3
      ∙ ap (take (length (zeros n))) (c_str-IsText text h)
      ∙ ap (λ (k : ℕ). take k text) (length-zeros n)
      ∙ take_all n text fits)

-- The reference of the client for a variable of the resolver: its size is cut to 32 bits.
abbrev pub ref_of : VariableRef → VarRef
ref_of ref = record {
  expression = ref.expression;
  type_name = ref.type_name;
  address = ref.address;
  byte_size = ref.byte_size % 2 ^ 32;
  is_signed = sign_of ref.signed_known ref.is_signed;
  is_ok = true;
  error = [];
}

module _ {W : Type 0} (platform : Platform W) where
  tc397_elf_resolve_handle-ok :
      (fuel n : ℕ) (expression : Bytes) (handle handle' : Handle) (ref : VariableRef)
      (error : Option Bytes)
      → resolve_on fuel expression false false handle ≡ (ok ref, handle')
      → tc397_elf_resolve_handle platform fuel
          (some handle)
          (some expression)
          0
          0
          (some (zeros n))
          error
        ≡ (
          ok (record {
            code = 0;
            out_json = copy_string (variable_to_json ref) (some (zeros n));
            error = copy_string [] error;
          }),
          some handle',
        )
  unfolding tc397_elf_resolve_handle reply
  tc397_elf_resolve_handle-ok fuel n expression handle handle' ref error found = rw found refl

  -- Where the handle of the index finds a variable, whose address and size are below 2 ^ 64 and whose JSON has fewer
  -- bytes than the buffer of 8192, resolve returns its expression, type, address, size cut to 32 bits and signedness, as
  -- they are, and keeps what the handle has parsed.
  pub resolve-variable :
      (fuel : ℕ) (expression : Bytes) (index : ElfIndex) (handle handle' : Handle)
      (ref : VariableRef)
      → index.handle ≡ some handle
      → resolve_on fuel expression false false handle ≡ (ok ref, handle')
      → ref.address < 2 ^ 64
      → ref.byte_size < 2 ^ 64
      → length (variable_to_json ref) ≤ 8191
      → resolve platform fuel expression index
        ≡ (ok (ref_of ref), record index { handle = some handle' })
  unfolding resolve read_reply finish_ref
  resolve-variable fuel expression index handle handle' ref open_ found ha hs fits =
      let json = variable_to_json ref in
      let text = text_of-copy_string 8191 json (variable_to_json-IsText ref) fits in
      rw
        (
          open_,
          tc397_elf_resolve_handle-ok fuel 8192 expression handle handle' ref (some (zeros 4096))
              found,
          text,
          read_ref-variable ref (initial_ref expression) ha hs,
        )
        refl

-- ===== src/ElfIndex/Resolve.antt =====
-- ElfIndex::resolve: the answer of the C interface is JSON, which is read field by field.
use tc397tools.Prelude.{
  ℕ, zero, suc, ◌%◌, ◌^◌, true, false, not, none, some, [], ◌++◌, ◌==◌, if◌then◌else◌, length,
  Bytes, bytes_eq, codes,
}
use tc397tools.Prelude.Result.{Result, ok, err, undefined, stuck, ◌>>=◌}
use tc397tools.Json.{ws, expect, str, uint_, skip_value, signed_field, head_or_zero, sign_unknown}
use tc397tools.Elf.{Platform, Reply, what, tc397_elf_resolve_handle}
use tc397tools.ElfIndex.State.{ElfIndex, VarRef, zeros, text_of}

abbrev ref_text : Bytes → (Bytes → VarRef) → Result (VarRef × Bytes)
ref_text text set_field = do (value, rest) ← str text; ok (set_field value, rest)

abbrev ref_number : Bytes → (ℕ → VarRef) → Result (VarRef × Bytes)
ref_number text set_field = let (value, rest) = uint_ text in ok (set_field value, rest)

-- The chain of tests on the key, behind `expect(':')`.
unfoldable pub ref_field : ℕ → Bytes → VarRef → Bytes → Result (VarRef × Bytes)
ref_field fuel name ref text =
    if bytes_eq name (codes "expression")
    then ref_text text (λ v. record ref { expression = v })
    else if bytes_eq name (codes "type_name")
    then ref_text text (λ v. record ref { type_name = v })
    else if bytes_eq name (codes "address")
    then ref_number text (λ v. record ref { address = v })
    else if bytes_eq name (codes "byte_size")
    then ref_number text (λ v. record ref { byte_size = v % 2 ^ 32 })
    else if bytes_eq name (codes "signed")
    then (do (v, rest) ← signed_field fuel text; ok (record ref { is_signed = v }, rest))
    else (do rest ← skip_value fuel text; ok (ref, rest))

unfoldable pub ref_pair : ℕ → VarRef → Bytes → Result (VarRef × Bytes)
ref_pair fuel ref text = do
  (name, rest) ← str text
  value ← expect b':' rest
  ref_field fuel name ref value

-- Where an exception is thrown, the fields read before it stay.
abbrev pub RefReading : Type 0
RefReading = VarRef × Result Bytes

abbrev pub after_pair :
    VarRef → Result (VarRef × Bytes) → (VarRef → Bytes → RefReading) → RefReading
after_pair ref (ok (ref', rest)) f = f ref' rest
after_pair ref (err e) f = (ref, err e)
after_pair ref undefined f = (ref, undefined)
after_pair ref stuck f = (ref, stuck)

abbrev pub after_text : VarRef → Result Bytes → (Bytes → RefReading) → RefReading
after_text ref (ok rest) f = f rest
after_text ref (err e) f = (ref, err e)
after_text ref undefined f = (ref, undefined)
after_text ref stuck f = (ref, stuck)

-- The `while (true)`, up to its `break`.
unfoldable pub ref_loop : ℕ → VarRef → Bytes → RefReading
ref_loop zero ref text = (ref, stuck)
ref_loop (suc fuel) ref text = after_pair ref (ref_pair fuel ref text) λ ref' rest.
    let next = after_text ref' (expect b',' rest) (ref_loop fuel ref') in
    if head_or_zero (ws rest) == b',' then next else (ref', ok (ws rest))

-- The `try` block up to its last `expect`; the fuel is the length of the text.
unfoldable pub read_ref : VarRef → Bytes → RefReading
read_ref ref text = after_text ref (expect b'{' text) λ inside.
    let loop = ref_loop (suc (length text)) ref inside in
    let (ref', result) =
      (if head_or_zero (ws inside) == b'}' then (ref, ok (ws inside)) else loop) in
    (ref', result >>= expect b'}')

abbrev pub initial_ref : Bytes → VarRef
initial_ref expression = record {
  expression = expression;
  type_name = [];
  address = 0;
  byte_size = 0;
  is_signed = sign_unknown;
  is_ok = false;
  error = [];
}

module _ {W : Type 0} (platform : Platform W) where
  -- `ref.ok = true`, or the `catch`.
  unfoldable pub finish_ref : RefReading → Result VarRef
  finish_ref (ref, ok rest) = ok (record ref { is_ok = true })
  finish_ref (ref, err e) =
      ok (record ref { error = codes "parse resolve result: " ++ what platform e })
  finish_ref (ref, undefined) = undefined
  finish_ref (ref, stuck) = stuck

  unfoldable pub read_reply : Bytes → Result Reply → Result VarRef
  read_reply expression (ok answer) =
      let text = text_of answer.error in
      let message = (if bytes_eq text [] then codes "resolve failed" else text) in
      if not (answer.code == 0)
      then ok (record (initial_ref expression) { error = message })
      else finish_ref (read_ref (initial_ref expression) (text_of answer.out_json))
  read_reply expression (err e) = err e
  read_reply expression undefined = undefined
  read_reply expression stuck = stuck

  unfoldable pub resolve : ℕ → Bytes → ElfIndex → Result VarRef × ElfIndex
  resolve fuel expression index = elim index.handle [
    | none ↦ (
      ok (record (initial_ref expression) { error = codes "no resolver handle (ELF not loaded)" }),
      index,
    )
    | some handle ↦
        let (answer, handle₁) =
          tc397_elf_resolve_handle platform fuel (some handle) (some expression) 0 0
            (some (zeros 8192)) (some (zeros 4096)) in
        (read_reply expression answer, record index { handle = handle₁ })
  ]

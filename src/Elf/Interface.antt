-- ===== src/Elf/Interface.antt =====
-- The C interface. A buffer is the list of its bytes, a null pointer is `none`; the buffers of one call
-- do not overlap.
use Prim.Native.Nat.{min}
use tc397tools.Prelude.{
  ℕ, Bool, not, Option, none, some, [], ◌∷◌, ◌++◌, ◌==◌, length, take, drop, Bytes,
}
use tc397tools.Prelude.Result.{Result, ok, err, undefined, stuck, throw, ◌>>=◌}
use tc397tools.Dwarf.{VariableRef}
use tc397tools.Json.{variable_to_json}
use tc397tools.Elf.Files.{Platform, what}
use tc397tools.Elf.Reference.{
  Handle, open_image, resolve_on, resolve_reference, write_member_index_json,
}

-- The text is cut to the buffer and ends with a 0.
unfoldable pub copy_string : Bytes → Option Bytes → Option Bytes
copy_string text none = none
copy_string text (some []) = some []
copy_string text (some (c ∷ buffer)) =
    let n = min (length buffer) (length text) in some (take n text ++ 0 ∷ drop n buffer)

-- `out_json[0] = '\0'`, where there is a first byte.
unfoldable pub clear_string : Option Bytes → Option Bytes
clear_string none = none
clear_string (some []) = some []
clear_string (some (c ∷ buffer)) = some (0 ∷ buffer)

-- The returned int and the two buffers.
pub record Reply : Type 0 where
  pub code : ℕ
  pub out_json : Option Bytes
  pub error : Option Bytes

-- The end of a `try` block whose value goes to `out_json`, with its `catch`.
unfoldable pub reply :
    {W : Type 0} → Platform W → Result Bytes → Option Bytes → Option Bytes → Result Reply
reply platform (ok text) out_json error =
    ok (record { code = 0; out_json = copy_string text out_json; error = copy_string [] error })
reply platform (err e) out_json error = ok (record {
  code = 1;
  out_json = clear_string out_json;
  error = copy_string (what platform e) error;
})
reply platform undefined out_json error = undefined
reply platform stuck out_json error = stuck

abbrev json_of : Result VariableRef → Result Bytes
json_of result = do ref ← result; ok (variable_to_json ref)

-- `include_zero_size != 0`
abbrev is_set : ℕ → Bool
is_set n = not (n == 0)

unfoldable pub tc397_elf_resolve :
    {W : Type 0}
    → Platform W
    → ℕ
    → Option Bytes
    → Option Bytes
    → ℕ
    → ℕ
    → Option Bytes
    → Option Bytes
    → W
    → Result Reply
tc397_elf_resolve platform fuel (some elf_path) (some expression) zero_size notype out_json error
      w =
    reply platform
      (json_of
        (resolve_reference platform fuel elf_path expression (is_set zero_size) (is_set notype) w))
      out_json error
tc397_elf_resolve platform fuel none expression zero_size notype out_json error w =
    reply platform (throw "elf_path and expression are required") out_json error
tc397_elf_resolve platform fuel (some elf_path) none zero_size notype out_json error w =
    reply platform (throw "elf_path and expression are required") out_json error

abbrev pub opened :
    {W : Type 0} → Platform W → Result Handle → Option Bytes → Result (Option Handle × Option Bytes)
opened platform (ok handle) error = ok (some handle, copy_string [] error)
opened platform (err e) error = ok (none, copy_string (what platform e) error)
opened platform undefined error = undefined
opened platform stuck error = stuck

unfoldable pub tc397_elf_open :
    {W : Type 0}
    → Platform W
    → Option Bytes
    → Option Bytes
    → W
    → Result (Option Handle × Option Bytes)
tc397_elf_open platform none error w = opened platform (throw "elf_path is required") error
tc397_elf_open platform (some elf_path) error w =
    opened platform (open_image (platform.load_elf elf_path w) elf_path) error

-- The returned int and the buffer of a function without output.
abbrev pub written :
    {W : Type 0} → Platform W → Result (Unit {0}) → Option Bytes → Result (ℕ × Option Bytes)
written platform (ok done) error = ok (0, copy_string [] error)
written platform (err e) error = ok (1, copy_string (what platform e) error)
written platform undefined error = undefined
written platform stuck error = stuck

unfoldable pub tc397_elf_write_member_index :
    {W : Type 0}
    → Platform W
    → ℕ
    → Option Bytes
    → Option Bytes
    → ℕ
    → Option Bytes
    → Option Bytes
    → W
    → Result (ℕ × Option Bytes) × W
tc397_elf_write_member_index platform fuel (some elf_path) (some json_path) max_depth mcu_version
      error w =
    let version : Bytes = elim mcu_version [ none ↦ [] | some text ↦ text ] in
    let (result, w₁) =
      write_member_index_json platform fuel elf_path json_path max_depth version w in
    (written platform result error, w₁)
tc397_elf_write_member_index platform fuel none json_path max_depth mcu_version error w =
    (written platform (throw "elf_path and json_path are required") error, w)
tc397_elf_write_member_index platform fuel (some elf_path) none max_depth mcu_version error w =
    (written platform (throw "elf_path and json_path are required") error, w)

unfoldable pub tc397_elf_resolve_handle :
    {W : Type 0}
    → Platform W
    → ℕ
    → Option Handle
    → Option Bytes
    → ℕ
    → ℕ
    → Option Bytes
    → Option Bytes
    → Result Reply × Option Handle
tc397_elf_resolve_handle platform fuel (some handle) (some expression) zero_size notype out_json
      error =
    let (result, handle₁) = resolve_on fuel expression (is_set zero_size) (is_set notype) handle in
    (reply platform (json_of result) out_json error, some handle₁)
tc397_elf_resolve_handle platform fuel none expression zero_size notype out_json error =
    (reply platform (throw "handle and expression are required") out_json error, none)
tc397_elf_resolve_handle platform fuel (some handle) none zero_size notype out_json error =
    (reply platform (throw "handle and expression are required") out_json error, some handle)

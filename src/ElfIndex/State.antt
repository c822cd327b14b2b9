-- ===== src/ElfIndex/State.antt =====
-- The state of ElfIndex, and the buffers that it hands to the C interface.
use tc397tools.Prelude.{
  ℕ, zero, suc, Bool, Option, none, some, List, [], ◌∷◌, ◌==◌, if◌then◌else◌, Bytes,
}
use tc397tools.Json.{Sign, VarEntry}
use tc397tools.Elf.{Handle}

pub record ElfIndex : Type 0 where
  pub entries : List VarEntry
  pub handle : Option Handle
  pub loaded : Bool
  pub error : Bytes
  pub elf_path : Bytes

-- The member `ok` of the source is `is_ok`.
pub record VarRef : Type 0 where
  pub expression : Bytes
  pub type_name : Bytes
  pub address : ℕ
  pub byte_size : ℕ
  pub is_signed : Sign
  pub is_ok : Bool
  pub error : Bytes

-- `char buffer[n] = {0}`
unfoldable pub zeros : ℕ → Bytes
zeros zero = []
zeros (suc n) = 0 ∷ zeros n

-- The text up to the first 0.
unfoldable pub c_str : Bytes → Bytes
c_str [] = []
c_str (c ∷ text) = if c == 0 then [] else c ∷ c_str text

-- The text in a buffer that is not null.
unfoldable pub text_of : Option Bytes → Bytes
unfolding c_str
text_of none = []
text_of (some buffer) = c_str buffer

-- ===== src/Elf/Files.antt =====
-- The file system and what ELFIO reads of a file.
use tc397tools.Prelude.{ℕ, Bool, Option, List, Bytes}
use tc397tools.Prelude.Result.{Error, runtime_error, out_of_range, invalid_argument}
use tc397tools.Symbols.{ElfSection}

-- What section_data gives for .debug_info and .debug_abbrev, and the sections.
pub record Image : Type 0 where
  pub debug_info : Bytes
  pub debug_abbrev : Bytes
  pub sections : List ElfSection

-- W is the state of the file system. The texts of the standard library's exceptions are not fixed.
pub record Platform (W : Type 0) : Type 0 where
  pub exists : Bytes → W → Bool
  pub mtime : Bytes → W → ℕ
  pub read_file : Bytes → W → Option Bytes
  pub open_output : Bytes → W → Bool × W
  pub write_output : Bytes → Bytes → W → Bool × W
  pub load_elf : Bytes → W → Option Image
  pub out_of_range_text : Bytes
  pub invalid_argument_text : Bytes

-- `exc.what()`
unfoldable pub what : {W : Type 0} → Platform W → Error → Bytes
what platform (runtime_error text) = text
what platform out_of_range = platform.out_of_range_text
what platform invalid_argument = platform.invalid_argument_text

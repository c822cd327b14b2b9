-- ===== src/Json.antt =====
-- The JSON that cpp/tc397_elfio_resolver.cpp writes and TasGui/src/elf_index.cpp reads.
mod Writer
mod Scan
mod Entries
pub mod Text
pub mod Pairs
pub mod Entry
pub mod Index
pub mod Document
pub mod RoundTrip
unfoldable pub use Writer.*
unfoldable pub use Scan.*
unfoldable pub use Entries.*
mod Tests

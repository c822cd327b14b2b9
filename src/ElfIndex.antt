-- ===== src/ElfIndex.antt =====
-- ElfIndex of TasGui/src/elf_index.cpp: the index of an ELF file and its live resolver.
mod State
mod Load
mod Resolve
unfoldable pub use State.*
unfoldable pub use Load.*
unfoldable pub use Resolve.*
pub mod Loaded
pub mod Pairs
pub mod Answer
pub mod Resolved
pub mod Copied
pub mod Regenerated
mod Tests

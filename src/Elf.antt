-- ===== src/Elf.antt =====
-- The outer functions of cpp/tc397_elfio_resolver.cpp: resolve_reference, write_member_index_json,
-- ResolverHandle and the C interface. What lies outside, the files and ELFIO, is a parameter.
mod Files
mod Reference
mod Interface
unfoldable pub use Files.*
unfoldable pub use Reference.*
unfoldable pub use Interface.*
pub mod Fresh
pub mod Members
pub mod Indexed
pub mod Sources
mod Tests

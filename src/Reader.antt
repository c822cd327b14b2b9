-- ===== src/Reader.antt =====
-- The byte readers of cpp/tc397_elfio_resolver.cpp. A `size_t& off` that a reader moves is an
-- argument and the second part of its result.
mod Defs
pub mod Leb
pub mod Fixed
unfoldable pub use Defs.*
mod Tests

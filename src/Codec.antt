-- ===== src/Codec.antt =====
-- TasGui/src/value_codec.cpp: bytes of the target as text, and text as bytes.
mod Defs
pub mod RoundTrip
pub mod Signed
unfoldable pub use Defs.*
pub mod Digits
mod Tests

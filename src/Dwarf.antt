-- ===== src/Dwarf.antt =====
-- DwarfResolver of cpp/tc397_elfio_resolver.cpp.
mod Data
mod Scan
mod Forms
mod State
mod Types
mod Members
mod Resolve
mod Build
pub mod Endless
pub mod Units
pub mod Tables
pub mod Attributes
pub mod Values
pub mod Runs
pub mod Table
pub mod Parse
pub mod Keys
pub mod Frame
pub mod Apart
pub mod Grows
pub mod Reached
pub mod Lookups
pub mod Settled
pub mod Layout
pub mod Traced
pub mod Indexed
pub mod Finite
pub mod Named
pub mod Walked
pub mod Fields
pub mod Located
pub mod Names
pub mod Placed
pub mod Used
pub mod Found
unfoldable pub use Data.*
unfoldable pub use Scan.*
unfoldable pub use Forms.*
unfoldable pub use State.*
unfoldable pub use Types.*
unfoldable pub use Members.*
unfoldable pub use Resolve.*
unfoldable pub use Build.*
mod Tests
pub mod Sample
mod Cases

-- ===== src/Das.antt =====
-- TasGui/src/das_client.cpp: the connection to the target and its memory transfers.
mod State
mod Connect
mod Transfers
mod Devices
unfoldable pub use State.*
unfoldable pub use Connect.*
unfoldable pub use Transfers.*
unfoldable pub use Devices.*
pub mod Connection
pub mod Keeps
pub mod Memory
pub mod Stores
pub mod Listed
pub mod Ram
mod Tests

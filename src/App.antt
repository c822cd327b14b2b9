-- ===== src/App.antt =====
-- The application of TasGui/src/main.cpp: its state, what its buttons and fields do, and the tasks that
-- run beside it. Drawing and the window are left out.
mod State
mod Watch
mod Actions
unfoldable pub use State.*
unfoldable pub use Watch.*
unfoldable pub use Actions.*
pub mod Quiet
pub mod Invariant
pub mod Tasks
pub mod Steps
pub mod Rows
pub mod Reachable
pub mod Writing
pub mod Polling
pub mod Filter
mod Tests

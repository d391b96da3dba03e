-- ===== src/Replay.antt =====
-- app/replay.py: RC.Ledger.v1, the replay of a ledger from its history entries.
mod State
mod Checks
pub mod Intact
pub mod Fields
pub mod Fold
pub mod Root
unfoldable pub use State.*
unfoldable pub use Checks.*

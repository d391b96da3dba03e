-- ===== src/Blocks.antt =====
-- app/blocks.py: the Merkle root and the hash of a Continuity Block. The proofs are in the
-- modules below.
mod Hashing
pub mod Split
pub mod Tree
pub mod Binding
unfoldable pub use Hashing.*

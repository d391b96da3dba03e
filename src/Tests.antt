-- ===== src/Tests.antt =====
-- Concrete runs of the model: a toy hash and toy signatures stand for the libraries.
pub mod Toy
pub mod Chains
pub mod Signatures
pub mod Memories
pub mod Tenants
pub mod Ledgers
pub mod Calls
pub mod Pages

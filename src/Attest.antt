-- ===== src/Attest.antt =====
-- app/attest.py: signatures over the ledger, the trust log that says who may sign, and the
-- attestation log.
pub mod Wire
pub mod Messages
pub mod Trust
pub mod Log
pub mod Evaluate
pub mod Report
pub mod Demanded
pub mod Overdue

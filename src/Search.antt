-- ===== src/Search.antt =====
-- The search of app/ledger_search.py for a phrase, by Knuth, Morris and Pratt.
pub mod Kmp
pub mod Longest
pub mod Found
pub mod Service
pub mod Matching
pub mod Best

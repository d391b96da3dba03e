-- ===== src/CallLog.antt =====
-- The witness of the calls, `CallLog` of app/call_log.py: an append-only log in daily files, one
-- hash chain across them, with summaries of floods and an account of what could not be logged.
pub mod State
pub mod Files
pub mod Append
pub mod Calls
pub mod Record
pub mod Verify
pub mod Steps
pub mod Days
pub mod Linked
pub mod Chained
pub mod Flushed
pub mod Kept
pub mod Walked
pub mod Runs
pub mod Account
pub mod Accounted
pub mod Counted
pub mod NoneLost
pub mod Shutdown
pub mod Stands
pub mod Ready
pub mod Recovered

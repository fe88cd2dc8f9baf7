-- ===== src/Examples.antt =====
-- The programs under examples/ that use the crate.
pub mod Calls
pub mod Scripted
pub mod Polling
pub mod CustomOutcome
pub mod BasicRetry
pub mod VirtualClock
pub mod SyncCancel
pub mod HooksAndStats
pub mod AsyncPolling
pub mod AsyncCancel

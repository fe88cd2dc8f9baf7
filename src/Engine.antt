-- ===== src/Engine.antt =====
-- engine/: the retry loops and what they share.
pub mod Elapsed
pub mod Termination
pub mod Error
pub mod Display
pub mod Hooks
pub mod Step
pub mod Sync
pub mod Async
pub mod Reference

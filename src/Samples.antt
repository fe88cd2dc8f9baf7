-- ===== src/Samples.antt =====
-- Tests and worked examples, over a world small enough to run.
pub mod Sim
mod Engine
mod Timed
mod Trace
mod Reals
mod Waits
mod Tables
mod Defaults
mod Reference
mod Failures
mod Clocks
mod Polling
mod Programs
mod Dropping
mod Infallible
mod Sharing

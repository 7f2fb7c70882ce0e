-- ===== src/Scheduler.antt =====
-- internal/scheduler: the reminder engine.
pub mod Clock
pub mod Tracks
pub mod Plan
pub mod Queue
pub mod Due
pub mod Send
pub mod Recover
pub mod Settle
pub mod Advance
pub mod Recompute
pub mod Current
pub mod Tick
pub mod Once
pub mod Users
pub mod Cleanup
pub mod Guard

-- ===== src/Fsm.antt =====
-- internal/bot/fsm/fsm.go: the in-memory store of each user's flow state. Times are readings of the
-- clock in nanoseconds; an operation that reads the clock takes the readings as arguments. The mutex
-- makes each operation one step. Telegram user ids are positive.
pub mod State
pub mod Defs
pub mod Laws
pub mod Sweep
pub mod View
pub mod Refine

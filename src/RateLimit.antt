-- ===== src/RateLimit.antt =====
-- internal/bot/middleware/ratelimit.go: the token bucket and the debouncer. Times are readings of a
-- clock that does not run backwards (Go's monotonic clock), in nanoseconds; the mutex makes each call
-- of `Allow` one step.
pub mod Bucket
pub mod Bounds
pub mod Debouncer
pub mod Spacing
pub mod Throttle

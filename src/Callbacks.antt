-- ===== src/Callbacks.antt =====
-- internal/bot/callbacks/callbacks.go: the payloads of the buttons.
pub mod Wire
pub mod Payloads
pub mod RoundTrip

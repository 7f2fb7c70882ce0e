-- ===== src/Services.antt =====
-- internal/services: what the handlers call.
pub mod Action
pub mod Events
pub mod Users
pub mod Stats

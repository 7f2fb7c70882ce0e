-- ===== src/Core.antt =====
-- internal/core: the calendar arithmetic, gematria, and the length of texts.
pub mod Civil
pub mod Gregorian
pub mod Hebrew
pub mod Gematria
pub mod Gender
pub mod Truncate
pub mod Chars
pub mod InputText
pub mod DateText

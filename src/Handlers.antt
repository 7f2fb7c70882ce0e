-- ===== src/Handlers.antt =====
-- internal/bot/handlers: the dialogues that write to the database.
pub mod EventAdd
pub mod EditFields
pub mod EventEdit
pub mod Reminders
pub mod Safety

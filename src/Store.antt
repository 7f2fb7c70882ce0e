-- ===== src/Store.antt =====
-- internal/store: the rows of the database, and the queries that the reminder engine makes.
pub mod Models
pub mod Logs
pub mod LogLaws
pub mod Database
pub mod Events
pub mod EventLaws
pub mod Links
pub mod Rules
pub mod Users
pub mod RuleLaws

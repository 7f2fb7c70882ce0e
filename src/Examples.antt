-- ===== src/Examples.antt =====
-- Runs of the theorems on concrete data.
mod Calendar
mod Dates
mod Sessions
mod Limits
mod Logs
mod Ticks
mod Buttons
mod Occurrences
mod Inputs
mod Jobs
mod Adding
mod Editing
mod Tapping
mod Contacts
mod Names
mod Totals
mod Leftover

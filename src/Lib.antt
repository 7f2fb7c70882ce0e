-- ===== src/Lib.antt =====
-- Birthly: a Telegram bot that keeps birthdays and other yearly events on the Gregorian and the Hebrew
-- calendar and sends reminders for them.
--
-- How the program works. The bot's handlers lead a user through flows of several messages, whose state
-- a store in memory keeps; two limiters guard the handlers against floods. Events live in a database,
-- each with the date of its next occurrence on one or two calendars. A scheduler runs a tick every few
-- seconds: it settles what an interrupted run left pending, computes for each event, calendar track and
-- reminder rule when the reminder is to fire, writes a row to the notification log (whose UNIQUE
-- constraint keeps a reminder from going out twice), moves past occurrences on, and sends.
--
-- Which file models what:
--   Core.Civil          dates and day numbers, time.Date, AddDate
--   Core.Gregorian      internal/core/dates.go: mustDate, nextGregorianOccurrence
--   Core.Hebrew         internal/core/hebcal.go and internal/core/dates.go: MonthLength, ResolveMonth,
--                       ToGregorian, ToHebrew, nextHebrewOccurrence, NextOccurrence, DaysUntil, AgeAt
--   Core.Gematria       internal/core/hebcal.go: Gematria, HebrewYearGematria
--   Core.Chars          the classes of characters and the cleaning of texts in internal/core/validators.go
--   Core.InputText      internal/core/validators.go: ValidateName and the other texts, ValidatePhone,
--                       ValidateYear, ParseHebrewYearInput
--   Core.DateText       internal/core/validators.go: ParseGregorian; Format: internal/core/formatting.go:
--                       FormatDate, FormatTime, FormatPhone
--   Core.Truncate       internal/core/text.go: Truncate; internal/core/formatting.go: FormatName
--   Core.Gender         internal/core/gender.go: DetectGender
--   Fsm                 internal/bot/fsm/fsm.go: the store of conversation states; View is what it
--                       promises, a map from users to steps and data
--   RateLimit           internal/bot/middleware/ratelimit.go: TokenBucket, Debouncer; Throttle:
--                       internal/bot/router/middleware.go: throttleHandler
--   Store.Models        internal/store/models/models.go: the rows
--   Store.Logs          internal/store/repo/notifications.go: the notification log
--   Store.Database      the other queries of the reminder engine, from internal/store/repo
--   Store.Events        internal/store/repo/events.go: the writes to the table of events, with the
--                       constraints of the migrations
--   Store.Rules         internal/store/repo/reminders.go: the reminder rules; Links: their foreign keys
--   Store.Users         internal/store/repo/users.go: the rows of the users
--   Services.Events     internal/services/event_service.go; Services.Action has its results and errors
--   Services.Users      internal/services/user_service.go, and internal/bot/router/middleware.go:
--                       userHandler
--   Services.Stats      internal/services/stats_service.go: GetUserStats
--   Handlers.EventAdd   internal/bot/handlers/event_add.go: the dialogue that adds an event, which takes
--                       the user from a button over the validators and the sessions to the service
--   Handlers.EventEdit  internal/bot/handlers/event_edit.go: the editor of an event; EditFields: the
--                       fields that it changes and what is typed for them
--   Handlers.Reminders  internal/bot/handlers/reminders.go: the screens of the reminder rules
--   Handlers.Safety     what a dialogue may change in the database
--   Scheduler           internal/scheduler/jobs.go and internal/scheduler/notify.go: Clock and Tracks
--                       (parseHHMM, the tracks and rules of an event), Recover (RecoverPending), Send
--                       (SendReminder), Plan, Advance and Tick (TickReminders), Recompute
--                       (RecomputeOccurrences), Cleanup (PurgeSoftDeleted, CleanupLogs);
--                       internal/scheduler/scheduler.go: Guard (safe)
--   Callbacks           internal/bot/callbacks/callbacks.go: the payloads of buttons
--   Prelude             helpers that the parts share
--   Examples            the theorems on concrete data
--
-- How the model stands to the code. A date is a year, month and day; an instant is a number of
-- nanoseconds since the start of the year 1, and its subtraction is only used where the source has
-- compared before. A column of the database holds whole seconds, so an instant is cut to its second when
-- it is written or compared with one. An operation takes the state and returns the new one; readings of the clock and
-- Telegram's answers are arguments. Under the source's mutex an operation is one step; a call of the
-- throttle lets go of the mutex between its steps, so the steps of several calls interleave. A table is a
-- list of rows, a query a function on it, a nullable column an Option. A map from numbers is an
-- association list. The token bucket counts in units of one sixty-billionth of a token, in which the
-- refill of a nanosecond is a whole number; the source rounds to floating point. The loop of at most
-- three attempts to send is structural; carrying days over the end of a month has as many rounds as
-- there are days, which Core.Civil.Normal uses to show that the result is a valid date.
--
-- An error of a service is a value, and what was written before it stays written. A handler gives what
-- the user is told with the sessions and the database after it; it sends its messages after all writes.
-- The regular expressions of the validators are readers of texts, which take a maximal run of digits
-- where the pattern has a bounded one, since no digit may follow it there.
--
-- Parameters: the Hebrew calendar of github.com/hebcal/hdate, with the laws that HdateLaws names (the
-- conversions are inverse to one another, months have days, years are in order) for dates after the
-- package's change from the Julian calendar in September 1752 and far below the bounds of machine integers,
-- so the theorems that rest on them are about days of the years 1754 to 9999, the time zones
-- that time.LoadLocation knows, which characters are letters or numbers, the embedded lists of first
-- names, and in the handlers the gender that a first name is taken for. The laws are met by the calendar
-- in Examples.Calendar.
--
-- Not modelled: the texts of messages, keyboards and the other handlers, errors of the database itself
-- other than its constraints, backups, the average of the ages in the statistics, the services that only
-- compose queries and texts, and the wiring of the scheduler and the router.
pub mod Prelude
pub mod Core
pub mod Fsm
pub mod Store
pub mod Scheduler
pub mod RateLimit
pub mod Callbacks
pub mod Services
pub mod Handlers
mod Examples

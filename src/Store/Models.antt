-- ===== src/Store/Models.antt =====
-- internal/store/models/models.go: the rows. A nullable column is an `Option`, a date column a `Date`,
-- an instant a number of nanoseconds since the start of the year 1; the columns hold whole seconds. Text that the modelled code only
-- compares or passes on is a `String`, text that it takes apart a `Text`.
use birthly_go.Prelude.{ℕ, ◌*◌, ◌/◌, Bool, Option, String}
use birthly_go.Prelude.Text.{Text}
use birthly_go.Core.Civil.{Date}

-- `formatDateTime` of internal/store/repo/scan.go, read back: an instant is cut to its second when it is
-- written to a column or compared with one. The database's CURRENT_TIMESTAMP has whole seconds, too.
abbrev pub in_seconds : ℕ → ℕ
in_seconds t = t / 1_000_000_000 * 1_000_000_000

pub record User : Type 0 where
  pub id : ℕ
  pub username : Option String
  pub first_name : Text
  pub last_name : Option Text
  pub language : String
  pub timezone : String
  pub date_format : String
  pub time_format : String
  pub default_notify_time : Text
  pub notifications_enabled : Bool
  pub silent_notifications : Bool
  pub show_hebrew_date : Bool
  pub daily_digest_enabled : Bool
  pub digest_time : Text
  pub list_sort : String
  pub list_filter : Option String
  pub adar_policy : String
  pub feb29_policy : String
  pub is_admin : Bool
  pub is_blocked : Bool
  pub bot_blocked_by_user : Bool
  pub onboarded : Bool
  pub created_at : ℕ
  pub updated_at : ℕ
  pub last_seen_at : ℕ

pub record Event : Type 0 where
  pub id : ℕ
  pub user_id : ℕ
  pub event_type : Text
  pub custom_type_label : Option String
  pub first_name : Text
  pub last_name : Option Text
  pub nickname : Option Text
  pub gender : Option Text
  pub relation : Option Text
  pub category : Text
  pub calendar_type : String
  pub year : Option ℕ
  pub month : ℕ
  pub day : ℕ
  pub event_time : Option Text
  pub phone : Option Text
  pub telegram_username : Option String
  pub photo_file_id : Option Text
  pub notes : Option Text
  pub next_occurrence : Option Date
  pub secondary_calendar_type : Option String
  pub secondary_month : Option ℕ
  pub secondary_day : Option ℕ
  pub secondary_next_occurrence : Option Date
  pub is_active : Bool
  pub deleted_at : Option ℕ
  pub created_at : ℕ
  pub updated_at : ℕ

pub record ReminderRule : Type 0 where
  pub id : ℕ
  pub user_id : ℕ
  pub event_id : Option ℕ
  pub offset_days : Option ℕ
  pub offset_minutes : Option ℕ
  pub send_time : Option Text
  pub enabled : Bool
  pub created_at : ℕ

-- The notification statuses.
pub data Status : Type 0 where
  pending sent failed skipped : Status

pub record NotificationLog : Type 0 where
  pub id : ℕ
  pub user_id : ℕ
  pub event_id : ℕ
  pub rule_id : Option ℕ
  pub occurrence_date : Date
  pub scheduled_at : ℕ
  pub sent_at : Option ℕ
  pub status : Status
  pub error : Option Text
  pub attempts : ℕ

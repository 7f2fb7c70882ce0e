-- ===== src/Scheduler/Clock.antt =====
-- Instants, time zones and times of day. The rules of the time zones come from the system's database:
-- a zone is what `time.LoadLocation` gave for a name.
use birthly_go.Prelude.{ℕ, ◌+◌, ◌-◌, ◌*◌, ◌/◌, ◌==◌, if◌then◌else◌, [], ◌∷◌, Option, none, some}
use birthly_go.Prelude.Text.{Text}
use birthly_go.Prelude.Decimal.{atoi}
use birthly_go.Prelude.Int.{ℤ, pos, negsuc}
use birthly_go.Core.Civil.{Date, ordinal}
use birthly_go.Core.Civil.Days.{date_of_ordinal}

abbrev pub minute_ns : ℕ
minute_ns = 60_000_000_000

abbrev pub hour_ns : ℕ
hour_ns = 3_600_000_000_000

abbrev pub day_ns : ℕ
day_ns = 86_400_000_000_000

-- The date on the wall at an instant, and `time.Date` of a date, an hour and a minute.
pub record Zone : Type 0 where
  pub local_date : ℕ → Date
  pub instant : Date → ℤ → ℤ → ℕ

abbrev pub shift : ℕ → ℤ → ℕ → ℕ
shift t (pos n) unit = t + n * unit
shift t (negsuc n) unit = t - (n + 1) * unit

-- `time.UTC`: day number 1 starts at instant `day_ns`.
abbrev pub utc : Zone
utc = record {
  local_date = λ t. date_of_ordinal (t / day_ns);
  instant = λ d h m. shift (shift (ordinal d * day_ns) h hour_ns) m minute_ns;
}

-- `loc = time.UTC` where the name is not known.
abbrev pub or_utc : Option Zone → Zone
or_utc none = utc
or_utc (some zone) = zone

-- The text before and after the first colon; `none` where there is none.
unfoldable pub cut_colon : Text → Option (Text × Text)
cut_colon [] = none
cut_colon (c ∷ s) =
    let rest = cut_colon s in
    if c == b':' then some ([], s) else elim rest [ none ↦ none | some (a, b) ↦ some (c ∷ a, b) ]

abbrev pub both : Option ℤ → Option ℤ → Option (ℤ × ℤ)
both (some h) (some m) = some (h, m)
both _ _ = none

unfoldable pub parse_hhmm : Text → Option (ℤ × ℤ)
unfolding cut_colon atoi
parse_hhmm s = elim (cut_colon s) [ none ↦ none | some (h, m) ↦ both (atoi h) (atoi m) ]

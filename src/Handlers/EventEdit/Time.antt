-- ===== src/Handlers/EventEdit/Time.antt =====
-- The texts that the editor takes for a time of day.
use birthly_go.Prelude.{
  ℕ, suc, ◌+◌, ◌-◌, ◌*◌, ◌/◌, ◌%◌, ◌<◌, ◌≡◌, refl, true, ltb, Option, none, some, [], ◌∷◌, ◌++◌,
  arith, Bool-cases, inl, inr,
}
use birthly_go.Prelude.Text.{Text}
use birthly_go.Prelude.Decimal.{digits_from, digits_of, atoi}
use birthly_go.Prelude.Int.{pos}
use birthly_go.Core.Chars.{is_space, trim_space, trim_space-fixed}
use birthly_go.Core.Chars.Clean.{no_space-IsTrimmed}
use birthly_go.Core.DateText.Format.{pad}
use birthly_go.Core.DateText.Numbers.{one_digit, two_at}
use birthly_go.Scheduler.Clock.{cut_colon, parse_hhmm}
use birthly_go.Handlers.EditFields.{hour_of, is_minutes, padded_time, time_at_colon, read_time}

-- `HH:MM` with two digits each.
abbrev pub clock_text : ℕ → ℕ → Text
clock_text hour minute =
    (b'0' + hour / 10)
    ∷ (b'0' + hour % 10)
    ∷ b':'
    ∷ (b'0' + minute / 10)
    ∷ (b'0' + minute % 10)
    ∷ []

-- A time of the day.
pub record IsTimeOfDay (t : Text) : Type 0 where
  pub hour : ℕ
  pub minute : ℕ
  pub hour_in : hour < 24
  pub minute_in : minute < 60
  pub reads : t ≡ clock_text hour minute

digits_same : {a b c d : ℕ} → a ≡ c → b ≡ d → ◌≡◌ {A = Text} (a ∷ b ∷ []) (c ∷ d ∷ [])
digits_same p q = rw (p, q) refl

two_digits : (n : ℕ) → n < 100 → pad 2 n ≡ (b'0' + n / 10) ∷ (b'0' + n % 10) ∷ []
unfolding pad digits_of
two_digits n h = elim (Bool-cases (ltb n 10)) [
  | inl small ↦ rw (one_digit n n (ground arith)) (digits_same (ground arith) (ground arith))
  | inr big ↦ rw (two_at (suc n) n (ground arith) (ground arith) h) refl
]

hour_of-below : (s : Text) (h : ℕ) → hour_of s ≡ some h → h < 24
hour_of-below [] h e = cc
hour_of-below (a ∷ []) h e = ground arith
hour_of-below (a ∷ b ∷ []) h e = ground arith
hour_of-below (a ∷ b ∷ c ∷ s) h e = cc

is_minutes-number :
    (s : Text)
    → is_minutes s ≡ true
    → (m : ℕ) × (m < 60) × (s ≡ (b'0' + m / 10) ∷ (b'0' + m % 10) ∷ [])
is_minutes-number [] h = cc
is_minutes-number (a ∷ []) h = cc
is_minutes-number (a ∷ b ∷ []) h =
    ((a - b'0') * 10 + (b - b'0'), ground arith, digits_same (ground arith) (ground arith))
is_minutes-number (a ∷ b ∷ c ∷ s) h = cc

parse_hhmm-clock_text :
    (h m : ℕ) → h < 24 → m < 60 → parse_hhmm (clock_text h m) ≡ some (pos h, pos m)
unfolding parse_hhmm cut_colon atoi digits_from
parse_hhmm-clock_text h m hh hm = ground arith

clock_text-trimmed : (h m : ℕ) → h < 24 → m < 60 → trim_space (clock_text h m) ≡ clock_text h m
unfolding is_space
clock_text-trimmed h m hh hm = trim_space-fixed (clock_text h m) (
    no_space-IsTrimmed (clock_text h m)
      (ground arith, (ground arith, (refl, (ground arith, (ground arith, tt))))))

padded_time-IsTimeOfDay :
    (hour : Option ℕ) (minutes t : Text)
    → ((h : ℕ) → hour ≡ some h → h < 24)
    → padded_time hour minutes ≡ some t
    → IsTimeOfDay t
padded_time-IsTimeOfDay none minutes t below e = cc
padded_time-IsTimeOfDay (some h) minutes t below e = elim (Bool-cases (is_minutes minutes)) [
  | inl good ↦
      let (m, m_in, same) = is_minutes-number minutes good in
      let padded : pad 2 h ++ b':' ∷ minutes ≡ clock_text h m =
        rw (two_digits h (omega (arith, below h refl)), same) refl in
      let taken : padded_time (some h) minutes ≡ some (pad 2 h ++ b':' ∷ minutes) = rw good refl in
      record { hour = h; minute = m; hour_in = below h refl; minute_in = m_in; reads = cc }
  | inr bad ↦ let refused : padded_time (some h) minutes ≡ none = rw bad refl in cc
]

time_at_colon-IsTimeOfDay :
    (parts : Option (Text × Text)) (t : Text) → time_at_colon parts ≡ some t → IsTimeOfDay t
time_at_colon-IsTimeOfDay none t e = cc
time_at_colon-IsTimeOfDay (some (hours, minutes)) t e =
    padded_time-IsTimeOfDay (hour_of hours) minutes t (hour_of-below hours) e

pub read_time-IsTimeOfDay : (raw t : Text) → read_time raw ≡ some t → IsTimeOfDay t
unfolding read_time
read_time-IsTimeOfDay raw t e = time_at_colon-IsTimeOfDay (cut_colon (trim_space raw)) t e

hour_of-digits : (h : ℕ) → h < 24 → hour_of ((b'0' + h / 10) ∷ (b'0' + h % 10) ∷ []) ≡ some h
hour_of-digits h hh = ground arith

is_minutes-digits : (m : ℕ) → m < 60 → is_minutes ((b'0' + m / 10) ∷ (b'0' + m % 10) ∷ []) ≡ true
is_minutes-digits m hm = ground arith

cut_colon-clock_text :
    (h m : ℕ)
    → h < 24
    → cut_colon (clock_text h m)
      ≡ some ((b'0' + h / 10) ∷ (b'0' + h % 10) ∷ [], (b'0' + m / 10) ∷ (b'0' + m % 10) ∷ [])
unfolding cut_colon
cut_colon-clock_text h m hh = ground arith

read_time-clock_text :
    (h m : ℕ) → h < 24 → m < 60 → read_time (clock_text h m) ≡ some (clock_text h m)
unfolding read_time
read_time-clock_text h m hh hm =
    rw
      (
        clock_text-trimmed h m hh hm,
        cut_colon-clock_text h m hh,
        hour_of-digits h hh,
        is_minutes-digits m hm,
        two_digits h (omega arith),
      )
      refl

-- A text that the editor takes for a time becomes one that the reminder engine reads as an hour from 0 to 23
-- and a minute from 0 to 59, and that the editor would take unchanged.
pub read_time-parse_hhmm :
    (raw t : Text)
    → read_time raw ≡ some t
    → ((h : ℕ) × (m : ℕ) × (parse_hhmm t ≡ some (pos h, pos m)) × (h < 24) × (m < 60))
      × (read_time t ≡ some t)
read_time-parse_hhmm raw t e =
    let r = read_time-IsTimeOfDay raw t e in
    rw r.reads (
      (
        r.hour,
        r.minute,
        parse_hhmm-clock_text r.hour r.minute r.hour_in r.minute_in,
        r.hour_in,
        r.minute_in,
      ),
      read_time-clock_text r.hour r.minute r.hour_in r.minute_in,
    )

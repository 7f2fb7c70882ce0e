-- ===== src/Core/DateText.antt =====
-- `ParseGregorian` of internal/core/validators.go: the regular expressions as readers of texts, in the order
-- of the source. A maximal run of digits is what a bounded repetition of `\d` matches, since what follows it
-- in each pattern is no digit.
pub mod Accept
pub mod Format
pub mod Numbers
pub mod RoundTrip
use birthly_go.Prelude.{
  ℕ, suc, ◌+◌, ◌-◌, ◌*◌, ◌%◌, ◌≡◌, ◌≤◌, Bool, true, false, not, ◌&&◌, ◌||◌, ltb, leb, ◌==◌,
  if◌then◌else◌, List, [], ◌∷◌, length, any, Option, none, some, ◌>>=◌,
}
use birthly_go.Prelude.Text.{Text, codes, text_eq}
use birthly_go.Prelude.Decimal.{is_digit}
use birthly_go.Core.Chars.{is_blank, is_empty, starts_with, trim_space}
use birthly_go.Core.InputText.{min_year_gregorian, max_year_gregorian}

pub record ParsedDate : Type 0 where
  pub day : ℕ
  pub month : ℕ
  pub year : Option ℕ

abbrev pub parsed : ℕ → ℕ → Option ℕ → ParsedDate
parsed day month year = record { day = day; month = month; year = year }

abbrev pub hebrew_month_aliases : List (Text × ℕ)
hebrew_month_aliases =
    (1497 ∷ 1504 ∷ 1493 ∷ 1488 ∷ 1512 ∷ [], 1)
    ∷ (1508 ∷ 1489 ∷ 1512 ∷ 1493 ∷ 1488 ∷ 1512 ∷ [], 2)
    ∷ (1502 ∷ 1512 ∷ 1509 ∷ [], 3)
    ∷ (1488 ∷ 1508 ∷ 1512 ∷ 1497 ∷ 1500 ∷ [], 4)
    ∷ (1502 ∷ 1488 ∷ 1497 ∷ [], 5)
    ∷ (1497 ∷ 1493 ∷ 1504 ∷ 1497 ∷ [], 6)
    ∷ (1497 ∷ 1493 ∷ 1500 ∷ 1497 ∷ [], 7)
    ∷ (1488 ∷ 1493 ∷ 1490 ∷ 1493 ∷ 1505 ∷ 1496 ∷ [], 8)
    ∷ (1505 ∷ 1508 ∷ 1496 ∷ 1502 ∷ 1489 ∷ 1512 ∷ [], 9)
    ∷ (1488 ∷ 1493 ∷ 1511 ∷ 1496 ∷ 1493 ∷ 1489 ∷ 1512 ∷ [], 10)
    ∷ (1504 ∷ 1493 ∷ 1489 ∷ 1502 ∷ 1489 ∷ 1512 ∷ [], 11)
    ∷ (1491 ∷ 1510 ∷ 1502 ∷ 1489 ∷ 1512 ∷ [], 12)
    ∷ []

abbrev pub english_month_aliases : List (Text × ℕ)
english_month_aliases =
    (codes "january", 1)
    ∷ (codes "jan", 1)
    ∷ (codes "february", 2)
    ∷ (codes "feb", 2)
    ∷ (codes "march", 3)
    ∷ (codes "mar", 3)
    ∷ (codes "april", 4)
    ∷ (codes "apr", 4)
    ∷ (codes "may", 5)
    ∷ (codes "june", 6)
    ∷ (codes "jun", 6)
    ∷ (codes "july", 7)
    ∷ (codes "jul", 7)
    ∷ (codes "august", 8)
    ∷ (codes "aug", 8)
    ∷ (codes "september", 9)
    ∷ (codes "sep", 9)
    ∷ (codes "sept", 9)
    ∷ (codes "october", 10)
    ∷ (codes "oct", 10)
    ∷ (codes "november", 11)
    ∷ (codes "nov", 11)
    ∷ (codes "december", 12)
    ∷ (codes "dec", 12)
    ∷ []

unfoldable pub find_alias : Text → List (Text × ℕ) → Option ℕ
find_alias name [] = none
find_alias name ((alias, month) ∷ aliases) =
    let rest = find_alias name aliases in if text_eq alias name then some month else rest

-- The most days a month can have: 29 in February, and 31 or 30.
abbrev pub month_days : ℕ → ℕ
month_days month =
    if month == 2
    then 29
    else if (month == 4) || (month == 6) || (month == 9) || (month == 11)
    then 30
    else 31

unfoldable pub is_valid_day_month : ℕ → ℕ → Bool
is_valid_day_month day month =
    if ltb month 1 || ltb 12 month then false else leb 1 day && leb day (month_days month)

unfoldable pub normalize_two_digit_year : ℕ → ℕ → ℕ
normalize_two_digit_year yy now_year =
    let current_yy = now_year % 100 in if leb yy current_yy then 2000 + yy else 1900 + yy

-- The digits that a text starts with.
unfoldable pub digits : Text → Text
digits [] = []
digits (c ∷ s) = let rest = digits s in if is_digit c then c ∷ rest else []

unfoldable pub after_digits : Text → Text
after_digits [] = []
after_digits (c ∷ s) = let rest = after_digits s in if is_digit c then rest else c ∷ s

-- `strconv.Atoi` of a few digits.
unfoldable pub value_from : ℕ → Text → ℕ
value_from n [] = n
value_from n (c ∷ s) = value_from (n * 10 + (c - b'0')) s

-- A group of digits of bounded length.
unfoldable pub take_number : ℕ → ℕ → Text → Option (ℕ × Text)
take_number low high s =
    let run = digits s in
    if leb low (length run) && leb (length run) high
    then some (value_from 0 run, after_digits s)
    else none

unfoldable pub take_char : (ℕ → Bool) → Text → Option Text
take_char p [] = none
take_char p (c ∷ s) = if p c then some s else none

unfoldable pub at_end {ℓ} : {A : Type ℓ} → A → Text → Option A
at_end a [] = some a
at_end a (c ∷ s) = none

-- The class of the separators: slash, dot, hyphen.
abbrev pub is_separator : ℕ → Bool
is_separator c = (c == b'/') || (c == b'.') || (c == b'-')

abbrev pub is_hyphen : ℕ → Bool
is_hyphen c = c == b'-'

-- Three numbers with a separator between.
unfoldable pub match_numbers : (ℕ → Bool) → ℕ × ℕ → ℕ × ℕ → ℕ × ℕ → Text → Option (ℕ × ℕ × ℕ)
match_numbers p (low1, high1) (low2, high2) (low3, high3) raw = do
  (a, s1) ← take_number low1 high1 raw
  s2 ← take_char p s1
  (b, s3) ← take_number low2 high2 s2
  s4 ← take_char p s3
  (c, s5) ← take_number low3 high3 s4
  at_end (a, b, c) s5

-- `reDMYFull`, `reDMYShort` and `reISO`
abbrev pub match_dmy_full : Text → Option (ℕ × ℕ × ℕ)
match_dmy_full = match_numbers is_separator (1, 2) (1, 2) (4, 4)

abbrev pub match_dmy_short : Text → Option (ℕ × ℕ × ℕ)
match_dmy_short = match_numbers is_separator (1, 2) (1, 2) (2, 2)

abbrev pub match_iso : Text → Option (ℕ × ℕ × ℕ)
match_iso = match_numbers is_hyphen (4, 4) (1, 2) (1, 2)

-- `reDMNoYear`
unfoldable pub match_dm : Text → Option (ℕ × ℕ)
match_dm raw = do
  (day, s1) ← take_number 1 2 raw
  s2 ← take_char is_separator s1
  (month, s3) ← take_number 1 2 s2
  at_end (day, month) s3

unfoldable pub drop_blanks : Text → Text
drop_blanks [] = []
drop_blanks (c ∷ s) = let rest = drop_blanks s in if is_blank c then rest else c ∷ s

-- All characters of a word, at least one, are of a class.
unfoldable pub is_word : (ℕ → Bool) → Text → Bool
is_word p s = not (is_empty s) && not (any (λ c. not (p c)) s)

abbrev pub is_hebrew_letter : ℕ → Bool
is_hebrew_letter c = leb 1488 c && leb c 1514

abbrev pub is_latin_letter : ℕ → Bool
is_latin_letter c = (leb b'A' c && leb c b'Z') || (leb b'a' c && leb c b'z')

-- A day, blanks, and a word to the end: `reEnglishName`, and `reHebrewName` with its prefix.
unfoldable pub match_name : (ℕ → Bool) → Text → Option (ℕ × Text)
match_name p raw = do
  (day, s1) ← take_number 1 2 raw
  s2 ← take_char is_blank s1
  if is_word p (drop_blanks s2) then some (day, drop_blanks s2) else none

-- The letter bet (U+05D1) in front of other letters is the prefix.
unfoldable pub without_prefix : Text → Text
without_prefix [] = []
without_prefix (c ∷ s) = if c == 1489 && not (is_empty s) then s else c ∷ s

abbrev pub lower : ℕ → ℕ
lower c = if leb b'A' c && leb c b'Z' then c + 32 else c

unfoldable pub to_lower : Text → Text
to_lower [] = []
to_lower (c ∷ s) = lower c ∷ to_lower s

-- `none` is the error of a date that cannot be read.
abbrev pub dated : Bool → ℕ → ℕ → Option ℕ → Option ParsedDate
dated good day month year = if good then some (parsed day month year) else none

abbrev pub in_years : ℕ → Bool
in_years year = leb min_year_gregorian year && leb year max_year_gregorian

abbrev pub named : ℕ → Option ℕ → Option ParsedDate
named day none = none
named day (some month) = dated (is_valid_day_month day month) day month none

-- What each form makes of a text that matches it; the forms that follow are tried on one that does not.
abbrev pub from_english : Option (ℕ × Text) → Option ParsedDate
from_english none = none
from_english (some (day, word)) = named day (find_alias (to_lower word) english_month_aliases)

abbrev pub from_hebrew : Option (ℕ × Text) → Text → Option ParsedDate
from_hebrew none raw = from_english (match_name is_latin_letter raw)
from_hebrew (some (day, word)) raw =
    named day (find_alias (without_prefix word) hebrew_month_aliases)

abbrev pub from_dm : Option (ℕ × ℕ) → Text → Option ParsedDate
from_dm none raw = from_hebrew (match_name is_hebrew_letter raw) raw
from_dm (some (day, month)) raw = dated (is_valid_day_month day month) day month none

abbrev pub from_iso : Option (ℕ × ℕ × ℕ) → Text → Option ParsedDate
from_iso none raw = from_dm (match_dm raw) raw
from_iso (some (year, month, day)) raw =
    dated (is_valid_day_month day month && in_years year) day month (some year)

module _ (now_year : ℕ) where
  abbrev pub from_dmy_short : Option (ℕ × ℕ × ℕ) → Text → Option ParsedDate
  from_dmy_short none raw = from_iso (match_iso raw) raw
  from_dmy_short (some (day, month, yy)) raw =
      dated (is_valid_day_month day month) day month (some (normalize_two_digit_year yy now_year))

  abbrev pub from_dmy_full : Option (ℕ × ℕ × ℕ) → Text → Option ParsedDate
  from_dmy_full none raw = from_dmy_short (match_dmy_short raw) raw
  from_dmy_full (some (day, month, year)) raw =
      dated (is_valid_day_month day month && in_years year) day month (some year)

  unfoldable pub parse_gregorian : Text → Option ParsedDate
  parse_gregorian text = let raw = trim_space text in from_dmy_full (match_dmy_full raw) raw

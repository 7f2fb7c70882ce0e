-- ===== src/Core/DateText/Format.antt =====
-- `FormatDate`, `FormatTime` and `FormatPhone` of internal/core/formatting.go.
use birthly_go.Prelude.{
  ℕ, zero, suc, ◌-◌, ◌%◌, false, leb, ◌==◌, if◌then◌else◌, [], ◌∷◌, ◌++◌, length, take, drop,
  String, str_eq,
}
use birthly_go.Prelude.Text.{Text, codes}
use birthly_go.Prelude.Decimal.{is_digit, digits_of}
use birthly_go.Core.Civil.{Date}

abbrev pub zeros : ℕ → Text
zeros zero = []
zeros (suc n) = b'0' ∷ zeros n

-- `%d`, and `%0wd` with a width.
abbrev pub decimal : ℕ → Text
decimal n = digits_of (suc n) n

unfoldable pub pad : ℕ → ℕ → Text
pad width n = zeros (width - length (decimal n)) ++ decimal n

abbrev pub date_format_dmy_dot : String
date_format_dmy_dot = "DD.MM.YYYY"

abbrev pub date_format_iso : String
date_format_iso = "YYYY-MM-DD"

-- Three texts with a character between.
abbrev pub joined : ℕ → Text → Text → Text → Text
joined c a b d = a ++ (c ∷ (b ++ (c ∷ d)))

unfoldable pub format_date : Date → String → Text
unfolding pad
format_date d date_format =
    if str_eq date_format date_format_dmy_dot
    then joined b'.' (pad 2 d.day) (pad 2 d.month) (pad 4 d.year)
    else if str_eq date_format date_format_iso
    then joined b'-' (pad 4 d.year) (pad 2 d.month) (pad 2 d.day)
    else joined b'/' (pad 2 d.day) (pad 2 d.month) (pad 4 d.year)

abbrev pub time_format_12h : String
time_format_12h = "12h"

abbrev pub display_hour : ℕ → ℕ
display_hour hour = if hour % 12 == 0 then 12 else hour % 12

unfoldable pub format_time : ℕ → ℕ → String → Text
unfolding pad
format_time hour minute time_format =
    if str_eq time_format time_format_12h
    then decimal (display_hour hour)
      ++ b':' ∷ pad 2 minute
      ++ b' ' ∷ (if leb 12 hour then codes "PM" else codes "AM")
    else pad 2 hour ++ b':' ∷ pad 2 minute

unfoldable pub only_digits : Text → Text
only_digits [] = []
only_digits (c ∷ s) = let rest = only_digits s in if is_digit c then c ∷ rest else rest

-- Israel's prefix 972 becomes a zero; any other number gets one in front unless it has it.
unfoldable pub with_zero : Text → Text
with_zero (a ∷ b ∷ c ∷ s) =
    if (if a == b'9' then (if b == b'7' then c == b'2' else false) else false)
    then b'0' ∷ s
    else if a == b'0'
    then a ∷ b ∷ c ∷ s
    else b'0' ∷ a ∷ b ∷ c ∷ s
with_zero (a ∷ s) = if a == b'0' then a ∷ s else b'0' ∷ a ∷ s
with_zero [] = b'0' ∷ []

abbrev pub hyphen_after : ℕ → Text → Text
hyphen_after n s = take n s ++ b'-' ∷ drop n s

abbrev pub grouped : Text → Text
grouped s =
    if length s == 10 then hyphen_after 3 s else if length s == 9 then hyphen_after 2 s else s

unfoldable pub format_phone : Text → Text
unfolding only_digits with_zero
format_phone phone = grouped (with_zero (only_digits phone))

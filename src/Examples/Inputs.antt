-- ===== src/Examples/Inputs.antt =====
-- Texts that a user types.
use birthly_go.Prelude.{ℕ, ◌≡◌, refl, Bool, ◌||◌, leb, ◌&&◌, arith, some, none}
use birthly_go.Prelude.Text.{Text, codes}
use birthly_go.Prelude.Decimal.{is_digit}
use birthly_go.Core.Chars.{
  is_blank, is_space, is_control, strip_control_chars, drop_leading, drop_trailing, trim_space,
  collapse_whitespace, count_fields,
}
use birthly_go.Core.Civil.{date, days_in_month, is_leap}
use birthly_go.Core.Civil.Order.{IsValid}
use birthly_go.Core.InputText.{
  valid, validate_name, check_name, is_whitespace_only, contains_only_symbols,
  is_repeated_char_nonsense, repeats, validate_phone, without_separators, is_phone_separator,
  has_phone_shape,
}
use birthly_go.Core.InputText.Stable.{IsName, validate_name-IsName, IsPhone, validate_phone-IsPhone}
use birthly_go.Core.DateText.{
  parsed, parse_gregorian, normalize_two_digit_year, match_numbers, take_number, take_char, at_end,
  digits, after_digits, value_from, is_valid_day_month, match_dm, match_name, drop_blanks, is_word,
  find_alias, to_lower,
}
use birthly_go.Prelude.Text.{text_eq}
use birthly_go.Core.DateText.Accept.{IsAccepted, parse_gregorian-IsAccepted}
use birthly_go.Core.DateText.Format.{format_date}
use birthly_go.Core.DateText.RoundTrip.{parse_gregorian-format_date}

abbrev pub is_letter : ℕ → Bool
is_letter c = (leb 65 c && leb c 122) || (leb 1488 c && leb c 1514) || is_digit c

abbrev pub typed_name : Text
typed_name = codes "  Dana   Cohen "

abbrev pub name : Text
name = codes "Dana Cohen"

pub name_accepted : validate_name is_letter typed_name ≡ valid name
unfolding validate_name check_name is_whitespace_only contains_only_symbols
    is_repeated_char_nonsense repeats is_blank is_space is_control strip_control_chars drop_leading
    drop_trailing trim_space collapse_whitespace count_fields
name_accepted = refl

validate_name-IsName_example : IsName name × (validate_name is_letter name ≡ valid name)
validate_name-IsName_example = validate_name-IsName is_letter typed_name name name_accepted

abbrev phone : Text
phone = codes "+972501234567"

phone_accepted : validate_phone (codes " +972 (50) 123-4567") ≡ valid phone
unfolding validate_phone without_separators is_phone_separator has_phone_shape is_blank is_space
    is_control strip_control_chars drop_leading drop_trailing trim_space
phone_accepted = refl

validate_phone-IsPhone_example : IsPhone phone × (validate_phone phone ≡ valid phone)
validate_phone-IsPhone_example =
    validate_phone-IsPhone (codes " +972 (50) 123-4567") phone phone_accepted

pub date_accepted : parse_gregorian 2025 (codes "15.3.90") ≡ some (parsed 15 3 (some 1990))
unfolding parse_gregorian match_numbers take_number take_char at_end digits after_digits value_from
    is_valid_day_month normalize_two_digit_year is_blank is_space drop_leading drop_trailing
    trim_space
date_accepted = refl

-- A month by its name, which a capital letter starts.
month_by_name : parse_gregorian 2025 (codes "1 March") ≡ some (parsed 1 3 none)
unfolding parse_gregorian match_numbers take_number take_char at_end digits after_digits value_from
    is_valid_day_month match_dm match_name drop_blanks is_word find_alias to_lower text_eq is_blank
    is_space drop_leading drop_trailing trim_space
month_by_name = refl

parse_gregorian-IsAccepted_example : IsAccepted (parsed 15 3 (some 1990))
parse_gregorian-IsAccepted_example =
    parse_gregorian-IsAccepted 2025 (codes "15.3.90") (parsed 15 3 (some 1990)) date_accepted

leap_day-IsValid : IsValid (date 2000 2 29)
unfolding days_in_month is_leap
leap_day-IsValid = record {
  year_in = omega arith;
  month_in = (omega arith, omega arith);
  day_in = (omega arith, omega arith);
}

parse_gregorian-format_date_example :
    parse_gregorian 2025 (format_date (date 2000 2 29) "YYYY-MM-DD")
    ≡ some (parsed 29 2 (some 2000))
parse_gregorian-format_date_example =
    parse_gregorian-format_date 2025 (date 2000 2 29) leap_day-IsValid (omega arith) (omega arith)
      "YYYY-MM-DD"

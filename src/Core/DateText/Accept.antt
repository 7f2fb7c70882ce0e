-- ===== src/Core/DateText/Accept.antt =====
-- What an accepted date is, and which year two digits stand for.
use birthly_go.Prelude.{
  ℕ, ◌+◌, ◌%◌, ◌≡◌, ◌≤◌, ◌<◌, refl, Bool, true, false, ◌&&◌, [], ◌∷◌, length, Option, none, some,
  >>=-eq-some, arith, Bool-cases, inl, inr, subst, ap,
}
use birthly_go.Prelude.Text.{Text}
use birthly_go.Prelude.Decimal.{is_digit, IsDigits}
use birthly_go.Core.Chars.{trim_space}
use birthly_go.Core.Civil.{days_in_month, is_leap}
use birthly_go.Core.DateText.{
  ParsedDate, parsed, is_valid_day_month, normalize_two_digit_year, digits, value_from, take_number,
  at_end, is_separator, take_char, match_numbers, match_dmy_full, match_dmy_short, match_iso,
  match_dm, match_name, dated, in_years, named, from_english, from_hebrew, from_dm, from_iso,
  from_dmy_short, from_dmy_full, parse_gregorian, is_hebrew_letter, is_latin_letter, find_alias,
  to_lower, without_prefix, english_month_aliases, hebrew_month_aliases,
}

abbrev pub IsYear : Option ℕ → Type 0
IsYear none = Unit
IsYear (some year) = (1900 ≤ year) × (year ≤ 2100)

-- A day of a leap year, and a year from 1900 to 2100 if there is one.
pub record IsAccepted (d : ParsedDate) : Type 0 where
  pub month_in : (1 ≤ d.month) × (d.month ≤ 12)
  pub day_in : (1 ≤ d.day) × (d.day ≤ days_in_month 2000 d.month)
  pub year_in : IsYear d.year

day_month_range :
    (day month : ℕ)
    → is_valid_day_month day month ≡ true
    → (1 ≤ month) × (month ≤ 12) × (1 ≤ day) × (day ≤ days_in_month 2000 month)
unfolding is_valid_day_month days_in_month is_leap
day_month_range day month h = (ground arith, ground arith, ground arith, ground arith)

dated-IsAccepted :
    (good : Bool) (day month : ℕ) (year : Option ℕ) (d : ParsedDate)
    → (good ≡ true → (is_valid_day_month day month ≡ true) × IsYear year)
    → dated good day month year ≡ some d
    → IsAccepted d
dated-IsAccepted true day month year d h e =
    let (valid_day, valid_year) = h refl in
    let (a, b, c, f) = day_month_range day month valid_day in
    let same : parsed day month year ≡ d = cc in
    subst IsAccepted same (record { month_in = (a, b); day_in = (c, f); year_in = valid_year })
dated-IsAccepted false day month year d h e = cc

named-IsAccepted :
    (day : ℕ) (month : Option ℕ) (d : ParsedDate) → named day month ≡ some d → IsAccepted d
named-IsAccepted day none d e = cc
named-IsAccepted day (some month) d e =
    dated-IsAccepted (is_valid_day_month day month) day month none d (λ good. (good, tt)) e

english-IsAccepted :
    (m : Option (ℕ × Text)) (d : ParsedDate) → from_english m ≡ some d → IsAccepted d
english-IsAccepted none d e = cc
english-IsAccepted (some (day, word)) d e =
    named-IsAccepted day (find_alias (to_lower word) english_month_aliases) d e

hebrew-IsAccepted :
    (m : Option (ℕ × Text)) (raw : Text) (d : ParsedDate)
    → from_hebrew m raw ≡ some d
    → IsAccepted d
hebrew-IsAccepted none raw d e = english-IsAccepted (match_name is_latin_letter raw) d e
hebrew-IsAccepted (some (day, word)) raw d e =
    named-IsAccepted day (find_alias (without_prefix word) hebrew_month_aliases) d e

dm-IsAccepted :
    (m : Option (ℕ × ℕ)) (raw : Text) (d : ParsedDate) → from_dm m raw ≡ some d → IsAccepted d
dm-IsAccepted none raw d e = hebrew-IsAccepted (match_name is_hebrew_letter raw) raw d e
dm-IsAccepted (some (day, month)) raw d e =
    dated-IsAccepted (is_valid_day_month day month) day month none d (λ good. (good, tt)) e

full_year-IsAccepted :
    (day month year : ℕ) (d : ParsedDate)
    → dated (is_valid_day_month day month && in_years year) day month (some year) ≡ some d
    → IsAccepted d
full_year-IsAccepted day month year d e =
    dated-IsAccepted (is_valid_day_month day month && in_years year) day month (some year) d
      (λ good. (ground arith, (ground arith, ground arith))) e

iso-IsAccepted :
    (m : Option (ℕ × ℕ × ℕ)) (raw : Text) (d : ParsedDate) → from_iso m raw ≡ some d → IsAccepted d
iso-IsAccepted none raw d e = dm-IsAccepted (match_dm raw) raw d e
iso-IsAccepted (some (year, month, day)) raw d e = full_year-IsAccepted day month year d e

digits-IsDigits : (s : Text) → IsDigits (digits s)
unfolding digits
digits-IsDigits [] = tt
digits-IsDigits (c ∷ s) = elim (Bool-cases (is_digit c)) [
  | inl digit ↦ rw digit (digit, digits-IsDigits s)
  | inr other ↦ rw other tt
]

two_digits : (run : Text) → IsDigits run → length run ≡ 2 → value_from 0 run ≤ 99
unfolding value_from
two_digits [] h e = absurd (omega arith)
two_digits (a ∷ []) h e = absurd (omega arith)
two_digits (a ∷ b ∷ []) h e = ground (arith, h.0, h.1.0)
two_digits (a ∷ b ∷ c ∷ s) h e = absurd (omega arith)

take_two : (s : Text) (n : ℕ) (rest : Text) → take_number 2 2 s ≡ some (n, rest) → n ≤ 99
unfolding take_number
take_two s n rest e = ground (arith, two_digits (digits s) (digits-IsDigits s))

end_value : {A : Type 0} (a b : A) (s : Text) → at_end a s ≡ some b → a ≡ b
unfolding at_end
end_value a b [] e = cc
end_value a b (c ∷ s) e = cc

short_year : (raw : Text) (day month yy : ℕ) → match_dmy_short raw ≡ some (day, month, yy) → yy ≤ 99
unfolding match_numbers
short_year raw day month yy e =
    let (a, _, e1) = >>=-eq-some (take_number 1 2 raw) _ e in
    let (s2, _, e2) = >>=-eq-some (take_char is_separator a.1) _ e1 in
    let (b, _, e3) = >>=-eq-some (take_number 1 2 s2) _ e2 in
    let (s4, _, e4) = >>=-eq-some (take_char is_separator b.1) _ e3 in
    let (c, got, e5) = >>=-eq-some (take_number 2 2 s4) _ e4 in
    let same = end_value (a.0, b.0, c.0) (day, month, yy) c.1 e5 in
    ground (arith, take_two s4 c.0 c.1 got, ap (λ t. t.2) same)

normalized-IsYear :
    (yy now_year : ℕ) → yy ≤ 99 → IsYear (some (normalize_two_digit_year yy now_year))
unfolding normalize_two_digit_year
normalized-IsYear yy now_year h = (ground arith, ground arith)

module _ (now_year : ℕ) where
  short-IsAccepted :
      (m : Option (ℕ × ℕ × ℕ)) (raw : Text) (d : ParsedDate)
      → match_dmy_short raw ≡ m
      → from_dmy_short now_year m raw ≡ some d
      → IsAccepted d
  short-IsAccepted none raw d same e = iso-IsAccepted (match_iso raw) raw d e
  short-IsAccepted (some (day, month, yy)) raw d same e =
      dated-IsAccepted (is_valid_day_month day month) day month _ d
        (λ good. (good, normalized-IsYear yy now_year (short_year raw day month yy same))) e

  full-IsAccepted :
      (m : Option (ℕ × ℕ × ℕ)) (raw : Text) (d : ParsedDate)
      → from_dmy_full now_year m raw ≡ some d
      → IsAccepted d
  full-IsAccepted none raw d e = short-IsAccepted (match_dmy_short raw) raw d refl e
  full-IsAccepted (some (day, month, year)) raw d e = full_year-IsAccepted day month year d e

  -- A date that is read from a text is a day of a leap year, and its year, if it has one, lies from 1900 to
  -- 2100, whatever the form of the text and the current year.
  pub parse_gregorian-IsAccepted :
      (text : Text) (d : ParsedDate) → parse_gregorian now_year text ≡ some d → IsAccepted d
  unfolding parse_gregorian
  parse_gregorian-IsAccepted text d e =
      full-IsAccepted (match_dmy_full (trim_space text)) (trim_space text) d e

-- From 2000 to 2099, two digits stand for the last year with these digits that is not after the current one.
pub normalize_two_digit_year-last :
    (yy now_year : ℕ)
    → yy ≤ 99
    → 2000 ≤ now_year
    → now_year ≤ 2099
    → (normalize_two_digit_year yy now_year % 100 ≡ yy)
      × (normalize_two_digit_year yy now_year ≤ now_year)
      × (now_year < normalize_two_digit_year yy now_year + 100)
unfolding normalize_two_digit_year
normalize_two_digit_year-last yy now_year h low high = (ground arith, ground arith, ground arith)

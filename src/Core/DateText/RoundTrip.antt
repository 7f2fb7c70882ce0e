-- ===== src/Core/DateText/RoundTrip.antt =====
-- A date that is written in any of the formats is read back.
use birthly_go.Prelude.{
  ℕ, ◌≡◌, ◌≤◌, refl, true, false, [], ◌∷◌, ◌++◌, none, some, arith, All, Bool-cases, inl, inr,
  String, str_eq,
}
use birthly_go.Prelude.Text.{Text}
use birthly_go.Prelude.Decimal.{is_digit, IsDigits}
use birthly_go.Core.Chars.{is_space, trim_space, trim_space-fixed}
use birthly_go.Core.Chars.Clean.{no_space-IsTrimmed}
use birthly_go.Core.Civil.{Date, days_in_month}
use birthly_go.Core.Civil.Order.{IsValid, days_in_month_range}
use birthly_go.Core.DateText.{
  parsed, is_valid_day_month, is_separator, is_hyphen, match_numbers, parse_gregorian,
}
use birthly_go.Core.DateText.Format.{pad, joined, format_date, date_format_iso, date_format_dmy_dot}
use birthly_go.Core.DateText.Numbers.{
  IsNumber, pad-two, pad-four, match_numbers-joined, match_numbers-wrong,
}

digit-not_space : (c : ℕ) → is_digit c ≡ true → is_space c ≡ false
unfolding is_space
digit-not_space c h = ground arith

digits-no_space : (s : Text) → IsDigits s → All (λ c. is_space c ≡ false) s
digits-no_space [] h = tt
digits-no_space (c ∷ s) h = (digit-not_space c h.0, digits-no_space s h.1)

All-append : (P : ℕ → Type 0) (s t : Text) → All P s → All P t → All P (s ++ t)
All-append P [] t h k = k
All-append P (c ∷ s) t h k = (h.0, All-append P s t h.1 k)

joined-trimmed :
    (sep : ℕ) (s t u : Text)
    → is_space sep ≡ false
    → IsDigits s
    → IsDigits t
    → IsDigits u
    → trim_space (joined sep s t u) ≡ joined sep s t u
joined-trimmed sep s t u other hs ht hu = trim_space-fixed (joined sep s t u) (
    no_space-IsTrimmed (joined sep s t u) (
      All-append (λ c. is_space c ≡ false) s (sep ∷ (t ++ (sep ∷ u))) (digits-no_space s hs)
        (
          other,
          All-append (λ c. is_space c ≡ false) t (sep ∷ u) (digits-no_space t ht)
              (other, digits-no_space u hu),
        )))

IsValid-day_month : (d : Date) → IsValid d → is_valid_day_month d.day d.month ≡ true
unfolding is_valid_day_month days_in_month
IsValid-day_month d v = ground (arith, v.month_in, v.day_in)

module _ (now_year : ℕ) (d : Date) (v : IsValid d) (low : 1900 ≤ d.year)
    (high : d.year ≤ 2100) where
  day-IsNumber : IsNumber 1 2 d.day (pad 2 d.day)
  day-IsNumber = pad-two d.day (omega (arith, v.day_in, days_in_month_range d.year d.month))

  month-IsNumber : IsNumber 1 2 d.month (pad 2 d.month)
  month-IsNumber = pad-two d.month (omega (arith, v.month_in))

  year-IsNumber : IsNumber 4 4 d.year (pad 4 d.year)
  year-IsNumber = pad-four d.year (omega arith) (omega arith)

  parse-dmy :
      (sep : ℕ)
      → is_space sep ≡ false
      → is_separator sep ≡ true
      → is_digit sep ≡ false
      → parse_gregorian now_year (joined sep (pad 2 d.day) (pad 2 d.month) (pad 4 d.year))
        ≡ some (parsed d.day d.month (some d.year))
  unfolding parse_gregorian
  parse-dmy sep other is_sep stop =
      rw
        (joined-trimmed sep (pad 2 d.day) (pad 2 d.month) (pad 4 d.year) other
          day-IsNumber.all_digits month-IsNumber.all_digits year-IsNumber.all_digits)
        (rw
          (match_numbers-joined is_separator sep 1 2 1 2 4 4 d.day d.month d.year (pad 2 d.day)
            (pad 2 d.month) (pad 4 d.year) is_sep stop day-IsNumber month-IsNumber year-IsNumber)
          (ground (arith, IsValid-day_month d v)))

  wrong_iso :
      (third : ℕ × ℕ)
      → match_numbers is_separator
          (1, 2)
          (1, 2)
          third
          (joined b'-' (pad 4 d.year) (pad 2 d.month) (pad 2 d.day))
        ≡ none
  wrong_iso third =
      match_numbers-wrong is_separator 1 2 (1, 2) third (pad 4 d.year)
        (b'-' ∷ (pad 2 d.month ++ (b'-' ∷ pad 2 d.day))) year-IsNumber.all_digits
        (omega (arith, year-IsNumber.width)) refl

  parse-iso :
      parse_gregorian now_year (joined b'-' (pad 4 d.year) (pad 2 d.month) (pad 2 d.day))
      ≡ some (parsed d.day d.month (some d.year))
  unfolding parse_gregorian is_space
  parse-iso =
      rw
        (joined-trimmed b'-' (pad 4 d.year) (pad 2 d.month) (pad 2 d.day) refl
          year-IsNumber.all_digits month-IsNumber.all_digits day-IsNumber.all_digits)
        (rw (wrong_iso (4, 4)) (
          rw (wrong_iso (2, 2)) (
            rw
              (match_numbers-joined is_hyphen b'-' 4 4 1 2 1 2 d.year d.month d.day (pad 4 d.year)
                (pad 2 d.month) (pad 2 d.day) refl refl year-IsNumber month-IsNumber day-IsNumber)
              (ground (arith, IsValid-day_month d v)))))

  -- A valid date from 1900 to 2100 that is written in any of the formats is read back as it was, in any
  -- current year.
  pub parse_gregorian-format_date :
      (date_format : String)
      → parse_gregorian now_year (format_date d date_format)
        ≡ some (parsed d.day d.month (some d.year))
  unfolding format_date is_space
  parse_gregorian-format_date date_format =
      elim (Bool-cases (str_eq date_format date_format_dmy_dot)) [
        | inl dot ↦ rw dot (parse-dmy b'.' refl refl refl)
        | inr other ↦ rw other (elim (Bool-cases (str_eq date_format date_format_iso)) [
          | inl iso ↦ rw iso parse-iso
          | inr slash ↦ rw slash (parse-dmy b'/' refl refl refl)
        ])
      ]

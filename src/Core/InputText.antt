-- ===== src/Core/InputText.antt =====
-- The validators of texts and of years of internal/core/validators.go. Which characters are letters or
-- numbers (`unicode.IsLetter`, `unicode.IsNumber`) is a parameter.
pub mod Stable
use birthly_go.Prelude.{
  Option, none, some, ℕ, suc, ◌+◌, ◌≡◌, Bool, true, false, not, ◌&&◌, ◌||◌, ltb, leb, ◌==◌,
  if◌then◌else◌, [], ◌∷◌, length, any, filterb, ◌-◌, ◌*◌,
}
use birthly_go.Prelude.Text.{Text}
use birthly_go.Prelude.Decimal.{is_digit, digits_from, int_max}
use birthly_go.Core.Civil.{Date, date}
use birthly_go.Core.Hebrew.{Hdate, HDate, to_hebrew}
use birthly_go.Core.Chars.{
  is_blank, is_space, strip_control_chars, is_empty, trim_space, collapse_whitespace, count_fields,
}

-- The messages of a `ValidationError`.
pub data Complaint : Type 0 where
  no_name not_a_name bad_phone bad_year : Complaint
  too_many_words too_long : ℕ → Complaint

pub data Checked (A : Type 0) : Type 0 where
  valid : A → Checked A
  invalid : Complaint → Checked A

abbrev pub name_max_len : ℕ
name_max_len = 40

abbrev pub name_max_words : ℕ
name_max_words = 4

abbrev pub nickname_max_len : ℕ
nickname_max_len = 32

abbrev pub notes_max_len : ℕ
notes_max_len = 500

abbrev pub relation_max_len : ℕ
relation_max_len = 32

abbrev pub phone_max_len : ℕ
phone_max_len = 20

unfoldable pub is_whitespace_only : Text → Bool
is_whitespace_only s = not (is_empty s) && not (any (λ c. not (is_space c)) s)

-- The loop with the first character known, which counts on.
unfoldable pub repeats : ℕ → ℕ → Text → Bool
repeats first count [] = leb 4 count
repeats first count (c ∷ s) =
    let same = repeats first count s in
    let more = repeats first (suc count) s in
    if is_space c then same else if not (c == first) then false else more

unfoldable pub is_repeated_char_nonsense : Text → Bool
unfolding repeats
is_repeated_char_nonsense [] = false
is_repeated_char_nonsense (c ∷ s) =
    let rest = is_repeated_char_nonsense s in if is_space c then rest else repeats c 1 s

abbrev pub clean_name : Text → Text
clean_name value = collapse_whitespace (trim_space (strip_control_chars value))

abbrev pub clean_text : Text → Text
clean_text value = trim_space (strip_control_chars value)

module _ (is_letter_or_number : ℕ → Bool) where
  unfoldable pub contains_only_symbols : Text → Bool
  contains_only_symbols value = not (any is_letter_or_number value)

  -- The checks of a cleaned name, in the order of the source.
  unfoldable pub check_name : Text → Checked Text
  check_name cleaned =
      if is_empty cleaned || is_whitespace_only cleaned
      then invalid no_name
      else if contains_only_symbols cleaned || is_repeated_char_nonsense cleaned
      then invalid not_a_name
      else if ltb name_max_words (count_fields cleaned)
      then invalid (too_many_words name_max_words)
      else if ltb name_max_len (length cleaned)
      then invalid (too_long name_max_len)
      else valid cleaned

  unfoldable pub validate_name : Text → Checked Text
  validate_name value = check_name (clean_name value)

unfoldable pub validate_optional_text : Text → ℕ → Checked Text
validate_optional_text value max_len =
    let cleaned = clean_text value in
    if ltb max_len (length cleaned) then invalid (too_long max_len) else valid cleaned

abbrev pub validate_nickname : Text → Checked Text
validate_nickname value = validate_optional_text value nickname_max_len

abbrev pub validate_notes : Text → Checked Text
validate_notes value = validate_optional_text value notes_max_len

abbrev pub validate_relation : Text → Checked Text
validate_relation value = validate_optional_text value relation_max_len

-- The class of `phoneSeparatorsRE`.
unfoldable pub is_phone_separator : ℕ → Bool
is_phone_separator c = is_blank c || (c == b'-') || (c == b'(') || (c == b')') || (c == b'.')

unfoldable pub without_separators : Text → Text
without_separators [] = []
without_separators (c ∷ s) =
    let rest = without_separators s in if is_phone_separator c then rest else c ∷ rest

-- Seven to fifteen digits and nothing else.
abbrev pub are_phone_digits : Text → Bool
are_phone_digits s = not (any (λ c. not (is_digit c)) s) && leb 7 (length s) && leb (length s) 15

-- `phoneShapeRE`
unfoldable pub has_phone_shape : Text → Bool
has_phone_shape [] = false
has_phone_shape (c ∷ s) = if c == b'+' then are_phone_digits s else are_phone_digits (c ∷ s)

unfoldable pub validate_phone : Text → Checked Text
validate_phone value =
    let cleaned = clean_text value in
    let digits_and_plus = without_separators cleaned in
    if ltb phone_max_len (length cleaned)
    then invalid (too_long phone_max_len)
    else if not (has_phone_shape digits_and_plus)
    then invalid bad_phone
    else valid digits_and_plus

abbrev pub min_year_gregorian : ℕ
min_year_gregorian = 1900

abbrev pub max_year_gregorian : ℕ
max_year_gregorian = 2100

abbrev pub min_year_hebrew : ℕ
min_year_hebrew = 5660

abbrev pub max_year_hebrew : ℕ
max_year_hebrew = 5860

unfoldable pub validate_year : ℕ → Bool → Checked ℕ
validate_year year hebrew =
    if hebrew
    then (if ltb year min_year_hebrew || ltb max_year_hebrew year
        then invalid bad_year
        else valid year)
    else if ltb year min_year_gregorian || ltb max_year_gregorian year
    then invalid bad_year
    else valid year

abbrev pub is_all_ascii_digits : Text → Bool
is_all_ascii_digits s = not (is_empty s) && not (any (λ c. not (is_digit c)) s)

module _ (H : Hdate) where
  -- A year that is already Hebrew, or the Hebrew year of the first of January of a Gregorian one.
  abbrev pub as_hebrew_year : ℕ → Checked ℕ
  as_hebrew_year year =
      if leb min_year_hebrew year && leb year max_year_hebrew
      then valid year
      else if leb min_year_gregorian year && leb year max_year_gregorian
      then valid (to_hebrew H (date year 1 1)).year
      else invalid bad_year

  abbrev pub read_year : Option ℕ → Checked ℕ
  read_year none = invalid bad_year
  read_year (some year) = if leb year int_max then as_hebrew_year year else invalid bad_year

  unfoldable pub parse_hebrew_year_input : Text → Checked ℕ
  parse_hebrew_year_input raw =
      let cleaned = clean_text raw in
      if not (is_all_ascii_digits cleaned)
      then invalid bad_year
      else read_year (digits_from 0 cleaned)

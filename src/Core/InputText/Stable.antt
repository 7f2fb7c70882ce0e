-- ===== src/Core/InputText/Stable.antt =====
-- An accepted text is within its bounds, and is accepted as it is when it is validated again.
use birthly_go.Prelude.{
  ℕ, ◌≤◌, ◌≡◌, refl, sym, subst, Bool, true, false, not, ◌||◌, ◌==◌, [], ◌∷◌, length, any, arith,
  ap, ◌∙◌, All, ◌⊎◌, inl, inr, Bool-cases,
}
use birthly_go.Prelude.Text.{Text}
use birthly_go.Prelude.Decimal.{is_digit}
use birthly_go.Core.Chars.{
  is_blank, is_space, is_control, is_empty, strip_control_chars, trim_space, collapse_whitespace,
  count_fields, IsTrimmed, trim_space-IsTrimmed, trim_space-fixed,
}
use birthly_go.Core.Chars.Clean.{
  IsPrintable, strip_control_chars-IsPrintable, strip_control_chars-fixed, trim_space-All,
  collapse_whitespace-All, collapse_whitespace_idem, collapse_whitespace-IsTrimmed,
  no_space-IsTrimmed, is_control-blank,
}
use birthly_go.Core.InputText.{
  Checked, valid, clean_name, clean_text, check_name, validate_name, is_phone_separator,
  without_separators, has_phone_shape, are_phone_digits, validate_phone,
}

pub clean_text-fixed : (s : Text) → IsPrintable s → IsTrimmed s → clean_text s ≡ s
clean_text-fixed s p t = ap trim_space (strip_control_chars-fixed s p) ∙ trim_space-fixed s t

clean_text-IsPrintable : (s : Text) → IsPrintable (clean_text s)
clean_text-IsPrintable s =
    trim_space-All (λ c. is_control c ≡ false) (strip_control_chars s)
      (strip_control_chars-IsPrintable s)

clean_name-IsPrintable : (s : Text) → IsPrintable (clean_name s)
clean_name-IsPrintable s =
    collapse_whitespace-All (λ c. is_control c ≡ false) (clean_text s) is_control-blank
      (clean_text-IsPrintable s)

clean_name-IsTrimmed : (s : Text) → IsTrimmed (clean_name s)
clean_name-IsTrimmed s =
    collapse_whitespace-IsTrimmed (clean_text s) (trim_space-IsTrimmed (strip_control_chars s))

clean_name_idem : (s : Text) → clean_name (clean_name s) ≡ clean_name s
clean_name_idem s =
    ap collapse_whitespace
      (clean_text-fixed (clean_name s) (clean_name-IsPrintable s) (clean_name-IsTrimmed s))
    ∙ collapse_whitespace_idem (clean_text s)

-- What is asked of a name.
pub record IsName (name : Text) : Type 0 where
  pub some_text : is_empty name ≡ false
  pub printable : IsPrintable name
  pub trimmed : IsTrimmed name
  pub single_blanks : collapse_whitespace name ≡ name
  pub few_words : count_fields name ≤ 4
  pub short : length name ≤ 40

valid_inj : {A : Type 0} {a b : A} → ◌≡◌ {A = Checked A} (valid a) (valid b) → a ≡ b
valid_inj h = cc

check_name-valid :
    (is_letter_or_number : ℕ → Bool) (s name : Text)
    → check_name is_letter_or_number s ≡ valid name
    → (s ≡ name) × (is_empty s ≡ false) × (count_fields s ≤ 4) × (length s ≤ 40)
unfolding check_name
check_name-valid is_letter_or_number s name h =
    (ground arith, ground arith, ground arith, ground arith)

-- An accepted name is not empty, has no control character, no white space at its ends, single blanks, at
-- most four words and at most 40 characters, and is accepted unchanged when it is validated again, whichever
-- characters count as letters and numbers.
pub validate_name-IsName :
    (is_letter_or_number : ℕ → Bool) (value name : Text)
    → validate_name is_letter_or_number value ≡ valid name
    → IsName name × (validate_name is_letter_or_number name ≡ valid name)
unfolding validate_name
validate_name-IsName is_letter_or_number value name h =
    let (same, full, words, chars) =
      check_name-valid is_letter_or_number (clean_name value) name h in
    subst (λ s. IsName s × (validate_name is_letter_or_number s ≡ valid s)) same
      (
        record {
          some_text = full;
          printable = clean_name-IsPrintable value;
          trimmed = clean_name-IsTrimmed value;
          single_blanks = collapse_whitespace_idem (clean_text value);
          few_words = words;
          short = chars;
        },
        ap (check_name is_letter_or_number) (clean_name_idem value) ∙ h ∙ ap valid (sym same),
      )

-- An optional plus sign, then seven to fifteen digits.
pub record IsPhone (phone : Text) : Type 0 where
  pub body : Text
  pub plus_and_digits : (phone ≡ body) ⊎ (phone ≡ b'+' ∷ body)
  pub all_digits : All (λ c. (48 ≤ c) × (c ≤ 57)) body
  pub at_least_7 : 7 ≤ length body
  pub at_most_15 : length body ≤ 15

abbrev HasPhoneShape : Text → Type 0
HasPhoneShape phone = has_phone_shape phone ≡ true

each_digit : (s : Text) → any (λ c. not (is_digit c)) s ≡ false → All (λ c. (48 ≤ c) × (c ≤ 57)) s
each_digit [] h = tt
each_digit (c ∷ s) h = ((ground arith, ground arith), each_digit s (ground arith))

HasPhoneShape-IsPhone : (phone : Text) → HasPhoneShape phone → IsPhone phone
unfolding has_phone_shape
HasPhoneShape-IsPhone [] h = cc
HasPhoneShape-IsPhone (c ∷ s) h = elim (Bool-cases (c == b'+')) [
  | inl plus ↦
      let shape : are_phone_digits s ≡ true = (rw plus at h) in
      record {
        body = s;
        plus_and_digits = inr (ground (arith, plus));
        all_digits = each_digit s (ground (arith, shape));
        at_least_7 = ground (arith, shape);
        at_most_15 = ground (arith, shape);
      }
  | inr other ↦
      let shape : are_phone_digits (c ∷ s) ≡ true = (rw other at h) in
      record {
        body = c ∷ s;
        plus_and_digits = inl refl;
        all_digits = each_digit (c ∷ s) (ground (arith, shape));
        at_least_7 = ground (arith, shape);
        at_most_15 = ground (arith, shape);
      }
]

abbrev pub is_phone_char : ℕ → Bool
is_phone_char c = is_digit c || (c == b'+')

digits-phone_chars :
    (s : Text) → any (λ c. not (is_digit c)) s ≡ false → All (λ c. is_phone_char c ≡ true) s
digits-phone_chars [] h = tt
digits-phone_chars (c ∷ s) h = (ground arith, digits-phone_chars s (ground arith))

phone_chars : (s : Text) → HasPhoneShape s → (All (λ c. is_phone_char c ≡ true) s) × (length s ≤ 16)
unfolding has_phone_shape
phone_chars [] h = (tt, omega arith)
phone_chars (c ∷ s) h = ((ground arith, digits-phone_chars s (ground arith)), ground arith)

phone_char-classes :
    (c : ℕ)
    → is_phone_char c ≡ true
    → (is_space c ≡ false) × (is_control c ≡ false) × (is_phone_separator c ≡ false)
unfolding is_space is_control is_phone_separator is_blank
phone_char-classes c h = (ground arith, ground arith, ground arith)

phone_chars-clean :
    (s : Text)
    → All (λ c. is_phone_char c ≡ true) s
    → (All (λ c. is_space c ≡ false) s) × IsPrintable s × (without_separators s ≡ s)
unfolding without_separators
phone_chars-clean [] h = (tt, tt, refl)
phone_chars-clean (c ∷ s) h =
    let (a, b, d) = phone_char-classes c h.0 in
    let (a_rest, b_rest, d_rest) = phone_chars-clean s h.1 in
    ((a, a_rest), (b, b_rest), rw d (ap (λ t. c ∷ t) d_rest))

checked-HasPhoneShape :
    (value phone : Text) → validate_phone value ≡ valid phone → HasPhoneShape phone
unfolding validate_phone
checked-HasPhoneShape value phone h = ground arith

HasPhoneShape-valid : (phone : Text) → HasPhoneShape phone → validate_phone phone ≡ valid phone
unfolding validate_phone
HasPhoneShape-valid phone h =
    let (chars, short) = phone_chars phone h in
    let (a, b, d) = phone_chars-clean phone chars in
    rw (clean_text-fixed phone b (no_space-IsTrimmed phone a)) (ground (arith, d))

-- An accepted phone number is an optional plus sign and seven to fifteen digits, and is accepted unchanged
-- when it is validated again.
pub validate_phone-IsPhone :
    (value phone : Text)
    → validate_phone value ≡ valid phone
    → IsPhone phone × (validate_phone phone ≡ valid phone)
validate_phone-IsPhone value phone h =
    let shape = checked-HasPhoneShape value phone h in
    (HasPhoneShape-IsPhone phone shape, HasPhoneShape-valid phone shape)

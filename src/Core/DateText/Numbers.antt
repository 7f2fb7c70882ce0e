-- ===== src/Core/DateText/Numbers.antt =====
-- Padded numbers, and three of them in a row, are read back from their texts.
use birthly_go.Prelude.{
  subst, ℕ, suc, ◌+◌, ◌-◌, ◌/◌, ◌%◌, ◌≡◌, ◌≤◌, ◌<◌, refl, Bool, true, false, ltb, [], ◌∷◌, ◌++◌,
  length, none, some, arith, Bool-cases, inl, inr, ap, ◌∙◌,
}
use birthly_go.Prelude.Text.{Text}
use birthly_go.Prelude.Decimal.{is_digit, digits_of, IsDigits}
use birthly_go.Core.Chars.{starts_with}
use birthly_go.Core.DateText.{
  digits, after_digits, value_from, take_number, at_end, take_char, match_numbers,
}
use birthly_go.Core.DateText.Format.{pad, joined}

pub one_digit : (fuel n : ℕ) → n < 10 → digits_of (suc fuel) n ≡ (b'0' + n) ∷ []
unfolding digits_of
one_digit fuel n h = ground arith

more_digits :
    (fuel n : ℕ) → 10 ≤ n → digits_of (suc fuel) n ≡ digits_of fuel (n / 10) ++ (b'0' + n % 10) ∷ []
unfolding digits_of
more_digits fuel n h = ground arith

two_of :
    (fuel n : ℕ)
    → 10 ≤ n
    → n < 100
    → digits_of (suc (suc fuel)) n ≡ (b'0' + n / 10) ∷ (b'0' + n % 10) ∷ []
two_of fuel n low high =
    more_digits (suc fuel) n low
    ∙ ap (λ s. s ++ (b'0' + n % 10) ∷ []) (one_digit fuel (n / 10) (omega arith))

three_of :
    (fuel n : ℕ)
    → 100 ≤ n
    → n < 1000
    → digits_of (suc (suc (suc fuel))) n
      ≡ (b'0' + n / 10 / 10) ∷ (b'0' + n / 10 % 10) ∷ (b'0' + n % 10) ∷ []
three_of fuel n low high =
    more_digits (suc (suc fuel)) n (omega arith)
    ∙ ap (λ s. s ++ (b'0' + n % 10) ∷ []) (two_of fuel (n / 10) (omega arith) (omega arith))

four_of :
    (fuel n : ℕ)
    → 1000 ≤ n
    → n < 10000
    → digits_of (suc (suc (suc (suc fuel)))) n
      ≡ (b'0' + n / 10 / 10 / 10)
        ∷ (b'0' + n / 10 / 10 % 10)
        ∷ (b'0' + n / 10 % 10)
        ∷ (b'0' + n % 10)
        ∷ []
four_of fuel n low high =
    more_digits (suc (suc (suc fuel))) n (omega arith)
    ∙ ap (λ s. s ++ (b'0' + n % 10) ∷ []) (three_of fuel (n / 10) (omega arith) (omega arith))

pub two_at :
    (fuel n : ℕ)
    → 2 ≤ fuel
    → 10 ≤ n
    → n < 100
    → digits_of fuel n ≡ (b'0' + n / 10) ∷ (b'0' + n % 10) ∷ []
two_at fuel n enough low high =
    let same : suc (suc (fuel - 2)) ≡ fuel = omega arith in
    subst (λ f. digits_of f n ≡ (b'0' + n / 10) ∷ (b'0' + n % 10) ∷ []) same
      (two_of (fuel - 2) n low high)

abbrev four_digits : ℕ → Text
four_digits n =
    (b'0' + n / 10 / 10 / 10)
    ∷ (b'0' + n / 10 / 10 % 10)
    ∷ (b'0' + n / 10 % 10)
    ∷ (b'0' + n % 10)
    ∷ []

four_at : (fuel n : ℕ) → 4 ≤ fuel → 1000 ≤ n → n < 10000 → digits_of fuel n ≡ four_digits n
four_at fuel n enough low high =
    let same : suc (suc (suc (suc (fuel - 4)))) ≡ fuel = omega arith in
    subst (λ f. digits_of f n ≡ four_digits n) same (four_of (fuel - 4) n low high)

-- A number of a width, as its digits.
pub record IsNumber (low high n : ℕ) (s : Text) : Type 0 where
  pub all_digits : IsDigits s
  pub width : (low ≤ length s) × (length s ≤ high)
  pub value : value_from 0 s ≡ n

digit-IsDigit : (d : ℕ) → d < 10 → is_digit (b'0' + d) ≡ true
digit-IsDigit d h = ground arith

two_digits-IsNumber : (n : ℕ) → n < 100 → IsNumber 1 2 n ((b'0' + n / 10) ∷ (b'0' + n % 10) ∷ [])
unfolding value_from
two_digits-IsNumber n h = record {
  all_digits = (digit-IsDigit (n / 10) (omega arith), (digit-IsDigit (n % 10) (omega arith), tt));
  width = (omega arith, omega arith);
  value = omega arith;
}

pub pad-two : (n : ℕ) → n < 100 → IsNumber 1 2 n (pad 2 n)
unfolding pad
pad-two n h = elim (Bool-cases (ltb n 10)) [
  | inl small ↦ rw (one_digit n n (ground arith)) (record {
    all_digits = (refl, (digit-IsDigit n (ground arith), tt));
    width = (omega arith, omega arith);
    value = unfold value_from in omega arith;
  })
  | inr big ↦ rw (two_at (suc n) n (ground arith) (ground arith) h) (two_digits-IsNumber n h)
]

pub pad-four : (n : ℕ) → 1000 ≤ n → n < 10000 → IsNumber 4 4 n (pad 4 n)
unfolding pad value_from
pad-four n low high = rw (four_at (suc n) n (omega arith) low high) (record {
  all_digits = (
    digit-IsDigit (n / 10 / 10 / 10) (omega arith),
    (
      digit-IsDigit (n / 10 / 10 % 10) (omega arith),
      (digit-IsDigit (n / 10 % 10) (omega arith), (digit-IsDigit (n % 10) (omega arith), tt)),
    ),
  );
  width = (omega arith, omega arith);
  value = omega arith;
})

digits-run :
    (s rest : Text)
    → IsDigits s
    → starts_with is_digit rest ≡ false
    → (digits (s ++ rest) ≡ s) × (after_digits (s ++ rest) ≡ rest)
unfolding digits after_digits
digits-run [] [] h stop = (refl, refl)
digits-run [] (c ∷ rest) h stop = (rw stop refl, rw stop refl)
digits-run (c ∷ s) rest h stop =
    let (a, b) = digits-run s rest h.1 stop in (rw h.0 (ap (λ t. c ∷ t) a), rw h.0 b)

take_number-run :
    (low high n : ℕ) (s rest : Text)
    → IsNumber low high n s
    → starts_with is_digit rest ≡ false
    → take_number low high (s ++ rest) ≡ some (n, rest)
unfolding take_number
take_number-run low high n s rest number stop =
    let (a, b) = digits-run s rest number.all_digits stop in
    rw a (rw b (rw number.value (ground (arith, number.width))))

-- A longer run of digits is no match.
take_number-wrong :
    (low high : ℕ) (s rest : Text)
    → IsDigits s
    → high < length s
    → starts_with is_digit rest ≡ false
    → take_number low high (s ++ rest) ≡ none
unfolding take_number
take_number-wrong low high s rest h long stop =
    let (a, b) = digits-run s rest h stop in rw a (ground arith)

append_nil : (s : Text) → s ++ [] ≡ s
append_nil [] = refl
append_nil (c ∷ s) = ap (λ t. c ∷ t) (append_nil s)

take_number-end :
    (low high n : ℕ) (s : Text) → IsNumber low high n s → take_number low high s ≡ some (n, [])
take_number-end low high n s number =
    subst (λ t. take_number low high t ≡ some (n, [])) (append_nil s)
      (take_number-run low high n s [] number refl)

pub match_numbers-joined :
    (p : ℕ → Bool) (sep low1 high1 low2 high2 low3 high3 a b c : ℕ) (s t u : Text)
    → p sep ≡ true
    → is_digit sep ≡ false
    → IsNumber low1 high1 a s
    → IsNumber low2 high2 b t
    → IsNumber low3 high3 c u
    → match_numbers p (low1, high1) (low2, high2) (low3, high3) (joined sep s t u) ≡ some (a, b, c)
unfolding match_numbers take_char at_end
match_numbers-joined p sep low1 high1 low2 high2 low3 high3 a b c s t u is_sep stop first second
      third =
    let e1 : take_number low1 high1 (joined sep s t u) ≡ some (a, sep ∷ (t ++ (sep ∷ u))) =
      take_number-run low1 high1 a s (sep ∷ (t ++ (sep ∷ u))) first stop in
    let e2 : take_number low2 high2 (t ++ sep ∷ u) ≡ some (b, sep ∷ u) =
      take_number-run low2 high2 b t (sep ∷ u) second stop in
    rw e1 (rw is_sep (rw e2 (rw is_sep (rw (take_number-end low3 high3 c u third) refl))))

pub match_numbers-wrong :
    (p : ℕ → Bool) (low high : ℕ) (second third : ℕ × ℕ) (s rest : Text)
    → IsDigits s
    → high < length s
    → starts_with is_digit rest ≡ false
    → match_numbers p (low, high) second third (s ++ rest) ≡ none
unfolding match_numbers
match_numbers-wrong p low high second third s rest h long stop =
    rw (take_number-wrong low high s rest h long stop) refl

-- ===== src/Core/Truncate.antt =====
-- `Truncate` (internal/core/text.go), `truncateDisplay` and `FormatName` (internal/core/formatting.go). A
-- text is a list of code points, as the source's rune slices are.
use birthly_go.Prelude.{
  ◌+◌, Bool-cases, inl, inr, ℕ, ◌-◌, ◌≤◌, ◌<◌, ◌≡◌, ◌↔◌, leb, if◌then◌else◌, [], ◌∷◌, ◌++◌, Option,
  none, some, length, take, length-append, length-take, arith,
}
use birthly_go.Prelude.Text.{Text}

unfoldable pub truncate : Text → ℕ → Text → Text
truncate runes max_len suffix =
    if leb (length runes) max_len
    then runes
    else if leb max_len (length suffix)
    then (if leb (length suffix) max_len then suffix else take max_len suffix)
    else take (max_len - length suffix) runes ++ suffix

-- The ellipsis is U+2026.
unfoldable pub truncate_display : Text → ℕ → Text
truncate_display runes max_len =
    if leb (length runes) max_len then runes else take max_len runes ++ 8230 ∷ []

abbrev pub display_name_max_len : ℕ
display_name_max_len = 60

-- The first name, and the last name after a blank unless it is missing or empty.
abbrev pub full_name : Text → Option Text → Text
full_name first_name none = first_name
full_name first_name (some []) = first_name
full_name first_name (some (c ∷ s)) = first_name ++ 32 ∷ c ∷ s

unfoldable pub format_name : Text → Option Text → Text
unfolding truncate_display
format_name first_name last_name =
    truncate_display (full_name first_name last_name) display_name_max_len

-- A truncated text has at most the length that was asked for, whatever the suffix; and a text that has it
-- already is left alone.
pub length-truncate :
    (runes : Text) (max_len : ℕ) (suffix : Text)
    → (length (truncate runes max_len suffix) ≤ max_len)
      × (length runes ≤ max_len → truncate runes max_len suffix ≡ runes)
unfolding truncate
length-truncate runes max_len suffix = ground (
  arith,
  length-append (take (max_len - length suffix) runes) suffix,
  length-take (max_len - length suffix) runes,
  length-take max_len suffix,
)

length-cut : (runes : Text) (n : ℕ) → n < length runes → length (take n runes ++ 8230 ∷ []) ≡ n + 1
length-cut runes n h = omega (arith, length-append (take n runes) (8230 ∷ []), length-take n runes)

length-truncate_display :
    (runes : Text) (n : ℕ)
    → (length (truncate_display runes n) ≤ n + 1)
      × ((length (truncate_display runes n) ≡ n + 1) ↔ (n < length runes))
unfolding truncate_display
length-truncate_display runes n = elim (Bool-cases (leb (length runes) n)) [
  | inl short ↦ rw short (ground arith)
  | inr long ↦ rw long (
      let cut = length-cut runes n (ground arith) in
      (omega (arith, cut), (λ e. ground arith, λ h. cut)))
]

-- A name that is shown has at most 61 characters, one more than the limit, and it has 61 exactly when the
-- whole name is longer than the limit.
pub length-format_name :
    (first_name : Text) (last_name : Option Text)
    → (length (format_name first_name last_name) ≤ 61)
      × ((length (format_name first_name last_name) ≡ 61)
          ↔ (60 < length (full_name first_name last_name)))
unfolding format_name
length-format_name first_name last_name =
    length-truncate_display (full_name first_name last_name) 60

-- ===== src/Core/Gender/Detected.antt =====
-- The fuel of the comparison of two names suffices, its ratio is at most one, and what is found for a name is a
-- gender that the table of events allows.
use birthly_go.Prelude.{
  ℕ, zero, suc, ◌+◌, ◌-◌, ◌≤◌, ◌<◌, ◌≡◌, refl, Bool, true, false, ltb, ◌==◌, [], ◌∷◌, length,
  Bool-cases, inl, inr, if-holds, arith,
}
use birthly_go.Prelude.Text.{Text, text_eq}
use birthly_go.Core.Gender.{
  NameLists, find_longest_match, sum_matching_blocks, sequence_ratio, gender_of_matches,
  gender_of_word, detect_gender, until_space, is_listed_name, closest_match,
}
use birthly_go.Core.Chars.{drop_leading}
use birthly_go.Core.Gender.Windows.{find_longest_match-IsInWindow}
use birthly_go.Handlers.EventAdd.Creation.{IsGender}

module _ (a b : Text) where
  -- Two amounts of fuel above the length of the window of `a` give the same sum.
  pub sum_matching_blocks-fuel :
      (fuel other alo ahi blo bhi : ℕ)
      → alo ≤ ahi
      → blo ≤ bhi
      → ahi - alo < fuel
      → ahi - alo < other
      → sum_matching_blocks a b fuel alo ahi blo bhi ≡ sum_matching_blocks a b other alo ahi blo bhi
  unfolding sum_matching_blocks
  sum_matching_blocks-fuel zero other alo ahi blo bhi la lb f g = absurd (omega (arith, f))
  sum_matching_blocks-fuel (suc fuel) zero alo ahi blo bhi la lb f g = absurd (omega (arith, g))
  sum_matching_blocks-fuel (suc fuel) (suc other) alo ahi blo bhi la lb f g =
      let best = find_longest_match a b alo ahi blo bhi in
      let w = find_longest_match-IsInWindow alo ahi blo bhi a b la lb in
      elim (Bool-cases (best.size == 0)) [
        | inl empty ↦ rw empty refl
        | inr block ↦ rw block (
            let some_size : 0 < best.size = ground (arith, block) in
            rw
              (
                sum_matching_blocks-fuel fuel other alo best.at_a blo best.at_b w.from_a w.from_b
                    (omega (arith, w.to_a, some_size, f)) (omega (arith, w.to_a, some_size, g)),
                sum_matching_blocks-fuel fuel other (best.at_a + best.size) ahi
                    (best.at_b + best.size) bhi w.to_a w.to_b
                    (omega (arith, w.from_a, w.to_a, some_size, f))
                    (omega (arith, w.from_a, w.to_a, some_size, g)),
              )
              refl)
      ]

  -- The blocks that match are no longer than either window.
  pub sum_matching_blocks-le :
      (fuel alo ahi blo bhi : ℕ)
      → alo ≤ ahi
      → blo ≤ bhi
      → (sum_matching_blocks a b fuel alo ahi blo bhi ≤ ahi - alo)
        × (sum_matching_blocks a b fuel alo ahi blo bhi ≤ bhi - blo)
  unfolding sum_matching_blocks
  sum_matching_blocks-le zero alo ahi blo bhi la lb = (omega arith, omega arith)
  sum_matching_blocks-le (suc fuel) alo ahi blo bhi la lb =
      let best = find_longest_match a b alo ahi blo bhi in
      let w = find_longest_match-IsInWindow alo ahi blo bhi a b la lb in
      let before = sum_matching_blocks-le fuel alo best.at_a blo best.at_b w.from_a w.from_b in
      let after =
        sum_matching_blocks-le fuel (best.at_a + best.size) ahi (best.at_b + best.size) bhi w.to_a
          w.to_b in
      (
        ground (arith, before.0, after.0, w.from_a, w.to_a),
        ground (arith, before.1, after.1, w.from_b, w.to_b),
      )

-- Any fuel above the length of the first name gives the ratio of two names, which is at most one.
pub sequence_ratio-total :
    (a b : Text) (fuel : ℕ)
    → length a < fuel
    → (sum_matching_blocks a b fuel 0 (length a) 0 (length b)
        ≡ sum_matching_blocks a b (length a + 1) 0 (length a) 0 (length b))
      × ((sequence_ratio a b).0 ≤ (sequence_ratio a b).1)
unfolding sequence_ratio
sequence_ratio-total a b fuel enough = (
  sum_matching_blocks-fuel a b fuel (length a + 1) 0 (length a) 0 (length b) (omega arith)
      (omega arith) (omega (arith, enough)) (omega arith),
  (let below =
        sum_matching_blocks-le a b (length a + 1) 0 (length a) 0 (length b) (omega arith)
          (omega arith) in
      ground (arith, below.0, below.1)),
)

matches-IsGender : (m f : Bool) → IsGender (gender_of_matches m f)
unfolding text_eq
matches-IsGender true true = refl
matches-IsGender true false = refl
matches-IsGender false true = refl
matches-IsGender false false = refl

word-IsGender : (names : NameLists) (word : Text) → IsGender (gender_of_word names word)
unfolding gender_of_word text_eq
word-IsGender names [] = refl
word-IsGender names (c ∷ s) = if-holds IsGender (is_listed_name (c ∷ s) names.unisex) _ _ refl (
    if-holds IsGender (is_listed_name (c ∷ s) names.men) _ _ refl (
      if-holds IsGender (is_listed_name (c ∷ s) names.women) _ _ refl (
        if-holds IsGender (ltb 2 (length (c ∷ s))) _ _
          (matches-IsGender (closest_match (c ∷ s) names.men) (closest_match (c ∷ s) names.women))
          refl)))

-- Whatever lists of names are read, and whatever the name is, what is found is nothing or a gender that the table
-- of events allows.
pub detect_gender-IsGender : (names : NameLists) (name : Text) → IsGender (detect_gender names name)
unfolding detect_gender
detect_gender-IsGender names name = word-IsGender names (until_space (drop_leading name))

-- ===== src/Core/Gematria/Value.antt =====
-- The letters of a number add up to it.
use birthly_go.Prelude.{
  Bool, true, ◌&&◌, ℕ_discrete, subst, sym, ℕ, zero, suc, ◌+◌, ◌-◌, ◌*◌, ◌/◌, ◌%◌, ◌≤◌, ◌<◌, ◌≡◌,
  refl, ◌==◌, List, [], ◌∷◌, ◌++◌, Option, none, some, arith, Bool-cases, inl, inr,
}
use birthly_go.Prelude.Text.{Text}
use birthly_go.Prelude.Assoc.{lookup}
use birthly_go.Core.Gematria.{
  entry, gematria_hundreds, chunk_of, hundreds_letters, rest_letters, mark_last, marked, gematria,
  hebrew_year_gematria,
}

-- The number that each letter stands for, by its code point.
abbrev pub letter_values : List (ℕ × ℕ)
letter_values =
    (1488, 1)
    ∷ (1489, 2)
    ∷ (1490, 3)
    ∷ (1491, 4)
    ∷ (1492, 5)
    ∷ (1493, 6)
    ∷ (1494, 7)
    ∷ (1495, 8)
    ∷ (1496, 9)
    ∷ (1497, 10)
    ∷ (1499, 20)
    ∷ (1500, 30)
    ∷ (1502, 40)
    ∷ (1504, 50)
    ∷ (1505, 60)
    ∷ (1506, 70)
    ∷ (1508, 80)
    ∷ (1510, 90)
    ∷ (1511, 100)
    ∷ (1512, 200)
    ∷ (1513, 300)
    ∷ (1514, 400)
    ∷ []

abbrev pub or_nothing : Option ℕ → ℕ
or_nothing none = 0
or_nothing (some n) = n

unfoldable pub letter_value : ℕ → ℕ
letter_value c = or_nothing (lookup c letter_values)

-- The sum of the letters; other characters count nothing.
unfoldable pub value : Text → ℕ
value [] = 0
value (c ∷ s) = letter_value c + value s

value-append : (s t : Text) → value (s ++ t) ≡ value s + value t
unfolding value
value-append [] t = omega arith
value-append (c ∷ s) t = omega (arith, value-append s t)

-- A test on all numbers below a bound.
abbrev all_below : ℕ → (ℕ → Bool) → Bool
all_below zero p = true
all_below (suc k) p = p k && all_below k p

all_below-lt : (k : ℕ) (p : ℕ → Bool) → all_below k p ≡ true → (n : ℕ) → n < k → p n ≡ true
all_below-lt zero p h n lt = absurd (omega arith)
all_below-lt (suc k) p h n lt = elim (ℕ_discrete n k) [
  | yes e ↦ subst (λ m. p m ≡ true) (sym e) (ground arith)
  | no ne ↦ all_below-lt k p (ground arith) n (omega (arith, ne))
]

hundreds_checked : all_below 5 (λ n. value (entry gematria_hundreds (n * 100)) == n * 100) ≡ true
unfolding value letter_value lookup
hundreds_checked = refl

value-gematria_hundreds : (n : ℕ) → n ≤ 4 → value (entry gematria_hundreds (n * 100)) ≡ n * 100
value-gematria_hundreds n h = ground (
  arith,
  all_below-lt 5 (λ m. value (entry gematria_hundreds (m * 100)) == m * 100) hundreds_checked n
      (omega arith),
)

rest_checked : all_below 100 (λ n. value (rest_letters n) == n) ≡ true
unfolding value letter_value lookup rest_letters
rest_checked = refl

value-rest_letters : (n : ℕ) → n < 100 → value (rest_letters n) ≡ n
value-rest_letters n h =
    ground (arith, all_below-lt 100 (λ m. value (rest_letters m) == m) rest_checked n h)

chunk_range : (n : ℕ) → 1 ≤ n → (chunk_of n ≤ 4) × (1 ≤ chunk_of n) × (chunk_of n ≤ n)
chunk_range n h = ground arith

value-hundreds_letters : (fuel n : ℕ) → n ≤ fuel → value (hundreds_letters fuel n) ≡ n * 100
unfolding hundreds_letters value
value-hundreds_letters zero n h = omega arith
value-hundreds_letters (suc fuel) n h = elim (Bool-cases (n == 0)) [
  | inl none_left ↦ rw none_left (ground arith)
  | inr some_left ↦
      let (a, b, c) = chunk_range n (ground arith) in
      rw some_left (
        omega (
          arith,
          value-append (entry gematria_hundreds (chunk_of n * 100))
              (hundreds_letters fuel (n - chunk_of n)),
          value-gematria_hundreds (chunk_of n) a,
          value-hundreds_letters fuel (n - chunk_of n) (omega (arith, b, c, h)),
          c,
        ))
]

marks_count_nothing : (letter_value 1523 ≡ 0) × (letter_value 1524 ≡ 0)
unfolding letter_value lookup
marks_count_nothing = (refl, refl)

value-mark_last : (c : ℕ) (s : Text) → value (mark_last c s) ≡ letter_value c + value s
unfolding mark_last value
value-mark_last c [] = refl
value-mark_last c (d ∷ []) = omega (arith, marks_count_nothing)
value-mark_last c (d ∷ e ∷ s) = omega (arith, value-mark_last d (e ∷ s))

value-marked : (s : Text) → value (marked s) ≡ value s
unfolding value
value-marked [] = refl
value-marked (c ∷ []) = omega (arith, marks_count_nothing)
value-marked (c ∷ d ∷ s) = value-mark_last c (d ∷ s)

value-letters : (n : ℕ) → value (gematria n) ≡ n
unfolding gematria value
value-letters n = elim (Bool-cases (n == 0)) [
  | inl zero_letters ↦ rw zero_letters (ground arith)
  | inr some_letters ↦ rw some_letters (
      omega (
        arith,
        value-marked (hundreds_letters (n / 100) (n / 100) ++ rest_letters (n % 100)),
        value-append (hundreds_letters (n / 100) (n / 100)) (rest_letters (n % 100)),
        value-hundreds_letters (n / 100) (n / 100) (omega arith),
        value-rest_letters (n % 100) (omega arith),
      ))
]

-- The letters that `Gematria` writes for a number add up to it, also through the hundreds above 400 and in
-- the exceptions for 15 and 16; those of a Hebrew year add up to its last three digits.
pub value-gematria :
    (num : ℕ) → (value (gematria num) ≡ num) × (value (hebrew_year_gematria num) ≡ num % 1000)
unfolding hebrew_year_gematria
value-gematria num = (value-letters num, value-letters (num % 1000))

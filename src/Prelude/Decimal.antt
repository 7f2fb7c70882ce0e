-- ===== src/Prelude/Decimal.antt =====
-- Decimal numbers as texts: what the program uses of the package strconv, on 64-bit integers.
use birthly_go.Prelude.Tests.{Bool-cases, ◌==◌, ltb, leb, if◌then◌else◌}
use birthly_go.Prelude.Lists.{All}
use birthly_go.Prelude.Text.{Text}
use birthly_go.Prelude.Int.{ℤ, pos, negsuc, sub_ℕ}
use Prim.Native.Nat.{ℕ, zero, suc, ◌+◌, ◌-◌, ◌*◌, ◌/◌, ◌%◌, ◌≤◌}
use mathlib.Core.Path.{◌≡◌, refl, ap, ◌∙◌}
use mathlib.Core.Bool.{Bool, true, ◌&&◌}
use mathlib.Core.List.{[], ◌∷◌, ◌++◌}
use mathlib.Core.Option.{Option, none, some}
use mathlib.Core.Logic.{inl, inr, ◌≢◌}
use native.Mathlib.Omega.{arith}

abbrev pub is_digit : ℕ → Bool
is_digit c = leb b'0' c && leb c b'9'

-- Decimal digits to the end, at least one.
unfoldable pub digits_from : ℕ → Text → Option ℕ
digits_from n [] = some n
digits_from n (c ∷ s) =
    let rest = digits_from (n * 10 + (c - b'0')) s in if is_digit c then rest else none

abbrev pub int_max : ℕ
int_max = 9_223_372_036_854_775_807

abbrev pub some_digits : Text → Option ℕ
some_digits [] = none
some_digits (c ∷ s) = digits_from 0 (c ∷ s)

abbrev pub positive : Option ℕ → Option ℤ
positive none = none
positive (some n) = if leb n int_max then some (pos n) else none

abbrev pub negative : Option ℕ → Option ℤ
negative none = none
negative (some n) = if leb n (int_max + 1) then some (sub_ℕ 0 n) else none

-- `strconv.Atoi`: an optional sign, digits, and the range of 64 bits.
unfoldable pub atoi : Text → Option ℤ
unfolding digits_from
atoi [] = none
atoi (c ∷ s) =
    if c == b'+'
    then positive (some_digits s)
    else if c == b'-'
    then negative (some_digits s)
    else positive (some_digits (c ∷ s))

-- The digits of a number, the last one split off first.
unfoldable pub digits_of : ℕ → ℕ → Text
digits_of zero n = []
digits_of (suc fuel) n =
    let rest = digits_of fuel (n / 10) in
    if ltb n 10 then (b'0' + n) ∷ [] else rest ++ (b'0' + n % 10) ∷ []

-- `strconv.FormatInt` in base 10.
unfoldable pub format_int : ℤ → Text
format_int (pos n) = digits_of (suc n) n
format_int (negsuc n) = b'-' ∷ digits_of (suc (suc n)) (suc n)

-- The range of 64 bits.
abbrev pub IsInt64 : ℤ → Type 0
IsInt64 (pos n) = n ≤ int_max
IsInt64 (negsuc n) = n ≤ int_max

next_digit : Option ℕ → ℕ → Option ℕ
next_digit none c = none
next_digit (some n) c = if is_digit c then some (n * 10 + (c - b'0')) else none

digits_from-append :
    (n c : ℕ) (s : Text) → digits_from n (s ++ c ∷ []) ≡ next_digit (digits_from n s) c
unfolding digits_from next_digit
digits_from-append n c [] = refl
digits_from-append n c (d ∷ s) = ground (arith, digits_from-append (n * 10 + (d - b'0')) c s)

digits_from-digits_of : (fuel n : ℕ) → n + 1 ≤ fuel → digits_from 0 (digits_of fuel n) ≡ some n
unfolding digits_of next_digit digits_from
digits_from-digits_of zero n h = absurd (omega arith)
digits_from-digits_of (suc fuel) n h = elim (Bool-cases (ltb n 10)) [
  | inl small ↦ rw small (ground arith)
  | inr big ↦ rw big (
      digits_from-append 0 (b'0' + n % 10) (digits_of fuel (n / 10))
      ∙ ap (λ r. next_digit r (b'0' + n % 10)) (digits_from-digits_of fuel (n / 10) (ground arith))
      ∙ ground arith)
]

abbrev pub IsDigits : Text → Type 0
IsDigits s = All (λ c. is_digit c ≡ true) s

append-IsDigits : (s : Text) (c : ℕ) → IsDigits s → is_digit c ≡ true → IsDigits (s ++ c ∷ [])
append-IsDigits [] c h d = (d, tt)
append-IsDigits (x ∷ s) c h d = (h.0, append-IsDigits s c h.1 d)

pub digits_of-IsDigits : (fuel n : ℕ) → IsDigits (digits_of fuel n)
unfolding digits_of
digits_of-IsDigits zero n = tt
digits_of-IsDigits (suc fuel) n = elim (Bool-cases (ltb n 10)) [
  | inl small ↦ rw small (ground arith, tt)
  | inr big ↦ rw big (
      append-IsDigits (digits_of fuel (n / 10)) (b'0' + n % 10) (digits_of-IsDigits fuel (n / 10))
        (ground arith))
]

append-cons : (s : Text) (c : ℕ) → s ++ c ∷ [] ≢ []
append-cons [] c e = cc
append-cons (x ∷ s) c e = cc

digits_of-nonempty : (fuel n : ℕ) → digits_of (suc fuel) n ≢ []
unfolding digits_of
digits_of-nonempty fuel n = elim (Bool-cases (ltb n 10)) [
  | inl small ↦ rw small (λ e. cc)
  | inr big ↦ rw big (append-cons (digits_of fuel (n / 10)) (b'0' + n % 10))
]

-- Digits have no sign in front.
atoi-digits :
    (s : Text) (n : ℕ)
    → IsDigits s
    → s ≢ []
    → digits_from 0 s ≡ some n
    → (atoi s ≡ positive (some n)) × (some_digits s ≡ some n)
unfolding atoi
atoi-digits [] n d some_text e = absurd (some_text refl)
atoi-digits (c ∷ s) n d some_text e = ground (arith, d.0)

-- A number of 64 bits is read back from its text.
pub atoi-format_int : (z : ℤ) → IsInt64 z → atoi (format_int z) ≡ some z
unfolding format_int
atoi-format_int (pos n) h =
    let (a, b) =
      atoi-digits (digits_of (suc n) n) n (digits_of-IsDigits (suc n) n) (digits_of-nonempty n n)
        (digits_from-digits_of (suc n) n (omega arith)) in
    a ∙ ground arith
atoi-format_int (negsuc n) h =
    let (a, b) =
      atoi-digits (digits_of (suc (suc n)) (suc n)) (suc n)
        (digits_of-IsDigits (suc (suc n)) (suc n)) (digits_of-nonempty (suc n) (suc n))
        (digits_from-digits_of (suc (suc n)) (suc n) (omega arith)) in
    unfold atoi in ap negative b ∙ ground arith

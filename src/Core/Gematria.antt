-- ===== src/Core/Gematria.antt =====
-- `Gematria` and `HebrewYearGematria` (internal/core/hebcal.go): numbers in Hebrew letters,
-- which are written by their code points here.
pub mod Value
use birthly_go.Prelude.Assoc.{lookup}
use birthly_go.Prelude.{
  List, Option, none, some, ◌*◌, ℕ, zero, suc, ◌-◌, ◌/◌, ◌%◌, ltb, ◌==◌, if◌then◌else◌, [], ◌∷◌,
  ◌++◌,
}
use birthly_go.Prelude.Text.{Text}

abbrev pub gematria_ones : List (ℕ × Text)
gematria_ones =
    (1, 1488 ∷ [])
    ∷ (2, 1489 ∷ [])
    ∷ (3, 1490 ∷ [])
    ∷ (4, 1491 ∷ [])
    ∷ (5, 1492 ∷ [])
    ∷ (6, 1493 ∷ [])
    ∷ (7, 1494 ∷ [])
    ∷ (8, 1495 ∷ [])
    ∷ (9, 1496 ∷ [])
    ∷ []

abbrev pub gematria_tens : List (ℕ × Text)
gematria_tens =
    (10, 1497 ∷ [])
    ∷ (20, 1499 ∷ [])
    ∷ (30, 1500 ∷ [])
    ∷ (40, 1502 ∷ [])
    ∷ (50, 1504 ∷ [])
    ∷ (60, 1505 ∷ [])
    ∷ (70, 1506 ∷ [])
    ∷ (80, 1508 ∷ [])
    ∷ (90, 1510 ∷ [])
    ∷ []

abbrev pub gematria_hundreds : List (ℕ × Text)
gematria_hundreds = (100, 1511 ∷ []) ∷ (200, 1512 ∷ []) ∷ (300, 1513 ∷ []) ∷ (400, 1514 ∷ []) ∷ []

abbrev pub text_or_empty : Option Text → Text
text_or_empty none = []
text_or_empty (some s) = s

-- An index into a table; a missing key gives the empty string.
abbrev pub entry : List (ℕ × Text) → ℕ → Text
entry table n = text_or_empty (lookup n table)

abbrev pub chunk_of : ℕ → ℕ
chunk_of hundreds = if ltb 4 hundreds then 4 else hundreds

-- The loop over the hundreds; a round takes at least one of them away.
unfoldable pub hundreds_letters : ℕ → ℕ → Text
hundreds_letters zero hundreds = []
hundreds_letters (suc fuel) hundreds =
    let rest = hundreds_letters fuel (hundreds - chunk_of hundreds) in
    if hundreds == 0 then [] else entry gematria_hundreds (chunk_of hundreds * 100) ++ rest

-- The switch on the remainder.
unfoldable pub rest_letters : ℕ → Text
rest_letters remainder =
    if remainder == 15
    then 1496 ∷ 1493 ∷ []
    else if remainder == 16
    then 1496 ∷ 1494 ∷ []
    else entry gematria_tens (remainder / 10 * 10) ++ entry gematria_ones (remainder % 10)

-- The mark before the last of several letters.
unfoldable pub mark_last : ℕ → Text → Text
mark_last c [] = c ∷ []
mark_last c (d ∷ []) = c ∷ 1524 ∷ d ∷ []
mark_last c (d ∷ e ∷ s) = c ∷ mark_last d (e ∷ s)

abbrev pub marked : Text → Text
marked [] = []
marked (c ∷ []) = c ∷ 1523 ∷ []
marked (c ∷ d ∷ s) = mark_last c (d ∷ s)

unfoldable pub gematria : ℕ → Text
gematria num =
    if num == 0
    then []
    else marked (hundreds_letters (num / 100) (num / 100) ++ rest_letters (num % 100))

unfoldable pub hebrew_year_gematria : ℕ → Text
hebrew_year_gematria y = gematria (y % 1000)

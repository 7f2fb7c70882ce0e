-- ===== src/Core/Gender.antt =====
-- internal/core/gender.go. The lists of names of internal/core/names.json are a parameter, as they are read.
-- A ratio is a pair of numbers; the source's division in floating point is monotone and gives the cut-off
-- itself for the ratios equal to it, so that its comparisons are those of the fractions.
pub mod Windows
pub mod Detected
use birthly_go.Prelude.{
  ℕ, zero, suc, ◌+◌, ◌-◌, ◌*◌, Bool, true, false, not, ◌&&◌, ◌||◌, ltb, leb, ◌==◌, if◌then◌else◌,
  List, [], ◌∷◌, Option, none, some, any, length,
}
use birthly_go.Prelude.Text.{Text, codes, text_eq}
use birthly_go.Prelude.Assoc.{lookup, insert}
use birthly_go.Core.Chars.{is_space, drop_leading}

pub record NameLists : Type 0 where
  pub men : List Text
  pub women : List Text
  pub unisex : List Text

abbrev pub char_at : Text → ℕ → Option ℕ
char_at [] i = none
char_at (c ∷ s) zero = some c
char_at (c ∷ s) (suc i) = char_at s i

-- `buildB2J`: the positions of a character, from `j` on, in order.
unfoldable pub positions : ℕ → ℕ → Text → List ℕ
positions c j [] = []
positions c j (d ∷ b) = let rest = positions c (suc j) b in if d == c then j ∷ rest else rest

abbrev pub positions_of : Option ℕ → Text → List ℕ
positions_of none b = []
positions_of (some c) b = positions c 0 b

-- The longest block found so far.
pub record Block : Type 0 where
  pub at_a : ℕ
  pub at_b : ℕ
  pub size : ℕ

-- The length of the common run that ends before `j`, in the row before; a missing key is a zero.
abbrev pub or_none : Option ℕ → ℕ
or_none none = 0
or_none (some k) = k

abbrev pub run_before : List (ℕ × ℕ) → ℕ → ℕ
run_before row zero = 0
run_before row (suc j) = or_none (lookup j row)

abbrev pub longer : ℕ → ℕ → ℕ → Block → Block
longer i j k best =
    if ltb best.size k then record { at_a = (i + 1) - k; at_b = (j + 1) - k; size = k } else best

-- The loop over the positions of `a[i]`, which builds the row of `i`.
unfoldable pub scan_row :
    ℕ → ℕ → ℕ → List (ℕ × ℕ) → List ℕ → Block × List (ℕ × ℕ) → Block × List (ℕ × ℕ)
scan_row blo bhi i row [] state = state
scan_row blo bhi i row (j ∷ js) (best, next) =
    let k = run_before row j + 1 in
    let skipped = scan_row blo bhi i row js (best, next) in
    let taken = scan_row blo bhi i row js (longer i j k best, insert j k next) in
    if ltb j blo then skipped else if leb bhi j then (best, next) else taken

-- The loop over `i`, for `count` rows.
unfoldable pub scan_rows : ℕ → ℕ → Text → Text → ℕ → ℕ → Block × List (ℕ × ℕ) → Block
scan_rows blo bhi a b zero i (best, row) = best
scan_rows blo bhi a b (suc count) i (best, row) =
    scan_rows blo bhi a b count (suc i)
      (scan_row blo bhi i row (positions_of (char_at a i) b) (best, []))

-- Both characters are there in the windows that the program makes.
abbrev pub same_char : Option ℕ → Option ℕ → Bool
same_char (some c) (some d) = c == d
same_char _ _ = false

-- The two loops that extend the block, for at most `count` steps.
unfoldable pub extend_back : ℕ → ℕ → Text → Text → ℕ → Block → Block
extend_back alo blo a b zero best = best
extend_back alo blo a b (suc count) best =
    let more =
      extend_back alo blo a b count
        (record { at_a = best.at_a - 1; at_b = best.at_b - 1; size = best.size + 1 }) in
    if ltb alo best.at_a
      && ltb blo best.at_b
      && same_char (char_at a (best.at_a - 1)) (char_at b (best.at_b - 1))
    then more
    else best

unfoldable pub extend_on : ℕ → ℕ → Text → Text → ℕ → Block → Block
extend_on ahi bhi a b zero best = best
extend_on ahi bhi a b (suc count) best =
    let more = extend_on ahi bhi a b count (record best { size = best.size + 1 }) in
    if ltb (best.at_a + best.size) ahi
      && ltb (best.at_b + best.size) bhi
      && same_char (char_at a (best.at_a + best.size)) (char_at b (best.at_b + best.size))
    then more
    else best

-- Each step back or on takes a character of the window of `a`, so that its length bounds them.
unfoldable pub find_longest_match : Text → Text → ℕ → ℕ → ℕ → ℕ → Block
unfolding scan_rows extend_back extend_on
find_longest_match a b alo ahi blo bhi =
    let scanned =
      scan_rows blo bhi a b (ahi - alo) alo (record { at_a = alo; at_b = blo; size = 0 }, []) in
    extend_on ahi bhi a b (ahi - alo) (extend_back alo blo a b (ahi - alo) scanned)

-- On fuel: the length of the window of `a` and one more are enough.
unfoldable pub sum_matching_blocks : Text → Text → ℕ → ℕ → ℕ → ℕ → ℕ → ℕ
unfolding find_longest_match
sum_matching_blocks a b zero alo ahi blo bhi = 0
sum_matching_blocks a b (suc fuel) alo ahi blo bhi =
    let best = find_longest_match a b alo ahi blo bhi in
    let before = sum_matching_blocks a b fuel alo best.at_a blo best.at_b in
    let after =
      sum_matching_blocks a b fuel (best.at_a + best.size) ahi (best.at_b + best.size) bhi in
    if best.size == 0
    then 0
    else best.size
      + (if ltb alo best.at_a && ltb blo best.at_b then before else 0)
      + (if ltb (best.at_a + best.size) ahi && ltb (best.at_b + best.size) bhi then after else 0)

-- A fraction.
unfoldable pub sequence_ratio : Text → Text → ℕ × ℕ
unfolding sum_matching_blocks
sequence_ratio a b =
    if length a + length b == 0
    then (1, 1)
    else (2 * sum_matching_blocks a b (length a + 1) 0 (length a) 0 (length b), length a + length b)

-- At least 0.85.
abbrev pub reaches_cutoff : ℕ × ℕ → Bool
reaches_cutoff (n, d) = leb (17 * d) (20 * n)

abbrev pub is_greater : ℕ × ℕ → ℕ × ℕ → Bool
is_greater (n, d) (m, e) = ltb (m * d) (n * e)

-- `candidate > best`
unfoldable pub text_gt : Text → Text → Bool
text_gt [] t = false
text_gt (c ∷ s) [] = true
text_gt (c ∷ s) (d ∷ t) = let rest = text_gt s t in if c == d then rest else ltb d c

-- The best candidate so far, with its ratio.
abbrev pub better : Text → ℕ × ℕ → Option (Text × (ℕ × ℕ)) → Option (Text × (ℕ × ℕ))
better candidate r none = some (candidate, r)
better candidate r (some (best, q)) =
    if is_greater r q || not (is_greater q r) && text_gt candidate best
    then some (candidate, r)
    else some (best, q)

unfoldable pub closest_from : Text → List Text → Option (Text × (ℕ × ℕ)) → Option (Text × (ℕ × ℕ))
unfolding sequence_ratio text_gt
closest_from word [] best = best
closest_from word (candidate ∷ possibilities) best =
    let r = sequence_ratio candidate word in
    closest_from word possibilities (if reaches_cutoff r then better candidate r best else best)

abbrev pub is_found : Option (Text × (ℕ × ℕ)) → Bool
is_found none = false
is_found (some best) = true

unfoldable pub closest_match : Text → List Text → Bool
unfolding closest_from
closest_match word possibilities = is_found (closest_from word possibilities none)

-- The first of `strings.Fields`, or an empty text.
unfoldable pub until_space : Text → Text
until_space [] = []
until_space (c ∷ s) = let rest = until_space s in if is_space c then [] else c ∷ rest

abbrev pub is_listed_name : Text → List Text → Bool
is_listed_name name list = any (text_eq name) list

abbrev pub gender_of_matches : Bool → Bool → Option Text
gender_of_matches true false = some (codes "m")
gender_of_matches false true = some (codes "f")
gender_of_matches _ _ = none

unfoldable pub gender_of_word : NameLists → Text → Option Text
unfolding closest_match
gender_of_word names [] = none
gender_of_word names (c ∷ s) =
    if is_listed_name (c ∷ s) names.unisex
    then none
    else if is_listed_name (c ∷ s) names.men
    then some (codes "m")
    else if is_listed_name (c ∷ s) names.women
    then some (codes "f")
    else if ltb 2 (length (c ∷ s))
    then gender_of_matches (closest_match (c ∷ s) names.men) (closest_match (c ∷ s) names.women)
    else none

unfoldable pub detect_gender : NameLists → Text → Option Text
unfolding gender_of_word until_space
detect_gender names name = gender_of_word names (until_space (drop_leading name))

-- ===== src/Core/Chars.antt =====
-- The classes of characters that internal/core/validators.go works with, and the cleaning of texts: the
-- white space of Unicode (`unicode.IsSpace`, `strings.TrimSpace`, `strings.Fields`) and that of a regular
-- expression (`\s`), the control characters, and what removes them.
pub mod Clean
use birthly_go.Prelude.{
  ℕ, suc, ◌≡◌, refl, Bool, true, false, not, ◌&&◌, ◌||◌, leb, ◌==◌, if◌then◌else◌, [], ◌∷◌, filterb,
  arith, List, Bool-cases, inl, inr, ap, ◌∙◌,
}
use birthly_go.Prelude.Text.{Text}

-- `\s`: tab, line feed, form feed, carriage return, blank.
unfoldable pub is_blank : ℕ → Bool
is_blank c = (c == 9) || (c == 10) || (c == 12) || (c == 13) || (c == 32)

-- `unicode.IsSpace`
unfoldable pub is_space : ℕ → Bool
is_space c =
    (leb 9 c && leb c 13)
    || (c == 32)
    || (c == 133)
    || (c == 160)
    || (c == 5760)
    || (leb 8192 c && leb c 8202)
    || (c == 8232)
    || (c == 8233)
    || (c == 8239)
    || (c == 8287)
    || (c == 12288)

-- The class of `controlCharRE`.
unfoldable pub is_control : ℕ → Bool
is_control c = leb c 8 || (c == 11) || (c == 12) || (leb 14 c && leb c 31) || (c == 127)

unfoldable pub strip_control_chars : Text → Text
strip_control_chars [] = []
strip_control_chars (c ∷ s) =
    let rest = strip_control_chars s in if is_control c then rest else c ∷ rest

abbrev pub is_empty : Text → Bool
is_empty [] = true
is_empty (c ∷ s) = false

abbrev pub starts_with {ℓ} : {A : Type ℓ} → (A → Bool) → List A → Bool
starts_with p [] = false
starts_with p (c ∷ s) = p c

unfoldable pub drop_leading : Text → Text
drop_leading [] = []
drop_leading (c ∷ s) = let rest = drop_leading s in if is_space c then rest else c ∷ s

unfoldable pub drop_trailing : Text → Text
drop_trailing [] = []
drop_trailing (c ∷ s) =
    let rest = drop_trailing s in if is_empty rest && is_space c then [] else c ∷ rest

-- `strings.TrimSpace`
unfoldable pub trim_space : Text → Text
trim_space s = drop_trailing (drop_leading s)

-- A run of blanks becomes one; it is written where the run ends.
unfoldable pub collapse_whitespace : Text → Text
collapse_whitespace [] = []
collapse_whitespace (c ∷ s) =
    let rest = collapse_whitespace s in
    if is_blank c then (if starts_with is_blank s then rest else 32 ∷ rest) else c ∷ rest

-- `len(strings.Fields(s))`: a word is counted where it ends.
unfoldable pub count_fields : Text → ℕ
count_fields [] = 0
count_fields (c ∷ s) =
    let rest = count_fields s in
    if not (is_space c) && (is_empty s || starts_with is_space s) then suc rest else rest

unfoldable pub ends_with_space : Text → Bool
ends_with_space [] = false
ends_with_space (c ∷ s) = let rest = ends_with_space s in if is_empty s then is_space c else rest

-- Neither end is white space.
abbrev pub IsTrimmed : Text → Type 0
IsTrimmed s = (starts_with is_space s ≡ false) × (ends_with_space s ≡ false)

drop_leading-starts : (s : Text) → starts_with is_space (drop_leading s) ≡ false
unfolding drop_leading
drop_leading-starts [] = refl
drop_leading-starts (c ∷ s) = elim (Bool-cases (is_space c)) [
  | inl space ↦ rw space (drop_leading-starts s)
  | inr other ↦ rw other other
]

drop_trailing-starts :
    (s : Text) → starts_with is_space s ≡ false → starts_with is_space (drop_trailing s) ≡ false
unfolding drop_trailing
drop_trailing-starts [] h = refl
drop_trailing-starts (c ∷ s) h = ground (arith)

drop_trailing-ends : (s : Text) → ends_with_space (drop_trailing s) ≡ false
unfolding drop_trailing ends_with_space
drop_trailing-ends [] = refl
drop_trailing-ends (c ∷ s) = ground (arith, drop_trailing-ends s)

pub trim_space-IsTrimmed : (s : Text) → IsTrimmed (trim_space s)
unfolding trim_space
trim_space-IsTrimmed s = (
  drop_trailing-starts (drop_leading s) (drop_leading-starts s),
  drop_trailing-ends (drop_leading s),
)

drop_leading-fixed : (s : Text) → starts_with is_space s ≡ false → drop_leading s ≡ s
unfolding drop_leading
drop_leading-fixed [] h = refl
drop_leading-fixed (c ∷ s) h = rw h refl

drop_trailing-fixed : (s : Text) → ends_with_space s ≡ false → drop_trailing s ≡ s
unfolding drop_trailing ends_with_space
drop_trailing-fixed [] h = refl
drop_trailing-fixed (c ∷ []) h = rw h refl
drop_trailing-fixed (c ∷ d ∷ s) h = ground (arith, drop_trailing-fixed (d ∷ s))

pub trim_space-fixed : (s : Text) → IsTrimmed s → trim_space s ≡ s
unfolding trim_space
trim_space-fixed s h = ap drop_trailing (drop_leading-fixed s h.0) ∙ drop_trailing-fixed s h.1

-- ===== src/Core/Chars/Clean.antt =====
-- What cleaning leaves: no control character, no white space at the ends, single blanks; and cleaning again
-- changes nothing.
use birthly_go.Prelude.{
  ℕ, ◌≡◌, refl, true, false, ◌&&◌, [], ◌∷◌, All, arith, Bool-cases, inl, inr, ap, ◌∙◌,
}
use birthly_go.Prelude.Text.{Text}
use birthly_go.Core.Chars.{
  is_blank, is_space, is_control, strip_control_chars, is_empty, starts_with, drop_leading,
  drop_trailing, trim_space, collapse_whitespace, ends_with_space, IsTrimmed,
}

blank-space : (c : ℕ) → is_space c ≡ false → is_blank c ≡ false
unfolding is_space is_blank
blank-space c h = ground arith

is_blank-blank : is_blank 32 ≡ true
unfolding is_blank
is_blank-blank = refl

is_space-blank : is_space 32 ≡ true
unfolding is_space
is_space-blank = refl

pub is_control-blank : is_control 32 ≡ false
unfolding is_control
is_control-blank = refl

is_space-of_blank : (c : ℕ) → is_blank c ≡ true → is_space c ≡ true
unfolding is_space is_blank
is_space-of_blank c h = ground arith

-- No control character is left.
abbrev pub IsPrintable : Text → Type 0
IsPrintable s = All (λ c. is_control c ≡ false) s

pub strip_control_chars-IsPrintable : (s : Text) → IsPrintable (strip_control_chars s)
unfolding strip_control_chars
strip_control_chars-IsPrintable [] = tt
strip_control_chars-IsPrintable (c ∷ s) = elim (Bool-cases (is_control c)) [
  | inl control ↦ rw control (strip_control_chars-IsPrintable s)
  | inr other ↦ rw other (other, strip_control_chars-IsPrintable s)
]

pub strip_control_chars-fixed : (s : Text) → IsPrintable s → strip_control_chars s ≡ s
unfolding strip_control_chars
strip_control_chars-fixed [] h = refl
strip_control_chars-fixed (c ∷ s) h = rw h.0 (ap (λ t. c ∷ t) (strip_control_chars-fixed s h.1))

drop_leading-All : (P : ℕ → Type 0) (s : Text) → All P s → All P (drop_leading s)
unfolding drop_leading
drop_leading-All P [] h = tt
drop_leading-All P (c ∷ s) h = elim (Bool-cases (is_space c)) [
  | inl space ↦ rw space (drop_leading-All P s h.1)
  | inr other ↦ rw other h
]

drop_trailing-All : (P : ℕ → Type 0) (s : Text) → All P s → All P (drop_trailing s)
unfolding drop_trailing
drop_trailing-All P [] h = tt
drop_trailing-All P (c ∷ s) h = elim (Bool-cases (is_empty (drop_trailing s) && is_space c)) [
  | inl last ↦ rw last tt
  | inr inside ↦ rw inside (h.0, drop_trailing-All P s h.1)
]

pub trim_space-All : (P : ℕ → Type 0) (s : Text) → All P s → All P (trim_space s)
unfolding trim_space
trim_space-All P s h = drop_trailing-All P (drop_leading s) (drop_leading-All P s h)

pub collapse_whitespace-All :
    (P : ℕ → Type 0) (s : Text) → P 32 → All P s → All P (collapse_whitespace s)
unfolding collapse_whitespace
collapse_whitespace-All P [] blank h = tt
collapse_whitespace-All P (c ∷ s) blank h = elim (Bool-cases (is_blank c)) [
  | inl one ↦ rw one (elim (Bool-cases (starts_with is_blank s)) [
    | inl more ↦ rw more (collapse_whitespace-All P s blank h.1)
    | inr last ↦ rw last (blank, collapse_whitespace-All P s blank h.1)
  ])
  | inr other ↦ rw other (h.0, collapse_whitespace-All P s blank h.1)
]

collapse_whitespace-starts :
    (s : Text) → starts_with is_blank (collapse_whitespace s) ≡ starts_with is_blank s
unfolding collapse_whitespace
collapse_whitespace-starts [] = refl
collapse_whitespace-starts (c ∷ s) = ground (arith, collapse_whitespace-starts s, is_blank-blank)

collapse_whitespace-empty : (s : Text) → is_empty (collapse_whitespace s) ≡ is_empty s
unfolding collapse_whitespace
collapse_whitespace-empty [] = refl
collapse_whitespace-empty (c ∷ []) = ground arith
collapse_whitespace-empty (c ∷ d ∷ s) = ground (arith, collapse_whitespace-empty (d ∷ s))

pub collapse_whitespace_idem :
    (s : Text) → collapse_whitespace (collapse_whitespace s) ≡ collapse_whitespace s
unfolding collapse_whitespace
collapse_whitespace_idem [] = refl
collapse_whitespace_idem (c ∷ s) =
    ground (arith, collapse_whitespace-starts s, collapse_whitespace_idem s, is_blank-blank)

collapse_whitespace-ends : (s : Text) → ends_with_space (collapse_whitespace s) ≡ ends_with_space s
unfolding collapse_whitespace ends_with_space
collapse_whitespace-ends [] = refl
collapse_whitespace-ends (c ∷ []) = ground (arith, is_space-blank, is_space-of_blank c)
collapse_whitespace-ends (c ∷ d ∷ s) =
    ground (arith, collapse_whitespace-ends (d ∷ s), collapse_whitespace-empty (d ∷ s))

collapse_whitespace-space :
    (s : Text)
    → starts_with is_space s ≡ false
    → starts_with is_space (collapse_whitespace s) ≡ false
unfolding collapse_whitespace
collapse_whitespace-space [] h = refl
collapse_whitespace-space (c ∷ s) h = rw (blank-space c h) h

pub collapse_whitespace-IsTrimmed : (s : Text) → IsTrimmed s → IsTrimmed (collapse_whitespace s)
collapse_whitespace-IsTrimmed s h =
    (collapse_whitespace-space s h.0, collapse_whitespace-ends s ∙ h.1)

-- No white space at all.
pub no_space-IsTrimmed : (s : Text) → All (λ c. is_space c ≡ false) s → IsTrimmed s
unfolding ends_with_space
no_space-IsTrimmed [] h = (refl, refl)
no_space-IsTrimmed (c ∷ []) h = (h.0, h.0)
no_space-IsTrimmed (c ∷ d ∷ s) h = (h.0, (no_space-IsTrimmed (d ∷ s) h.1).1)

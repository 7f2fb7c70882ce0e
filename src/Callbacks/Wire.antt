-- ===== src/Callbacks/Wire.antt =====
-- Fields joined by colons, and taken apart again: `join`, `split` and the optional fields.
use birthly_go.Prelude.{
  sym, ap, ◌∙◌, ℕ, ◌+◌, ◌≡◌, ◌≢◌, refl, false, not, ◌==◌, if◌then◌else◌, List, [], ◌∷◌, ◌++◌,
  Option, none, some, length, All, arith, Bool-cases, inl, inr,
}
use birthly_go.Prelude.Text.{Text, text_eq, text_eq_iff, text_eq_refl}
use birthly_go.Prelude.Int.{ℤ}
use birthly_go.Prelude.Decimal.{atoi, format_int}

abbrev pub sep : ℕ
sep = b':'

-- `strings.Join(parts, sep)`
unfoldable pub join : List Text → Text
join [] = []
join (p ∷ []) = p
join (p ∷ q ∷ ps) = p ++ sep ∷ join (q ∷ ps)

abbrev pub onto_first : ℕ → List Text → List Text
onto_first c [] = (c ∷ []) ∷ []
onto_first c (p ∷ ps) = (c ∷ p) ∷ ps

-- `strings.Split(payload, sep)`
unfoldable pub split_all : Text → List Text
split_all [] = [] ∷ []
split_all (c ∷ s) = let rest = split_all s in if c == sep then [] ∷ rest else onto_first c rest

abbrev pub fields_of : List Text → Text → ℕ → Option (List Text)
fields_of [] want_prefix want_fields = none
fields_of (p ∷ ps) want_prefix want_fields =
    if not (length (p ∷ ps) == want_fields + 1)
    then none
    else if not (text_eq p want_prefix)
    then none
    else some ps

unfoldable pub split : Text → Text → ℕ → Option (List Text)
split payload want_prefix want_fields = fields_of (split_all payload) want_prefix want_fields

-- `strings.Cut`'s first result.
unfoldable pub prefix : Text → Text
prefix [] = []
prefix (c ∷ s) = let rest = prefix s in if c == sep then [] else c ∷ rest

abbrev pub opt_str : Option Text → Text
opt_str none = []
opt_str (some v) = v

abbrev pub opt_int : Option ℤ → Text
opt_int none = []
opt_int (some v) = format_int v

abbrev pub parse_opt_str : Text → Option Text
parse_opt_str [] = none
parse_opt_str (c ∷ s) = some (c ∷ s)

abbrev pub present : Option ℤ → Option (Option ℤ)
present none = none
present (some v) = some (some v)

-- `none` is the error.
abbrev pub parse_opt_int : Text → Option (Option ℤ)
parse_opt_int [] = some none
parse_opt_int (c ∷ s) = present (atoi (c ∷ s))

-- A field that has no colon in it.
abbrev pub IsField : Text → Type 0
IsField s = All (λ c. (c == sep) ≡ false) s

split_all-field : (s : Text) → IsField s → split_all s ≡ s ∷ []
unfolding split_all
split_all-field [] h = refl
split_all-field (c ∷ s) h = ground (arith, h.0, split_all-field s h.1)

split_all-cons : (s rest : Text) → IsField s → split_all (s ++ sep ∷ rest) ≡ s ∷ split_all rest
unfolding split_all
split_all-cons [] rest h = refl
split_all-cons (c ∷ s) rest h = ground (arith, h.0, split_all-cons s rest h.1)

-- Fields without colons come back as they went in.
pub split_all-join :
    (p : Text) (ps : List Text) → All (λ s. IsField s) (p ∷ ps) → split_all (join (p ∷ ps)) ≡ p ∷ ps
unfolding join
split_all-join p [] h = split_all-field p h.0
split_all-join p (q ∷ ps) h =
    split_all-cons p (join (q ∷ ps)) h.0 ∙ ap (λ r. p ∷ r) (split_all-join q ps h.1)

fields_of-own : (p : Text) (ps : List Text) → fields_of (p ∷ ps) p (length ps) ≡ some ps
fields_of-own p ps = ground (arith, text_eq_refl p)

pub split-join :
    (p : Text) (ps : List Text)
    → All (λ s. IsField s) (p ∷ ps)
    → split (join (p ∷ ps)) p (length ps) ≡ some ps
unfolding split
split-join p ps h = rw (split_all-join p ps h) (fields_of-own p ps)

join-onto_first : (c : ℕ) (ps : List Text) → join (onto_first c ps) ≡ c ∷ join ps
unfolding join
join-onto_first c [] = refl
join-onto_first c (p ∷ []) = refl
join-onto_first c (p ∷ q ∷ ps) = refl

join-empty : (ps : List Text) → ps ≢ [] → join ([] ∷ ps) ≡ sep ∷ join ps
unfolding join
join-empty [] some_parts = absurd (some_parts refl)
join-empty (p ∷ ps) some_parts = refl

onto_first-nonempty : (c : ℕ) (ps : List Text) → onto_first c ps ≢ []
onto_first-nonempty c [] e = cc
onto_first-nonempty c (p ∷ ps) e = cc

split_all-nonempty : (s : Text) → split_all s ≢ []
unfolding split_all
split_all-nonempty [] = λ e. cc
split_all-nonempty (c ∷ s) = elim (Bool-cases (c == sep)) [
  | inl colon ↦ rw colon (λ e. cc)
  | inr other ↦ rw other (onto_first-nonempty c (split_all s))
]

fields_of_lem :
    (parts : List Text) (want_prefix : Text) (want_fields : ℕ) (fields : List Text)
    → fields_of parts want_prefix want_fields ≡ some fields
    → (want_prefix ∷ fields ≡ parts) × (length fields ≡ want_fields)
fields_of_lem [] want_prefix want_fields fields e = cc
fields_of_lem (p ∷ ps) want_prefix want_fields fields e = ground (arith, text_eq_iff p want_prefix)

-- Joining undoes splitting, whatever the text.
pub join-split_all : (s : Text) → join (split_all s) ≡ s
unfolding join split_all
join-split_all [] = refl
join-split_all (c ∷ s) = elim (Bool-cases (c == sep)) [
  | inl colon ↦ rw colon (
      join-empty (split_all s) (split_all-nonempty s)
      ∙ ap (λ r. sep ∷ r) (join-split_all s)
      ∙ ground arith)
  | inr other ↦ rw other (join-onto_first c (split_all s) ∙ ap (λ r. c ∷ r) (join-split_all s))
]

-- A payload that a decoder takes apart has the prefix it wants, and just the fields that it wants.
split_lem :
    (payload want_prefix : Text) (want_fields : ℕ) (fields : List Text)
    → split payload want_prefix want_fields ≡ some fields
    → (join (want_prefix ∷ fields) ≡ payload) × (length fields ≡ want_fields)
unfolding split
split_lem payload want_prefix want_fields fields e =
    let (a, b) = fields_of_lem (split_all payload) want_prefix want_fields fields e in
    (ap join a ∙ join-split_all payload, b)

prefix-field : (s : Text) → IsField s → prefix s ≡ s
unfolding prefix
prefix-field [] h = refl
prefix-field (c ∷ s) h = ground (arith, h.0, prefix-field s h.1)

prefix-append : (s rest : Text) → IsField s → prefix (s ++ sep ∷ rest) ≡ s
unfolding prefix
prefix-append [] rest h = refl
prefix-append (c ∷ s) rest h = ground (arith, h.0, prefix-append s rest h.1)

prefix-join : (p : Text) (ps : List Text) → IsField p → prefix (join (p ∷ ps)) ≡ p
unfolding join
prefix-join p [] h = prefix-field p h
prefix-join p (q ∷ ps) h = prefix-append p (join (q ∷ ps)) h

-- Routing by the prefix meets the decoder: a payload that a decoder takes apart has that decoder's prefix,
-- and the fields, as many as it wants, are all that follows.
pub prefix-split :
    (payload want_prefix : Text) (want_fields : ℕ) (fields : List Text)
    → IsField want_prefix
    → split payload want_prefix want_fields ≡ some fields
    → (prefix payload ≡ want_prefix)
      × (join (want_prefix ∷ fields) ≡ payload)
      × (length fields ≡ want_fields)
prefix-split payload want_prefix want_fields fields h e =
    let (a, b) = split_lem payload want_prefix want_fields fields e in
    (ap prefix (sym a) ∙ prefix-join want_prefix fields h, a, b)

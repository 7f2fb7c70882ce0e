-- ===== src/Core/Gender/Windows.antt =====
-- The blocks of the comparison of names lie in their windows, so that the fuel suffices and a ratio is at
-- most one.
use birthly_go.Prelude.{
  ℕ, zero, suc, ◌+◌, ◌-◌, ◌≤◌, ◌<◌, ◌≡◌, sym, ◌∙◌, ◌&&◌, ltb, leb, ◌==◌, if◌then◌else◌, List, [],
  ◌∷◌, some, Bool-cases, Option-cases, inl, inr, if-holds, arith, ℕ_discrete,
}
use birthly_go.Prelude.Text.{Text}
use birthly_go.Prelude.Assoc.{lookup, insert, lookup-insert}
use birthly_go.Core.Gender.{
  char_at, positions_of, Block, run_before, longer, scan_row, scan_rows, same_char, extend_back,
  extend_on, find_longest_match,
}

module _ (alo ahi blo bhi : ℕ) where
  pub record IsInWindow (best : Block) : Type 0 where
    pub from_a : alo ≤ best.at_a
    pub to_a : best.at_a + best.size ≤ ahi
    pub from_b : blo ≤ best.at_b
    pub to_b : best.at_b + best.size ≤ bhi

  -- The runs of the rows before `i` lie in the window.
  abbrev IsRow : ℕ → List (ℕ × ℕ) → Type 0
  IsRow i row = (j k : ℕ) → lookup j row ≡ some k → (k + alo ≤ i) × (k + blo ≤ j + 1)

  run_before-IsRow :
      (i j : ℕ) (row : List (ℕ × ℕ))
      → IsRow i row
      → alo ≤ i
      → blo ≤ j
      → (run_before row j + alo ≤ i) × (run_before row j + blo ≤ j)
  run_before-IsRow i zero row h ha hb = (omega (arith, ha), omega (arith, hb))
  run_before-IsRow i (suc j) row h ha hb = elim (Option-cases (lookup j row)) [
    | inl gone ↦ rw gone (omega (arith, ha), omega (arith, hb))
    | inr (k, there) ↦
        rw there
          (let (below, before) = h j k there in (omega (arith, below), omega (arith, before)))
  ]

  longer-IsInWindow :
      (i j k : ℕ) (best : Block)
      → k + alo ≤ i + 1
      → k + blo ≤ j + 1
      → i < ahi
      → j < bhi
      → IsInWindow best
      → IsInWindow (longer i j k best)
  longer-IsInWindow i j k best ka kb hi hj h =
      if-holds IsInWindow (ltb best.size k) _ best
        (record {
          from_a = omega (arith, ka);
          to_a = omega (arith, ka, hi);
          from_b = omega (arith, kb);
          to_b = omega (arith, kb, hj);
        })
        h

  insert-IsRow :
      (i j k : ℕ) (row : List (ℕ × ℕ))
      → IsRow i row
      → k + alo ≤ i
      → k + blo ≤ j + 1
      → IsRow i (insert j k row)
  insert-IsRow i j k row h ka kb m l e =
      let inserted = sym (lookup-insert j m k row) ∙ e in
      elim (ℕ_discrete j m) [
        | yes same ↦
            let taken : (if j == m then some k else lookup m row) ≡ some k = ground (arith, same) in
            let value : k ≡ l = cc in (omega (arith, ka, value), omega (arith, kb, value, same))
        | no differ ↦
            let kept : (if j == m then some k else lookup m row) ≡ lookup m row =
              ground (arith, differ) in
            h m l (sym kept ∙ inserted)
      ]

  scan_row-IsInWindow :
      (i : ℕ) (row : List (ℕ × ℕ)) (js : List ℕ) (best : Block) (next : List (ℕ × ℕ))
      → alo ≤ i
      → i < ahi
      → IsRow i row
      → IsInWindow best
      → IsRow (suc i) next
      → IsInWindow (scan_row blo bhi i row js (best, next)).0
        × IsRow (suc i) (scan_row blo bhi i row js (best, next)).1
  unfolding scan_row
  scan_row-IsInWindow i row [] best next low high r w n = (w, n)
  scan_row-IsInWindow i row (j ∷ js) best next low high r w n = elim (Bool-cases (ltb j blo)) [
    | inl below ↦ rw below (scan_row-IsInWindow i row js best next low high r w n)
    | inr from ↦ rw from (elim (Bool-cases (leb bhi j)) [
      | inl past ↦ rw past (w, n)
      | inr inside ↦ rw inside (
          let (ka, kb) = run_before-IsRow i j row r low (ground (arith, from)) in
          scan_row-IsInWindow i row js (longer i j (run_before row j + 1) best)
            (insert j (run_before row j + 1) next) low high r
            (longer-IsInWindow i j (run_before row j + 1) best (omega (arith, ka))
              (omega (arith, kb)) high (ground (arith, inside)) w)
            (insert-IsRow (suc i) j (run_before row j + 1) next n (omega (arith, ka))
              (omega (arith, kb))))
    ])
  ]

  empty-IsRow : (i : ℕ) → IsRow i []
  unfolding lookup
  empty-IsRow i j k e = cc

  scan_rows-IsInWindow :
      (a b : Text) (count i : ℕ) (best : Block) (row : List (ℕ × ℕ))
      → alo ≤ i
      → i + count ≤ ahi
      → IsRow i row
      → IsInWindow best
      → IsInWindow (scan_rows blo bhi a b count i (best, row))
  unfolding scan_rows
  scan_rows-IsInWindow a b zero i best row low high r w = w
  scan_rows-IsInWindow a b (suc count) i best row low high r w =
      let (w', r') =
        scan_row-IsInWindow i row (positions_of (char_at a i) b) best [] low (omega (arith, high)) r
          w (empty-IsRow (suc i)) in
      scan_rows-IsInWindow a b count (suc i) _ _ (omega (arith, low)) (omega (arith, high)) r' w'

  extend_back-IsInWindow :
      (a b : Text) (count : ℕ) (best : Block)
      → IsInWindow best
      → IsInWindow (extend_back alo blo a b count best)
  unfolding extend_back
  extend_back-IsInWindow a b zero best w = w
  extend_back-IsInWindow a b (suc count) best w =
      let test =
        ltb alo best.at_a
        && ltb blo best.at_b
        && same_char (char_at a (best.at_a - 1)) (char_at b (best.at_b - 1)) in
      elim (Bool-cases test) [
        | inl more ↦ rw more (
            extend_back-IsInWindow a b count _ (record {
              from_a = ground (arith, more);
              to_a = ground (arith, more, w.to_a);
              from_b = ground (arith, more);
              to_b = ground (arith, more, w.to_b);
            }))
        | inr done ↦ rw done w
      ]

  extend_on-IsInWindow :
      (a b : Text) (count : ℕ) (best : Block)
      → IsInWindow best
      → IsInWindow (extend_on ahi bhi a b count best)
  unfolding extend_on
  extend_on-IsInWindow a b zero best w = w
  extend_on-IsInWindow a b (suc count) best w =
      let test =
        ltb (best.at_a + best.size) ahi
        && ltb (best.at_b + best.size) bhi
        && same_char (char_at a (best.at_a + best.size)) (char_at b (best.at_b + best.size)) in
      elim (Bool-cases test) [
        | inl more ↦ rw more (
            extend_on-IsInWindow a b count _ (record {
              from_a = w.from_a;
              to_a = ground (arith, more);
              from_b = w.from_b;
              to_b = ground (arith, more);
            }))
        | inr done ↦ rw done w
      ]

  pub find_longest_match-IsInWindow :
      (a b : Text) → alo ≤ ahi → blo ≤ bhi → IsInWindow (find_longest_match a b alo ahi blo bhi)
  unfolding find_longest_match
  find_longest_match-IsInWindow a b la lb =
      let start : IsInWindow (record { at_a = alo; at_b = blo; size = 0 }) = record {
        from_a = omega arith;
        to_a = omega (arith, la);
        from_b = omega arith;
        to_b = omega (arith, lb);
      } in
      extend_on-IsInWindow a b (ahi - alo) _ (
        extend_back-IsInWindow a b (ahi - alo) _ (
          scan_rows-IsInWindow a b (ahi - alo) alo _ [] (omega arith) (omega (arith, la))
            (empty-IsRow alo) start))

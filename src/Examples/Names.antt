-- ===== src/Examples/Names.antt =====
-- Two spellings of a name.
use birthly_go.Prelude.{◌≤◌, ◌≡◌, refl, some, [], ◌∷◌, arith}
use birthly_go.Prelude.Text.{codes, text_eq}
use birthly_go.Prelude.Assoc.{lookup, insert}
use birthly_go.Core.Chars.{drop_leading, is_space}
use birthly_go.Core.Gender.{
  NameLists, positions, scan_row, scan_rows, extend_back, extend_on, find_longest_match,
  sum_matching_blocks, sequence_ratio, text_gt, closest_from, closest_match, until_space,
  gender_of_word, detect_gender,
}
use birthly_go.Core.Gender.Detected.{sequence_ratio-total}

abbrev lists : NameLists
lists = record { men = codes "Daniel" ∷ []; women = codes "Noa" ∷ []; unisex = codes "Adi" ∷ [] }

-- Twelve of the thirteen characters match.
misspelled : detect_gender lists (codes " Danniel Cohen") ≡ some (codes "m")
unfolding detect_gender gender_of_word until_space drop_leading is_space text_eq closest_match
    closest_from sequence_ratio sum_matching_blocks find_longest_match extend_on extend_back
    scan_rows scan_row positions lookup insert text_gt
misspelled = refl

sequence_ratio-total_example :
    (sum_matching_blocks (codes "Noa") (codes "Noah") 9 0 3 0 4
      ≡ sum_matching_blocks (codes "Noa") (codes "Noah") 4 0 3 0 4)
    × ((sequence_ratio (codes "Noa") (codes "Noah")).0
        ≤ (sequence_ratio (codes "Noa") (codes "Noah")).1)
sequence_ratio-total_example = sequence_ratio-total (codes "Noa") (codes "Noah") 9 (omega arith)

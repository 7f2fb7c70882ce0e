-- ===== src/Examples/Logs.antt =====
-- A log of one row.
use birthly_go.Prelude.{[], ◌∷◌, some}
use birthly_go.Core.Civil.{date}
use birthly_go.Store.Logs.{LogTable, pending_row}
use birthly_go.Store.LogLaws.{Key, key}

abbrev log : LogTable
log = record { rows = pending_row 1 7 3 (some 5) (date 2025 3 1) 100 ∷ []; next_id = 2 }

abbrev k : Key
k = key 3 5 (date 2025 3 1)

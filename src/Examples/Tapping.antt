-- ===== src/Examples/Tapping.antt =====
-- A user who adds a reminder rule.
use birthly_go.Prelude.{refl, none, arith}
use birthly_go.Store.Rules.{list_global, list_for_event}
use birthly_go.Handlers.Reminders.Allowed.{pick_offset, handle_reminder}
use birthly_go.Handlers.Reminders.Limits.{AreLimited, handle_reminder-AreLimited}
use birthly_go.Examples.Ticks.{db}
use birthly_go.Examples.Adding.{world, update}

db-AreLimited : AreLimited 7 db
unfolding list_global list_for_event
db-AreLimited = record { global = omega arith; per_event = λ e. omega arith; unique = (refl, tt) }

handle_reminder-AreLimited_example :
    AreLimited 7 (handle_reminder update 6 (pick_offset none 3) world).1.db
handle_reminder-AreLimited_example =
    handle_reminder-AreLimited update 6 (pick_offset none 3) world db-AreLimited refl

-- ===== src/Examples/Adding.antt =====
-- A user who adds an event.
use birthly_go.Prelude.{ℕ, ◌+◌, some, Option}
use birthly_go.Prelude.Text.{Text, codes}
use birthly_go.Core.Civil.{date}
use birthly_go.Fsm.Defs.{new_store}
use birthly_go.Handlers.EventAdd.{World, Update}
use birthly_go.Handlers.Safety.{in_database}
use birthly_go.Handlers.EventAdd.Writes.{handle, name_text, handle-Keeps}
use birthly_go.Services.Events.Owner.{Keeps}
use birthly_go.Examples.Calendar.{shifted}
use birthly_go.Examples.Ticks.{user, db}
use birthly_go.Examples.Inputs.{is_letter, typed_name}

abbrev pub world : World
world = record { sessions = new_store 1000 3; db = db }

abbrev clock : ℕ → ℕ
clock n = 100 + n

abbrev pub update : Update
update = record {
  user = user;
  today = date 2025 3 1;
  current = date 2025 3 1;
  now = 60;
  clock = clock;
}

abbrev pub woman : Text → Option Text
woman first = some (codes "f")

handle-Keeps_example :
    Keeps 7 db (in_database (handle update shifted is_letter woman 5 (name_text typed_name) world))
handle-Keeps_example = handle-Keeps update shifted is_letter woman 5 (name_text typed_name) world

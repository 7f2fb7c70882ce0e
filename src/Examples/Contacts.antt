-- ===== src/Examples/Contacts.antt =====
-- A user who comes for the first time.
use birthly_go.Prelude.{◌≡◌, refl, false, none, some}
use birthly_go.Prelude.Text.{codes}
use birthly_go.Store.Users.{Contact}
use birthly_go.Services.Users.{get_or_create_user}
use birthly_go.Services.Users.FirstContact.{get_or_create_user-again}
use birthly_go.Examples.Ticks.{db}

abbrev newcomer : Contact
newcomer = record {
  user_id = 9;
  username = some "tamar";
  first_name = codes "Tamar";
  last_name = none;
  is_admin = false;
}

get_or_create_user-again_example :
    (let first = (get_or_create_user newcomer 6 7 60 db).1 in
      let second = (get_or_create_user newcomer 8 9 70 first).1 in
      (second.rules ≡ first.rules) × (second.events ≡ first.events) × (second.logs ≡ first.logs))
get_or_create_user-again_example = get_or_create_user-again newcomer newcomer 6 7 60 8 9 70 db refl

-- ===== src/Services/Action.antt =====
-- A call of a service: the database, and errors as values. What was written before an error stays written.
use birthly_go.Prelude.{Option, none, some}
use birthly_go.Store.Database.{Database}

-- `LimitErr`, `NotFoundErr`, the error of a Hebrew month that the year does not have, and an error of a
-- constraint of the database.
pub data Failure : Type 0 where
  limit_reached not_found no_such_month constraint_failed : Failure

-- `panicked` is the panic of the search for a Hebrew date, which the bot's router recovers from.
pub data Result (A : Type 0) : Type 0 where
  ok : A → Result A
  err : Failure → Result A
  panicked : Result A

abbrev pub Action : Type 0 → Type 0
Action A = Database → Result A × Database

module _ {A : Type 0} where
  abbrev pub pure : A → Action A
  pure a db = (ok a, db)

  abbrev pub fail : Failure → Action A
  fail e db = (err e, db)

  abbrev pub lift : Result A → Action A
  lift r db = (r, db)

  -- A write that a constraint may refuse.
  abbrev pub stored : Option (A × Database) → Action A
  stored none db = (err constraint_failed, db)
  stored (some (a, db')) db = (ok a, db')

  -- A call of a service that returned.
  abbrev pub or_fail : Option A → Failure → Action A
  or_fail none e = fail e
  or_fail (some a) e = pure a

module _ {A B : Type 0} where
  abbrev pub continue_with : Result A → (A → Action B) → Action B
  continue_with (ok a) f db = f a db
  continue_with (err e) f db = (err e, db)
  continue_with panicked f db = (panicked, db)

  -- Go on with what a call returned.
  abbrev pub and_then : Action A → (A → Action B) → Action B
  and_then m f db = continue_with (m db).0 f (m db).1

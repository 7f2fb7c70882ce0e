-- ===== src/Handlers/Safety.antt =====
-- What a handler of a dialogue may change in the database.
use birthly_go.Prelude.{◌≡◌, Bool, true, false, Bool-cases, inl, inr}
use birthly_go.Fsm.Defs.{get_state}
use birthly_go.Fsm.State.{State}
use birthly_go.Store.Database.{Database}
use birthly_go.Services.Events.Owner.{Keeps, Keeps-refl}
use birthly_go.Handlers.EventAdd.{World, Outcome, saved, Update, Handler, is_in, at_step}

abbrev pub is_saved : Outcome → Bool
is_saved (saved e) = true
is_saved _ = false

abbrev pub in_database : Outcome × World → Bool × Database
in_database r = (is_saved r.0, r.1.db)

module _ (u : Update) where
  unfoldable pub Safe : World → Outcome × World → Type 0
  Safe w r = Keeps u.user.id w.db (in_database r)

  pub at_step-Safe :
      (state : State) (h : Handler) (w : World) → Safe w (h w) → Safe w (at_step u state h w)
  unfolding Safe at_step
  at_step-Safe state h w safe = elim (Bool-cases (is_in state (get_state u.user.id w.sessions))) [
    | inl here ↦ rw here safe
    | inr other ↦ rw other (Keeps-refl u.user.id w.db false)
  ]

  pub nothing-Safe :
      (w w' : World) (o : Outcome) → is_saved o ≡ false → w'.db ≡ w.db → Safe w (o, w')
  unfolding Safe
  nothing-Safe w w' o unsaved same = rw unsaved (rw same (Keeps-refl u.user.id w.db false))

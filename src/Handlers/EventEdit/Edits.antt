-- ===== src/Handlers/EventEdit/Edits.antt =====
-- What a handler of the editor may change in the database: nothing, or one field of one event.
use birthly_go.Prelude.{ℕ, ◌≡◌, refl, false, Option, none, some, ◌⊎◌, inl, inr, Bool-cases}
use birthly_go.Prelude.Text.{Text}
use birthly_go.Core.Hebrew.{Hdate}
use birthly_go.Fsm.State.{State}
use birthly_go.Fsm.Defs.{get_state}
use birthly_go.Store.Models.{Event}
use birthly_go.Services.Action.{
  Failure, Result, ok, err, panicked, limit_reached, not_found, no_such_month, constraint_failed,
}
use birthly_go.Handlers.EventAdd.{
  World, Update, Outcome, saved, not_found_told, broken_off, Handler, is_in, at_step,
}
use birthly_go.Handlers.Safety.{is_saved}
use birthly_go.Handlers.EventEdit.Owned.{IsOwned}
use birthly_go.Handlers.EventEdit.Stored.{IsStored}
use birthly_go.Handlers.EventEdit.Columns.{SetsColumn}
use birthly_go.Handlers.EditFields.{set_event_field}
use birthly_go.Handlers.EventEdit.{told_error, with_event_id, with_event}

module _ (u : Update) (H : Hdate) where
  -- An event of the user is stored with one column set, and the user is told so.
  pub record HasEdited (w : World) (r : Outcome × World) : Type 0 where
    pub id : ℕ
    pub field : Text
    pub value : Option Text
    pub before : Event
    pub row : Event
    pub owned_before : IsOwned u.user id before w.db
    pub kept_row :
        IsStored H u.user u.today u.now id before
          (set_event_field before field value)
          w.db
          row
          r.1.db
    pub sets : SetsColumn field value before row
    pub told : r.0 ≡ saved row

  -- Nothing is changed in the database, or one event is.
  unfoldable pub Edits : World → Outcome × World → Type 0
  Edits w r = ((is_saved r.0 ≡ false) × (r.1.db ≡ w.db)) ⊎ HasEdited w r

  pub told_error-unsaved : (f : Failure) → is_saved (told_error f) ≡ false
  told_error-unsaved limit_reached = refl
  told_error-unsaved not_found = refl
  told_error-unsaved no_such_month = refl
  told_error-unsaved constraint_failed = refl

  pub nothing-Edits :
      (w w' : World) (o : Outcome) → is_saved o ≡ false → w'.db ≡ w.db → Edits w (o, w')
  unfolding Edits
  nothing-Edits w w' o unsaved same = inl (unsaved, same)

  pub at_step-Edits :
      (state : State) (h : Handler) (w : World) → Edits w (h w) → Edits w (at_step u state h w)
  unfolding Edits at_step
  at_step-Edits state h w e = elim (Bool-cases (is_in state (get_state u.user.id w.sessions))) [
    | inl here ↦ rw here e
    | inr other ↦ rw other (inl (refl, refl))
  ]

  pub with_event-Edits :
      (w w' : World) (r : Result Event) (h : Event → Handler)
      → w'.db ≡ w.db
      → ((e : Event) → r ≡ ok e → Edits w (h e w'))
      → Edits w (with_event u r h w')
  with_event-Edits w w' (ok e) h same each = each e refl
  with_event-Edits w w' (err f) h same each =
      nothing-Edits w w' (told_error f) (told_error-unsaved f) same
  with_event-Edits w w' panicked h same each = nothing-Edits w w' broken_off refl same

  pub with_event_id-Edits :
      (w w' : World) (id : Option ℕ) (h : ℕ → Handler)
      → w'.db ≡ w.db
      → ((n : ℕ) → Edits w (h n w'))
      → Edits w (with_event_id u id h w')
  with_event_id-Edits w w' none h same each = nothing-Edits w w' not_found_told refl same
  with_event_id-Edits w w' (some n) h same each = each n

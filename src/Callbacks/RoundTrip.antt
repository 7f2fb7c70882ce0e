-- ===== src/Callbacks/RoundTrip.antt =====
-- What an `Encode` wrote its decoder reads back.
use birthly_go.Prelude.{
  not, subst, any, inl, inr, Bool-cases, subst, any, inl, inr, Bool-cases, suc, ◌≡◌, ◌≢◌, ◌==◌,
  refl, Bool, true, false, ap, List, [], ◌∷◌, Option, none, some, arith,
}
use birthly_go.Prelude.Text.{text_eq, text_eq_iff, text_eq, text_eq_iff, Text}
use birthly_go.Prelude.Int.{ℤ, pos, negsuc}
use birthly_go.Prelude.Decimal.{
  atoi, format_int, IsInt64, IsDigits, digits_of-IsDigits, atoi-format_int,
}
use birthly_go.Callbacks.Wire.{
  sep, join, opt_str, opt_int, parse_opt_str, parse_opt_int, IsField, split-join,
}
use birthly_go.Callbacks.Payloads.{
  Nav, encode_nav, decode_nav, prefix_nav, Stats, encode_stats, decode_stats, prefix_stats, Backup,
  encode_backup, decode_backup, prefix_backup, Admin, encode_admin, decode_admin, prefix_admin,
  ListCallback, encode_list, decode_list, prefix_list, Menu, encode_menu, decode_menu, prefix_menu,
  event_flow_actions, event_card_actions, EventFlow, EventCard, flow, card, encode_flow,
  encode_card, decode_event, is_flow_action, is_card_action, prefix_event, Reminder,
  encode_reminder, decode_reminder, prefix_reminder, Template, encode_template, decode_template,
  prefix_template, Settings, encode_settings, decode_settings, prefix_settings,
}

-- An optional value that `Encode` keeps apart from an absent one: not empty, and without a colon.
abbrev pub IsValue : Option Text → Type 0
IsValue none = Unit
IsValue (some v) = (v ≢ []) × IsField v

abbrev pub IsId : Option ℤ → Type 0
IsId none = Unit
IsId (some z) = IsInt64 z

opt_str-IsField : (v : Option Text) → IsValue v → IsField (opt_str v)
opt_str-IsField none h = tt
opt_str-IsField (some v) h = h.1

parse_opt_str-opt_str : (v : Option Text) → IsValue v → parse_opt_str (opt_str v) ≡ v
parse_opt_str-opt_str none h = refl
parse_opt_str-opt_str (some []) h = absurd (h.0 refl)
parse_opt_str-opt_str (some (c ∷ s)) h = refl

digits-IsField : (s : Text) → IsDigits s → IsField s
digits-IsField [] h = tt
digits-IsField (c ∷ s) h = (ground (arith, h.0), digits-IsField s h.1)

format_int-IsField : (z : ℤ) → IsField (format_int z)
unfolding format_int
format_int-IsField (pos n) = digits-IsField _ (digits_of-IsDigits (suc n) n)
format_int-IsField (negsuc n) = (refl, digits-IsField _ (digits_of-IsDigits (suc (suc n)) (suc n)))

opt_int-IsField : (v : Option ℤ) → IsField (opt_int v)
opt_int-IsField none = tt
opt_int-IsField (some z) = format_int-IsField z

-- A text that `atoi` reads is not empty.
parse_some : (s : Text) (z : ℤ) → atoi s ≡ some z → parse_opt_int s ≡ some (some z)
unfolding atoi
parse_some [] z e = cc
parse_some (c ∷ s) z e = rw e refl

parse_opt_int-opt_int : (v : Option ℤ) → IsId v → parse_opt_int (opt_int v) ≡ some v
parse_opt_int-opt_int none h = refl
parse_opt_int-opt_int (some z) h = parse_some (format_int z) z (atoi-format_int z h)

-- The payloads of the menu, of the navigation and of the statistics carry an action alone, and are read
-- back if it has no colon.
pub actions_read_back :
    (m : Menu) (n : Nav) (t : Stats)
    → IsField m.action
    → IsField n.action
    → IsField t.action
    → (decode_menu (encode_menu m) ≡ some m)
      × (decode_nav (encode_nav n) ≡ some n)
      × (decode_stats (encode_stats t) ≡ some t)
unfolding decode_menu encode_menu decode_nav encode_nav decode_stats encode_stats
actions_read_back m n t hm hn ht = (
  rw (split-join prefix_menu (m.action ∷ []) ((refl, (refl, (refl, tt))), (hm, tt))) refl,
  rw (split-join prefix_nav (n.action ∷ []) ((refl, (refl, (refl, tt))), (hn, tt))) refl,
  rw (split-join prefix_stats (t.action ∷ []) ((refl, (refl, tt)), (ht, tt))) refl,
)

-- A reminder's payload is read back, if its action and its value have no colon, its value is not empty, and
-- its numbers are of 64 bits.
pub decode_reminder-encode_reminder :
    (c : Reminder)
    → IsField c.action
    → IsValue c.value
    → IsId c.event_id
    → IsId c.rule_id
    → decode_reminder (encode_reminder c) ≡ some c
unfolding decode_reminder encode_reminder
decode_reminder-encode_reminder c a v e r =
    rw
      (split-join prefix_reminder
        (c.action ∷ opt_str c.value ∷ opt_int c.event_id ∷ opt_int c.rule_id ∷ [])
        (
          (refl, (refl, (refl, tt))),
          (
            a,
            (
              opt_str-IsField c.value v,
              (opt_int-IsField c.event_id, (opt_int-IsField c.rule_id, tt)),
            ),
          ),
        ))
      (rw (parse_opt_int-opt_int c.event_id e)
        (rw (parse_opt_int-opt_int c.rule_id r) (rw (parse_opt_str-opt_str c.value v) refl)))

-- A template's payload is read back, under the same conditions.
pub decode_template-encode_template :
    (c : Template)
    → IsField c.action
    → IsValue c.value
    → IsId c.event_id
    → IsId c.exclude_id
    → decode_template (encode_template c) ≡ some c
unfolding decode_template encode_template
decode_template-encode_template c a v e x =
    rw
      (split-join prefix_template
        (c.action ∷ opt_str c.value ∷ opt_int c.event_id ∷ opt_int c.exclude_id ∷ [])
        (
          (refl, (refl, (refl, tt))),
          (
            a,
            (
              opt_str-IsField c.value v,
              (opt_int-IsField c.event_id, (opt_int-IsField c.exclude_id, tt)),
            ),
          ),
        ))
      (rw (parse_opt_int-opt_int c.event_id e)
        (rw (parse_opt_int-opt_int c.exclude_id x) (rw (parse_opt_str-opt_str c.value v) refl)))

-- The payloads of the settings, of the backups and of the administration carry an action and an optional
-- value, and are read back if neither has a colon and the value is not empty.
pub values_read_back :
    (c : Settings) (k : Backup) (d : Admin)
    → IsField c.action × IsValue c.value
    → IsField k.action × IsValue k.value
    → IsField d.action × IsValue d.value
    → (decode_settings (encode_settings c) ≡ some c)
      × (decode_backup (encode_backup k) ≡ some k)
      × (decode_admin (encode_admin d) ≡ some d)
unfolding decode_settings encode_settings decode_backup encode_backup decode_admin encode_admin
values_read_back c k d (ca, cv) (ka, kv) (da, dv) = (
  rw
      (split-join prefix_settings (c.action ∷ opt_str c.value ∷ [])
        ((refl, (refl, (refl, tt))), (ca, (opt_str-IsField c.value cv, tt))))
      (rw (parse_opt_str-opt_str c.value cv) refl),
  rw
      (split-join prefix_backup (k.action ∷ opt_str k.value ∷ [])
        ((refl, (refl, tt)), (ka, (opt_str-IsField k.value kv, tt))))
      (rw (parse_opt_str-opt_str k.value kv) refl),
  rw
      (split-join prefix_admin (d.action ∷ opt_str d.value ∷ [])
        ((refl, (refl, (refl, tt))), (da, (opt_str-IsField d.value dv, tt))))
      (rw (parse_opt_str-opt_str d.value dv) refl),
)

-- The payload of the lists is read back, if neither field has a colon; its value may be empty.
pub decode_list-encode_list :
    (c : ListCallback) → IsField c.action → IsField c.value → decode_list (encode_list c) ≡ some c
unfolding decode_list encode_list
decode_list-encode_list c a v =
    rw (split-join prefix_list (c.action ∷ c.value ∷ []) ((refl, (refl, tt)), (a, (v, tt)))) refl

-- A test that every entry of a table passes, a text that the table has passes.
registered :
    (p : Text → Bool) (a : Text) (xs : List Text)
    → any (text_eq a) xs ≡ true
    → any (λ x. not (p x)) xs ≡ false
    → p a ≡ true
registered p a [] h every = cc
registered p a (x ∷ xs) h every = elim (Bool-cases (text_eq a x)) [
  | inl same ↦ ground (arith, ap p ((text_eq_iff a x).0 same))
  | inr other ↦ registered p a xs (ground arith) (ground arith)
]

abbrev has_no_sep : Text → Bool
has_no_sep s = not (any (λ c. c == sep) s)

has_no_sep-IsField : (s : Text) → has_no_sep s ≡ true → IsField s
has_no_sep-IsField [] h = tt
has_no_sep-IsField (c ∷ s) h = (ground arith, has_no_sep-IsField s (ground arith))

flow_action-IsField : (a : Text) → is_flow_action a ≡ true → IsField a
unfolding event_flow_actions
flow_action-IsField a h = has_no_sep-IsField a (registered has_no_sep a event_flow_actions h refl)

card_action-IsField : (a : Text) → is_card_action a ≡ true → IsField a
unfolding event_card_actions
card_action-IsField a h = has_no_sep-IsField a (registered has_no_sep a event_card_actions h refl)

-- No action is in both tables.
pub card_action-flow_action : (a : Text) → is_card_action a ≡ true → not (is_flow_action a) ≡ true
unfolding event_card_actions event_flow_actions text_eq
card_action-flow_action a h = registered (λ b. not (is_flow_action b)) a event_card_actions h refl

decode_flow :
    (c : EventFlow)
    → is_flow_action c.action ≡ true
    → IsValue c.value
    → decode_event (join (prefix_event ∷ c.action ∷ opt_str c.value ∷ [])) ≡ some (flow c)
unfolding decode_event
decode_flow c known v =
    rw
      (split-join prefix_event (c.action ∷ opt_str c.value ∷ [])
        ((refl, (refl, tt)), (flow_action-IsField c.action known, (opt_str-IsField c.value v, tt))))
      (rw known (rw (parse_opt_str-opt_str c.value v) refl))

encoded :
    (c : EventFlow) (payload : Text)
    → is_flow_action c.action ≡ true
    → encode_flow c ≡ some payload
    → join (prefix_event ∷ c.action ∷ opt_str c.value ∷ []) ≡ payload
unfolding encode_flow
encoded c payload known e = ground arith

decode_card :
    (c : EventCard)
    → is_card_action c.action ≡ true
    → IsInt64 c.event_id
    → decode_event (join (prefix_event ∷ c.action ∷ format_int c.event_id ∷ [])) ≡ some (card c)
unfolding decode_event
decode_card c known v =
    let not_flow : is_flow_action c.action ≡ false =
      ground (arith, card_action-flow_action c.action known) in
    rw
      (split-join prefix_event (c.action ∷ format_int c.event_id ∷ []) (
        (refl, (refl, tt)),
        (card_action-IsField c.action known, (format_int-IsField c.event_id, tt)),
      ))
      (rw not_flow (rw known (rw (atoi-format_int c.event_id v) refl)))

encoded_card :
    (c : EventCard) (payload : Text)
    → is_card_action c.action ≡ true
    → encode_card c ≡ some payload
    → join (prefix_event ∷ c.action ∷ format_int c.event_id ∷ []) ≡ payload
unfolding encode_card
encoded_card c payload known e = ground arith

-- What the add and edit flows encode, the decoder of the shared prefix reads back as a flow payload, if the
-- value is not empty and has no colon.
pub decode_event-encode_flow :
    (c : EventFlow) (payload : Text)
    → IsValue c.value
    → encode_flow c ≡ some payload
    → decode_event payload ≡ some (flow c)
unfolding encode_flow decode_event
decode_event-encode_flow c payload v e = elim (Bool-cases (is_flow_action c.action)) [
  | inl known ↦
      subst (λ p. decode_event p ≡ some (flow c)) (encoded c payload known e)
        (decode_flow c known v)
  | inr unknown ↦ cc
]

-- What the card encodes is read back as a card payload, for an event number of 64 bits.
pub decode_event-encode_card :
    (c : EventCard) (payload : Text)
    → IsInt64 c.event_id
    → encode_card c ≡ some payload
    → decode_event payload ≡ some (card c)
unfolding encode_card decode_event
decode_event-encode_card c payload v e = elim (Bool-cases (is_card_action c.action)) [
  | inl known ↦
      subst (λ p. decode_event p ≡ some (card c)) (encoded_card c payload known e)
        (decode_card c known v)
  | inr unknown ↦ cc
]

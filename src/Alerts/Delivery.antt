-- ===== src/Alerts/Delivery.antt =====
-- What becomes of the event of a rule, by the number of its recipients.
use Prim.Native.String.{◌++◌ as text_append}
use Prim.Native.String.{char_at}
use it_asset_inventory.Alerts.Engine.{
  get_template, resolve_recipients, deliver, is_same_event, rule_scope, new_event, add_event,
  apply_rule, apply_rules, matches, apply_matching, trigger_alert, Rules, Trigger, triggered,
}
use it_asset_inventory.Alerts.Session.{
  commit, rollback, has_key, insert_rows, notification, save_notifications, create_notification,
  Tables, Session, Notice,
}
use it_asset_inventory.Alerts.Types.{AlertRule, AlertTemplate, AlertEvent}
use it_asset_inventory.Base.{
  ℕ, String, ◌≡◌, refl, ap, Bool, true, false, some, List, [], ◌∷◌, ◌++◌, arith, truthy, filter,
  any, truthy-append,
}
use text.Mathlib.TextPositions.{eq_refl}

-- The key of the notifications of an event.
abbrev pub event_key : Rules → AlertEvent → String
event_key e event = text_append "alert-event:" (text_append (e.str event.id) ":all")

abbrev pub event_notice : Rules → AlertEvent → Notice
event_notice e event = record {
  severity = event.severity;
  entity_id = some (e.str event.id);
  idempotency_key = some (event_key e event);
}

-- What a delivery leaves: nothing new without recipients; the event and the notification, committed, for one; and
-- for two or more the rows of the last commit.
abbrev pub delivered : Rules → AlertEvent → List ℕ → Session → Session
delivered e event [] s = s
delivered e event (i ∷ []) s = commit (record s {
  current = record s.current {
    notifications = s.current.notifications ++ notification (event_notice e event) i ∷ [];
  };
})
delivered e event (i ∷ j ∷ ids) s = rollback s

any-last :
    {A : Type 0} (p : A → Bool) (xs : List A) (x : A) → p x ≡ true → any p (xs ++ x ∷ []) ≡ true
any-last p [] x h = ground arith
any-last p (y ∷ xs) x h = ground (arith, any-last p xs x h)

deliver-delivered :
    (e : Rules) (event : AlertEvent) (ids : List ℕ) (s : Session)
    → any (has_key (event_key e event)) s.current.notifications ≡ false
    → deliver e event ids s ≡ some (delivered e event ids s)
unfolding deliver create_notification save_notifications insert_rows
deliver-delivered e event [] s n = refl
deliver-delivered e event (i ∷ []) s n =
    let key : truthy (event_key e event) ≡ true = truthy-append (char_at "a" 0) "lert-event:" _ in
    rw (key, n, deliver, create_notification, save_notifications, insert_rows) refl
deliver-delivered e event (i ∷ j ∷ ids) s n =
    let key : truthy (event_key e event) ≡ true = truthy-append (char_at "a" 0) "lert-event:" _ in
    let own : has_key (event_key e event) (notification (event_notice e event) i) ≡ true =
      eq_refl (event_key e event) in
    let taken =
      any-last (has_key (event_key e event)) s.current.notifications
        (notification (event_notice e event) i) own in
    rw (key, n, taken, deliver, create_notification, save_notifications, insert_rows) (rw key refl)

apply_rule-delivered :
    (e : Rules) (t : AlertTemplate) (c : Trigger) (rule : AlertRule) (s : Session) (scope : List ℕ)
    → let event = new_event e t rule c (resolve_recipients e t scope) s.next_id in
      rule_scope e rule c ≡ some scope
      → any (is_same_event rule c event.fingerprint) s.current.events ≡ false
      → any (has_key (event_key e event)) s.current.notifications ≡ false
      → apply_rule e t c rule s
        ≡ some (event ∷ [], delivered e event event.recipient_user_ids (add_event event s))
unfolding apply_rule
apply_rule-delivered e t c rule s scope r d k =
    let event = new_event e t rule c (resolve_recipients e t scope) s.next_id in
    let done = deliver-delivered e event event.recipient_user_ids (add_event event s) k in
    rw (r, d, done, apply_rule) refl

-- What the tables hold after the only rule of an alert.
abbrev pub stored : Rules → AlertEvent → List ℕ → Tables → Tables
stored e event [] tables = record tables { events = tables.events ++ event ∷ [] }
stored e event (i ∷ []) tables = record {
  events = tables.events ++ event ∷ [];
  notifications = tables.notifications ++ notification (event_notice e event) i ∷ [];
}
stored e event (i ∷ j ∷ ids) tables = tables

module _ (e : Rules) (t : AlertTemplate) (c : Trigger) (rule : AlertRule) (s : Session)
    (scope : List ℕ) where
  abbrev pub rule_event : AlertEvent
  rule_event = new_event e t rule c (resolve_recipients e t scope) s.next_id

  -- An alert that one rule is about, on an enabled template, in a session that holds what is committed, without an
  -- event for it today and with a key that is free: the event is returned, and what is committed depends on the
  -- number of recipients. Without one it is the event; with one, the event and the notification; with two or
  -- more nothing is stored, since their notifications have the same key, and nobody is told.
  pub trigger_alert-stored :
      get_template e.templates c.template_code ≡ some t
      → t.enabled ≡ true
      → filter (matches c) e.rules ≡ rule ∷ []
      → s.expired ≡ false
      → s.current ≡ s.committed
      → rule_scope e rule c ≡ some scope
      → any (is_same_event rule c rule_event.fingerprint) s.current.events ≡ false
      → any (has_key (event_key e rule_event)) s.current.notifications ≡ false
      → (after : Session) × (trigger_alert e c s ≡ triggered (rule_event ∷ []) after)
        × (after.committed ≡ stored e rule_event rule_event.recipient_user_ids s.committed)
  unfolding trigger_alert apply_matching apply_rules
  trigger_alert-stored g on m x same r d k =
      let ids = rule_event.recipient_user_ids in
      let one = apply_rule-delivered e t c rule s scope r d k in
      (
        commit (delivered e rule_event ids (add_event rule_event s)),
        simp (g, on, m, x, one, trigger_alert, apply_matching, apply_rules) refl,
        by_count ids same,
      )
    where
      by_count :
          (ids : List ℕ)
          → s.current ≡ s.committed
          → (commit (delivered e rule_event ids (add_event rule_event s))).committed
            ≡ stored e rule_event ids s.committed
      by_count [] q =
          let grown : Tables → Tables = λ tb. record tb { events = tb.events ++ rule_event ∷ [] } in
          ap grown q
      by_count (i ∷ []) q =
          let grown : Tables → Tables = λ tb. record {
            events = tb.events ++ rule_event ∷ [];
            notifications = tb.notifications ++ notification (event_notice e rule_event) i ∷ [];
          } in
          ap grown q
      by_count (i ∷ j ∷ ids) q = refl

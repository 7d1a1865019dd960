-- ===== src/Alerts/OncePerDay.antt =====
-- An alert makes at most one event for a rule, a machine and a day.
use it_asset_inventory.Alerts.Delivery.{event_notice}
use it_asset_inventory.Alerts.Engine.{
  get_template, resolve_recipients, deliver, is_same_event, rule_scope, new_event, add_event,
  apply_rule, apply_rules, matches, apply_matching, trigger_alert, Rules, Trigger, Triggered,
  raised, triggered,
}
use it_asset_inventory.Alerts.Session.{
  has_key, insert_rows, notification, save_notifications, create_notification, Session, Notice,
}
use it_asset_inventory.Alerts.Types.{AlertRule, AlertTemplate, AlertEvent}
use it_asset_inventory.Base.{
  ℕ, ◌≡◌, refl, inl, inr, Bool, false, ◌&&◌, Option, none, some, List, [], ◌∷◌, ◌++◌, map, arith,
  ◌==◌, Bool-cases, Option-cases, str_eq, truthy?, eq?, text_of, filter, any,
}

-- The event stands for the same rule, machine and fingerprint.
abbrev pub is_repeat : AlertEvent → AlertEvent → Bool
is_repeat a b =
    a.rule_id == b.rule_id && eq? a.machine_id b.machine_id && str_eq a.fingerprint b.fingerprint

-- No two events stand for the same rule, machine and fingerprint.
abbrev pub IsOnce : List AlertEvent → Type 0
IsOnce [] = Unit
IsOnce (x ∷ xs) = (any (λ y. is_repeat x y) xs ≡ false) × IsOnce xs

abbrev pub Once : Session → Type 0
Once s = IsOnce s.committed.events × IsOnce s.current.events

IsOnce-append :
    (xs : List AlertEvent) (x : AlertEvent)
    → any (λ y. is_repeat y x) xs ≡ false
    → IsOnce xs
    → IsOnce (xs ++ x ∷ [])
IsOnce-append [] x n o = (refl, tt)
IsOnce-append (y ∷ xs) x n (fresh, o) = (
  any-append_one (λ z. is_repeat y z) xs x fresh (ground arith),
  IsOnce-append xs x (ground arith) o,
)
  where
    any-append_one :
        (p : AlertEvent → Bool) (zs : List AlertEvent) (z : AlertEvent)
        → any p zs ≡ false
        → p z ≡ false
        → any p (zs ++ z ∷ []) ≡ false
    any-append_one p [] z a b = ground arith
    any-append_one p (w ∷ zs) z a b = ground (arith, any-append_one p zs z)

-- What is left of a session, if anything is.
abbrev OnceAfter : {A : Type 0} → (A → Session) → Option A → Type 0
OnceAfter session none = Unit
OnceAfter session (some a) = Once (session a)

create-Once :
    (n : Notice) (ids : List ℕ) (s : Session)
    → Once s
    → OnceAfter (λ done. done.0) (create_notification n ids s)
unfolding create_notification save_notifications
create-Once n [] s o = o
create-Once n (i ∷ ids) s o =
    elim (Bool-cases (
      truthy? n.idempotency_key
      && any (has_key (text_of n.idempotency_key)) s.current.notifications)) [
        | inl k ↦ rw (k, create_notification) o
        | inr k ↦
            elim (Option-cases
              (insert_rows (map (notification n) (i ∷ ids)) s.current.notifications)) [
                | inr (table, r) ↦ rw (k, r, create_notification, save_notifications) (o.1, o.1)
                | inl r ↦ elim (Bool-cases (truthy? n.idempotency_key)) [
                  | inl t ↦
                      rw (k, create_notification) (rw (r, save_notifications) (rw t (o.0, o.0)))
                  | inr t ↦ rw (k, create_notification) (rw (r, save_notifications) (rw t tt))
                ]
              ]
      ]

deliver-Once :
    (e : Rules) (event : AlertEvent) (ids : List ℕ) (s : Session)
    → Once s
    → OnceAfter (λ s'. s') (deliver e event ids s)
unfolding deliver
deliver-Once e event ids s o =
    elim (Option-cases (create_notification (event_notice e event) ids s)) [
      | inl n ↦ rw (n, deliver) tt
      | inr (done, n) ↦
          rw (n, deliver) (let kept = create-Once (event_notice e event) ids s o in rw n at kept)
    ]

apply_rule-Once :
    (e : Rules) (t : AlertTemplate) (c : Trigger) (rule : AlertRule) (s : Session)
    → Once s
    → OnceAfter (λ made. made.1) (apply_rule e t c rule s)
unfolding apply_rule
apply_rule-Once e t c rule s o = elim (Option-cases (rule_scope e rule c)) [
  | inl r ↦ rw (r, apply_rule) o
  | inr (scope, r) ↦
      let event = new_event e t rule c (resolve_recipients e t scope) s.next_id in
      elim (Bool-cases (any (is_same_event rule c event.fingerprint) s.current.events)) [
        | inl d ↦ rw (r, d, apply_rule) o
        | inr d ↦
            let grown : Once (add_event event s) =
              (o.0, IsOnce-append s.current.events event d o.1) in
            let kept = deliver-Once e event event.recipient_user_ids (add_event event s) grown in
            elim (Option-cases (deliver e event event.recipient_user_ids (add_event event s))) [
              | inl n ↦ rw (r, d, n, apply_rule) tt
              | inr (s', n) ↦ rw (r, d, n, apply_rule) (rw n at kept)
            ]
      ]
]

abbrev pub session_of : Triggered → Session
session_of (raised s) = s
session_of (triggered made s) = s

apply_rules-Once :
    (e : Rules) (t : AlertTemplate) (c : Trigger) (rules : List AlertRule) (made : List AlertEvent)
    (s : Session)
    → Once s
    → Once (session_of (apply_rules e t c rules made s))
unfolding apply_rules
apply_rules-Once e t c [] made s o = (o.1, o.1)
apply_rules-Once e t c (rule ∷ rules) made s o = elim (Bool-cases s.expired) [
  | inl x ↦ simp (x, apply_rules) o
  | inr x ↦ elim (Option-cases (apply_rule e t c rule s)) [
    | inl n ↦ simp (x, n, apply_rules) (o.0, o.0)
    | inr ((new, s'), n) ↦
        let kept = apply_rule-Once e t c rule s o in
        simp (x, n, apply_rules) (apply_rules-Once e t c rules (made ++ new) s' (rw n at kept))
  ]
]

-- If no two events stand for the same rule, machine and fingerprint, neither in what is committed nor in what the
-- session holds, none do after an alert, however it ends.
pub trigger_alert-Once :
    (e : Rules) (c : Trigger) (s : Session) → Once s → Once (session_of (trigger_alert e c s))
unfolding trigger_alert apply_matching
trigger_alert-Once e c s o = elim (Option-cases (get_template e.templates c.template_code)) [
  | inl n ↦ rw (n, trigger_alert) o
  | inr (t, n) ↦ elim (Bool-cases t.enabled) [
    | inr x ↦ simp (n, x, trigger_alert) o
    | inl x ↦ simp (n, x, trigger_alert) (some_rules t (filter (matches c) e.rules))
  ]
]
  where
    some_rules :
        (t : AlertTemplate) (rules : List AlertRule)
        → Once (session_of (apply_matching e t c rules s))
    some_rules t [] = o
    some_rules t (rule ∷ rules) = apply_rules-Once e t c (rule ∷ rules) [] s o

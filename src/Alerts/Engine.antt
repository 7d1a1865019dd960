-- ===== src/Alerts/Engine.antt =====
-- `AlertEngine` (server/app/services/alert_engine.py). The texts of templates are left out.
use Prim.Native.String.{◌++◌ as text_append}
use it_asset_inventory.Access.Orgs.{has, scope_orgs}
use it_asset_inventory.Access.Types.{is_super_admin, Organization, User}
use it_asset_inventory.Alerts.Session.{commit, rollback, create_notification, Session, Notice}
use it_asset_inventory.Alerts.Types.{AlertRule, AlertTemplate, AlertEvent, UserNotificationPref}
use it_asset_inventory.Base.{
  ℕ, ◌+◌, String, Bool, true, false, not, ◌&&◌, ◌||◌, Option, none, some, List, [], ◌∷◌, ◌++◌, map,
  ltb, ◌==◌, if◌then◌else◌, str_eq, truthy?, eq?, text_of, filter, find?, any, one_of,
}

abbrev pub org_admin_roles : List String
org_admin_roles = "org_admin" ∷ "admin_org" ∷ []

-- `SEVERITY_RANK.get(s, 0)`.
unfoldable pub severity_rank : String → ℕ
severity_rank s =
    if str_eq s "success"
    then 1
    else if str_eq s "warning"
    then 2
    else if str_eq s "error"
    then 3
    else if str_eq s "critical"
    then 4
    else 0

-- What the engine reads. `digest` is the hash of a rule, a machine, a template and a day, `str` prints a number.
pub record Rules : Type 0 where
  pub organizations : List Organization
  pub users : List User
  pub templates : List AlertTemplate
  pub rules : List AlertRule
  pub prefs : List UserNotificationPref
  pub digest : ℕ → Option ℕ → String → ℕ → String
  pub str : ℕ → String
  pub day : ℕ

-- `scope_orgs`, which always has a value.
abbrev pub scope_ids : List Organization → Option ℕ → String → List ℕ
scope_ids rows org_id mode = elim (scope_orgs rows org_id mode) [ none ↦ [] | some ids ↦ ids ]

-- `get_template`.
abbrev pub get_template : List AlertTemplate → String → Option AlertTemplate
get_template templates code = find? (λ t. str_eq t.code code) templates

-- `get_pref`.
abbrev pub is_pref : ℕ → String → UserNotificationPref → Bool
is_pref user code p = p.user_id == user && str_eq p.template_code code

abbrev pub get_pref : List UserNotificationPref → ℕ → String → Option UserNotificationPref
get_pref prefs user code = find? (is_pref user code) prefs

-- The administrator of an organisation has muted the alert, or asked for a higher severity.
unfoldable pub opts_out : AlertTemplate → Option UserNotificationPref → Bool
opts_out t none = false
opts_out t (some p) =
    p.muted
    || one_of "severity" t.opt_out_controls
      && truthy? p.min_severity
      && ltb (severity_rank t.default_severity) (severity_rank (text_of p.min_severity))

abbrev pub is_org_admin : List ℕ → User → Bool
is_org_admin scope u = u.is_active && one_of u.role org_admin_roles && has u.org_id scope

abbrev pub is_active_super : User → Bool
is_active_super u = u.is_active && is_super_admin u

abbrev pub has_id : ℕ → List User → Bool
has_id i users = any (λ u. u.id == i) users

-- The first user of every id.
unfoldable pub dedup : List User → List User → List User
dedup seen [] = []
dedup seen (u ∷ us) = elim (has_id u.id seen) [
  | true ↦ dedup seen us
  | false ↦ u ∷ dedup (u ∷ seen) us
]

-- `_resolve_recipients`.
unfoldable pub resolve_recipients : Rules → AlertTemplate → List ℕ → List User
resolve_recipients e t [] = []
resolve_recipients e t (o ∷ scope) =
    let org_admins = filter (is_org_admin (o ∷ scope)) e.users in
    let accepted = filter (λ u. not (opts_out t (get_pref e.prefs u.id t.code))) org_admins in
    dedup [] (accepted ++ filter is_active_super e.users)

-- `_deliver`.
unfoldable pub deliver : Rules → AlertEvent → List ℕ → Session → Option Session
deliver e event ids s =
    let id_text = e.str event.id in
    let notice : Notice = record {
      severity = event.severity;
      entity_id = some id_text;
      idempotency_key = some (text_append "alert-event:" (text_append id_text ":all"));
    } in
    elim (create_notification notice ids s) [ none ↦ none | some done ↦ some done.0 ]

-- What an alert is about.
pub record Trigger : Type 0 where
  pub template_code : String
  pub org_id : Option ℕ
  pub machine_id : Option ℕ

abbrev pub is_same_event : AlertRule → Trigger → String → AlertEvent → Bool
is_same_event rule c fp e =
    e.rule_id == rule.id && eq? e.machine_id c.machine_id && str_eq e.fingerprint fp

-- The organisations of a rule, `none` where the rule is not about the organisation of the alert.
unfoldable pub rule_scope : Rules → AlertRule → Trigger → Option (List ℕ)
rule_scope e rule c =
    if str_eq rule.scope_mode "system"
    then some (scope_ids e.organizations none "system")
    else elim rule.org_id [
      | none ↦ none
      | some o ↦
          let ids = scope_ids e.organizations (some o) rule.scope_mode in
          elim c.org_id [ none ↦ none | some org ↦ if has org ids then some ids else none ]
    ]

abbrev pub new_event : Rules → AlertTemplate → AlertRule → Trigger → List User → ℕ → AlertEvent
new_event e t rule c recipients i = record {
  id = i;
  rule_id = rule.id;
  template_code = c.template_code;
  machine_id = c.machine_id;
  org_id = c.org_id;
  fingerprint = e.digest rule.id c.machine_id c.template_code e.day;
  severity = t.default_severity;
  recipient_user_ids = map (λ (u : User). u.id) recipients;
}

-- `db.add(event)` and `db.flush()`.
abbrev pub add_event : AlertEvent → Session → Session
add_event event s = record s {
  current = record s.current { events = s.current.events ++ event ∷ [] };
  next_id = s.next_id + 1;
}

-- One rule: the event that it makes, if any, and the session; `none` where it raises.
unfoldable pub apply_rule :
    Rules → AlertTemplate → Trigger → AlertRule → Session → Option (List AlertEvent × Session)
apply_rule e t c rule s = elim (rule_scope e rule c) [
  | none ↦ some ([], s)
  | some scope ↦
      if any (is_same_event rule c (e.digest rule.id c.machine_id c.template_code e.day))
        s.current.events
      then some ([], s)
      else let recipients = resolve_recipients e t scope in
        let event = new_event e t rule c recipients s.next_id in
        elim (deliver e event event.recipient_user_ids (add_event event s)) [
          | none ↦ none
          | some s' ↦ some (event ∷ [], s')
        ]
]

-- What an alert ends in: the events, or an exception, with the session.
pub data Triggered : Type 0 where
  raised : Session → Triggered
  triggered : List AlertEvent → Session → Triggered

-- The loop over the rules. After a rollback the attributes of the next rule cannot be read.
unfoldable pub apply_rules :
    Rules → AlertTemplate → Trigger → List AlertRule → List AlertEvent → Session → Triggered
apply_rules e t c [] made s = triggered made (commit s)
apply_rules e t c (rule ∷ rules) made s =
    if s.expired then raised s else elim (apply_rule e t c rule s) [
      | none ↦ raised (rollback s)
      | some (new, s') ↦ apply_rules e t c rules (made ++ new) s'
    ]

abbrev pub matches : Trigger → AlertRule → Bool
matches c r = str_eq r.template_code c.template_code && r.enabled

-- No rule, no commit.
unfoldable pub apply_matching :
    Rules → AlertTemplate → Trigger → List AlertRule → Session → Triggered
apply_matching e t c [] s = triggered [] s
apply_matching e t c (rule ∷ rules) s = apply_rules e t c (rule ∷ rules) [] s

-- `trigger_alert`.
unfoldable pub trigger_alert : Rules → Trigger → Session → Triggered
trigger_alert e c s = elim (get_template e.templates c.template_code) [
  | none ↦ triggered [] s
  | some t ↦
      if not t.enabled then triggered [] s else apply_matching e t c (filter (matches c) e.rules) s
]

-- ===== src/Alerts/Tests.antt =====
-- The theorems on alerts at a concrete rule, with one administrator and one super administrator.
use it_asset_inventory.Access.Orgs.{scope_orgs}
use it_asset_inventory.Access.Types.{User}
use it_asset_inventory.Alerts.Controls.{AllowedAfter, upsert_prefs-Allowed}
use it_asset_inventory.Alerts.Delivery.{stored, rule_event, trigger_alert-stored}
use it_asset_inventory.Alerts.Engine.{
  severity_rank, opts_out, has_id, dedup, resolve_recipients, rule_scope, trigger_alert, Rules,
  Trigger, triggered,
}
use it_asset_inventory.Alerts.OncePerDay.{Once, session_of, trigger_alert-Once}
use it_asset_inventory.Alerts.Prefs.{upsert_prefs, PrefItem}
use it_asset_inventory.Alerts.Recipients.{AllDistinct, resolve_recipients_iff}
use it_asset_inventory.Alerts.Session.{Tables, Session}
use it_asset_inventory.Alerts.Told.{Told}
use it_asset_inventory.Alerts.Types.{AlertRule, AlertTemplate, AlertEvent, UserNotificationPref}
use it_asset_inventory.Base.{
  ℕ, String, ◌≡◌, refl, ◌↔◌, true, false, none, some, List, [], ◌∷◌, one_of,
}
use mathlib.Core.List.{Memᴰ}

abbrev user : ℕ → ℕ → String → User
user i org role = record {
  id = i;
  org_id = org;
  role = role;
  is_active = true;
  must_change_password = false;
}

abbrev template : AlertTemplate
template = record {
  code = "machine_offline";
  default_severity = "warning";
  opt_out_controls = "template" ∷ [];
  enabled = true;
}

abbrev rule : AlertRule
rule = record {
  id = 7;
  template_code = "machine_offline";
  org_id = some 1;
  scope_mode = "org_only";
  enabled = true;
}

abbrev muting : UserNotificationPref
muting = record {
  user_id = 12;
  template_code = "machine_offline";
  muted = true;
  min_severity = none;
}

abbrev engine : Rules
engine = record {
  organizations = [];
  users = user 10 1 "org_admin" ∷ user 11 1 "super_admin" ∷ user 12 1 "org_admin" ∷ [];
  templates = template ∷ [];
  rules = rule ∷ [];
  prefs = muting ∷ [];
  digest = λ r m t d. "h";
  str = λ i. "1";
  day = 20;
}

abbrev trigger : Trigger
trigger = record { template_code = "machine_offline"; org_id = some 1; machine_id = some 5 }

abbrev empty_tables : Tables
empty_tables = record { events = []; notifications = [] }

abbrev session : Session
session = record { committed = empty_tables; current = empty_tables; next_id = 1; expired = false }

resolve_recipients_iff_example :
    AllDistinct (resolve_recipients engine template (1 ∷ []))
    × ((i : ℕ)
        → (has_id i (resolve_recipients engine template (1 ∷ [])) ≡ true)
          ↔ ((u : User) × Memᴰ u engine.users × (u.id ≡ i) × Told engine template (1 ∷ []) u))
resolve_recipients_iff_example = resolve_recipients_iff engine template 1 []

abbrev choice : String → UserNotificationPref
choice s = record {
  user_id = 10;
  template_code = "machine_offline";
  muted = false;
  min_severity = some s;
}

abbrev open_template : AlertTemplate
open_template = record template { opt_out_controls = "severity" ∷ [] }

-- An alert that is a warning is declined by one who asks for errors, but not by one who asks for warnings.
errors_only : opts_out open_template (some (choice "error")) ≡ true
unfolding opts_out severity_rank one_of
errors_only = refl

warnings_too : opts_out open_template (some (choice "warning")) ≡ false
unfolding opts_out severity_rank one_of
warnings_too = refl

not_offered : opts_out template (some (choice "error")) ≡ false
unfolding opts_out severity_rank one_of
not_offered = refl

abbrev event : AlertEvent
event = rule_event engine template trigger rule session (1 ∷ [])

trigger_alert-stored_example :
    (after : Session) × (trigger_alert engine trigger session ≡ triggered (event ∷ []) after)
    × (after.committed ≡ stored engine event event.recipient_user_ids empty_tables)
unfolding rule_scope scope_orgs
trigger_alert-stored_example =
    trigger_alert-stored engine template trigger rule session (1 ∷ []) refl refl refl refl refl refl
      refl refl

-- Both administrators are told, so nothing is stored.
nothing_stored : stored engine event event.recipient_user_ids empty_tables ≡ empty_tables
unfolding resolve_recipients opts_out dedup one_of
nothing_stored = refl

trigger_alert-Once_example : Once (session_of (trigger_alert engine trigger session))
trigger_alert-Once_example = trigger_alert-Once engine trigger session (tt, tt)

abbrev items : List PrefItem
items =
    record { template_code = some "machine_offline"; muted = some true; min_severity = some none }
    ∷ []

upsert_prefs-Allowed_example :
    AllowedAfter engine.templates (upsert_prefs engine.templates 10 items engine.prefs)
unfolding one_of
upsert_prefs-Allowed_example =
    upsert_prefs-Allowed engine.templates 10 items engine.prefs ((template, refl, refl), tt)

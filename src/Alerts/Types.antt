-- ===== src/Alerts/Types.antt =====
-- The rows that alerts read and write (server/app/db/models.py). Titles and texts are left out.
use it_asset_inventory.Base.{ℕ, String, Bool, Option, List}

pub record AlertRule : Type 0 where
  pub id : ℕ
  pub template_code : String
  pub org_id : Option ℕ
  pub scope_mode : String
  pub enabled : Bool

pub record AlertTemplate : Type 0 where
  pub code : String
  pub default_severity : String
  pub opt_out_controls : List String
  pub enabled : Bool

pub record AlertEvent : Type 0 where
  pub id : ℕ
  pub rule_id : ℕ
  pub template_code : String
  pub machine_id : Option ℕ
  pub org_id : Option ℕ
  pub fingerprint : String
  pub severity : String
  pub recipient_user_ids : List ℕ

pub record UserNotificationPref : Type 0 where
  pub user_id : ℕ
  pub template_code : String
  pub muted : Bool
  pub min_severity : Option String

pub record Notification : Type 0 where
  pub recipient_id : ℕ
  pub severity : String
  pub entity_id : Option String
  pub idempotency_key : Option String

-- ===== src/Alerts/Prefs.antt =====
-- What users choose of alerts (`upsert_prefs` of server/app/services/user_notification_prefs.py). The time of a row
-- is left out.
use it_asset_inventory.Alerts.Engine.{get_template, is_pref, get_pref}
use it_asset_inventory.Alerts.Types.{AlertTemplate, UserNotificationPref}
use it_asset_inventory.Base.{
  ℕ, String, Bool, false, not, ◌&&◌, ◌||◌, Option, none, some, List, [], ◌∷◌, ◌++◌, if◌then◌else◌,
  truthy?, update, one_of,
}

-- An item of the request; `none` where a key is missing.
pub record PrefItem : Type 0 where
  pub template_code : Option String
  pub muted : Option Bool
  pub min_severity : Option (Option String)

pub data Upserted : Type 0 where
  not_found unprocessable : Upserted
  saved : List UserNotificationPref → Upserted

abbrev pub is_set : Option Bool → Bool
is_set none = false
is_set (some b) = b

abbrev pub joined_text : Option (Option String) → Option String
joined_text none = none
joined_text (some o) = o

-- What the template does not allow.
abbrev pub is_refused : AlertTemplate → PrefItem → Bool
is_refused t item =
    is_set item.muted && not (one_of "template" t.opt_out_controls)
    || truthy? (joined_text item.min_severity) && not (one_of "severity" t.opt_out_controls)

-- A new row, and a changed one.
abbrev pub new_pref : ℕ → String → PrefItem → UserNotificationPref
new_pref user code item = record {
  user_id = user;
  template_code = code;
  muted = is_set item.muted;
  min_severity = joined_text item.min_severity;
}

abbrev pub kept_muted : Option Bool → Bool → Bool
kept_muted none old = old
kept_muted (some b) old = b

abbrev pub kept_severity : Option (Option String) → Option String → Option String
kept_severity none old = old
kept_severity (some o) old = o

abbrev pub changed_pref : PrefItem → UserNotificationPref → UserNotificationPref
changed_pref item row = record row {
  muted = kept_muted item.muted row.muted;
  min_severity = kept_severity item.min_severity row.min_severity;
}

unfoldable pub put_pref :
    ℕ → String → PrefItem → List UserNotificationPref → List UserNotificationPref
put_pref user code item prefs = elim (get_pref prefs user code) [
  | none ↦ prefs ++ new_pref user code item ∷ []
  | some row ↦ update (is_pref user code) (changed_pref item) prefs
]

-- One item: `template.code == code` finds nothing where the code is missing.
unfoldable pub upsert_item :
    List AlertTemplate → ℕ → PrefItem → List UserNotificationPref → Upserted
upsert_item templates user item prefs = elim item.template_code [
  | none ↦ not_found
  | some code ↦ elim (get_template templates code) [
    | none ↦ not_found
    | some t ↦ if is_refused t item then unprocessable else saved (put_pref user code item prefs)
  ]
]

-- `upsert_prefs`. An error leaves the table as it was, since the commit comes last.
unfoldable pub upsert_prefs :
    List AlertTemplate → ℕ → List PrefItem → List UserNotificationPref → Upserted
upsert_prefs templates user [] prefs = saved prefs
upsert_prefs templates user (item ∷ items) prefs = elim (upsert_item templates user item prefs) [
  | not_found ↦ not_found
  | unprocessable ↦ unprocessable
  | saved prefs' ↦ upsert_prefs templates user items prefs'
]

-- ===== src/Alerts/Session.antt =====
-- The database session of an alert: what is committed, what the session holds, and `create_notification`
-- (server/app/services/notifications.py). Realtime and Telegram delivery are left out.
use it_asset_inventory.Alerts.Types.{AlertEvent, Notification}
use it_asset_inventory.Base.{
  ℕ, String, Bool, true, false, ◌&&◌, Option, none, some, List, [], ◌∷◌, ◌++◌, map, if◌then◌else◌,
  str_eq, truthy?, text_of, filter, any,
}

pub record Tables : Type 0 where
  pub events : List AlertEvent
  pub notifications : List Notification

-- `next_id` is the sequence of `alert_events`, which no rollback turns back; `expired` tells that the objects that
-- were loaded before a rollback can no longer be read.
pub record Session : Type 0 where
  pub committed : Tables
  pub current : Tables
  pub next_id : ℕ
  pub expired : Bool

abbrev pub commit : Session → Session
commit s = record s { committed = s.current }

abbrev pub rollback : Session → Session
rollback s = record s { current = s.committed; expired = true }

abbrev pub has_key : String → Notification → Bool
has_key k n = elim n.idempotency_key [ none ↦ false | some other ↦ str_eq other k ]

-- A row that breaks the unique constraint on `idempotency_key`.
abbrev pub is_taken : Option String → List Notification → Bool
is_taken none table = false
is_taken (some k) table = any (has_key k) table

-- The inserts of a flush, in their order; `none` where one breaks the constraint.
unfoldable pub insert_rows : List Notification → List Notification → Option (List Notification)
insert_rows [] table = some table
insert_rows (n ∷ ns) table =
    let rest = insert_rows ns (table ++ n ∷ []) in
    if is_taken n.idempotency_key table then none else rest

-- What a new notification says.
pub record Notice : Type 0 where
  pub severity : String
  pub entity_id : Option String
  pub idempotency_key : Option String

abbrev pub notification : Notice → ℕ → Notification
notification n rid = record {
  recipient_id = rid;
  severity = n.severity;
  entity_id = n.entity_id;
  idempotency_key = n.idempotency_key;
}

abbrev pub keyed : String → List Notification → List Notification
keyed k table = filter (has_key k) table

-- The commit of the new rows, or what follows when it raises.
unfoldable pub save_notifications :
    Notice → List Notification → Session → Option (Session × List Notification)
save_notifications n rows s = elim (insert_rows rows s.current.notifications) [
  | some table ↦
      some (commit (record s { current = record s.current { notifications = table } }), rows)
  | none ↦
      if truthy? n.idempotency_key
      then some (rollback s, keyed (text_of n.idempotency_key) s.committed.notifications)
      else none
]

-- `create_notification`; `none` where it raises.
unfoldable pub create_notification :
    Notice → List ℕ → Session → Option (Session × List Notification)
create_notification n [] s = some (s, [])
create_notification n (i ∷ ids) s =
    if truthy? n.idempotency_key
      && any (has_key (text_of n.idempotency_key)) s.current.notifications
    then some (s, [])
    else save_notifications n (map (notification n) (i ∷ ids)) s

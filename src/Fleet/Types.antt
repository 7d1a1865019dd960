-- ===== src/Fleet/Types.antt =====
-- What the life of a machine reads and writes of its row (server/app/db/models.py).
use it_asset_inventory.Base.{
  ℕ, ◌+◌, String, Bool, true, false, Option, none, some, List, ltb, ◌==◌, find?,
}
use it_asset_inventory.Enroll.Types.{MachineStatus, online, offline, lost, decommissioned, awaiting}

pub record Machine : Type 0 where
  pub id : ℕ
  pub org_id : ℕ
  pub status : MachineStatus
  pub last_seen_at : Option ℕ
  pub lifecycle : String
  pub note : Option String

abbrev pub is_online : MachineStatus → Bool
is_online online = true
is_online offline = false
is_online lost = false
is_online decommissioned = false
is_online awaiting = false

abbrev pub is_offline : MachineStatus → Bool
is_offline offline = true
is_offline online = false
is_offline lost = false
is_offline decommissioned = false
is_offline awaiting = false

abbrev pub is_decommissioned : MachineStatus → Bool
is_decommissioned decommissioned = true
is_decommissioned online = false
is_decommissioned offline = false
is_decommissioned lost = false
is_decommissioned awaiting = false

abbrev pub is_awaiting : MachineStatus → Bool
is_awaiting awaiting = true
is_awaiting online = false
is_awaiting offline = false
is_awaiting lost = false
is_awaiting decommissioned = false

-- The row with the key.
abbrev pub is_row : ℕ → Machine → Bool
is_row i m = m.id == i

abbrev pub machine_by_id : ℕ → List Machine → Option Machine
machine_by_id i rows = find? (is_row i) rows

-- The setting `effective_online_ttl_seconds`, with the margin of the monitor; and `lost_after_days` in seconds.
pub record Thresholds : Type 0 where
  pub online_ttl : ℕ
  pub lost_after : ℕ

abbrev pub offline_threshold : Thresholds → ℕ
offline_threshold t = t.online_ttl + 60

-- `last_seen_at` is missing or before the cutoff.
abbrev pub is_overdue : ℕ → ℕ → Option ℕ → Bool
is_overdue threshold now none = true
is_overdue threshold now (some seen) = ltb (seen + threshold) now

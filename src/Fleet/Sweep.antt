-- ===== src/Fleet/Sweep.antt =====
-- The sweeps of the monitor over the machines and the tokens (`_sweep_offline`, `_sweep_lost`, `_cleanup_tokens`
-- of server/app/services/monitor.py). Events for browsers are left out. What an alert does to the session of
-- the sweep is an argument.
use it_asset_inventory.Base.{
  ℕ, Bool, true, false, not, ◌&&◌, ◌||◌, List, [], ◌∷◌, ltb, filter, update,
}
use it_asset_inventory.Enroll.Types.{
  TokenStatus, EnrollToken, offline, lost, unused, used, revoked, expired,
}
use it_asset_inventory.Fleet.Types.{
  is_online, is_offline, is_row, offline_threshold, is_overdue, Machine, Thresholds,
}

-- The query of `_sweep_offline`.
abbrev pub goes_offline : Thresholds → ℕ → Machine → Bool
goes_offline t now m = is_online m.status && is_overdue (offline_threshold t) now m.last_seen_at

abbrev pub set_offline : Machine → Machine
set_offline m = record m { status = offline }

-- What the alert for a machine does to the session of the sweep: nothing, a commit, a rollback or a failure that takes
-- the rest of the sweep with it, or a commit and then such an end. After a rollback the rows that were loaded can no
-- longer be read.
pub data Aftermath : Type 0 where
  kept committed undone halted : Aftermath

-- `m.status = OFFLINE` for one row that the query found.
abbrev pub turned_off : Thresholds → ℕ → Machine → List Machine → List Machine
turned_off t now m rows = update (λ x. is_row m.id x && goes_offline t now x) set_offline rows

-- The loop over the rows that the query found. The rows that are committed come before those of the session.
unfoldable pub sweep_rows :
    (ℕ → Aftermath) → Thresholds → ℕ → List Machine → List Machine → List Machine → List Machine
sweep_rows alert t now [] stored rows = rows
sweep_rows alert t now (m ∷ found) stored rows =
    let swept = turned_off t now m rows in
    elim (alert m.id) [
      | kept ↦ sweep_rows alert t now found stored swept
      | committed ↦ sweep_rows alert t now found swept swept
      | undone ↦ stored
      | halted ↦ swept
    ]

-- `_sweep_offline`: what is committed in the end.
unfoldable pub sweep_offline : (ℕ → Aftermath) → Thresholds → ℕ → List Machine → List Machine
sweep_offline alert t now rows = sweep_rows alert t now (filter (goes_offline t now) rows) rows rows

-- The query of `_sweep_lost`.
abbrev pub goes_lost : Thresholds → ℕ → Machine → Bool
goes_lost t now m = is_offline m.status && is_overdue t.lost_after now m.last_seen_at

abbrev pub set_lost : Machine → Machine
set_lost m = record m { status = lost }

unfoldable pub sweep_lost : Thresholds → ℕ → List Machine → List Machine
sweep_lost t now rows = update (goes_lost t now) set_lost rows

-- The rows that `_cleanup_tokens` deletes.
abbrev pub is_stale_status : TokenStatus → Bool
is_stale_status expired = true
is_stale_status revoked = true
is_stale_status unused = false
is_stale_status used = false

abbrev pub is_stale : ℕ → EnrollToken → Bool
is_stale now t = ltb t.expires_at now || is_stale_status t.status

unfoldable pub cleanup_tokens : ℕ → List EnrollToken → List EnrollToken
cleanup_tokens now tokens = filter (λ t. not (is_stale now t)) tokens

-- ===== src/Fleet/Calls.antt =====
-- The calls that change a machine, one after another, in any order.
use it_asset_inventory.Base.{ℕ, String, Option, List, [], ◌∷◌}
use it_asset_inventory.Fleet.Beat.{heartbeat, Beats}
use it_asset_inventory.Fleet.Desk.{update_lifecycle, approve_machine, reject_machine}
use it_asset_inventory.Fleet.Sweep.{sweep_offline, sweep_lost, Aftermath}
use it_asset_inventory.Fleet.Types.{Machine, Thresholds}

pub data Call : Type 0 where
  beat : Option ℕ → ℕ → Option String → Option String → Call
  offline_sweep : (ℕ → Aftermath) → ℕ → Call
  lost_sweep : ℕ → Call
  move : List ℕ → ℕ → String → Option String → Call
  approve : List ℕ → ℕ → Option String → ℕ → Call
  reject : List ℕ → ℕ → Option String → Call

abbrev pub with_machines : List Machine → Beats → Beats
with_machines rows s = record s { machines = rows }

unfoldable pub step : Thresholds → Call → Beats → Beats
step t (beat i now ip body_ip) s = (heartbeat i now ip body_ip s).1
step t (offline_sweep alert now) s = with_machines (sweep_offline alert t now s.machines) s
step t (lost_sweep now) s = with_machines (sweep_lost t now s.machines) s
step t (move visible i l note) s = with_machines (update_lifecycle visible i l note s.machines).1 s
step t (approve visible i note now) s =
    with_machines (approve_machine t visible i note now s.machines).1 s
step t (reject visible i note) s = with_machines (reject_machine visible i note s.machines).1 s

unfoldable pub run : Thresholds → List Call → Beats → Beats
run t [] s = s
run t (c ∷ calls) s = run t calls (step t c s)

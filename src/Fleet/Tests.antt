-- ===== src/Fleet/Tests.antt =====
-- The theorems on the life of a machine at concrete machines and times.
use it_asset_inventory.Base.{
  ℕ, ◌≡◌, refl, ◌⊎◌, inl, inr, true, Option, none, some, List, [], ◌∷◌, arith, ◌==◌, if◌then◌else◌,
}
use it_asset_inventory.Enroll.Types.{MachineStatus, online, offline, decommissioned, awaiting}
use it_asset_inventory.Fleet.Approval.{beat_skips_approval}
use it_asset_inventory.Fleet.Beat.{
  beaten, heartbeat, inventory_gate, Beats, unknown_machine, declined_machine,
}
use it_asset_inventory.Fleet.Calls.{run, Call, beat, offline_sweep, lost_sweep, move, approve}
use it_asset_inventory.Fleet.Declined.{Declined-stays}
use it_asset_inventory.Fleet.Desk.{bad_request, approve_machine}
use it_asset_inventory.Fleet.Presence.{Fresh, run-Fresh}
use it_asset_inventory.Fleet.Sweep.{sweep_rows, sweep_offline, kept, committed, undone}
use it_asset_inventory.Fleet.Types.{is_online, machine_by_id, Machine, Thresholds}

abbrev limits : Thresholds
limits = record { online_ttl = 120; lost_after = 604800 }

abbrev machine : ℕ → MachineStatus → Option ℕ → Machine
machine i s seen = record {
  id = i;
  org_id = 4;
  status = s;
  last_seen_at = seen;
  lifecycle = "in_use";
  note = none;
}

abbrev fleet : List Machine → Beats
fleet rows = record { machines = rows; heartbeats = []; marks = record { rescan = some (1 ∷ []) } }

abbrev calls : List Call
calls =
    beat (some 1) 100 none none
    ∷ offline_sweep (λ _. kept) 130
    ∷ approve (4 ∷ []) 1 none 140
    ∷ move (4 ∷ []) 1 "in_use" none
    ∷ lost_sweep 150
    ∷ []

Declined-stays_example :
    (inventory_gate
        (some 1)
        (run limits calls (fleet (machine 1 decommissioned none ∷ []))).machines
      ≡ unknown_machine)
    ⊎ (inventory_gate
          (some 1)
          (run limits calls (fleet (machine 1 decommissioned none ∷ []))).machines
        ≡ declined_machine)
Declined-stays_example =
    Declined-stays 1 limits calls (fleet (machine 1 decommissioned none ∷ [])) refl

abbrev beats : List Call
beats =
    offline_sweep (λ _. committed) 270
    ∷ beat (some 2) 275 none none
    ∷ beat (some 1) 280 none none
    ∷ offline_sweep (λ i. if i == 2 then undone else kept) 460
    ∷ lost_sweep 461
    ∷ []

abbrev pair : Beats
pair = fleet (machine 1 online (some 100) ∷ machine 2 offline (some 1) ∷ [])

run-Fresh_example : Fresh 1 280 (run limits beats pair).machines
run-Fresh_example =
    run-Fresh limits 1 100 beats pair refl
      (omega arith, inr (λ e. absurd (omega arith), inl (refl, omega arith, (omega arith, tt))))

beat_skips_approval_example :
    let s = fleet (machine 1 awaiting none ∷ []) in
    let after = (heartbeat (some 1) 100 none none s).1.machines in
    (machine_by_id 1 after ≡ some (beaten 100 (machine 1 awaiting none)))
    × (is_online (beaten 100 (machine 1 awaiting none)).status ≡ true)
    × (approve_machine limits (4 ∷ []) 1 none 200 after ≡ (bad_request, after))
beat_skips_approval_example =
    beat_skips_approval limits (4 ∷ []) 1 100 200 none none none
      (fleet (machine 1 awaiting none ∷ [])) (machine 1 awaiting none) refl refl refl

abbrev stale : List Machine
stale = machine 1 online (some 1) ∷ machine 2 online (some 1) ∷ machine 3 online (some 1) ∷ []

-- An alert that is rolled back leaves what was committed before, and ends the sweep.
half_swept :
    sweep_offline
      (λ i. if i == 1 then committed else if i == 2 then undone else kept)
      limits
      900
      stale
    ≡ machine 1 offline (some 1) ∷ machine 2 online (some 1) ∷ machine 3 online (some 1) ∷ []
unfolding sweep_offline sweep_rows
half_swept = refl

all_swept :
    sweep_offline (λ _. kept) limits 900 stale
    ≡ machine 1 offline (some 1) ∷ machine 2 offline (some 1) ∷ machine 3 offline (some 1) ∷ []
unfolding sweep_offline sweep_rows
all_swept = refl

-- ===== src/Fleet/Beat.antt =====
-- `heartbeat` (server/app/api/routes/heartbeat.py) and the gate of `submit_inventory`
-- (server/app/api/routes/inventory.py). The settings in the answer are left out.
use it_asset_inventory.Base.{
  ℕ, String, Bool, false, not, ◌&&◌, ◌||◌, Option, none, some, List, [], ◌∷◌, ◌++◌, ◌==◌,
  if◌then◌else◌, text_or, filter, update,
}
use it_asset_inventory.Enroll.Types.{MachineStatus, online, offline, lost, decommissioned, awaiting}
use it_asset_inventory.Fleet.Types.{is_online, is_decommissioned, is_row, machine_by_id, Machine}

-- The mark that an administrator has asked for a rescan is kept per machine; `none` where Redis does not answer.
pub record Marks : Type 0 where
  pub rescan : Option (List ℕ)

abbrev pub marked : ℕ → List ℕ → Bool
marked i [] = false
marked i (x ∷ xs) = x == i || marked i xs

abbrev pub unmark : ℕ → List ℕ → List ℕ
unmark i xs = filter (λ x. not (x == i)) xs

abbrev pub rescan_asked : ℕ → Marks → Bool
rescan_asked i k = elim k.rescan [ none ↦ false | some xs ↦ marked i xs ]

abbrev pub rescan_taken : ℕ → Marks → Marks
rescan_taken i k = elim k.rescan [ none ↦ k | some xs ↦ record { rescan = some (unmark i xs) } ]

-- A row of `heartbeats`.
pub record Heartbeat : Type 0 where
  pub machine_id : ℕ
  pub ts : ℕ
  pub ip : Option String

pub record Beats : Type 0 where
  pub machines : List Machine
  pub heartbeats : List Heartbeat
  pub marks : Marks

-- The answer: whether a rescan is asked for and whether the machine's coming online is published.
pub data BeatResponse : Type 0 where
  unauthorized : BeatResponse
  accepted : Bool → Bool → BeatResponse

abbrev pub beat_status : MachineStatus → MachineStatus
beat_status decommissioned = decommissioned
beat_status online = online
beat_status offline = online
beat_status lost = online
beat_status awaiting = online

-- The row after a heartbeat.
abbrev pub beaten : ℕ → Machine → Machine
beaten now m = record m { last_seen_at = some now; status = beat_status m.status }

-- `heartbeat`. The identity is `none` where it is no identifier; `ip` is the address of the request.
unfoldable pub heartbeat :
    Option ℕ → ℕ → Option String → Option String → Beats → BeatResponse × Beats
heartbeat none now ip body_ip s = (unauthorized, s)
heartbeat (some i) now ip body_ip s = elim (machine_by_id i s.machines) [
  | none ↦ (unauthorized, s)
  | some m ↦
      let new = beaten now m in
      let row : Heartbeat = record { machine_id = i; ts = now; ip = text_or ip body_ip } in
      (
        accepted (rescan_asked i s.marks) (not (is_online m.status) && is_online new.status),
        record {
          machines = update (is_row i) (beaten now) s.machines;
          heartbeats = s.heartbeats ++ row ∷ [];
          marks = rescan_taken i s.marks;
        },
      )
]

pub data InventoryGate : Type 0 where
  unknown_machine declined_machine open_gate : InventoryGate

-- The checks of `submit_inventory` before anything is stored.
unfoldable pub inventory_gate : Option ℕ → List Machine → InventoryGate
inventory_gate none machines = unknown_machine
inventory_gate (some i) machines = elim (machine_by_id i machines) [
  | none ↦ unknown_machine
  | some m ↦ if is_decommissioned m.status then declined_machine else open_gate
]

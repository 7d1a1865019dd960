-- ===== src/Fleet/KeptOut.antt =====
-- What each call that changes a machine leaves of one that was declined.
use it_asset_inventory.Access.Orgs.{has}
use it_asset_inventory.Base.{
  ℕ, String, ◌≡◌, refl, inl, inr, Bool, true, false, not, ◌&&◌, ◌||◌, Option, none, some, List,
  arith, Bool-cases, Option-cases, Sum-cases, str_eq, truthy?, all, all-update, all-find?, one_of,
}
use it_asset_inventory.Enroll.Types.{MachineStatus, online, offline, lost, decommissioned, awaiting}
use it_asset_inventory.Fleet.Beat.{beat_status, beaten, heartbeat, Beats}
use it_asset_inventory.Fleet.Desk.{
  get_machine_in_scope, put_machine, lifecycles, with_note, with_lifecycle, update_lifecycle,
  approve_machine, reject_machine,
}
use it_asset_inventory.Fleet.Sweep.{sweep_offline, goes_lost, set_lost, sweep_lost, Aftermath}
use it_asset_inventory.Fleet.Swept.{all-sweep_offline}
use it_asset_inventory.Fleet.Types.{
  is_online, is_offline, is_decommissioned, is_awaiting, is_row, machine_by_id, Machine, Thresholds,
}

-- Every row of the machine is decommissioned.
abbrev pub is_kept_out : ℕ → Machine → Bool
is_kept_out i m = not (is_row i m) || is_decommissioned m.status

abbrev pub Declined : ℕ → List Machine → Type 0
Declined i rows = all (is_kept_out i) rows ≡ true

decommissioned_iff : (s : MachineStatus) → is_decommissioned s ≡ true → s ≡ decommissioned
decommissioned_iff decommissioned h = refl
decommissioned_iff online h = cc
decommissioned_iff offline h = cc
decommissioned_iff lost h = cc
decommissioned_iff awaiting h = cc

beat_status-decommissioned :
    (s : MachineStatus) → is_decommissioned (beat_status s) ≡ is_decommissioned s
beat_status-decommissioned decommissioned = refl
beat_status-decommissioned online = refl
beat_status-decommissioned offline = refl
beat_status-decommissioned lost = refl
beat_status-decommissioned awaiting = refl

pub heartbeat-Declined :
    (i : ℕ) (id : Option ℕ) (now : ℕ) (ip body_ip : Option String) (s : Beats)
    → Declined i s.machines
    → Declined i (heartbeat id now ip body_ip s).1.machines
unfolding heartbeat
heartbeat-Declined i none now ip body_ip s d = d
heartbeat-Declined i (some j) now ip body_ip s d =
    elim (Option-cases (machine_by_id j s.machines)) [
      | inl n ↦ rw (n, heartbeat) d
      | inr (m, n) ↦
          rw (n, heartbeat)
            (all-update (is_kept_out i) (is_row j) (beaten now) s.machines
              (λ x h q. ground (arith, beat_status-decommissioned x.status)) d)
    ]

put-Declined :
    (i : ℕ) (m : Machine) (rows : List Machine)
    → is_kept_out i m ≡ true
    → Declined i rows
    → Declined i (put_machine m rows)
put-Declined i m rows k d = all-update (is_kept_out i) (is_row m.id) (λ _. m) rows (λ x h q. k) d

-- What an administrator finds.
scope-found :
    (visible : List ℕ) (j : ℕ) (rows : List Machine) (m : Machine)
    → get_machine_in_scope visible j rows ≡ inr m
    → machine_by_id j rows ≡ some m
unfolding get_machine_in_scope
scope-found visible j rows m e = elim (Option-cases (machine_by_id j rows)) [
  | inl n ↦ let e' = rw (n, get_machine_in_scope) at e in cc
  | inr (x, n) ↦ elim (Bool-cases (has x.org_id visible)) [
    | inl h ↦ let e' = rw (n, h, get_machine_in_scope) at e in cc
    | inr h ↦ let e' = rw (n, h, get_machine_in_scope) at e in cc
  ]
]

online_not_declined : (s : MachineStatus) → is_online s && is_decommissioned s ≡ false
online_not_declined decommissioned = refl
online_not_declined online = refl
online_not_declined offline = refl
online_not_declined lost = refl
online_not_declined awaiting = refl

offline_not_declined : (s : MachineStatus) → is_offline s && is_decommissioned s ≡ false
offline_not_declined decommissioned = refl
offline_not_declined online = refl
offline_not_declined offline = refl
offline_not_declined lost = refl
offline_not_declined awaiting = refl

awaiting_not_declined : (s : MachineStatus) → is_awaiting s && is_decommissioned s ≡ false
awaiting_not_declined decommissioned = refl
awaiting_not_declined online = refl
awaiting_not_declined offline = refl
awaiting_not_declined lost = refl
awaiting_not_declined awaiting = refl

pub sweep_offline-Declined :
    (i : ℕ) (alert : ℕ → Aftermath) (t : Thresholds) (now : ℕ) (rows : List Machine)
    → Declined i rows
    → Declined i (sweep_offline alert t now rows)
sweep_offline-Declined i alert t now rows d =
    all-sweep_offline (is_kept_out i) alert t now rows
      (λ x h q. ground (arith, online_not_declined x.status)) d

pub sweep_lost-Declined :
    (i : ℕ) (t : Thresholds) (now : ℕ) (rows : List Machine)
    → Declined i rows
    → Declined i (sweep_lost t now rows)
unfolding sweep_lost
sweep_lost-Declined i t now rows d =
    all-update (is_kept_out i) (goes_lost t now) set_lost rows
      (λ x h q. ground (arith, offline_not_declined x.status)) d

with_lifecycle-kept :
    (i : ℕ) (l : String) (why : Option String) (m : Machine)
    → is_kept_out i m ≡ true
    → is_kept_out i (with_note why (with_lifecycle l m)) ≡ true
with_lifecycle-kept i l why m k = elim (Bool-cases (str_eq l "decommissioned")) [
  | inl h ↦ elim (Bool-cases (truthy? why)) [
    | inl n ↦ rw (h, n) (ground arith)
    | inr n ↦ rw (h, n) (ground arith)
  ]
  | inr h ↦ elim (Bool-cases (truthy? why)) [ inl n ↦ rw (h, n) k | inr n ↦ rw (h, n) k ]
]

pub update_lifecycle-Declined :
    (i : ℕ) (visible : List ℕ) (j : ℕ) (l : String) (why : Option String) (rows : List Machine)
    → Declined i rows
    → Declined i (update_lifecycle visible j l why rows).1
unfolding update_lifecycle
update_lifecycle-Declined i visible j l why rows d = elim (Bool-cases (one_of l lifecycles)) [
  | inr h ↦ rw (h, update_lifecycle) d
  | inl h ↦ elim (Sum-cases (get_machine_in_scope visible j rows)) [
    | inl (r, g) ↦ rw (h, g, update_lifecycle) d
    | inr (m, g) ↦
        let found =
          all-find? (is_kept_out i) (is_row j) rows m d (scope-found visible j rows m g) in
        rw (h, g, update_lifecycle)
          (put-Declined i (with_note why (with_lifecycle l m)) rows
            (with_lifecycle-kept i l why m found.0) d)
  ]
]

pub approve_machine-Declined :
    (i : ℕ) (t : Thresholds) (visible : List ℕ) (j : ℕ) (why : Option String) (now : ℕ)
    (rows : List Machine)
    → Declined i rows
    → Declined i (approve_machine t visible j why now rows).1
unfolding approve_machine
approve_machine-Declined i t visible j why now rows d =
    elim (Sum-cases (get_machine_in_scope visible j rows)) [
      | inl (r, g) ↦ rw (g, approve_machine) d
      | inr (m, g) ↦
          let found =
            all-find? (is_kept_out i) (is_row j) rows m d (scope-found visible j rows m g) in
          elim (Bool-cases (is_awaiting m.status)) [
            | inr a ↦ rw (g, a, approve_machine) d
            | inl a ↦
                let other : is_row i m ≡ false =
                  ground (arith, awaiting_not_declined m.status, found.0) in
                elim (Bool-cases (truthy? why)) [
                  | inl n ↦ rw (g, a, n, approve_machine) (put-Declined i _ rows (ground arith) d)
                  | inr n ↦ rw (g, a, n, approve_machine) (put-Declined i _ rows (ground arith) d)
                ]
          ]
    ]

pub reject_machine-Declined :
    (i : ℕ) (visible : List ℕ) (j : ℕ) (why : Option String) (rows : List Machine)
    → Declined i rows
    → Declined i (reject_machine visible j why rows).1
unfolding reject_machine
reject_machine-Declined i visible j why rows d =
    elim (Sum-cases (get_machine_in_scope visible j rows)) [
      | inl (r, g) ↦ rw (g, reject_machine) d
      | inr (m, g) ↦ rw (g, reject_machine) (put-Declined i _ rows (ground arith) d)
    ]

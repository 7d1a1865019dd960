-- ===== src/Fleet/Declined.antt =====
-- A machine that was declined stays declined.
use it_asset_inventory.Base.{
  ℕ, ◌≡◌, refl, ◌⊎◌, inl, inr, true, some, List, [], ◌∷◌, arith, Option-cases, all-find?,
}
use it_asset_inventory.Fleet.Beat.{inventory_gate, Beats, unknown_machine, declined_machine}
use it_asset_inventory.Fleet.Calls.{
  step, run, Call, beat, offline_sweep, lost_sweep, move, approve, reject,
}
use it_asset_inventory.Fleet.KeptOut.{
  is_kept_out, Declined, heartbeat-Declined, sweep_offline-Declined, sweep_lost-Declined,
  update_lifecycle-Declined, approve_machine-Declined, reject_machine-Declined,
}
use it_asset_inventory.Fleet.Types.{is_decommissioned, is_row, machine_by_id, Thresholds}

step-Declined :
    (i : ℕ) (t : Thresholds) (c : Call) (s : Beats)
    → Declined i s.machines
    → Declined i (step t c s).machines
unfolding step
step-Declined i t (beat id now ip body_ip) s d = heartbeat-Declined i id now ip body_ip s d
step-Declined i t (offline_sweep alert now) s d = sweep_offline-Declined i alert t now s.machines d
step-Declined i t (lost_sweep now) s d = sweep_lost-Declined i t now s.machines d
step-Declined i t (move visible j l why) s d =
    update_lifecycle-Declined i visible j l why s.machines d
step-Declined i t (approve visible j why now) s d =
    approve_machine-Declined i t visible j why now s.machines d
step-Declined i t (reject visible j why) s d = reject_machine-Declined i visible j why s.machines d

run-Declined :
    (i : ℕ) (t : Thresholds) (calls : List Call) (s : Beats)
    → Declined i s.machines
    → Declined i (run t calls s).machines
unfolding run
run-Declined i t [] s d = d
run-Declined i t (c ∷ calls) s d = run-Declined i t calls (step t c s) (step-Declined i t c s d)

-- A machine that was declined stays so: whatever heartbeats, sweeps and decisions of administrators follow, in any
-- number and order, its inventory is never accepted.
pub Declined-stays :
    (i : ℕ) (t : Thresholds) (calls : List Call) (s : Beats)
    → Declined i s.machines
    → (inventory_gate (some i) (run t calls s).machines ≡ unknown_machine)
      ⊎ (inventory_gate (some i) (run t calls s).machines ≡ declined_machine)
unfolding inventory_gate
Declined-stays i t calls s d =
    let rows = (run t calls s).machines in
    elim (Option-cases (machine_by_id i rows)) [
      | inl n ↦ inl (rw (n, inventory_gate) refl)
      | inr (m, n) ↦
          let found = all-find? (is_kept_out i) (is_row i) rows m (run-Declined i t calls s d) n in
          let out : is_decommissioned m.status ≡ true = ground (arith, found.0, found.1) in
          inr (rw (n, inventory_gate) (rw out refl))
    ]

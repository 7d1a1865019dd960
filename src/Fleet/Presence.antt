-- ===== src/Fleet/Presence.antt =====
-- A machine whose heartbeats come in time is shown online.
use it_asset_inventory.Base.{
  ℕ, ◌+◌, ◌≤◌, String, ◌≡◌, refl, sym, subst, ◌≢◌, ◌⊎◌, inl, inr, Bool, true, false, not, ◌&&◌,
  ◌||◌, Option, none, some, List, [], ◌∷◌, arith, ◌==◌, if◌then◌else◌, Bool-cases, Option-cases,
  find?, all, update, all-update,
}
use it_asset_inventory.Enroll.Types.{MachineStatus, online, offline, lost, decommissioned, awaiting}
use it_asset_inventory.Fleet.Beat.{beat_status, beaten, heartbeat, Beats}
use it_asset_inventory.Fleet.Calls.{
  step, run, Call, beat, offline_sweep, lost_sweep, move, approve, reject,
}
use it_asset_inventory.Fleet.Sweep.{sweep_offline, goes_lost, set_lost, sweep_lost, Aftermath}
use it_asset_inventory.Fleet.Swept.{all-sweep_offline}
use it_asset_inventory.Fleet.Types.{
  is_online, is_offline, is_row, machine_by_id, offline_threshold, is_overdue, Machine, Thresholds,
}

-- Every row of the machine is online, and was seen at the time or later.
abbrev pub is_fresh : ℕ → ℕ → Machine → Bool
is_fresh i last m = not (is_row i m) || is_online m.status && not (is_overdue 0 last m.last_seen_at)

abbrev pub Fresh : ℕ → ℕ → List Machine → Type 0
Fresh i last rows = all (is_fresh i last) rows ≡ true

-- The heartbeats of the machine come at times that do not go back, and each sweep for machines that went offline
-- comes at most the threshold after the last one; no administrator acts.
abbrev pub InTime : Thresholds → ℕ → ℕ → List Call → Type 0
InTime t i last [] = Unit
InTime t i last (beat none now ip body_ip ∷ calls) = InTime t i last calls
InTime t i last (beat (some j) now ip body_ip ∷ calls) =
    ((j ≡ i) × (last ≤ now) × InTime t i now calls) ⊎ ((j ≢ i) × InTime t i last calls)
InTime t i last (offline_sweep alert now ∷ calls) =
    (now ≤ last + offline_threshold t) × InTime t i last calls
InTime t i last (lost_sweep now ∷ calls) = InTime t i last calls
InTime t i last (move visible j l why ∷ calls) = ⊥
InTime t i last (approve visible j why now ∷ calls) = ⊥
InTime t i last (reject visible j why ∷ calls) = ⊥

-- The time of the last heartbeat of the machine.
abbrev pub last_beat : ℕ → ℕ → List Call → ℕ
last_beat i last [] = last
last_beat i last (beat (some j) now ip body_ip ∷ calls) =
    last_beat i (if j == i then now else last) calls
last_beat i last (beat none now ip body_ip ∷ calls) = last_beat i last calls
last_beat i last (offline_sweep alert now ∷ calls) = last_beat i last calls
last_beat i last (lost_sweep now ∷ calls) = last_beat i last calls
last_beat i last (move visible j l why ∷ calls) = last_beat i last calls
last_beat i last (approve visible j why now ∷ calls) = last_beat i last calls
last_beat i last (reject visible j why ∷ calls) = last_beat i last calls

online_beat : (s : MachineStatus) → is_online s ≡ true → is_online (beat_status s) ≡ true
online_beat online h = refl
online_beat offline h = cc
online_beat lost h = cc
online_beat decommissioned h = cc
online_beat awaiting h = cc

online_not_offline : (s : MachineStatus) → is_online s && is_offline s ≡ false
online_not_offline online = refl
online_not_offline offline = refl
online_not_offline lost = refl
online_not_offline decommissioned = refl
online_not_offline awaiting = refl

overdue_later :
    (threshold last now : ℕ) (seen : Option ℕ)
    → not (is_overdue 0 last seen) ≡ true
    → now ≤ last + threshold
    → is_overdue threshold now seen ≡ false
overdue_later threshold last now none h l = cc
overdue_later threshold last now (some s) h l = ground arith

all-changed :
    {A : Type 0} (q r p : A → Bool) (f : A → A) (xs : List A)
    → ((x : A) → p x ≡ true → q x ≡ true → r (f x) ≡ true)
    → ((x : A) → p x ≡ false → r x ≡ true)
    → all q xs ≡ true
    → all r (update p f xs) ≡ true
all-changed q r p f [] hit miss a = refl
all-changed q r p f (x ∷ xs) hit miss a = elim (Bool-cases (p x)) [
  | inl h ↦
      let first : r (f x) ≡ true = hit x h (ground arith) in
      rw h (ground (arith, all-changed q r p f xs hit miss))
  | inr h ↦
      let first : r x ≡ true = miss x h in rw h (ground (arith, all-changed q r p f xs hit miss))
]

all_missing :
    {A : Type 0} (r p : A → Bool) (xs : List A)
    → find? p xs ≡ none
    → ((x : A) → p x ≡ false → r x ≡ true)
    → all r xs ≡ true
all_missing r p [] n miss = refl
all_missing r p (x ∷ xs) n miss = elim (Bool-cases (p x)) [
  | inl h ↦ let n' = rw h at n in cc
  | inr h ↦
      let first : r x ≡ true = miss x h in
      let later = all_missing r p xs (rw h at n) miss in ground arith
]

heartbeat-Fresh :
    (i last now : ℕ) (ip body_ip : Option String) (s : Beats)
    → Fresh i last s.machines
    → Fresh i now (heartbeat (some i) now ip body_ip s).1.machines
unfolding heartbeat
heartbeat-Fresh i last now ip body_ip s f = elim (Option-cases (machine_by_id i s.machines)) [
  | inl n ↦
      rw (n, heartbeat) (all_missing (is_fresh i now) (is_row i) s.machines n (λ x h. ground arith))
  | inr (m, n) ↦
      rw (n, heartbeat)
        (all-changed (is_fresh i last) (is_fresh i now) (is_row i) (beaten now) s.machines
          (λ x h q. ground (arith, online_beat x.status)) (λ x h. ground arith) f)
]

other_beat-Fresh :
    (i j last now : ℕ) (ip body_ip : Option String) (s : Beats)
    → j ≢ i
    → Fresh i last s.machines
    → Fresh i last (heartbeat (some j) now ip body_ip s).1.machines
unfolding heartbeat
other_beat-Fresh i j last now ip body_ip s d f = elim (Option-cases (machine_by_id j s.machines)) [
  | inl n ↦ rw (n, heartbeat) f
  | inr (m, n) ↦
      rw (n, heartbeat)
        (all-update (is_fresh i last) (is_row j) (beaten now) s.machines
          (λ x h q. ground (arith, d)) f)
]

sweep_offline-Fresh :
    (i last now : ℕ) (alert : ℕ → Aftermath) (t : Thresholds) (rows : List Machine)
    → now ≤ last + offline_threshold t
    → Fresh i last rows
    → Fresh i last (sweep_offline alert t now rows)
sweep_offline-Fresh i last now alert t rows l f =
    all-sweep_offline (is_fresh i last) alert t now rows
      (λ x h q. ground (arith, overdue_later (offline_threshold t) last now x.last_seen_at)) f

sweep_lost-Fresh :
    (i last now : ℕ) (t : Thresholds) (rows : List Machine)
    → Fresh i last rows
    → Fresh i last (sweep_lost t now rows)
unfolding sweep_lost
sweep_lost-Fresh i last now t rows f =
    all-update (is_fresh i last) (goes_lost t now) set_lost rows
      (λ x h q. ground (arith, online_not_offline x.status)) f

-- If every row of a machine is online and was seen at a time or later, and from then on its heartbeats are never
-- further from the next sweep than the threshold, then it is online after any sequence of heartbeats, of its own
-- and of other machines, and of sweeps, and was last seen at its last heartbeat or later.
pub run-Fresh :
    (t : Thresholds) (i last : ℕ) (calls : List Call) (s : Beats)
    → Fresh i last s.machines
    → InTime t i last calls
    → Fresh i (last_beat i last calls) (run t calls s).machines
unfolding run step
run-Fresh t i last [] s f w = f
run-Fresh t i last (beat none now ip body_ip ∷ calls) s f w =
    run-Fresh t i last calls (step t (beat none now ip body_ip) s) (by_nobody s f) w
  where
    by_nobody :
        (s : Beats)
        → Fresh i last s.machines
        → Fresh i last (heartbeat none now ip body_ip s).1.machines
    by_nobody s f = unfold heartbeat in f
run-Fresh t i last (beat (some j) now ip body_ip ∷ calls) s f (inl (q, l, w)) =
    let e : j == i ≡ true = ground arith in
    let after =
      subst (λ k. Fresh i now (heartbeat (some k) now ip body_ip s).1.machines) (sym q)
        (heartbeat-Fresh i last now ip body_ip s f) in
    rw e (run-Fresh t i now calls (heartbeat (some j) now ip body_ip s).1 after w)
run-Fresh t i last (beat (some j) now ip body_ip ∷ calls) s f (inr (d, w)) =
    let e : j == i ≡ false = ground (arith, d) in
    let after = other_beat-Fresh i j last now ip body_ip s d f in
    rw e (run-Fresh t i last calls (heartbeat (some j) now ip body_ip s).1 after w)
run-Fresh t i last (offline_sweep alert now ∷ calls) s f (l, w) =
    run-Fresh t i last calls (step t (offline_sweep alert now) s)
      (sweep_offline-Fresh i last now alert t s.machines l f) w
run-Fresh t i last (lost_sweep now ∷ calls) s f w =
    run-Fresh t i last calls (step t (lost_sweep now) s)
      (sweep_lost-Fresh i last now t s.machines f) w
run-Fresh t i last (move visible j l why ∷ calls) s f w = absurd w
run-Fresh t i last (approve visible j why now ∷ calls) s f w = absurd w
run-Fresh t i last (reject visible j why ∷ calls) s f w = absurd w

-- ===== src/Fleet/Approval.antt =====
-- The approval of a machine, and the heartbeat that comes before it.
use it_asset_inventory.Access.Orgs.{has}
use it_asset_inventory.Base.{
  ℕ, String, ◌≡◌, refl, ap, ◌∙◌, inl, inr, Bool, true, false, Option, some, List, [], ◌∷◌,
  Bool-cases, find?, update,
}
use it_asset_inventory.Enroll.Types.{MachineStatus, online, offline, lost, decommissioned, awaiting}
use it_asset_inventory.Fleet.Beat.{beat_status, beaten, heartbeat, Beats}
use it_asset_inventory.Fleet.Desk.{bad_request, get_machine_in_scope, approve_machine}
use it_asset_inventory.Fleet.Types.{
  is_online, is_awaiting, is_row, machine_by_id, Machine, Thresholds,
}

find?-update :
    {A : Type 0} (p : A → Bool) (f : A → A) (xs : List A) (x : A)
    → ((y : A) → p (f y) ≡ p y)
    → find? p xs ≡ some x
    → find? p (update p f xs) ≡ some (f x)
find?-update p f [] x keep e = cc
find?-update p f (y ∷ xs) x keep e = elim (Bool-cases (p y)) [
  | inl h ↦
      let same : y ≡ x = let e' = rw h at e in cc in
      let first : p (f y) ≡ true = keep y ∙ h in rw (h, first) (ap (λ z. some (f z)) same)
  | inr h ↦ rw (h, h) (find?-update p f xs x keep (rw h at e))
]

waiting_beat : (s : MachineStatus) → is_awaiting s ≡ true → is_awaiting (beat_status s) ≡ false
waiting_beat awaiting h = refl
waiting_beat online h = cc
waiting_beat offline h = cc
waiting_beat lost h = cc
waiting_beat decommissioned h = cc

waiting_online : (s : MachineStatus) → is_awaiting s ≡ true → is_online (beat_status s) ≡ true
waiting_online awaiting h = refl
waiting_online online h = refl
waiting_online offline h = refl
waiting_online lost h = refl
waiting_online decommissioned h = cc

refused_unless_waiting :
    (t : Thresholds) (visible : List ℕ) (i later : ℕ) (why : Option String) (rows : List Machine)
    (m : Machine)
    → machine_by_id i rows ≡ some m
    → has m.org_id visible ≡ true
    → is_awaiting m.status ≡ false
    → approve_machine t visible i why later rows ≡ (bad_request, rows)
unfolding approve_machine get_machine_in_scope
refused_unless_waiting t visible i later why rows m n v w =
    let g : get_machine_in_scope visible i rows ≡ inr m = rw (n, v, get_machine_in_scope) refl in
    rw (g, w, approve_machine) refl

-- A machine that waits for approval and sends a heartbeat counts as approved: the row is online, and an
-- administrator who sees its organisation is answered that it does not wait, at any time and with any note.
pub beat_skips_approval :
    (t : Thresholds) (visible : List ℕ) (i now later : ℕ) (ip body_ip why : Option String)
    (s : Beats) (m : Machine)
    → machine_by_id i s.machines ≡ some m
    → is_awaiting m.status ≡ true
    → has m.org_id visible ≡ true
    → let after = (heartbeat (some i) now ip body_ip s).1.machines in
      (machine_by_id i after ≡ some (beaten now m))
      × (is_online (beaten now m).status ≡ true)
      × (approve_machine t visible i why later after ≡ (bad_request, after))
unfolding heartbeat
beat_skips_approval t visible i now later ip body_ip why s m n a v =
    let found = find?-update (is_row i) (beaten now) s.machines m (λ y. refl) n in
    let is_up : is_online (beat_status m.status) ≡ true = waiting_online m.status a in
    rw (n, heartbeat)
      (
        found,
        is_up,
        refused_unless_waiting t visible i later why _ (beaten now m) found v
            (waiting_beat m.status a),
      )

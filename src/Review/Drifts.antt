-- ===== src/Review/Drifts.antt =====
-- Changed fingerprints (server/app/api/routes/drifts.py).
use it_asset_inventory.Access.Orgs.{has}
use it_asset_inventory.Base.{
  ℕ, String, not, Option, none, some, List, ◌==◌, if◌then◌else◌, find?, update,
}
use it_asset_inventory.Enroll.Attempt.{is_open}
use it_asset_inventory.Enroll.Fingerprint.{compute_weighted_id}
use it_asset_inventory.Enroll.Perform.{log, put_machine}
use it_asset_inventory.Enroll.Types.{
  Db, Machine, ReviewStatus, FingerprintDrift, Hashing, open_review, approved, rejected,
}
use it_asset_inventory.Review.Types.{not_found, not_allowed, bad_request, done, Admin, Answer}

abbrev pub drift_by_id : ℕ → List FingerprintDrift → Option FingerprintDrift
drift_by_id i rows = find? (λ d. d.id == i) rows

abbrev pub machine_by_id : ℕ → List Machine → Option Machine
machine_by_id i rows = find? (λ m. m.id == i) rows

abbrev pub put_drift : FingerprintDrift → Db → Db
put_drift d db = record db { drifts = update (λ r. r.id == d.id) (λ _. d) db.drifts }

-- The machine with the new fingerprint.
abbrev pub renewed : Hashing → FingerprintDrift → Machine → Machine
renewed h d m = record m {
  fingerprint = d.new_fingerprint;
  machine_uuid = compute_weighted_id h d.new_fingerprint;
}

abbrev pub settled : Admin → ReviewStatus → ℕ → FingerprintDrift → FingerprintDrift
settled admin decision now d = record d {
  status = decision;
  resolved_at = some now;
  resolved_by = some admin.id;
}

abbrev pub drift_action : ReviewStatus → String
drift_action approved = "fingerprint.approved"
drift_action rejected = "fingerprint.rejected"
drift_action open_review = "fingerprint.pending"

abbrev pub with_decision : Hashing → ReviewStatus → FingerprintDrift → Machine → Db → Db
with_decision h approved d m db = put_machine (renewed h d m) db
with_decision h rejected d m db = db
with_decision h open_review d m db = db

-- `_resolve`, of which `approve_drift` and `reject_drift` are the two decisions.
unfoldable pub resolve : Hashing → Admin → ℕ → ReviewStatus → ℕ → Db → Answer × Db
resolve h admin i decision now db = elim (drift_by_id i db.drifts) [
  | none ↦ (not_found, db)
  | some d ↦ elim (machine_by_id d.machine_id db.machines) [
    | none ↦ (not_found, db)
    | some m ↦
        if not (has m.org_id admin.visible)
        then (not_allowed, db)
        else if not (is_open d.status)
        then (bad_request, db)
        else (
          done,
          log (drift_action decision)
              (put_drift (settled admin decision now d) (with_decision h decision d m db)),
        )
  ]
]

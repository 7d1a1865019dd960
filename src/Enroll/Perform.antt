-- ===== src/Enroll/Perform.antt =====
-- `perform_enroll` and `enroll` (server/app/api/routes/enroll.py). The renewal time and the agent's settings in
-- the answer are left out.
use mathlib.Core.Option
use it_asset_inventory.Base.{
  ℕ, String, Bool, true, false, ◌&&◌, Option, none, some, List, [], ◌∷◌, ◌++◌, ltb, ◌==◌,
  if◌then◌else◌, str_eq, truthy?, text_or, text_of, find?, update,
}
use it_asset_inventory.Enroll.Attempt.{one_or_none, is_open, is_machine, record_enroll_attempt}
use it_asset_inventory.Enroll.Fingerprint.{compute_weighted_id, is_same_machine}
use it_asset_inventory.Enroll.Types.{
  Db, Call, Machine, Fingerprint, MachineStatus, EnrollToken, FingerprintDrift, Hashing, online,
  offline, lost, decommissioned, awaiting, unused, used, revoked, expired, open_review, absent,
  many, one,
}
use it_asset_inventory.Tags.{apply_token_tags}

abbrev pub log : String → Db → Db
log action db = record db { audit = db.audit ++ action ∷ [] }

-- The end of an enrolment: the machine, whether it is new, and the token; a refusal, which is committed; or an
-- exception, after which nothing is kept.
pub data Enrolled : Type 0 where
  joined : Machine → Bool → EnrollToken → Enrolled
  refused crashed : Enrolled

abbrev pub refuse : Hashing → Call → String → Option EnrollToken → String → Db → Db → Enrolled × Db
refuse h c status t action before db = elim (record_enroll_attempt h c status t db) [
  | none ↦ (crashed, before)
  | some db' ↦ (refused, log action db')
]

abbrev pub put_token : EnrollToken → Db → Db
put_token t db = record db { enroll_tokens = update (λ r. r.id == t.id) (λ _. t) db.enroll_tokens }

abbrev pub owner : EnrollToken → Db → Option ℕ
owner t db =
    if truthy? t.email
    then Option.map (λ u. u.1) (find? (λ u. str_eq u.0 (text_of t.email)) db.users)
    else none

abbrev pub create_machine : Call → String → EnrollToken → Db → Enrolled × Db
create_machine c uuid t db =
    let m : Machine = record {
      id = c.fresh;
      org_id = t.org_id;
      machine_uuid = uuid;
      hostname = c.hostname;
      fingerprint = c.fingerprint;
      status = awaiting;
      enrolled_at = c.now;
      last_seen_at = some c.now;
      assigned_user_id = owner t db;
    } in
    (
      joined m true t,
      record db {
        machines = db.machines ++ m ∷ [];
        machine_tags =
            apply_token_tags db.tags m.id t.classification t.purpose_tags none db.machine_tags;
      },
    )

-- A machine that was declined waits for approval again.
abbrev pub back : MachineStatus → MachineStatus
back decommissioned = awaiting
back online = online
back offline = online
back lost = online
back awaiting = online

abbrev pub seen_again : Call → Machine → Machine
seen_again c m = record m {
  hostname = text_or c.hostname m.hostname;
  last_seen_at = some c.now;
  status = back m.status;
}

abbrev pub put_machine : Machine → Db → Db
put_machine m db = record db { machines = update (λ r. r.id == m.id) (λ _. m) db.machines }

abbrev pub drift_reason : Hashing → Fingerprint → Fingerprint → String
drift_reason h fp [] = "os_reinstall"
drift_reason h fp (x ∷ old) = if is_same_machine h fp (x ∷ old) then "other" else "os_reinstall"

abbrev pub add_drift : Hashing → Call → Machine → Db → Db
add_drift h c m db = log "fingerprint.drift_detected" (record db {
  drifts =
      db.drifts
      ++ record {
        id = c.fresh;
        machine_id = m.id;
        old_fingerprint = m.fingerprint;
        new_fingerprint = c.fingerprint;
        reason = drift_reason h c.fingerprint m.fingerprint;
        status = open_review;
        resolved_at = none;
        resolved_by = none;
      }
        ∷ [];
})

abbrev pub has_drift : ℕ → FingerprintDrift → Bool
has_drift m d = d.machine_id == m && is_open d.status

abbrev pub update_machine : Hashing → Call → String → EnrollToken → Machine → Db → Enrolled × Db
update_machine h c uuid t old db =
    let m = seen_again c old in
    let db' = put_machine m db in
    if str_eq m.machine_uuid uuid
    then (joined m false t, db')
    else elim (one_or_none (has_drift m.id) db'.drifts) [
      | many ↦ (crashed, db)
      | one d ↦ (joined m false t, db')
      | absent ↦ (joined m false t, add_drift h c m db')
    ]

-- The machine of the organisation that is alike.
abbrev pub find_alike : Hashing → Call → ℕ → Db → Option Machine
find_alike h c org db =
    find? (λ m. m.org_id == org && is_same_machine h c.fingerprint m.fingerprint) db.machines

abbrev pub enroll_machine : Hashing → Call → EnrollToken → Db → Enrolled × Db
enroll_machine h c t db =
    let uuid = compute_weighted_id h c.fingerprint in
    elim (one_or_none (is_machine t.org_id uuid) db.machines) [
      | many ↦ (crashed, db)
      | one m ↦ update_machine h c uuid t m db
      | absent ↦ elim (find_alike h c t.org_id db) [
        | some m ↦ update_machine h c uuid t m db
        | none ↦ create_machine c uuid t db
      ]
    ]

abbrev pub check_expiry : Hashing → Call → EnrollToken → Db → Enrolled × Db
check_expiry h c t db =
    let t' = record t { status = expired } in
    if ltb t.expires_at c.now
    then refuse h c "expired" (some t') "enroll.denied" db (put_token t' db)
    else enroll_machine h c t db

abbrev pub check_token : Hashing → Call → EnrollToken → Db → Enrolled × Db
check_token h c t db = elim t.status [
  | revoked ↦ refuse h c "revoked" (some t) "enroll.denied" db db
  | used ↦ refuse h c "used" (some t) "enroll.denied" db db
  | unused ↦ check_expiry h c t db
  | expired ↦ check_expiry h c t db
]

abbrev pub find_token : Hashing → String → List EnrollToken → Option EnrollToken
find_token h token = find? (λ t. str_eq t.token_hash (h.hash_token token))

unfoldable pub perform_enroll : Hashing → Call → Db → Enrolled × Db
perform_enroll h c db = elim (find_token h c.token db.enroll_tokens) [
  | none ↦ refuse h c "unknown" none "enroll.invalid_token" db db
  | some t ↦ check_token h c t db
]

-- The token is spent once the certificate is signed; `sign` is `none` where the authority fails.
abbrev pub finish_enroll : (ℕ → Option String) → Call → Db → Enrolled × Db → Enrolled × Db
finish_enroll sign c before (refused, db) = (refused, db)
finish_enroll sign c before (crashed, db) = (crashed, before)
finish_enroll sign c before (joined m is_new t, db) =
    let t' = record t { status = used; used_at = some c.now; used_by = some m.id } in
    elim (sign m.id) [
      | none ↦ (crashed, before)
      | some cert ↦ (
        joined m is_new t',
        log (if is_new then "enroll.success" else "enroll.reassigned") (put_token t' db),
      )
    ]

unfoldable pub enroll : Hashing → (ℕ → Option String) → Call → Db → Enrolled × Db
unfolding perform_enroll
enroll h sign c db = finish_enroll sign c db (perform_enroll h c db)

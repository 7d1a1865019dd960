-- ===== src/Enroll/Attempt.antt =====
-- `_record_enroll_attempt` (server/app/api/routes/enroll.py): a machine that is refused for its token is put on
-- record. The prefix of the token is left out.
use mathlib.Core.Option
use it_asset_inventory.Base.{
  ℕ, ◌+◌, String, Bool, true, false, ◌&&◌, Option, none, some, List, [], ◌∷◌, ◌++◌, leb, ◌==◌,
  str_eq, text_or, filter, update,
}
use it_asset_inventory.Enroll.Fingerprint.{compute_weighted_id}
use it_asset_inventory.Enroll.Types.{
  Db, Call, Machine, Fingerprint, ReviewStatus, EnrollToken, EnrollAttempt, Hashing, Found,
  open_review, approved, rejected, absent, many, one,
}

abbrev pub found_in : {A : Type 0} → List A → Found A
found_in [] = absent
found_in (x ∷ []) = one x
found_in (x ∷ y ∷ rest) = many

abbrev pub one_or_none : {A : Type 0} → (A → Bool) → List A → Found A
one_or_none p rows = found_in (filter p rows)

abbrev pub is_open : ReviewStatus → Bool
is_open open_review = true
is_open approved = false
is_open rejected = false

abbrev pub is_machine : ℕ → String → Machine → Bool
is_machine org uuid m = m.org_id == org && str_eq m.machine_uuid uuid

abbrev pub day : ℕ
day = 86400

-- The attempt that a retry refreshes.
abbrev pub is_recent : String → String → ℕ → EnrollAttempt → Bool
is_recent uuid status now a =
    str_eq a.machine_uuid uuid
    && str_eq a.token_status status
    && is_open a.status
    && leb now (a.created_at + day)

abbrev pub or_fingerprint : Fingerprint → Fingerprint → Fingerprint
or_fingerprint [] other = other
or_fingerprint (x ∷ fp) other = x ∷ fp

-- The machine of the token's organisation that has the fingerprint.
abbrev pub match_machine : String → Option EnrollToken → Db → Found Machine
match_machine uuid none db = absent
match_machine uuid (some t) db = one_or_none (is_machine t.org_id uuid) db.machines

abbrev pub new_attempt : Call → String → String → Option EnrollToken → Option ℕ → EnrollAttempt
new_attempt c uuid status t matched = record {
  id = c.fresh;
  org_id = Option.map (λ r. r.org_id) t;
  token_id = Option.map (λ r. r.id) t;
  token_status = status;
  machine_uuid = uuid;
  hostname = c.hostname;
  ip = c.ip;
  fingerprint = c.fingerprint;
  matched_machine_id = matched;
  status = open_review;
  decided_by = none;
  decided_at = none;
  note = none;
  created_at = c.started;
}

abbrev pub refreshed : Call → EnrollAttempt → EnrollAttempt
refreshed c a = record a {
  hostname = text_or c.hostname a.hostname;
  ip = text_or c.ip a.ip;
  fingerprint = or_fingerprint c.fingerprint a.fingerprint;
  created_at = c.now;
}

-- The attempt is refreshed or added. The default of `created_at` was computed when the process was started.
abbrev pub save_attempt : Call → String → String → Option EnrollToken → Option ℕ → Db → Option Db
save_attempt c uuid status t matched db =
    elim (one_or_none (is_recent uuid status c.now) db.attempts) [
      | many ↦ none
      | one a ↦
          some (record db {
            attempts = update (is_recent uuid status c.now) (refreshed c) db.attempts;
          })
      | absent ↦
          some (record db { attempts = db.attempts ++ new_attempt c uuid status t matched ∷ [] })
    ]

-- `_record_enroll_attempt`, `none` where a query finds two rows.
unfoldable pub record_enroll_attempt : Hashing → Call → String → Option EnrollToken → Db → Option Db
record_enroll_attempt h c status t db =
    let uuid = compute_weighted_id h c.fingerprint in
    elim (match_machine uuid t db) [
      | many ↦ none
      | one m ↦ save_attempt c uuid status t (some m.id) db
      | absent ↦ save_attempt c uuid status t none db
    ]

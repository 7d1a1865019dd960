-- ===== src/Enroll/Types.antt =====
-- The rows that an enrolment reads and writes (server/app/db/models.py), and the requests.
use it_asset_inventory.Base.{ℕ, String, Option, List}
use it_asset_inventory.Tags.{Tag, MachineTag}

pub data MachineStatus : Type 0 where
  online offline lost decommissioned awaiting : MachineStatus

pub data TokenStatus : Type 0 where
  unused used revoked expired : TokenStatus

pub data ReviewStatus : Type 0 where
  open_review approved rejected : ReviewStatus

-- A fingerprint, as a dictionary.
abbrev pub Fingerprint : Type 0
Fingerprint = List (String × String)

pub record Machine : Type 0 where
  pub id : ℕ
  pub org_id : ℕ
  pub machine_uuid : String
  pub hostname : Option String
  pub fingerprint : Fingerprint
  pub status : MachineStatus
  pub enrolled_at : ℕ
  pub last_seen_at : Option ℕ
  pub assigned_user_id : Option ℕ

pub record EnrollToken : Type 0 where
  pub id : ℕ
  pub token_hash : String
  pub org_id : ℕ
  pub email : Option String
  pub expires_at : ℕ
  pub used_at : Option ℕ
  pub used_by : Option ℕ
  pub status : TokenStatus
  pub classification : Option String
  pub purpose_tags : List String

-- A machine that was refused for its token.
pub record EnrollAttempt : Type 0 where
  pub id : ℕ
  pub org_id : Option ℕ
  pub token_id : Option ℕ
  pub token_status : String
  pub machine_uuid : String
  pub hostname : Option String
  pub ip : Option String
  pub fingerprint : Fingerprint
  pub matched_machine_id : Option ℕ
  pub status : ReviewStatus
  pub decided_by : Option ℕ
  pub decided_at : Option ℕ
  pub note : Option String
  pub created_at : ℕ

pub record FingerprintDrift : Type 0 where
  pub id : ℕ
  pub machine_id : ℕ
  pub old_fingerprint : Fingerprint
  pub new_fingerprint : Fingerprint
  pub reason : String
  pub status : ReviewStatus
  pub resolved_at : Option ℕ
  pub resolved_by : Option ℕ

-- `users` holds the address and the id of every user; the audit log holds the action of every entry.
pub record Db : Type 0 where
  pub enroll_tokens : List EnrollToken
  pub machines : List Machine
  pub attempts : List EnrollAttempt
  pub drifts : List FingerprintDrift
  pub users : List (String × ℕ)
  pub tags : List Tag
  pub machine_tags : List MachineTag
  pub audit : List String

-- SHA-256, the JSON of a fingerprint, and the ratio of `SequenceMatcher` as a fraction.
pub record Hashing : Type 0 where
  pub hash_token : String → String
  pub sha256 : String → String
  pub dumps : Fingerprint → String
  pub ratio : String → String → ℕ × ℕ

-- A request: the token, the name of the host, the fingerprint and the address. `now` is its time, `started` the
-- time the server's process was started, and `fresh` the id of the row that it makes.
pub record Call : Type 0 where
  pub token : String
  pub hostname : Option String
  pub fingerprint : Fingerprint
  pub ip : Option String
  pub now : ℕ
  pub started : ℕ
  pub fresh : ℕ

-- `scalar_one_or_none()`, which raises on two rows.
pub data Found (A : Type 0) : Type 0 where
  absent many : Found A
  one : A → Found A

-- ===== src/Enroll/Tests.antt =====
-- The theorems on enrolment at a concrete token and machine.
-- Hashes are the texts themselves.
use it_asset_inventory.Base.{
  ℕ, ◌+◌, String, ◌≡◌, refl, true, false, Option, none, some, [], ◌∷◌, arith, length,
}
use it_asset_inventory.Enroll.Attempt.{new_attempt, record_enroll_attempt}
use it_asset_inventory.Enroll.Fingerprint.{compute_weighted_id}
use it_asset_inventory.Enroll.Once.{Lawful, enroll-Lawful, is_joined, enroll_once}
use it_asset_inventory.Enroll.Perform.{perform_enroll, enroll}
use it_asset_inventory.Enroll.Retries.{FromStart, record_attempt_adds}
use it_asset_inventory.Enroll.Types.{
  Db, Call, Machine, Fingerprint, EnrollToken, Hashing, awaiting, unused, used,
}

abbrev hashing : Hashing
hashing = record { hash_token = λ s. s; sha256 = λ s. s; dumps = λ fp. "{}"; ratio = λ a b. (0, 1) }

abbrev sign : ℕ → Option String
sign m = some "cert"

abbrev fingerprint : Fingerprint
fingerprint = ("smbios_uuid", "s1") ∷ ("machine_guid", "g1") ∷ []

abbrev call : Call
call = record {
  token = "t1";
  hostname = some "pc";
  fingerprint = fingerprint;
  ip = none;
  now = 100000;
  started = 0;
  fresh = 9;
}

abbrev token : EnrollToken
token = record {
  id = 1;
  token_hash = "t1";
  org_id = 4;
  email = none;
  expires_at = 200000;
  used_at = none;
  used_by = none;
  status = unused;
  classification = none;
  purpose_tags = [];
}

abbrev db : Db
db = record {
  enroll_tokens = token ∷ [];
  machines = [];
  attempts = [];
  drifts = [];
  users = [];
  tags = [];
  machine_tags = [];
  audit = [];
}

enroll-Lawful_example : Lawful hashing call db (enroll hashing sign call db)
enroll-Lawful_example = enroll-Lawful hashing sign call db

abbrev joined_machine : Machine
joined_machine = record {
  id = 9;
  org_id = 4;
  machine_uuid = compute_weighted_id hashing fingerprint;
  hostname = some "pc";
  fingerprint = fingerprint;
  status = awaiting;
  enrolled_at = 100000;
  last_seen_at = some 100000;
  assigned_user_id = none;
}

abbrev spent_token : EnrollToken
spent_token = record token { status = used; used_at = some 100000; used_by = some 9 }

enroll_once_example :
    let first = (enroll hashing sign call db).1 in
    let second = enroll hashing sign (record call { now = 100500; fresh = 10 }) first in
    (is_joined second.0 ≡ false)
    × (second.1.machines ≡ first.machines)
    × (second.1.machine_tags ≡ first.machine_tags)
unfolding enroll perform_enroll
enroll_once_example =
    enroll_once hashing sign call (record call { now = 100500; fresh = 10 }) db joined_machine true
      spent_token refl refl

abbrev old_machine : Machine
old_machine = record joined_machine {
  machine_uuid = "old";
  fingerprint = ("smbios_uuid", "s1") ∷ ("mainboard_serial", "b1") ∷ [];
}

abbrev known_db : Db
known_db = record db { machines = old_machine ∷ [] }

abbrev attempted : Db
attempted = record db {
  attempts =
      new_attempt call (compute_weighted_id hashing fingerprint) "used" (some spent_token) none
      ∷ [];
}

record_attempt_adds_example :
    (length attempted.attempts ≡ length db.attempts + 1) × FromStart 0 attempted
unfolding record_enroll_attempt
record_attempt_adds_example =
    record_attempt_adds hashing call "used" (some spent_token) db attempted (omega arith) tt refl

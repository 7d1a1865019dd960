-- ===== src/Review/Tests.antt =====
-- The theorems on decisions at a concrete refused machine and a concrete change. Hashes are the texts themselves.
use it_asset_inventory.Base.{
  ℕ, ◌+◌, ◌*◌, ◌≡◌, refl, inr, true, false, none, some, [], ◌∷◌, ◌++◌, arith,
}
use it_asset_inventory.Enroll.Attempt.{is_open}
use it_asset_inventory.Enroll.Perform.{joined, log, seen_again, enroll_machine, perform_enroll}
use it_asset_inventory.Enroll.Types.{
  Db, Call, Machine, Fingerprint, EnrollToken, EnrollAttempt, FingerprintDrift, Hashing, online,
  open_review, approved,
}
use it_asset_inventory.Review.Attempts.{get_attempt_in_scope, replacement, approve_attempt}
use it_asset_inventory.Review.Claimed.{claimed-enrolls, close, close-claim, deleting}
use it_asset_inventory.Review.Decided.{is_success, decide, decided_once, approving, rejecting}
use it_asset_inventory.Review.Drifts.{renewed, resolve}
use it_asset_inventory.Review.Issued.{approved-enrolls}
use it_asset_inventory.Review.Links.{
  link_by_code, new_link, create_link, claim, SelfServiceLink, Portal,
}
use it_asset_inventory.Review.Recognised.{approved-recognised}
use it_asset_inventory.Review.Types.{not_found, done, hour, Admin, NewToken}

abbrev hashing : Hashing
hashing = record { hash_token = λ s. s; sha256 = λ s. s; dumps = λ fp. "{}"; ratio = λ a b. (0, 1) }

abbrev admin : Admin
admin = record { id = 1; is_super = false; visible = 4 ∷ [] }

abbrev attempt : EnrollAttempt
attempt = record {
  id = 3;
  org_id = some 4;
  token_id = none;
  token_status = "expired";
  machine_uuid = "u";
  hostname = none;
  ip = none;
  fingerprint = [];
  matched_machine_id = none;
  status = open_review;
  decided_by = none;
  decided_at = none;
  note = none;
  created_at = 0;
}

abbrev old_print : Fingerprint
old_print = ("smbios_uuid", "s1") ∷ []

abbrev new_print : Fingerprint
new_print = ("smbios_uuid", "s2") ∷ []

abbrev machine : Machine
machine = record {
  id = 9;
  org_id = 4;
  machine_uuid = "s1";
  hostname = none;
  fingerprint = old_print;
  status = online;
  enrolled_at = 0;
  last_seen_at = none;
  assigned_user_id = none;
}

abbrev drift : FingerprintDrift
drift = record {
  id = 5;
  machine_id = 9;
  old_fingerprint = old_print;
  new_fingerprint = new_print;
  reason = "other";
  status = open_review;
  resolved_at = none;
  resolved_by = none;
}

abbrev db : Db
db = record {
  enroll_tokens = [];
  machines = machine ∷ [];
  attempts = attempt ∷ [];
  drifts = drift ∷ [];
  users = [];
  tags = [];
  machine_tags = [];
  audit = [];
}

abbrev token : NewToken
token = record { text = "t9"; id = 20 }

abbrev call : Call
call = record {
  token = "t9";
  hostname = none;
  fingerprint = new_print;
  ip = none;
  now = 2000;
  started = 0;
  fresh = 30;
}

decided_once_example :
    let after = (decide hashing (approving token) admin 3 none 1000 db).1 in
    (is_success (decide hashing rejecting admin 3 none 1100 after).0 ≡ false)
    × ((decide hashing rejecting admin 3 none 1100 after).1 ≡ after)
unfolding approve_attempt get_attempt_in_scope
decided_once_example =
    decided_once hashing (approving token) rejecting admin admin 3 none none 1000 1100 db refl

abbrev approved_db : Db
unfolding approve_attempt get_attempt_in_scope
approved_db = (approve_attempt hashing token admin 3 none 1000 db).1

approved-enrolls_example :
    (a : EnrollAttempt) × (org : ℕ) × (get_attempt_in_scope admin 3 db ≡ inr a)
    × (is_open a.status ≡ true)
    × (a.org_id ≡ some org)
    × (perform_enroll hashing call approved_db
        ≡ enroll_machine hashing call (replacement hashing token org 1000) approved_db)
unfolding approve_attempt get_attempt_in_scope
approved-enrolls_example =
    approved-enrolls hashing token admin 3 none 1000 db approved_db call refl refl refl
      (omega arith)

abbrev good_token : EnrollToken
good_token = replacement hashing token 4 1000

abbrev settled_db : Db
unfolding resolve
settled_db = (resolve hashing admin 5 approved 1000 db).1

approved-recognised_example :
    ((enroll_machine hashing call good_token settled_db).0
      ≡ joined (seen_again call (renewed hashing drift machine)) false good_token)
    × ((enroll_machine hashing call good_token settled_db).1.drifts ≡ settled_db.drifts)
unfolding resolve
approved-recognised_example =
    approved-recognised hashing admin 5 1000 db settled_db call good_token drift machine refl refl
      refl refl refl (refl, refl)

abbrev link : SelfServiceLink
link = record { id = 6; org_id = 4; code = "abc"; enabled = true; created_by = 1 }

abbrev portal : Portal
portal = record { links = link ∷ []; db = db }

abbrev claimed_portal : Portal
unfolding claim
claimed_portal = (claim hashing token "abc" none 1000 portal).1

claimed-enrolls_example :
    (l : SelfServiceLink) × (t : EnrollToken) × (link_by_code "abc" portal.links ≡ some l)
    × (l.enabled ≡ true)
    × (claimed_portal.db.enroll_tokens ≡ portal.db.enroll_tokens ++ t ∷ [])
    × (t.org_id ≡ l.org_id)
    × (t.email ≡ none)
    × (t.classification ≡ some "official")
    × (t.purpose_tags ≡ [])
    × (t.expires_at ≡ 1000 + 72 * hour)
    × (perform_enroll hashing call claimed_portal.db
        ≡ enroll_machine hashing call t claimed_portal.db)
unfolding claim
claimed-enrolls_example =
    claimed-enrolls hashing token "abc" none 1000 portal claimed_portal call refl refl refl
      (omega arith)

close-claim_example :
    let closed = close deleting admin 6 portal in
    (closed.0 ≡ done) × (claim hashing token "abc" none 1000 closed.1 ≡ (not_found, closed.1))
close-claim_example = close-claim deleting admin link hashing token none 1000 portal refl refl refl

-- A code that is taken is drawn again.
drawn_twice :
    create_link admin 7 4 ("abc" ∷ "xyz" ∷ []) portal
    ≡ some (
      done,
      record portal {
        links = link ∷ new_link admin 7 4 "xyz" ∷ [];
        db = log "self_service.link_create" db;
      },
    )
unfolding create_link
drawn_twice = refl

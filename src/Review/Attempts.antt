-- ===== src/Review/Attempts.antt =====
-- Refused machines (server/app/api/routes/enroll_attempts.py). The note of the new token and the commands for the
-- installation in the answer are left out.
use Prim.Native.String.{◌++◌ as text_append}
use it_asset_inventory.Access.Orgs.{has}
use it_asset_inventory.Base.{
  ℕ, ◌+◌, ◌*◌, String, ◌⊎◌, inl, inr, Bool, not, Option, none, some, List, [], ◌∷◌, ◌++◌, ◌==◌,
  if◌then◌else◌, truthy?, text_or, text_of, find?, update,
}
use it_asset_inventory.Enroll.Attempt.{is_open}
use it_asset_inventory.Enroll.Perform.{log}
use it_asset_inventory.Enroll.Types.{
  Db, EnrollToken, EnrollAttempt, Hashing, unused, approved, rejected,
}
use it_asset_inventory.Review.Types.{
  not_found, not_allowed, bad_request, issued, done, hour, Admin, Answer, NewToken,
}

abbrev pub attempt_by_id : ℕ → List EnrollAttempt → Option EnrollAttempt
attempt_by_id i rows = find? (λ a. a.id == i) rows

-- The organisation is one that the administrator handles; an unknown one is a super administrator's.
abbrev pub is_in_scope : Admin → Option ℕ → Bool
is_in_scope admin none = admin.is_super
is_in_scope admin (some org) = has org admin.visible

-- `_get_attempt_in_scope`.
unfoldable pub get_attempt_in_scope : Admin → ℕ → Db → Answer ⊎ EnrollAttempt
get_attempt_in_scope admin i db = elim (attempt_by_id i db.attempts) [
  | none ↦ inl not_found
  | some a ↦ if is_in_scope admin a.org_id then inr a else inl not_allowed
]

abbrev pub put_attempt : EnrollAttempt → Db → Db
put_attempt a db = record db { attempts = update (λ r. r.id == a.id) (λ _. a) db.attempts }

-- The token that stands in for the refused one.
abbrev pub replacement : Hashing → NewToken → ℕ → ℕ → EnrollToken
replacement h new org now = record {
  id = new.id;
  token_hash = h.hash_token new.text;
  org_id = org;
  email = none;
  expires_at = now + 72 * hour;
  used_at = none;
  used_by = none;
  status = unused;
  classification = none;
  purpose_tags = [];
}

abbrev pub approved_attempt : Admin → ℕ → Option String → EnrollAttempt → EnrollAttempt
approved_attempt admin now note a = record a {
  status = approved;
  decided_by = some admin.id;
  decided_at = some now;
  note = if truthy? note then note else a.note;
}

-- `approve_attempt`.
unfoldable pub approve_attempt :
    Hashing → NewToken → Admin → ℕ → Option String → ℕ → Db → Answer × Db
approve_attempt h new admin i note now db = elim (get_attempt_in_scope admin i db) [
  | inl r ↦ (r, db)
  | inr a ↦ if not (is_open a.status) then (bad_request, db) else elim a.org_id [
    | none ↦ (bad_request, db)
    | some org ↦
        let db' = put_attempt (approved_attempt admin now note a) db in
        (
          issued new.text,
          log "enroll_attempt.approve"
              (record db' { enroll_tokens = db'.enroll_tokens ++ replacement h new org now ∷ [] }),
        )
  ]
]

-- The note of a rejection, before the note that there was.
abbrev pub rejection : Option String → Option String → String
rejection reason old =
    text_append (text_append "Từ chối: " (text_of (text_or reason (some "không rõ lý do"))))
      (if truthy? old then text_append "\n" (text_of old) else "")

abbrev pub rejected_attempt : Admin → ℕ → Option String → EnrollAttempt → EnrollAttempt
rejected_attempt admin now note a = record a {
  status = rejected;
  decided_by = some admin.id;
  decided_at = some now;
  note = some (rejection note a.note);
}

-- `reject_attempt`.
unfoldable pub reject_attempt : Admin → ℕ → Option String → ℕ → Db → Answer × Db
reject_attempt admin i note now db = elim (get_attempt_in_scope admin i db) [
  | inl r ↦ (r, db)
  | inr a ↦
      if not (is_open a.status)
      then (bad_request, db)
      else (done, log "enroll_attempt.reject" (put_attempt (rejected_attempt admin now note a) db))
]

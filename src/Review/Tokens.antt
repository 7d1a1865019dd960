-- ===== src/Review/Tokens.antt =====
-- Tokens for enrolment (server/app/api/routes/tokens.py). Names, notes, phone numbers and the commands for the
-- installation are left out.
use it_asset_inventory.Access.Orgs.{has}
use it_asset_inventory.Base.{
  ℕ, ◌+◌, ◌*◌, String, Bool, true, false, not, ◌||◌, Option, none, some, List, [], ◌∷◌, ◌++◌, ◌==◌,
  if◌then◌else◌, filter, find?,
}
use it_asset_inventory.Enroll.Perform.{log}
use it_asset_inventory.Enroll.Types.{
  Db, TokenStatus, EnrollToken, Hashing, unused, used, revoked, expired,
}
use it_asset_inventory.Review.Types.{
  not_found, not_allowed, bad_request, issued, done, hour, Admin, Answer, NewToken,
}

-- What a token is asked for with.
pub record TokenRequest : Type 0 where
  pub org_id : ℕ
  pub email : Option String
  pub ttl_hours : ℕ
  pub classification : Option String
  pub purpose_tags : List String

abbrev pub token_by_id : ℕ → List EnrollToken → Option EnrollToken
token_by_id i rows = find? (λ t. t.id == i) rows

abbrev pub token_row : Hashing → NewToken → TokenRequest → ℕ → EnrollToken
token_row h new body now = record {
  id = new.id;
  token_hash = h.hash_token new.text;
  org_id = body.org_id;
  email = body.email;
  expires_at = now + body.ttl_hours * hour;
  used_at = none;
  used_by = none;
  status = unused;
  classification = body.classification;
  purpose_tags = body.purpose_tags;
}

abbrev pub add_token : EnrollToken → Db → Db
add_token t db = record db { enroll_tokens = db.enroll_tokens ++ t ∷ [] }

-- `create_token`.
unfoldable pub create_token : Hashing → NewToken → Admin → TokenRequest → ℕ → Db → Answer × Db
create_token h new admin body now db =
    if not (has body.org_id admin.visible)
    then (not_allowed, db)
    else (issued new.text, log "token.create" (add_token (token_row h new body now) db))

-- The rows of `create_tokens_bulk`, one for every address.
unfoldable pub bulk_rows :
    Hashing → TokenRequest → ℕ → List (NewToken × Option String) → List EnrollToken
bulk_rows h body now [] = []
bulk_rows h body now ((new, email) ∷ items) =
    token_row h new (record body { email = email }) now ∷ bulk_rows h body now items

-- `create_tokens_bulk`.
unfoldable pub create_tokens_bulk :
    Hashing → Admin → TokenRequest → List (NewToken × Option String) → ℕ → Db → Answer × Db
create_tokens_bulk h admin body items now db =
    if not (has body.org_id admin.visible) then (not_allowed, db) else (
      done,
      log "token.bulk_create"
          (record db { enroll_tokens = db.enroll_tokens ++ bulk_rows h body now items }),
    )

abbrev pub delete_row : ℕ → Db → Db
delete_row i db = record db { enroll_tokens = filter (λ t. not (t.id == i)) db.enroll_tokens }

abbrev pub is_used : TokenStatus → Bool
is_used used = true
is_used unused = false
is_used revoked = false
is_used expired = false

abbrev pub is_revoked : TokenStatus → Bool
is_revoked revoked = true
is_revoked unused = false
is_revoked used = false
is_revoked expired = false

-- `revoke_token`, which deletes the row.
unfoldable pub revoke_token : Admin → ℕ → Db → Answer × Db
revoke_token admin i db = elim (token_by_id i db.enroll_tokens) [
  | none ↦ (not_found, db)
  | some t ↦
      if not (has t.org_id admin.visible)
      then (not_allowed, db)
      else if is_used t.status
      then (bad_request, db)
      else (done, delete_row t.id (log "token.revoke" db))
]

-- The token that `reissue_token` makes of an old one.
abbrev pub reissued : Hashing → NewToken → ℕ → EnrollToken → EnrollToken
reissued h new now old = record old {
  id = new.id;
  token_hash = h.hash_token new.text;
  expires_at = now + 72 * hour;
  used_at = none;
  used_by = none;
  status = unused;
}

-- `reissue_token`.
unfoldable pub reissue_token : Hashing → NewToken → Admin → ℕ → ℕ → Db → Answer × Db
reissue_token h new admin i now db = elim (token_by_id i db.enroll_tokens) [
  | none ↦ (not_found, db)
  | some old ↦
      if not (has old.org_id admin.visible)
      then (not_allowed, db)
      else if is_used old.status || is_revoked old.status
      then (bad_request, db)
      else (issued new.text, log "token.reissue" (add_token (reissued h new now old) db))
]

-- `delete_token`, of a super administrator.
unfoldable pub delete_token : ℕ → Db → Answer × Db
delete_token i db = elim (token_by_id i db.enroll_tokens) [
  | none ↦ (not_found, db)
  | some t ↦ (done, delete_row t.id (log "token.delete" db))
]

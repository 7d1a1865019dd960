-- ===== src/Requests/Handle.antt =====
-- The calls that change a request (server/app/api/routes/dfir_requests.py). The checks of a body by its schema are
-- left out.
use it_asset_inventory.Access.Guards.{
  require_admin, require_super_admin, Guarded, unauthorized, forbidden, ok,
}
use it_asset_inventory.Access.Types.{User}
use it_asset_inventory.Base.{
  ℕ, String, Bool, true, false, not, Option, none, some, List, [], ◌∷◌, ◌++◌, ◌==◌, if◌then◌else◌,
  str_eq, text_or, find?, any, update,
}
use it_asset_inventory.Requests.Types.{
  Db, approved, rejected, Answer, pending, running, completed, failed, shown, RequestStatus,
  InvestigationRequest, RequestEntry, Caller, RequestCreate, RequestReview, RequestOut, http_400,
  http_401, http_403, http_404,
}

-- A route with a guard: the errors of the guard, or the handler with the user.
abbrev pub guarded : Guarded User → (User → Answer × Db) → Db → Answer × Db
guarded unauthorized handler db = (http_401, db)
guarded forbidden handler db = (http_403, db)
guarded (ok u) handler db = handler u

abbrev pub vendor : Bool → Option String → Option String
vendor include_vendor field = if include_vendor then field else none

-- `_request_to_out`.
abbrev pub request_to_out : InvestigationRequest → Bool → RequestOut
request_to_out r include_vendor = record {
  id = r.id;
  machine_id = r.machine_id;
  artifact = r.artifact;
  reason = r.reason;
  urgency = r.urgency;
  status = r.status;
  requested_by = r.requested_by;
  requested_at = r.created_at;
  review_notes = r.review_notes;
  completed_at = r.completed_at;
  velociraptor_flow_id = vendor include_vendor r.velociraptor_flow_id;
  velociraptor_url = vendor include_vendor r.velociraptor_url;
}

abbrev pub request_by_id : ℕ → List InvestigationRequest → Option InvestigationRequest
request_by_id i rows = find? (λ r. r.id == i) rows

abbrev pub put_request : InvestigationRequest → Db → Db
put_request r db = record db { requests = update (λ x. x.id == r.id) (λ _. r) db.requests }

abbrev pub log_request : String → User → InvestigationRequest → Db → Db
log_request action u r db =
    let entry : RequestEntry = record {
      action = action;
      actor = u.id;
      target = r.id;
      machine_id = r.machine_id;
    } in
    record db { audit_log = db.audit_log ++ entry ∷ [] }

-- What every decision ends with: the row, the audit entry and the answer.
abbrev pub save : String → User → InvestigationRequest → Db → Answer × Db
save action admin r db =
    (shown (request_to_out r true), log_request action admin r (put_request r db))

-- A new row. `started` is the time at which the module was loaded: the column's default is evaluated once.
abbrev pub new_request : User → RequestCreate → ℕ → ℕ → InvestigationRequest
new_request u body fresh started = record {
  id = fresh;
  machine_id = body.machine_id;
  artifact = body.artifact;
  reason = body.reason;
  urgency = body.urgency;
  status = pending;
  requested_by = u.id;
  reviewed_by = none;
  review_notes = none;
  velociraptor_flow_id = none;
  velociraptor_url = none;
  completed_at = none;
  created_at = started;
}

unfoldable pub create_as : RequestCreate → ℕ → ℕ → Db → User → Answer × Db
create_as body fresh started db u =
    if not (any (λ m. m == body.machine_id) db.machines)
    then (http_404, db)
    else let r = new_request u body fresh started in
      (
        shown (request_to_out r false),
        log_request "dfir.request.create" u r (record db { requests = db.requests ++ r ∷ [] }),
      )

-- `create_request`.
unfoldable pub create_request : Caller → RequestCreate → ℕ → ℕ → Db → Answer × Db
create_request k body fresh started db =
    guarded (require_admin k.decode k.credentials db.users) (create_as body fresh started db) db

abbrev pub is_pending : RequestStatus → Bool
is_pending pending = true
is_pending approved = false
is_pending rejected = false
is_pending running = false
is_pending completed = false
is_pending failed = false

-- `req.status in ("pending", "approved")`.
abbrev pub can_reject : RequestStatus → Bool
can_reject pending = true
can_reject approved = true
can_reject rejected = false
can_reject running = false
can_reject completed = false
can_reject failed = false

-- `req.status in ("approved", "running")`.
abbrev pub can_complete : RequestStatus → Bool
can_complete pending = false
can_complete approved = true
can_complete rejected = false
can_complete running = true
can_complete completed = false
can_complete failed = false

abbrev pub approved_by : User → InvestigationRequest → InvestigationRequest
approved_by admin r = record r { status = approved; reviewed_by = some admin.id }

abbrev pub rejected_by : User → RequestReview → InvestigationRequest → InvestigationRequest
rejected_by admin body r = record r {
  status = rejected;
  reviewed_by = some admin.id;
  review_notes = body.notes;
}

abbrev pub completed_with : RequestReview → ℕ → InvestigationRequest → InvestigationRequest
completed_with body now r = record r {
  status = completed;
  completed_at = some now;
  velociraptor_flow_id = text_or body.velociraptor_flow_id r.velociraptor_flow_id;
  review_notes = text_or body.notes r.review_notes;
}

abbrev pub failed_with : RequestReview → ℕ → InvestigationRequest → InvestigationRequest
failed_with body now r = record r {
  status = failed;
  completed_at = some now;
  review_notes = body.notes;
}

-- `approve_request`, after its guard.
unfoldable pub approve_as : ℕ → Db → User → Answer × Db
approve_as i db admin = elim (request_by_id i db.requests) [
  | none ↦ (http_404, db)
  | some r ↦
      if is_pending r.status
      then save "dfir.request.approve" admin (approved_by admin r) db
      else (http_400, db)
]

-- `reject_request`, after its guard.
unfoldable pub reject_as : ℕ → RequestReview → Db → User → Answer × Db
reject_as i body db admin = elim (request_by_id i db.requests) [
  | none ↦ (http_404, db)
  | some r ↦
      if can_reject r.status
      then save "dfir.request.reject" admin (rejected_by admin body r) db
      else (http_400, db)
]

-- `complete_request`, after its guard.
unfoldable pub complete_as : ℕ → RequestReview → ℕ → Db → User → Answer × Db
complete_as i body now db admin = elim (request_by_id i db.requests) [
  | none ↦ (http_404, db)
  | some r ↦
      if can_complete r.status
      then save "dfir.request.complete" admin (completed_with body now r) db
      else (http_400, db)
]

-- The branch of `patch_request` for a failure.
unfoldable pub fail_as : ℕ → RequestReview → ℕ → Db → User → Answer × Db
fail_as i body now db admin = elim (request_by_id i db.requests) [
  | none ↦ (http_404, db)
  | some r ↦ save "dfir.request.fail" admin (failed_with body now r) db
]

-- `patch_request`, after its guard.
unfoldable pub patch_as : ℕ → RequestReview → ℕ → Db → User → Answer × Db
patch_as i body now db admin =
    if str_eq body.action "approve"
    then approve_as i db admin
    else if str_eq body.action "reject"
    then reject_as i body db admin
    else if str_eq body.action "complete"
    then complete_as i body now db admin
    else if str_eq body.action "fail"
    then fail_as i body now db admin
    else (http_400, db)

-- A call that changes requests, with the identifier of the new row, the load time of the module and the time.
pub data RequestCall : Type 0 where
  create : RequestCreate → ℕ → ℕ → RequestCall
  approve : ℕ → RequestCall
  reject : ℕ → RequestReview → RequestCall
  complete : ℕ → RequestReview → ℕ → RequestCall
  patch : ℕ → RequestReview → ℕ → RequestCall

-- A route, with its guard.
unfoldable pub serve : Caller → RequestCall → Db → Answer × Db
serve k (create body fresh started) db = create_request k body fresh started db
serve k (approve i) db =
    guarded (require_super_admin k.decode k.credentials db.users) (approve_as i db) db
serve k (reject i body) db =
    guarded (require_super_admin k.decode k.credentials db.users) (reject_as i body db) db
serve k (complete i body now) db =
    guarded (require_super_admin k.decode k.credentials db.users) (complete_as i body now db) db
serve k (patch i body now) db =
    guarded (require_super_admin k.decode k.credentials db.users) (patch_as i body now db) db

-- Calls of any callers, one after another.
unfoldable pub serve_all : List (Caller × RequestCall) → Db → Db
serve_all [] db = db
serve_all ((k, c) ∷ calls) db = serve_all calls (serve k c db).1

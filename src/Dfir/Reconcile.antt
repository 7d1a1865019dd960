-- ===== src/Dfir/Reconcile.antt =====
-- The check of a dispatched job: `_state_check_deepagent_job` of services/dfir_investigation.py.
-- The answer of DeepAgent to `GET /v1/jobs/{id}` is an argument.
use it_asset_inventory.Base.{
  ℕ, ◌-◌, ◌*◌, max, String, Bool, false, not, ◌&&◌, ◌||◌, Option, none, some, ltb, leb, ◌==◌,
  if◌then◌else◌, truthy?,
}
use it_asset_inventory.Dfir.Types.{
  hermes_is, Outcome, Inv, Settings, pending, failed, generic, returned, raised, uncertain_too_long,
  terminal_reply, reason, reconciled,
}

-- A response body: no JSON, a JSON object by its `job_id` and `status`, or another JSON value.
pub data Body : Type 0 where
  not_json : Body
  object : Option String → Option String → Body
  other_json : Body

-- The request raised, or the service answered with a status code and a body.
pub data GetReply : Type 0 where
  no_reply : GetReply
  reply : ℕ → Body → GetReply

abbrev pub is_success : ℕ → Bool
is_success code = leb 200 code && ltb code 300

-- `response.status_code in (400, 401, 403, 422)`
abbrev pub is_terminal_code : ℕ → Bool
is_terminal_code code = code == 400 || code == 401 || code == 403 || code == 422

-- `started_at and (now - started_at).total_seconds() > limit`
abbrev pub older_than : ℕ → ℕ → Option ℕ → Bool
older_than now limit none = false
older_than now limit (some t) = ltb limit (now - t)

abbrev pub is_uncertain : Inv → Bool
is_uncertain i = hermes_is i.hermes_status "dispatch_uncertain"

abbrev pub or_empty : Option String → String
or_empty none = ""
or_empty (some s) = s

-- A row with no job: a dispatch that was interrupted goes back to the queue.
unfoldable pub recover_interrupted : Settings → ℕ → Inv → Inv
recover_interrupted s now i =
    if hermes_is i.hermes_status "dispatching"
      && older_than now (max (s.deepagent_request_timeout_seconds * 2) 60) i.started_at
    then record i {
      status = pending;
      hermes_status = some "recovery_required";
      hermes_response = some (reason "deepagent_dispatch_interrupted");
    }
    else i

abbrev pub reconcile_timeout : Settings → ℕ → Inv → Inv
reconcile_timeout s now i = record i {
  status = failed;
  hermes_status = some "reconcile_timeout";
  error = some (uncertain_too_long s.deepagent_reconcile_max_uncertain_seconds);
  completed_at = some now;
}

-- A success: the job exists. A body that is JSON but no object makes `body.get` raise, and the
-- session ends with no commit, so the row keeps what it had.
abbrev pub job_found : Body → Inv → Outcome × Inv
job_found body i =
    if is_uncertain i
    then elim body [
      | not_json ↦ (
        returned,
        record i {
          hermes_status = some "dispatched";
          hermes_response = some (reconciled (or_empty i.external_job_id) none);
        },
      )
      | object _ st ↦ (
        returned,
        record i {
          hermes_status = some "dispatched";
          hermes_response = some (reconciled (or_empty i.external_job_id) st);
        },
      )
      | other_json ↦ (raised (generic "AttributeError"), i)
    ]
    else (returned, i)

abbrev pub reconcile_failed : ℕ → ℕ → Inv → Inv
reconcile_failed now code i = record i {
  status = failed;
  hermes_status = some "reconcile_failed";
  error = some (terminal_reply (or_empty i.external_job_id) code);
  completed_at = some now;
}

abbrev pub job_missing : Inv → Inv
job_missing i = record i {
  status = pending;
  external_job_id = none;
  hermes_status = some "recovery_required";
  hermes_response = some (reason "deepagent_job_missing_after_restart");
}

unfoldable pub read_reply : ℕ → GetReply → Inv → Outcome × Inv
read_reply now no_reply i = (returned, i)
read_reply now (reply code body) i =
    if is_success code
    then job_found body i
    else if not (code == 404)
    then (
      returned,
      if is_uncertain i && is_terminal_code code then reconcile_failed now code i else i,
    )
    else (returned, job_missing i)

unfoldable pub check_deepagent_job : Settings → ℕ → GetReply → Inv → Outcome × Inv
unfolding recover_interrupted read_reply
check_deepagent_job s now r i =
    if not (truthy? i.external_job_id)
    then (returned, recover_interrupted s now i)
    else if is_uncertain i
        && older_than now s.deepagent_reconcile_max_uncertain_seconds i.started_at
    then (returned, reconcile_timeout s now i)
    else read_reply now r i

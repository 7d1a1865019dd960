-- ===== src/Dfir/Dispatch.antt =====
-- Sending an investigation to DeepAgent: `_state_dispatch_deepagent` of services/dfir_investigation.py from the
-- first commit on. The answer to the POST is an argument.
use it_asset_inventory.Base.{
  ℕ, String, Bool, not, ◌&&◌, ◌||◌, some, ltb, leb, ◌==◌, if◌then◌else◌, is_some,
}
use it_asset_inventory.Dfir.Prepare.{Result, Request, ok, err}
use it_asset_inventory.Dfir.Queue.{job_id}
use it_asset_inventory.Dfir.Reconcile.{is_success, Body, not_json, object, other_json}
use it_asset_inventory.Dfir.Types.{
  Response, hermes_is, Outcome, Failure, Inv, analyzing, failed, dispatch_uncertain,
  dispatch_failed, generic, returned, raised, job_id_mismatch, dispatch_rejected, worker_exception,
  ambiguous, ambiguous_http, dispatched_job,
}

-- The POST raised one of the network errors that the handler names, or any other exception, or
-- the service answered.
pub data PostReply : Type 0 where
  network_error other_error : String → PostReply
  answered : ℕ → Body → PostReply

-- The row as it is committed before the POST.
abbrev pub begin : ℕ → Inv → Inv
begin now i = record i {
  status = analyzing;
  external_job_id = some (job_id i.id);
  hermes_status = some "dispatching";
  started_at = some now;
}

abbrev pub mark_uncertain : Response → Inv → Inv
mark_uncertain r i = record i {
  hermes_status = some "dispatch_uncertain";
  hermes_response = some r;
}

abbrev pub mark_failed : Failure → ℕ → Inv → Inv
mark_failed why now i = record i {
  status = failed;
  hermes_status = some "dispatch_failed";
  error = some why;
  completed_at = some now;
}

-- `except Exception`: uncertain if the row names a job, a definite failure if it does not.
abbrev pub unexpected : String → ℕ → Inv → Outcome × Inv
unexpected e now i =
    if is_some i.external_job_id
    then (raised (dispatch_uncertain e), mark_uncertain (ambiguous "post_request_exception") i)
    else (raised (dispatch_failed e), mark_failed (worker_exception (generic e)) now i)

abbrev pub accepted : ℕ → Body → Inv → Outcome × Inv
accepted now not_json i = (
  raised (dispatch_uncertain "body"),
  mark_uncertain (ambiguous "response_body_json_decode_failed") i,
)
accepted now other_json i = unexpected "AttributeError" now i
accepted now (object job st) i =
    if hermes_is job (job_id i.id)
    then (
      returned,
      record i {
        external_job_id = some (job_id i.id);
        hermes_status = some "dispatched";
        hermes_response = some (dispatched_job (job_id i.id) st);
      },
    )
    else (raised (dispatch_failed "job id mismatch"), mark_failed job_id_mismatch now i)

abbrev pub is_rejection : ℕ → Bool
is_rejection code = leb 400 code && ltb code 500 && not (code == 408 || code == 429)

unfoldable pub settle : ℕ → PostReply → Inv → Outcome × Inv
settle now (network_error e) i =
    (raised (dispatch_uncertain e), mark_uncertain (ambiguous "network") i)
settle now (other_error e) i = unexpected e now i
settle now (answered code body) i =
    if is_success code
    then accepted now body i
    else if is_rejection code
    then (raised (dispatch_failed "4xx"), mark_failed (dispatch_rejected code) now i)
    else (raised (dispatch_uncertain "http"), mark_uncertain (ambiguous_http code) i)

-- The whole handler, with the answer that a request gets.
unfoldable pub dispatch_deepagent : Result Request → (Request → PostReply) → ℕ → Inv → Outcome × Inv
unfolding settle
dispatch_deepagent (err e) post now i = (raised e, i)
dispatch_deepagent (ok req) post now i = settle now (post req) (begin now i)

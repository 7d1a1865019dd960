-- ===== src/Dfir/Release.antt =====
-- What a check and a dispatch do with the slot of a row.
use it_asset_inventory.Base.{
  ℕ, ◌*◌, max, String, ◌≡◌, refl, ◌⊎◌, inl, inr, Bool, true, false, not, ◌&&◌, ◌||◌, Option, some,
  arith, ◌==◌, if◌then◌else◌, Bool-cases, is_some, truthy?,
}
use it_asset_inventory.Dfir.Dispatch.{
  begin, is_rejection, settle, dispatch_deepagent, PostReply, network_error, other_error, answered,
}
use it_asset_inventory.Dfir.Prepare.{
  Request, ok, resolve_target_platform, prepare, Result, Sources, err,
}
use it_asset_inventory.Dfir.Queue.{job_id, is_active}
use it_asset_inventory.Dfir.Reconcile.{
  is_success, is_terminal_code, older_than, is_uncertain, or_empty, read_reply, check_deepagent_job,
  Body, GetReply, not_json, object, other_json, no_reply, reply,
}
use it_asset_inventory.Dfir.Types.{
  raised, hermes_is, Exc, Outcome, Failure, Inv, Settings, pending, analyzing, failed, llm_error,
  dispatch_uncertain, dispatch_failed, generic, returned, uncertain_too_long, terminal_reply,
}
use it_asset_inventory.Dfir.Worker.{after_dispatch, dispatch_claimed, World}

-- The replies that end an active job, stated apart from the handler: a row that has been uncertain for
-- too long, a missing job, or a terminal status code for an uncertain row.
pub releases : Settings → ℕ → GetReply → Inv → Bool
releases s now r i =
    (is_uncertain i && older_than now s.deepagent_reconcile_max_uncertain_seconds i.started_at)
    || elim r [
      | no_reply ↦ false
      | reply code body ↦ code == 404 || is_uncertain i && is_terminal_code code
    ]

-- A check of an active row that names a job frees the slot exactly when the row has been uncertain for
-- longer than the bound, the job is missing, or the row is uncertain and the status code is terminal.
pub check_releases_iff :
    (s : Settings) (now : ℕ) (r : GetReply) (i : Inv)
    → is_active i ≡ true
    → truthy? i.external_job_id ≡ true
    → is_active (check_deepagent_job s now r i).1 ≡ not (releases s now r i)
unfolding check_deepagent_job releases
check_releases_iff s now r i a j = ground arith

-- What a check may leave: the row still analyzing, the row back in the queue, or a failed row that
-- says when and why it failed.
pub data Checked (now : ℕ) (i j : Inv) : Type 0 where
  kept : j.status ≡ analyzing → j.completed_at ≡ i.completed_at → Checked now i j
  requeued :
      j.status ≡ pending
      → j.hermes_status ≡ some "recovery_required"
      → j.completed_at ≡ i.completed_at
      → Checked now i j
  given_up :
      (why : Failure)
      → j.status ≡ failed
      → j.error ≡ some why
      → j.completed_at ≡ some now
      → Checked now i j

reply-Checked :
    (now code : ℕ) (body : Body) (i : Inv)
    → i.status ≡ analyzing
    → Checked now i (read_reply now (reply code body) i).1
unfolding read_reply
reply-Checked now code body i a = elim (Bool-cases (is_success code)) [
  | inl e ↦ kept (ground arith) (ground arith)
  | inr e ↦ elim (Bool-cases (code == 404)) [
    | inl m ↦ requeued (ground arith) (ground arith) (ground arith)
    | inr m ↦ elim (Bool-cases (is_uncertain i && is_terminal_code code)) [
      | inl t ↦
          given_up (terminal_reply (or_empty i.external_job_id) code) (ground arith) (ground arith)
            (ground arith)
      | inr t ↦ kept (ground arith) (ground arith)
    ]
  ]
]

-- Whatever DeepAgent answers, a check of an analyzing row keeps it analyzing, puts it back in the queue, or
-- fails it with an error and the present time.
check_deepagent_job-Checked :
    (s : Settings) (now : ℕ) (r : GetReply) (i : Inv)
    → i.status ≡ analyzing
    → Checked now i (check_deepagent_job s now r i).1
unfolding check_deepagent_job
check_deepagent_job-Checked s now r i a = elim (Bool-cases (truthy? i.external_job_id)) [
  | inr e ↦
      elim (Bool-cases (
        hermes_is i.hermes_status "dispatching"
        && older_than now (max (s.deepagent_request_timeout_seconds * 2) 60) i.started_at)) [
          | inl d ↦ requeued (ground arith) (ground arith) (ground arith)
          | inr d ↦ kept (ground arith) (ground arith)
        ]
  | inl e ↦
      elim (Bool-cases (
        is_uncertain i
        && older_than now s.deepagent_reconcile_max_uncertain_seconds i.started_at)) [
          | inl d ↦
              given_up (uncertain_too_long s.deepagent_reconcile_max_uncertain_seconds)
                (ground arith) (ground arith) (ground arith)
          | inr d ↦ rw (e, d) (by_reply r)
        ]
]
  where
    by_reply : (r' : GetReply) → Checked now i (read_reply now r' i).1
    by_reply no_reply = kept a refl
    by_reply (reply code body) = reply-Checked now code body i a

-- The replies to the POST by which the service has refused the job for good.
pub refuses : Inv → PostReply → Bool
refuses i (network_error e) = false
refuses i (other_error e) = false
refuses i (answered code not_json) = is_rejection code
refuses i (answered code other_json) = is_rejection code
refuses i (answered code (object job st)) =
    if is_success code then not (hermes_is job (job_id i.id)) else is_rejection code

-- How the exception of a dispatch agrees with the row that it leaves.
Agrees : ℕ → Inv → Outcome → Inv → Type 0
Agrees now i returned j = (j.status ≡ analyzing) × (j.hermes_status ≡ some "dispatched")
Agrees now i (raised (dispatch_uncertain e)) j =
    (j.status ≡ analyzing)
    × (j.hermes_status ≡ some "dispatch_uncertain")
    × (j.completed_at ≡ i.completed_at)
Agrees now i (raised (dispatch_failed e)) j =
    (j.status ≡ failed) × (j.hermes_status ≡ some "dispatch_failed") × (j.completed_at ≡ some now)
Agrees now i (raised (llm_error e)) j = j ≡ i
Agrees now i (raised (generic e)) j = j ≡ i

-- The exception tells the truth about the row: a return means dispatched, an uncertain dispatch
-- leaves the row analyzing and not completed, a failed one has failed and completed it.
settle-Agrees :
    (now : ℕ) (r : PostReply) (i : Inv)
    → let (o, j) = settle now r (begin now i) in Agrees now i o j
unfolding settle Agrees
settle-Agrees now (network_error e) i = (refl, refl, refl)
settle-Agrees now (other_error e) i = (refl, refl, refl)
settle-Agrees now (answered code not_json) i = ground arith
settle-Agrees now (answered code other_json) i = ground arith
settle-Agrees now (answered code (object job st)) i = ground arith

abbrev is_plain : Exc → Bool
is_plain (llm_error e) = true
is_plain (generic e) = true
is_plain _ = false

abbrev is_plain_result : Result Request → Bool
is_plain_result (ok req) = true
is_plain_result (err e) = is_plain e

-- Before the request nothing raises one of the two exceptions of the state machine.
prepare-plain :
    (decrypt : String → Option String) (before : String → String → Bool)
    (describe : String → String) (s : Settings) (src : Sources) (now : ℕ) (i : Inv)
    → is_plain_result (prepare decrypt before describe s src now i) ≡ true
unfolding prepare resolve_target_platform
prepare-plain decrypt before describe s src now i = ground arith

abbrev Leaves : ℕ → Inv → Inv → Type 0
Leaves now i j =
    ((j.status ≡ analyzing) × (j.external_job_id ≡ some (job_id i.id)))
    ⊎ ((j.status ≡ failed) × (is_some j.error ≡ true) × (j.completed_at ≡ some now))

leaves :
    (post : Request → PostReply) (now : ℕ) (i : Inv) (q : Result Request)
    → is_plain_result q ≡ true
    → let (o, j) = dispatch_deepagent q post now i in Leaves now i (after_dispatch now o j).1
unfolding dispatch_deepagent after_dispatch
leaves post now i (err (llm_error e)) h = inr (refl, refl, refl)
leaves post now i (err (generic e)) h = inr (refl, refl, refl)
leaves post now i (err (dispatch_uncertain e)) h = cc
leaves post now i (err (dispatch_failed e)) h = cc
leaves post now i (ok req) h = ground arith

-- Every claimed row leaves the queue: after its dispatch it is analyzing under its own job
-- identifier, or it has failed with an error and the present time.
dispatch_claimed_leaves :
    (w : World) (i : Inv)
    → let j = (dispatch_claimed w i).1 in
      ((j.status ≡ analyzing) × (j.external_job_id ≡ some (job_id i.id)))
      ⊎ ((j.status ≡ failed) × (is_some j.error ≡ true) × (j.completed_at ≡ some w.now))
unfolding dispatch_claimed
dispatch_claimed_leaves w i =
    leaves w.post w.now i (prepare w.decrypt w.before w.describe w.settings (w.sources i) w.now i)
      (prepare-plain w.decrypt w.before w.describe w.settings (w.sources i) w.now i)

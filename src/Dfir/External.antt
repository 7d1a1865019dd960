-- ===== src/Dfir/External.antt =====
-- The results that external services push, and the calls of the administrator:
-- `submit_external_result`, `list_pending_for_external`, `mark_external_polled` and
-- `create_investigation` of services/dfir_investigation.py, the status route of
-- api/routes/llm_dfir_external.py, and stop and delete of api/routes/llm_dfir.py.
use it_asset_inventory.Base.{
  ℕ, ◌+◌, String, ◌⊎◌, inl, inr, Bool, true, false, not, ◌&&◌, ◌||◌, Option, none, some, List, map,
  if◌then◌else◌, str_eq, truthy, is_some, truthy?, get_or, text_or, length, take, filter, find?,
  update, lower, one_of,
}
use it_asset_inventory.Dfir.Analyze.{
  severities, notify_completed, send, add_tokens, Side, failed_notice,
}
use it_asset_inventory.Dfir.Queue.{sort_by_created, has_id}
use it_asset_inventory.Dfir.Reconcile.{older_than, or_empty}
use it_asset_inventory.Dfir.Types.{
  Response, is_analyzing, is_final, is_deepagent, is_hermes, hermes_is, Orchestrator, Inv,
  completed, failed, hermes, deepagent, external,
}
use it_asset_inventory.Dfir.Worker.{put, Store}

-- The exceptions of the external calls, and the HTTP statuses of the routes.
pub data Refusal : Type 0 where
  not_found conflict invalid : Refusal

-- The payload of a callback.
pub record Callback : Type 0 where
  pub report_markdown : Option String
  pub severity : String
  pub findings_count : Option ℕ
  pub findings : List String
  pub iocs : List String
  pub llm_provider : Option String
  pub llm_model : Option String
  pub input_tokens : Option ℕ
  pub output_tokens : Option ℕ
  pub estimated_cost : Option String
  pub error : Option String
  pub external_job_id : Option String
  pub raw_response : Option Response
  pub idempotency_key : Option String

abbrev pub orchestrator_name : Option Orchestrator → Option String
orchestrator_name none = none
orchestrator_name (some hermes) = some "hermes"
orchestrator_name (some deepagent) = some "deepagent"

abbrev pub or_hermes : Option Orchestrator → Orchestrator
or_hermes none = hermes
or_hermes (some o) = o

-- `a == b` on optional texts.
abbrev pub text_eq? : Option String → Option String → Bool
text_eq? none none = true
text_eq? (some a) b = hermes_is b a
text_eq? none (some b) = false

abbrev pub with_job : Option String → Inv → Inv
with_job job i = if truthy? job then record i { external_job_id = job } else i

abbrev pub store_error : ℕ → Callback → Inv → Inv
store_error now b i = with_job b.external_job_id (record i {
  callback_received_at = some now;
  status = failed;
  error = some (external (or_hermes i.orchestrator) (or_empty b.error));
  completed_at = some now;
  hermes_status = some "failed";
  hermes_response = b.raw_response;
  callback_key = b.idempotency_key;
})

abbrev pub clean_severity : String → String
clean_severity s =
    let sev = lower (if truthy s then s else "info") in
    if one_of sev severities then sev else "info"

abbrev pub store_result : ℕ → Callback → Inv → Inv
store_result now b i = with_job b.external_job_id (record i {
  callback_received_at = some now;
  severity = some (clean_severity b.severity);
  findings = b.findings;
  iocs = b.iocs;
  findings_count = some (get_or b.findings_count (length b.findings));
  report_markdown = b.report_markdown;
  llm_provider = text_or b.llm_provider (orchestrator_name i.orchestrator);
  llm_model = b.llm_model;
  input_tokens = b.input_tokens;
  output_tokens = b.output_tokens;
  estimated_cost = b.estimated_cost;
  status = completed;
  completed_at = some now;
  hermes_status = some "completed";
  hermes_response = b.raw_response;
  callback_key = b.idempotency_key;
})

-- The guards, in the order of the source: a refusal, a repeated callback (`inr false`), or a
-- callback to store (`inr true`).
unfoldable pub admit : Callback → Inv → Refusal ⊎ Bool
admit b i =
    if not (is_some i.orchestrator)
    then inl conflict
    else if not (truthy? b.idempotency_key)
    then inl conflict
    else if is_deepagent i.orchestrator && not (truthy? i.external_job_id)
    then inl conflict
    else if is_final i.status
    then if not (truthy? i.callback_key) || not (text_eq? b.idempotency_key i.callback_key)
      then inl conflict
      else inr false
    else if truthy? i.external_job_id && not (text_eq? b.external_job_id i.external_job_id)
    then inl conflict
    else if not (is_analyzing i.status)
    then inl conflict
    else inr true

-- The writes after the guards, on the row and beside it.
unfoldable pub store_callback : ℕ → Callback → Inv → Side → Inv × Side
store_callback now b i d =
    if truthy? b.error
    then (store_error now b i, send (failed_notice i.id i.machine_id (or_empty b.error)) d)
    else let i' = store_result now b i in
      (
        i',
        send (notify_completed i') (record d {
          config = add_tokens (get_or b.input_tokens 0 + get_or b.output_tokens 0) d.config;
        }),
      )

abbrev pub find_row : String → List Inv → Option Inv
find_row id = find? (λ i. str_eq i.id id)

unfoldable pub submit_external_result : ℕ → String → Callback → Store → (Refusal ⊎ Inv) × Store
unfolding admit store_callback
submit_external_result now id b s = elim (find_row id s.rows) [
  | none ↦ (inl not_found, s)
  | some i ↦ elim (admit b i) [
    | inl r ↦ (inl r, s)
    | inr false ↦ (inr i, s)
    | inr true ↦
        let (i', d) = store_callback now b i s.side in
        (inr i', record s { rows = put i' s.rows; side = d })
  ]
]

abbrev pub claim_poll : ℕ → Inv → Inv
claim_poll now i = record i { external_polled_at = some now; hermes_status = some "claimed" }

-- A row that Hermes may take: never polled, or polled more than five minutes ago.
abbrev pub is_offered : ℕ → Inv → Bool
is_offered now i =
    is_analyzing i.status
    && is_hermes i.orchestrator
    && (not (is_some i.external_polled_at) || older_than now 300 i.external_polled_at)

-- `list_pending_for_external`: the rows, and the table after the commit.
unfoldable pub list_pending_for_external : (Inv → Bool) → ℕ → ℕ → List Inv → List Inv × List Inv
list_pending_for_external free now limit rows =
    let chosen = take limit (sort_by_created (filter (λ i. is_offered now i && free i) rows)) in
    (map (claim_poll now) chosen, update (λ i. has_id i.id chosen) (claim_poll now) rows)

unfoldable pub mark_external_polled : ℕ → Inv → List Inv → List Inv
mark_external_polled now i = put (claim_poll now i)

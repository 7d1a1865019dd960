-- ===== src/Dfir/Progress.antt =====
-- The progress route (`update_investigation_status` of api/routes/llm_dfir_external.py), the calls
-- of the administrator (stop and delete of api/routes/llm_dfir.py) and `create_investigation` of
-- services/dfir_investigation.py. Authentication of the key is not part of these functions.
use it_asset_inventory.Base.{
  ℕ, zero, suc, ◌+◌, String, ◌⊎◌, inl, inr, Bool, true, false, not, ◌&&◌, ◌||◌, Option, none, some,
  List, [], ◌∷◌, ◌++◌, ltb, ◌==◌, if◌then◌else◌, str_eq, truthy, is_some, truthy?, filter, one_of,
}
use it_asset_inventory.Dfir.Analyze.{is_llm_enabled}
use it_asset_inventory.Dfir.External.{find_row, Refusal, not_found, conflict, invalid}
use it_asset_inventory.Dfir.Types.{
  Response, is_final, is_deepagent, hermes_is, Status, Orchestrator, Inv, Settings, LlmConfig, Link,
  pending, running, collecting, analyzing, failed, hermes, deepagent, stopped_by_user, progress,
}
use it_asset_inventory.Dfir.Worker.{put, Store}

pub record Progress : Type 0 where
  pub job : String
  pub phase : String
  pub percent : ℕ
  pub current_step : Option ℕ
  pub total_steps : Option ℕ
  pub message : Option String

-- `_STATUS_PHASE_ORDER.get(phase, 1)`
unfoldable pub phase_order : String → ℕ
phase_order p =
    if str_eq p "dispatching"
    then 0
    else if str_eq p "running"
    then 1
    else if str_eq p "collecting"
    then 2
    else if str_eq p "finalizing"
    then 3
    else if str_eq p "completed" || str_eq p "failed"
    then 4
    else 1

-- The numbers that the route compares are at least -1; each is kept here with one added, so a step
-- or a progress of 0, which `or -1` turns into -1, is 0.
abbrev pub rank : Option ℕ → ℕ
rank none = 0
rank (some zero) = 0
rank (some (suc n)) = suc (suc n)

-- What the stored response says of the phase, the progress and the step.
abbrev pub is_phase : String → Bool
is_phase p =
    one_of p ("dispatching" ∷ "running" ∷ "collecting" ∷ "finalizing" ∷ "completed" ∷ "failed" ∷ [])

abbrev pub previous_order : Option Response → ℕ
previous_order (some (progress p _ _ _ _)) = if is_phase p then phase_order p + 1 else 0
previous_order _ = 0

abbrev pub previous_progress : Option Response → ℕ
previous_progress (some (progress _ n _ _ _)) = rank (some n)
previous_progress _ = 0

abbrev pub previous_step : Option Response → ℕ
previous_step (some (progress _ _ s _ _)) = rank s
previous_step _ = 0

-- `(a, b, c) < (x, y, z)`
abbrev pub lex_lt : ℕ → ℕ → ℕ → ℕ → ℕ → ℕ → Bool
lex_lt a b c x y z = ltb a x || a == x && (ltb b y || b == y && ltb c z)

-- The update would go back.
unfoldable pub goes_back : Progress → Option Response → Bool
goes_back p r =
    ltb (p.percent + 1) (previous_progress r)
    || lex_lt (phase_order p.phase + 1) (p.percent + 1) (rank p.current_step) (previous_order r)
        (previous_progress r) (previous_step r)

abbrev pub write_progress : Progress → Inv → Inv
write_progress p i = record i {
  external_job_id = some p.job;
  hermes_status = some p.phase;
  hermes_response = some (progress p.phase p.percent p.current_step p.total_steps p.message);
}

-- A refusal, or whether the update was accepted; and the row.
unfoldable pub update_investigation_status : Progress → Inv → (Refusal ⊎ Bool) × Inv
unfolding goes_back
update_investigation_status p i =
    if not (is_some i.orchestrator)
    then (inr false, i)
    else if is_deepagent i.orchestrator && not (truthy? i.external_job_id)
    then (inl conflict, i)
    else if truthy? i.external_job_id && not (hermes_is i.external_job_id p.job)
    then (inl conflict, i)
    else if is_final i.status
    then (inr false, i)
    else if goes_back p i.hermes_response
    then (inr false, i)
    else (inr true, write_progress p i)

unfoldable pub stop_investigation : ℕ → String → List Inv → (Refusal ⊎ Unit {0}) × List Inv
stop_investigation now id rows = elim (find_row id rows) [
  | none ↦ (inl not_found, rows)
  | some i ↦ if is_final i.status then (inl conflict, rows) else (
    inr tt,
    put (record i { status = failed; error = some stopped_by_user; completed_at = some now }) rows,
  )
]

abbrev pub is_busy : Status → Bool
is_busy running = true
is_busy collecting = true
is_busy analyzing = true
is_busy _ = false

unfoldable pub delete_investigation : String → List Inv → (Refusal ⊎ Unit {0}) × List Inv
delete_investigation id rows = elim (find_row id rows) [
  | none ↦ (inl not_found, rows)
  | some i ↦
      if is_busy i.status
      then (inl conflict, rows)
      else (inr tt, filter (λ j. not (str_eq j.id id)) rows)
]

-- Which orchestrator a new investigation gets: the caller's choice, then the configuration.
abbrev pub configured_external : Settings → LlmConfig → String
configured_external s c =
    if truthy c.external_orchestrator then c.external_orchestrator else s.llm_external_orchestrator

abbrev pub chosen_name : Option Bool → String → Option String
chosen_name (some true) c = some (if truthy c then c else "hermes")
chosen_name (some false) c = none
chosen_name none c = if truthy c then some c else none

abbrev pub parse_orchestrator : Option String → Refusal ⊎ Option Orchestrator
parse_orchestrator none = inr none
parse_orchestrator (some s) =
    if str_eq s "hermes"
    then inr (some hermes)
    else if str_eq s "deepagent"
    then inr (some deepagent)
    else inl invalid

abbrev pub or_defaults : List String → List String → List String
or_defaults [] d = d
or_defaults (a ∷ rest) d = a ∷ rest

abbrev pub new_investigation :
    (id machine_id client requested_by : String)
    → List String
    → Option String
    → Option Orchestrator
    → ℕ
    → Inv
new_investigation id machine_id c requested_by arts instructions o now = record {
  id = id;
  machine_id = machine_id;
  client_id = some c;
  artifacts = arts;
  status = pending;
  flow_id = none;
  flows = none;
  custom_instructions = instructions;
  orchestrator = o;
  external_job_id = none;
  external_polled_at = none;
  hermes_status = none;
  hermes_response = none;
  callback_received_at = none;
  callback_key = none;
  severity = none;
  findings = [];
  iocs = [];
  findings_count = none;
  report_markdown = none;
  llm_provider = none;
  llm_model = none;
  input_tokens = none;
  output_tokens = none;
  estimated_cost = none;
  error = none;
  requested_by = requested_by;
  started_at = none;
  completed_at = none;
  created_at = now;
}

-- What the caller asks for; `fresh` is the new identifier.
pub record Wanted : Type 0 where
  pub fresh : String
  pub machine_id : String
  pub artifacts : List String
  pub custom_instructions : Option String
  pub requested_by : String
  pub use_external_orchestrator : Option Bool

-- `link` is the row of `velociraptor_links` of the machine.
unfoldable pub create_investigation :
    ℕ → Settings → Wanted → Option Link → Store → (Refusal ⊎ Inv) × Store
create_investigation now s q link st = elim (is_llm_enabled st.side) [
  | false ↦ (inl invalid, st)
  | true ↦ elim link [
    | none ↦ (inl invalid, st)
    | some l ↦ if not (truthy l.client_id) then (inl invalid, st) else elim st.side.config [
      | none ↦ (inl invalid, st)
      | some c ↦
          elim (parse_orchestrator
            (chosen_name q.use_external_orchestrator (configured_external s c))) [
              | inl r ↦ (inl r, st)
              | inr o ↦
                  let i =
                    new_investigation q.fresh q.machine_id l.client_id q.requested_by
                      (or_defaults q.artifacts s.llm_default_artifacts) q.custom_instructions o
                      now in
                  (inr i, record st { rows = st.rows ++ i ∷ [] })
            ]
    ]
  ]
]

-- ===== src/Dfir/Collect.antt =====
-- Collection by the server itself: `_state_start` and `_state_poll_collect` of
-- services/dfir_investigation.py. The Velociraptor client is an argument; `raw`, a copy of the flow's
-- identifier in its entry, is left out.
use it_asset_inventory.Base.{
  ℕ, ◌-◌, String, ◌⊎◌, inl, inr, Bool, true, false, not, ◌&&◌, ◌||◌, Option, none, some, List, [],
  ◌∷◌, map, if◌then◌else◌, is_some, truthy?,
}
use it_asset_inventory.Dfir.Reconcile.{older_than, or_empty}
use it_asset_inventory.Dfir.Types.{
  Exc, Outcome, Failure, Flow, Inv, Settings, running, collecting, analyzing, failed, llm_error,
  dispatch_uncertain, dispatch_failed, generic, returned, raised, velociraptor, velociraptor_poll,
  collect_timeout, no_flows,
}

-- `_build_velociraptor_client` raised, found no configuration, or gave a client of type A.
pub data Built (A : Type 0) : Type 0 where
  broken : Exc → Built A
  unconfigured : Built A
  client : A → Built A

-- `get_flow_status`, then `get_flow_results`: each raises, or answers.
pub data FlowStatus : Type 0 where
  status_error : Exc → FlowStatus
  flow_running : FlowStatus
  flow_ended : Option String → FlowStatus

pub data Fetched : Type 0 where
  fetch_error : Exc → Fetched
  fetched : String → Fetched

pub record Velo : Type 0 where
  pub collect : Option String → String → Exc ⊎ Option String
  pub flow_status : Option String → String → FlowStatus
  pub flow_results : Option String → String → String → Fetched

abbrev pub exc_text : Exc → String
exc_text (llm_error s) = s
exc_text (dispatch_uncertain s) = s
exc_text (dispatch_failed s) = s
exc_text (generic s) = s

abbrev pub fail : Failure → ℕ → Inv → Inv
fail why now i = record i { status = failed; error = some why; completed_at = some now }

abbrev pub blank_flow : String → Flow
blank_flow art = record {
  artifact = art;
  flow_id = none;
  error = none;
  results = none;
  results_error = none;
  results_cached = false;
}

-- One flow for each artifact; a failure is an entry with an error.
abbrev pub trigger : Velo → Option String → String → Flow
trigger v c art = elim (v.collect c art) [
  | inl e ↦ record (blank_flow art) { error = some (exc_text e) }
  | inr fid ↦ record (blank_flow art) { flow_id = fid }
]

-- `next((f.get("flow_id") for f in flows if f.get("flow_id")), None)`
abbrev pub first_flow_id : List Flow → Option String
first_flow_id [] = none
first_flow_id (f ∷ fs) = if truthy? f.flow_id then f.flow_id else first_flow_id fs

abbrev pub start_with : ℕ → Built Velo → Inv → Outcome × Inv
start_with now (broken e) i = (raised e, fail (velociraptor e) now i)
start_with now unconfigured i =
    (raised (generic "no config"), fail (velociraptor (generic "no config")) now i)
start_with now (client v) i =
    let triggered = map (trigger v i.client_id) i.artifacts in
    (
      returned,
      record i { flows = some triggered; flow_id = first_flow_id triggered; status = collecting },
    )

unfoldable pub state_start : ℕ → Built Velo → Inv → Outcome × Inv
state_start now v i = start_with now v (record i { status = running; started_at = some now })

-- A flow that the poll passes over: no identifier, results already cached, or an error.
abbrev pub is_settled : Flow → Bool
is_settled f = not (truthy? f.flow_id) || f.results_cached || truthy? f.error

abbrev pub with_error : Option String → Flow → Flow
with_error e f = if truthy? e && not (truthy? f.results) then record f { error = e } else f

abbrev pub with_results : Fetched → Flow → Flow
with_results (fetch_error e) f = record f {
  results_error = some (exc_text e);
  results_cached = true;
}
with_results (fetched r) f = record f { results = some r; results_cached = true }

-- One turn of the loop over the flows: the entry, and whether this flow is done.
unfoldable pub poll_flow : Velo → Option String → Flow → Flow × Bool
poll_flow v c f = if is_settled f then (f, true) else elim (v.flow_status c (or_empty f.flow_id)) [
  | status_error e ↦ (f, false)
  | flow_running ↦ (f, false)
  | flow_ended e ↦
      (with_results (v.flow_results c (or_empty f.flow_id) f.artifact) (with_error e f), true)
]

-- The entries in memory after the loop, and `all_done`.
unfoldable pub poll_flows : Velo → Option String → List Flow → List Flow × Bool
unfolding poll_flow
poll_flows v c [] = ([], true)
poll_flows v c (f ∷ fs) =
    let (f', done) = poll_flow v c f in
    let (fs', rest) = poll_flows v c fs in (f' ∷ fs', done && rest)

abbrev pub or_no_flows : Option (List Flow) → List Flow
or_no_flows none = []
or_no_flows (some fs) = fs

abbrev pub finish_collect : Bool → Inv → Inv
finish_collect false i = i
finish_collect true i =
    if is_some i.orchestrator
    then record i { status = analyzing; hermes_status = some "awaiting_external" }
    else record i { status = analyzing }

abbrev pub poll_with : ℕ → Built Velo → List Flow → Inv → Outcome × Inv
poll_with now (broken e) fs i = (raised e, fail (velociraptor_poll e) now i)
poll_with now unconfigured fs i =
    (raised (generic "no config"), fail (velociraptor_poll (generic "no config")) now i)
poll_with now (client v) fs i =
    let (fs', all_done) = poll_flows v i.client_id fs in
    (returned, finish_collect all_done (record i { flows = some fs' }))

abbrev pub timed_out : Settings → ℕ → Inv → Bool
timed_out s now i = older_than now s.llm_collect_max_wait_seconds i.started_at

abbrev pub elapsed : ℕ → Option ℕ → ℕ
elapsed now none = 0
elapsed now (some t) = now - t

abbrev pub poll_rest : ℕ → Built Velo → List Flow → Inv → Outcome × Inv
poll_rest now v [] i = (returned, fail no_flows now i)
poll_rest now v (f ∷ fs) i = poll_with now v (f ∷ fs) i

-- The object in memory after the handler.
unfoldable pub state_poll_collect : Settings → ℕ → Built Velo → Inv → Outcome × Inv
unfolding poll_flows
state_poll_collect s now v i =
    if timed_out s now i
    then (returned, fail (collect_timeout (elapsed now i.started_at)) now i)
    else poll_rest now v (or_no_flows i.flows) i

-- What the commits of the poll store. The handler changes the flows inside the JSON value of
-- `raw_artifacts` and assigns no new value; the column is a plain JSONB column, for which
-- SQLAlchemy detects no change in place. So the stored flows are those that were loaded.
unfoldable pub stored_poll : Settings → ℕ → Built Velo → Inv → Outcome × Inv
unfolding state_poll_collect
stored_poll s now v i =
    let (o, i') = state_poll_collect s now v i in (o, record i' { flows = i.flows })

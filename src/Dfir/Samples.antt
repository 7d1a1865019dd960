-- ===== src/Dfir/Samples.antt =====
-- Rows, settings and answers for tests: `a` holds a slot, `b` waits, `c` has no orchestrator, `d` is completed by a
-- callback.
use it_asset_inventory.Base.{ℕ, String, true, false, none, some, List, [], ◌∷◌}
use it_asset_inventory.Dfir.Analyze.{chat_error}
use it_asset_inventory.Dfir.Collect.{unconfigured}
use it_asset_inventory.Dfir.Dispatch.{PostReply, answered}
use it_asset_inventory.Dfir.External.{store_callback, Callback}
use it_asset_inventory.Dfir.Prepare.{ArtifactRow, Request}
use it_asset_inventory.Dfir.Progress.{stop_investigation, create_investigation, Progress, Wanted}
use it_asset_inventory.Dfir.Queue.{job_id, reserve}
use it_asset_inventory.Dfir.Reconcile.{not_json, object, reply}
use it_asset_inventory.Dfir.Types.{
  Inv, Settings, LlmConfig, Link, pending, analyzing, completed, hermes, deepagent,
}
use it_asset_inventory.Dfir.Worker.{run_pending_investigations, World, Store}

abbrev pub blank : String → ℕ → Inv
blank id now = record {
  id = id;
  machine_id = "m";
  client_id = some "C.1";
  artifacts = [];
  status = pending;
  flow_id = none;
  flows = none;
  custom_instructions = none;
  orchestrator = some deepagent;
  external_job_id = none;
  external_polled_at = none;
  hermes_status = none;
  hermes_response = none;
  callback_received_at = none;
  callback_key = none;
  severity = none;
  findings = [];
  iocs = [];
  findings_count = none;
  report_markdown = none;
  llm_provider = none;
  llm_model = none;
  input_tokens = none;
  output_tokens = none;
  estimated_cost = none;
  error = none;
  requested_by = "u";
  started_at = none;
  completed_at = none;
  created_at = now;
}

abbrev pub row_a : Inv
row_a = record (blank "a" 10) {
  status = analyzing;
  external_job_id = some (job_id "a");
  hermes_status = some "dispatched";
  started_at = some 20;
}

abbrev pub row_b : Inv
row_b = blank "b" 30

abbrev pub row_c : Inv
row_c = record (blank "c" 5) { orchestrator = none }

abbrev pub row_d : Inv
row_d = record (blank "d" 2) {
  status = completed;
  external_job_id = some (job_id "d");
  callback_key = some "k";
  completed_at = some 40;
}

abbrev pub table : List Inv
table = row_b ∷ row_a ∷ row_c ∷ row_d ∷ []

abbrev pub config : LlmConfig
config = record {
  enabled = true;
  provider = "p";
  base_url = "http://llm";
  api_key_encrypted = none;
  model = "x";
  system_prompt = none;
  external_orchestrator = "deepagent";
  tokens_used_today = 0;
}

abbrev pub store : Store
store = record { rows = table; side = record { config = some config; messages = []; notices = [] } }

abbrev pub settings : Settings
settings = record {
  deepagent_enabled = true;
  deepagent_api_key = "key";
  deepagent_request_timeout_seconds = 30;
  deepagent_max_concurrent_jobs = 2;
  deepagent_reconcile_max_uncertain_seconds = 3600;
  deepagent_default_lookback_hours = 24;
  llm_collect_max_wait_seconds = 600;
  llm_default_artifacts = "Generic.Client.Info" ∷ [];
  llm_external_orchestrator = "deepagent";
}

abbrev pub accepts : Request → PostReply
accepts r = answered 202 (object (some (job_id r.investigation_id)) (some "queued"))

abbrev pub world : World
world = record {
  now = 100;
  settings = settings;
  free = λ i. true;
  get_job = λ i. reply 404 not_json;
  sources = λ i. record {
    hostname = some "host";
    link = some (record { machine_id = "m"; client_id = "C.1"; os_system = some "Windows" });
    current_platform = some "windows";
    llm = some config;
    client_config_encrypted = some "sealed";
    artifact_rows = [];
  };
  decrypt = λ s. some s;
  before = λ s t. false;
  describe = λ s. s;
  post = accepts;
  velo = λ i. unconfigured;
  prompts = λ c i. ("system", "user");
  chat = λ s t. chat_error "no model";
  find_severity = λ s. none;
  find_count = λ s. (none, 0);
}

abbrev pub good_callback : Callback
good_callback = record {
  report_markdown = some "# Report";
  severity = "high";
  findings_count = some 1;
  findings = "one" ∷ [];
  iocs = [];
  llm_provider = none;
  llm_model = none;
  input_tokens = none;
  output_tokens = none;
  estimated_cost = none;
  error = none;
  external_job_id = some (job_id "a");
  raw_response = none;
  idempotency_key = some "k";
}

abbrev pub stored_row : Inv
stored_row = (store_callback 100 good_callback row_a store.side).0

abbrev pub other_callback : Callback
other_callback = record good_callback { idempotency_key = some "other" }

abbrev pub request : Request
request = record {
  investigation_id = "b";
  client_id = "C.1";
  hostname = "host";
  target_platform = "windows";
  time_from = 0;
  time_to = 100;
  suspicious_activity = "";
  base_url = "http://llm";
  api_key = "";
  model = "x";
  system_prompt = none;
  api_client_yaml = "sealed";
  custom_artifacts = [];
}

abbrev pub row_claimed : Inv
row_claimed = reserve row_b

abbrev pub step : String → ℕ → Progress
step phase percent = record {
  job = job_id "a";
  phase = phase;
  percent = percent;
  current_step = none;
  total_steps = none;
  message = none;
}

abbrev pub steps : List Progress
steps = step "collecting" 40 ∷ step "running" 10 ∷ []

abbrev pub wanted : Wanted
wanted = record {
  fresh = "e";
  machine_id = "m";
  artifacts = [];
  custom_instructions = none;
  requested_by = "u";
  use_external_orchestrator = some true;
}

abbrev pub link : Link
link = record { machine_id = "m"; client_id = "C.1"; os_system = none }

abbrev pub bare : Store
bare = record store { rows = [] }

abbrev pub created : Store
created = (create_investigation 90 settings wanted (some link) bare).1

-- A new investigation, then a tick of the worker, then a stop by the administrator.
abbrev pub stopped : Store
stopped =
    let ticked = (run_pending_investigations world created).1 in
    record ticked { rows = (stop_investigation 110 "e" ticked.rows).1 }

abbrev pub row_hermes : Inv
row_hermes = record (blank "h" 50) { orchestrator = some hermes; artifacts = "Generic" ∷ [] }

abbrev pub artifact_row : ArtifactRow
artifact_row = record {
  name = "Custom.Windows.Autoruns";
  definition_yaml = "description: autoruns";
  enabled = true;
  artifact_type = "CLIENT";
  tier = 3;
  supported_platforms = "solaris" ∷ "windows" ∷ [];
  selection_priority = 5;
}

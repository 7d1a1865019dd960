-- ===== src/Dfir/Types.antt =====
-- The rows of the investigation service (server/app/db/models.py), its errors and its settings.
-- Times are seconds; identifiers are texts that are only compared; a log line leaves no trace.
use it_asset_inventory.Base.{ℕ, String, Bool, true, false, Option, none, some, List, str_eq}

-- The lifecycle of an investigation.
pub data Status : Type 0 where
  pending running collecting analyzing completed failed : Status

abbrev pub is_pending : Status → Bool
is_pending pending = true
is_pending _ = false

abbrev pub is_analyzing : Status → Bool
is_analyzing analyzing = true
is_analyzing _ = false

abbrev pub is_failed : Status → Bool
is_failed failed = true
is_failed _ = false

-- `status in ("completed", "failed")`
abbrev pub is_final : Status → Bool
is_final completed = true
is_final failed = true
is_final _ = false

pub data Orchestrator : Type 0 where
  hermes deepagent : Orchestrator

-- The exceptions that the worker tells apart. `generic` is any other exception, by its text.
pub data Exc : Type 0 where
  llm_error dispatch_uncertain dispatch_failed generic : String → Exc

-- How a handler ended.
pub data Outcome : Type 0 where
  returned : Outcome
  raised : Exc → Outcome

-- What the column `error` says. The source stores a sentence that holds these values, cut at
-- 2000 characters.
pub data Failure : Type 0 where
  uncertain_too_long : ℕ → Failure
  terminal_reply : String → ℕ → Failure
  job_id_mismatch : Failure
  dispatch_rejected : ℕ → Failure
  worker_exception : Exc → Failure
  velociraptor : Exc → Failure
  velociraptor_poll : Exc → Failure
  collect_timeout : ℕ → Failure
  no_flows : Failure
  llm_config_deleted : Failure
  llm_call : String → Failure
  external : Orchestrator → String → Failure
  stopped_by_user : Failure

-- The JSON of the column `hermes_response`, by the places that write it.
pub data Response : Type 0 where
  reason : String → Response
  reconciled : String → Option String → Response
  ambiguous : String → Response
  ambiguous_http : ℕ → Response
  dispatched_job : String → Option String → Response
  progress : String → ℕ → Option ℕ → Option ℕ → Option String → Response
  raw : String → Response

-- One entry of `raw_artifacts["flows"]`.
pub record Flow : Type 0 where
  pub artifact : String
  pub flow_id : Option String
  pub error : Option String
  pub results : Option String
  pub results_error : Option String
  pub results_cached : Bool

-- A row of `dfir_investigations`.
pub record Inv : Type 0 where
  pub id : String
  pub machine_id : String
  pub client_id : Option String
  pub artifacts : List String
  pub status : Status
  pub flow_id : Option String
  pub flows : Option (List Flow)
  pub custom_instructions : Option String
  pub orchestrator : Option Orchestrator
  pub external_job_id : Option String
  pub external_polled_at : Option ℕ
  pub hermes_status : Option String
  pub hermes_response : Option Response
  pub callback_received_at : Option ℕ
  pub callback_key : Option String
  pub severity : Option String
  pub findings : List String
  pub iocs : List String
  pub findings_count : Option ℕ
  pub report_markdown : Option String
  pub llm_provider : Option String
  pub llm_model : Option String
  pub input_tokens : Option ℕ
  pub output_tokens : Option ℕ
  pub estimated_cost : Option String
  pub error : Option Failure
  pub requested_by : String
  pub started_at : Option ℕ
  pub completed_at : Option ℕ
  pub created_at : ℕ

-- `inv.external_orchestrator == "deepagent"`
abbrev pub is_deepagent : Option Orchestrator → Bool
is_deepagent (some deepagent) = true
is_deepagent _ = false

-- `inv.external_orchestrator == "hermes"`
abbrev pub is_hermes : Option Orchestrator → Bool
is_hermes (some hermes) = true
is_hermes _ = false

-- `inv.hermes_status == s`
abbrev pub hermes_is : Option String → String → Bool
hermes_is none s = false
hermes_is (some t) s = str_eq t s

-- The settings that the service reads.
pub record Settings : Type 0 where
  pub deepagent_enabled : Bool
  pub deepagent_api_key : String
  pub deepagent_request_timeout_seconds : ℕ
  pub deepagent_max_concurrent_jobs : ℕ
  pub deepagent_reconcile_max_uncertain_seconds : ℕ
  pub deepagent_default_lookback_hours : ℕ
  pub llm_collect_max_wait_seconds : ℕ
  pub llm_default_artifacts : List String
  pub llm_external_orchestrator : String

-- The row of `llm_config`.
pub record LlmConfig : Type 0 where
  pub enabled : Bool
  pub provider : String
  pub base_url : String
  pub api_key_encrypted : Option String
  pub model : String
  pub system_prompt : Option String
  pub external_orchestrator : String
  pub tokens_used_today : ℕ

-- The row of `velociraptor_links` of a machine; `os_system` is `os_info["system"]`.
pub record Link : Type 0 where
  pub machine_id : String
  pub client_id : String
  pub os_system : Option String

-- ===== src/Dfir/Analyze.antt =====
-- Analysis by the local model: `_state_analyze` of services/dfir_investigation.py from the prompt
-- on, with `_notify_investigation_result`, `_load_llm_config` and `_is_llm_enabled`. The answer of the model,
-- the two prompts, and what the regular expressions of `_parse_severity` and
-- `_parse_findings_count` find are arguments.
use it_asset_inventory.Base.{
  ℕ, ◌+◌, String, Bool, false, Option, none, some, List, [], ◌∷◌, ◌++◌, if◌then◌else◌, is_some,
  get_or, lower, one_of,
}
use it_asset_inventory.Dfir.Collect.{fail}
use it_asset_inventory.Dfir.Prepare.{is_configured, text_else}
use it_asset_inventory.Dfir.Types.{
  Outcome, Inv, LlmConfig, completed, generic, returned, raised, llm_config_deleted, llm_call,
}

-- A row of `dfir_investigation_messages`.
pub record Message : Type 0 where
  pub investigation_id : String
  pub role : String
  pub content : String
  pub tokens : Option ℕ

-- One call of `trigger_alert` by `_notify_investigation_result`.
pub data Notice : Type 0 where
  completed_notice :
      (investigation_id machine_id severity : String) (findings_count : ℕ) (llm_model : String)
      → Notice
  failed_notice : (investigation_id machine_id error : String) → Notice

-- What the service keeps beside the rows: the configuration, the messages and the notices sent.
pub record Side : Type 0 where
  pub config : Option LlmConfig
  pub messages : List Message
  pub notices : List Notice

unfoldable pub is_llm_enabled : Side → Bool
is_llm_enabled d = elim d.config [ none ↦ false | some c ↦ is_configured c ]

pub record ChatResponse : Type 0 where
  pub content : String
  pub input_tokens : ℕ
  pub output_tokens : ℕ
  pub total_tokens : ℕ
  pub estimated_cost : String

-- The call of the model: an `LlmError`, another exception, or a response.
pub data Chat : Type 0 where
  chat_error chat_raised : String → Chat
  answer : ChatResponse → Chat

abbrev pub severities : List String
severities = "critical" ∷ "high" ∷ "medium" ∷ "low" ∷ "info" ∷ []

-- `_parse_severity`, with the word that its pattern finds.
unfoldable pub parse_severity : Option String → String
parse_severity none = "info"
parse_severity (some w) = if one_of (lower w) severities then lower w else "info"

-- `_parse_findings_count`, with the number that its first pattern finds and the count of headings.
unfoldable pub parse_findings_count : Option ℕ → ℕ → ℕ
parse_findings_count none headings = headings
parse_findings_count (some n) headings = n

-- `_notify_investigation_result`: severity or "info", findings or 0, model or a dash.
abbrev pub notify_completed : Inv → Notice
notify_completed i =
    completed_notice i.id i.machine_id (text_else i.severity "info") (get_or i.findings_count 0)
      (text_else i.llm_model "—")

abbrev pub send : Notice → Side → Side
send n d = record d { notices = n ∷ d.notices }

abbrev pub add_tokens : ℕ → Option LlmConfig → Option LlmConfig
add_tokens n none = none
add_tokens n (some c) = some (record c { tokens_used_today = c.tokens_used_today + n })

abbrev pub add_messages : Inv → String → String → ChatResponse → List Message → List Message
add_messages i system user r ms =
    ms
    ++ record { investigation_id = i.id; role = "system"; content = system; tokens = none }
      ∷ record {
        investigation_id = i.id;
        role = "user";
        content = user;
        tokens = some r.input_tokens;
      }
      ∷ record {
        investigation_id = i.id;
        role = "assistant";
        content = r.content;
        tokens = some r.output_tokens;
      }
      ∷ []

-- What is written of a response.
abbrev pub complete_with :
    ℕ → (String → Option String) → (String → Option ℕ × ℕ) → ChatResponse → Inv → Inv
complete_with now find_severity find_count r i = record i {
  report_markdown = some r.content;
  input_tokens = some r.input_tokens;
  output_tokens = some r.output_tokens;
  estimated_cost = some r.estimated_cost;
  severity = some (parse_severity (find_severity r.content));
  findings_count = some (parse_findings_count (find_count r.content).0 (find_count r.content).1);
  status = completed;
  completed_at = some now;
}

module _ (now : ℕ) (find_severity : String → Option String)
    (find_count : String → Option ℕ × ℕ) where
  -- The call of the model and its two endings; an exception that is no `LlmError` leaves.
  unfoldable pub finish_chat : String → String → Chat → Inv → Side → Outcome × Inv × Side
  unfolding parse_severity parse_findings_count
  finish_chat system user (chat_error e) i d =
      (returned, fail (llm_call e) now i, send (failed_notice i.id i.machine_id e) d)
  finish_chat system user (chat_raised e) i d = (raised (generic e), i, d)
  finish_chat system user (answer r) i d =
      let i' = complete_with now find_severity find_count r i in
      (
        returned,
        i',
        send (notify_completed i') (record d {
          messages = add_messages i system user r d.messages;
          config = add_tokens r.total_tokens d.config;
        }),
      )

  -- `prompts` gives the system prompt and the user prompt.
  unfoldable pub state_analyze :
      (LlmConfig → Inv → String × String)
      → (String → String → Chat)
      → Inv
      → Side
      → Outcome × Inv × Side
  unfolding finish_chat
  state_analyze prompts chat i d =
      if is_some i.orchestrator then (returned, i, d) else elim d.config [
        | none ↦ (returned, fail llm_config_deleted now i, d)
        | some c ↦
            let (system, user) = prompts c i in
            finish_chat system user (chat system user)
              (record i { llm_provider = some c.provider; llm_model = some c.model }) d
      ]

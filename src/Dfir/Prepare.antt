-- ===== src/Dfir/Prepare.antt =====
-- The request to DeepAgent: `_state_dispatch_deepagent` up to the request, with `_normalize_platform`,
-- `_resolve_target_platform`, `_load_custom_artifact_refs` and `_decrypt_api_key` of
-- services/dfir_investigation.py. `decrypt` is `decrypt_aes_gcm`, `none` where it raises; `describe`
-- is the description of a YAML document.
use it_asset_inventory.Base.{
  ℕ, ◌-◌, ◌*◌, String, Bool, true, false, ◌&&◌, ◌||◌, Option, none, some, List, [], ◌∷◌, map, ltb,
  ◌==◌, if◌then◌else◌, str_eq, truthy, truthy?, take, filter, strip, lower, one_of,
}
use it_asset_inventory.Dfir.Reconcile.{or_empty}
use it_asset_inventory.Dfir.Types.{Exc, Inv, Settings, LlmConfig, Link, llm_error, generic}

-- A value, or an exception.
pub data Result (A : Type 0) : Type 0 where
  ok : A → Result A
  err : Exc → Result A

infixl 5 ◌>>=◌
abbrev pub ◌>>=◌ : {A B : Type 0} → Result A → (A → Result B) → Result B
ok a >>= f = f a
err e >>= f = err e

abbrev pub require : {A : Type 0} → Option A → Exc → Result A
require none e = err e
require (some a) e = ok a

abbrev pub check : Bool → Exc → Result (Unit {0})
check true e = ok tt
check false e = err e

infixl 5 ◌>>◌
abbrev pub ◌>>◌ : {B : Type 0} → Result (Unit {0}) → Result B → Result B
m >> k = m >>= λ _. k

-- A row of `velociraptor_artifacts`, and what a request says of it.
pub record ArtifactRow : Type 0 where
  pub name : String
  pub definition_yaml : String
  pub enabled : Bool
  pub artifact_type : String
  pub tier : ℕ
  pub supported_platforms : List String
  pub selection_priority : ℕ

pub record ArtifactRef : Type 0 where
  pub name : String
  pub description : String
  pub tier : ℕ
  pub supported_platforms : List String

abbrev pub platforms : List String
platforms = "windows" ∷ "linux" ∷ "macos" ∷ []

unfoldable pub normalize_platform : Option String → Option String
normalize_platform value =
    let normalized = lower (strip (or_empty value)) in
    if str_eq normalized "darwin"
    then some "macos"
    else if one_of normalized platforms
    then some normalized
    else none

-- The link of the machine and the platform of its row in `machine_current`.
unfoldable pub resolve_target_platform : Option Link → Option String → Result String
resolve_target_platform link current =
    let linked : Option String = elim link [ none ↦ none | some l ↦ l.os_system ] in
    elim (normalize_platform linked) [
      | some p ↦ ok p
      | none ↦ require (normalize_platform current) (llm_error "platform unknown")
    ]

-- `order_by(selection_priority.desc(), name)`; `before` is the order of the database on names.
module _ (before : String → String → Bool) where
  abbrev pub precedes : ArtifactRow → ArtifactRow → Bool
  precedes a b =
      ltb b.selection_priority a.selection_priority
      || a.selection_priority == b.selection_priority && before a.name b.name

  abbrev pub insert_row : ArtifactRow → List ArtifactRow → List ArtifactRow
  insert_row a [] = a ∷ []
  insert_row a (b ∷ bs) = if precedes a b then a ∷ b ∷ bs else b ∷ insert_row a bs

  abbrev pub sort_rows : List ArtifactRow → List ArtifactRow
  sort_rows [] = []
  sort_rows (a ∷ rest) = insert_row a (sort_rows rest)

abbrev pub or_windows : List String → List String
or_windows [] = "windows" ∷ []
or_windows (p ∷ ps) = p ∷ ps

-- One row of the catalogue as the request names it. `describe` gives the text of `description`
-- in the YAML document, cut at 300 characters, and "" where it is missing or the YAML is broken.
abbrev pub artifact_ref : (String → String) → ArtifactRow → ArtifactRef
artifact_ref describe row = record {
  name = row.name;
  description = describe row.definition_yaml;
  tier = if row.tier == 1 then 1 else 2;
  supported_platforms =
      or_windows (filter (λ p. one_of p platforms) (or_windows row.supported_platforms));
}

unfoldable pub load_custom_artifact_refs :
    (String → String → Bool) → (String → String) → String → List ArtifactRow → List ArtifactRef
load_custom_artifact_refs before describe platform rows = map (artifact_ref describe) (
    take 20 (
      sort_rows before (
        filter
          (λ r.
            r.enabled && str_eq r.artifact_type "CLIENT" && one_of platform r.supported_platforms)
          rows)))

-- What the dispatch reads: the machine's host name, its link and platform, the two
-- configurations and the catalogue.
pub record Sources : Type 0 where
  pub hostname : Option String
  pub link : Option Link
  pub current_platform : Option String
  pub llm : Option LlmConfig
  pub client_config_encrypted : Option String
  pub artifact_rows : List ArtifactRow

pub record Request : Type 0 where
  pub investigation_id : String
  pub client_id : String
  pub hostname : String
  pub target_platform : String
  pub time_from : ℕ
  pub time_to : ℕ
  pub suspicious_activity : String
  pub base_url : String
  pub api_key : String
  pub model : String
  pub system_prompt : Option String
  pub api_client_yaml : String
  pub custom_artifacts : List ArtifactRef

abbrev pub is_configured : LlmConfig → Bool
is_configured c = c.enabled && truthy c.base_url && truthy c.model

abbrev pub text_else : Option String → String → String
text_else o d = if truthy? o then or_empty o else d

abbrev pub default_activity : String
default_activity =
    "Điều tra chủ động: đánh giá tiến trình, mạng, persistence, event log và PowerShell; không mặc định máy đã bị xâm nhập."

module _ (decrypt : String → Option String) where
  -- `_decrypt_api_key`: a failure to decrypt is `None`.
  unfoldable pub decrypt_api_key : Option String → Option String
  decrypt_api_key encrypted = if truthy? encrypted then decrypt (or_empty encrypted) else none

  -- All that happens before the row changes: the request, or the exception.
  unfoldable pub prepare :
      (String → String → Bool) → (String → String) → Settings → Sources → ℕ → Inv → Result Request
  unfolding decrypt_api_key
  prepare before describe s src now i = do
    check (truthy? i.client_id) (llm_error "no client id")
    platform ← resolve_target_platform src.link src.current_platform
    cfg ← require src.llm (llm_error "LLM not configured")
    check (is_configured cfg) (llm_error "LLM not configured")
    let key = decrypt_api_key cfg.api_key_encrypted
    check (truthy? key) (llm_error "no API key")
    check (s.deepagent_enabled && truthy s.deepagent_api_key) (llm_error "DeepAgent off")
    check (truthy? src.client_config_encrypted) (llm_error "no api_client.yaml")
    yaml ← require (decrypt (or_empty src.client_config_encrypted)) (generic "decrypt")
    ok (record {
      investigation_id = i.id;
      client_id = or_empty i.client_id;
      hostname = text_else src.hostname i.machine_id;
      target_platform = platform;
      time_from = now - 3600 * s.deepagent_default_lookback_hours;
      time_to = now;
      suspicious_activity = text_else i.custom_instructions default_activity;
      base_url = cfg.base_url;
      api_key = or_empty key;
      model = cfg.model;
      system_prompt = cfg.system_prompt;
      api_client_yaml = yaml;
      custom_artifacts = load_custom_artifact_refs before describe platform src.artifact_rows;
    })

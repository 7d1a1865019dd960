-- ===== src/Agent/Catalog.antt =====
-- The artifacts that an investigation may collect (deepagent/deepagent/catalog.py). A set is a list of its elements.
use Prim.Native.String.{◌++◌ as text_append}
use it_asset_inventory.Base.{
  ℕ, String, Bool, not, ◌&&◌, Option, some, List, [], ◌∷◌, map, if◌then◌else◌, str_eq, eq?, filter,
  any, one_of,
}

-- A reference of a request.
pub record ArtifactRef : Type 0 where
  pub name : String
  pub tier : Option ℕ
  pub supported_platforms : List String

pub record Request : Type 0 where
  pub target_platform : String
  pub custom_artifacts : List ArtifactRef

abbrev pub custom : String → String
custom name = text_append "custom:" name

-- The names of `TIER1_CUSTOM_TOOLS` for a platform, without their prefix.
abbrev pub tier1_bare : String → List String
tier1_bare platform =
    if str_eq platform "windows"
    then "Custom.DFIR.Windows.Triage" ∷ []
    else if str_eq platform "linux"
    then "Custom.DFIR.Linux.Triage" ∷ []
    else []

-- `TIER1_CUSTOM_TOOLS.get(platform, ())`.
abbrev pub tier1_custom_tools : String → List String
tier1_custom_tools platform = map custom (tier1_bare platform)

-- `TIER2_CUSTOM_TOOLS.get(platform, ())`.
abbrev pub tier2_custom_tools : String → List String
tier2_custom_tools platform =
    if str_eq platform "windows"
    then custom "Custom.DFIR.Windows.Execution" ∷ custom "Custom.DFIR.Windows.Persistence" ∷ []
    else if str_eq platform "linux"
    then custom "Custom.DFIR.Linux.Persistence" ∷ custom "Custom.DFIR.Linux.SSH" ∷ []
    else []

-- `custom_tool_names`.
unfoldable pub custom_tool_names : Request → List String
custom_tool_names r = map (λ ref. custom ref.name) r.custom_artifacts

abbrev pub has_tier : ℕ → ArtifactRef → Bool
has_tier n ref = eq? ref.tier (some n)

-- `_has_tier_n`.
abbrev pub has_tier_n : Request → ℕ → Bool
has_tier_n r n = any (has_tier n) r.custom_artifacts

abbrev pub is_tier1 : Request → ArtifactRef → Bool
is_tier1 r ref =
    has_tier 1 ref
    && one_of ref.name (tier1_bare r.target_platform)
    && one_of r.target_platform ref.supported_platforms

abbrev pub is_tier2 : Request → ArtifactRef → Bool
is_tier2 r ref = has_tier 2 ref && one_of r.target_platform ref.supported_platforms

-- `initial_custom_tool_names`.
unfoldable pub initial_custom_tool_names : Request → List String
initial_custom_tool_names r =
    if not (has_tier_n r 1)
    then tier1_custom_tools r.target_platform
    else map (λ ref. custom ref.name) (filter (is_tier1 r) r.custom_artifacts)

-- `tier2_custom_tool_names`.
unfoldable pub tier2_custom_tool_names : Request → List String
tier2_custom_tool_names r =
    if not (has_tier_n r 2)
    then tier2_custom_tools r.target_platform
    else map (λ ref. custom ref.name) (filter (is_tier2 r) r.custom_artifacts)

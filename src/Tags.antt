-- ===== src/Tags.antt =====
-- The tags of a machine (server/app/services/tags.py, with `Tag` and `MachineTag` of
-- server/app/db/models.py). The colour of a badge and the time of a row are left out.
pub mod Single
pub mod Each
mod Tests
use it_asset_inventory.Base.{
  ℕ, ◌+◌, String, Bool, true, false, not, ◌&&◌, Option, none, some, List, [], ◌∷◌, ◌++◌, ◌==◌,
  if◌then◌else◌, str_eq, text_or, text_of, filter, find?, any, one_of,
}

pub data TagKind : Type 0 where
  classification : TagKind
  purpose : TagKind

abbrev pub is_classification : TagKind → Bool
is_classification classification = true
is_classification purpose = false

pub record Tag : Type 0 where
  pub id : ℕ
  pub key : String
  pub label : String
  pub kind : TagKind
  pub sort_order : ℕ
  pub is_system : Bool

pub record MachineTag : Type 0 where
  pub machine_id : ℕ
  pub tag_id : ℕ
  pub kind : TagKind
  pub set_by : Option ℕ

abbrev pub classification_tags : List (String × String)
classification_tags =
    ("personal", "Máy cá nhân") ∷ ("official", "Máy công vụ") ∷ ("bmnn", "Máy BMNN") ∷ []

abbrev pub classification_keys : List String
classification_keys = "personal" ∷ "official" ∷ "bmnn" ∷ []

abbrev pub default_classification : String
default_classification = "official"

-- The key of a tag is unique.
abbrev pub get_tag_by_key : List Tag → String → Option Tag
get_tag_by_key tags key = find? (λ t. str_eq t.key key) tags

-- `fresh` numbers the new rows.
abbrev pub ensure_system_tag : ℕ → ℕ → String → String → List Tag → List Tag
ensure_system_tag fresh idx key label tags = elim (get_tag_by_key tags key) [
  | some t ↦ tags
  | none ↦
      tags
      ++ record {
        id = fresh + idx;
        key = key;
        label = label;
        kind = classification;
        sort_order = idx;
        is_system = true;
      }
        ∷ []
]

abbrev pub ensure_from : ℕ → ℕ → List (String × String) → List Tag → List Tag
ensure_from fresh idx [] tags = tags
ensure_from fresh idx ((key, label) ∷ rest) tags =
    ensure_from fresh (idx + 1) rest (ensure_system_tag fresh idx key label tags)

unfoldable pub ensure_system_tags : ℕ → List Tag → List Tag
ensure_system_tags fresh tags = ensure_from fresh 1 classification_tags tags

-- Whether a row is the classification of a machine.
abbrev pub classifies : ℕ → MachineTag → Bool
classifies m r = r.machine_id == m && is_classification r.kind

abbrev pub has_purpose : ℕ → MachineTag → Bool
has_purpose m r = r.machine_id == m && not (is_classification r.kind)

abbrev pub assign : ℕ → ℕ → TagKind → Option ℕ → MachineTag
assign m tag kind actor = record { machine_id = m; tag_id = tag; kind = kind; set_by = actor }

abbrev pub known_key : String → String
known_key key = if one_of key classification_keys then key else default_classification

unfoldable pub ensure_classification :
    List Tag → ℕ → String → Option ℕ → List MachineTag → List MachineTag
ensure_classification tags m key actor rows = elim (get_tag_by_key tags (known_key key)) [
  | none ↦ rows
  | some tag ↦
      if any (classifies m) rows then rows else rows ++ assign m tag.id classification actor ∷ []
]

unfoldable pub set_machine_classification :
    List Tag → ℕ → String → Option ℕ → List MachineTag → Bool × List MachineTag
set_machine_classification tags m key actor rows =
    if not (one_of key classification_keys) then (false, rows) else elim (get_tag_by_key tags key) [
      | none ↦ (false, rows)
      | some tag ↦ (
        true,
        filter (λ r. not (classifies m r)) rows ++ assign m tag.id classification actor ∷ [],
      )
    ]

-- `dict.fromkeys(keys)`: the first of each key, in their order. `seen` holds the keys before.
unfoldable pub dedupe : List String → List String → List String
dedupe seen [] = []
dedupe seen (k ∷ ks) = if one_of k seen then dedupe seen ks else k ∷ dedupe (k ∷ seen) ks

abbrev pub is_purpose_key : List Tag → String → Bool
is_purpose_key tags key = elim (get_tag_by_key tags key) [
  | none ↦ false
  | some tag ↦ not (is_classification tag.kind)
]

unfoldable pub purpose_rows : List Tag → ℕ → Option ℕ → List String → List MachineTag
purpose_rows tags m actor [] = []
purpose_rows tags m actor (key ∷ keys) = elim (get_tag_by_key tags key) [
  | none ↦ purpose_rows tags m actor keys
  | some tag ↦ assign m tag.id purpose actor ∷ purpose_rows tags m actor keys
]

unfoldable pub set_machine_purpose_tags :
    List Tag → ℕ → List String → Option ℕ → List MachineTag → List MachineTag
unfolding dedupe purpose_rows
set_machine_purpose_tags tags m keys actor rows =
    filter (λ r. not (has_purpose m r)) rows
    ++ purpose_rows tags m actor (filter (is_purpose_key tags) (dedupe [] keys))

-- The classification and the purposes that were chosen with the enrolment token.
unfoldable pub apply_token_tags :
    List Tag → ℕ → Option String → List String → Option ℕ → List MachineTag → List MachineTag
unfolding ensure_classification set_machine_purpose_tags
apply_token_tags tags m key keys actor rows =
    let rows' =
      ensure_classification tags m (text_of (text_or key (some default_classification))) actor
        rows in
    elim keys [ [] ↦ rows' | k ∷ ks ↦ set_machine_purpose_tags tags m (k ∷ ks) actor rows' ]

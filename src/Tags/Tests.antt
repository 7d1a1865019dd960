-- ===== src/Tags/Tests.antt =====
-- The theorems on tags at concrete tags and rows.
use it_asset_inventory.Base.{◌≡◌, true, false, none, some, List, [], ◌∷◌, arith, count}
use it_asset_inventory.Tags.{
  ensure_system_tags, classifies, assign, apply_token_tags, Tag, MachineTag, classification,
  purpose,
}
use it_asset_inventory.Tags.Each.{OneEach, apply_token_tags-one}

abbrev tags : List Tag
tags =
    record {
      id = 5;
      key = "official";
      label = "Máy công vụ";
      kind = classification;
      sort_order = 2;
      is_system = true;
    }
    ∷ record {
      id = 6;
      key = "web";
      label = "Web";
      kind = purpose;
      sort_order = 0;
      is_system = false;
    }
    ∷ []

abbrev rows : List MachineTag
rows = assign 1 5 classification none ∷ assign 1 6 purpose none ∷ assign 2 6 purpose none ∷ []

rows_one : OneEach rows
rows_one n = ground arith

apply_token_tags-one_example :
    count
      (classifies 2)
      (apply_token_tags (ensure_system_tags 20 tags) 2 (some "bmnn") ("web" ∷ []) none rows)
    ≡ 1
apply_token_tags-one_example =
    apply_token_tags-one 20 2 (some "bmnn") ("web" ∷ []) none tags rows rows_one

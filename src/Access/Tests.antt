-- ===== src/Access/Tests.antt =====
-- The theorems on access at a concrete tree of organisations: 1 above 2 and 4, 2 above 3, and a cycle of 5 and 6.
use it_asset_inventory.Access.Create.{
  new_organization, create_within, create_org, OrganizationCreate, OrgEntry,
}
use it_asset_inventory.Access.Entry.{SeesNew, create_org-Sees}
use it_asset_inventory.Access.Guards.{
  resolve_user_from_token, get_current_user, require_role, Headers, ok,
}
use it_asset_inventory.Access.Orgs.{has, walk, scope_orgs, visible_org_ids}
use it_asset_inventory.Access.Types.{admin_roles, Organization, User}
use it_asset_inventory.Access.Visible.{Sees, visible_org_ids_iff, Covers, IsFew, scope_orgs_ends}
use it_asset_inventory.Base.{
  ℕ, ◌+◌, String, ◌≡◌, refl, ◌↔◌, ◌⊎◌, true, false, Option, none, some, List, [], ◌∷◌, ◌++◌,
  if◌then◌else◌, str_eq, length, one_of,
}

abbrev org_row : ℕ → Option ℕ → Organization
org_row i p = record { id = i; parent_id = p; name = "org"; type = "phong" }

abbrev table : List Organization
table =
    org_row 1 none
    ∷ org_row 2 (some 1)
    ∷ org_row 3 (some 2)
    ∷ org_row 4 (some 1)
    ∷ org_row 5 (some 6)
    ∷ org_row 6 (some 5)
    ∷ []

abbrev admin : User
admin = record {
  id = 10;
  org_id = 2;
  role = "org_admin";
  is_active = true;
  must_change_password = false;
}

walk_example : visible_org_ids table admin ≡ some (2 ∷ 3 ∷ [])
unfolding visible_org_ids walk one_of
walk_example = refl

walk_cycle_example : scope_orgs table (some 5) "org_tree" ≡ some (5 ∷ 6 ∷ [])
unfolding scope_orgs walk
walk_cycle_example = refl

visible_org_ids_iff_example :
    (ids : List ℕ) × (visible_org_ids table admin ≡ some ids)
    × ((o : ℕ) → (has o ids ≡ true) ↔ Sees table admin o)
visible_org_ids_iff_example = visible_org_ids_iff table admin

scope_orgs_ends_example :
    (ids : List ℕ) × (scope_orgs table (some 5) "org_tree" ≡ some ids)
    × ((o : ℕ) → (has o ids ≡ true) ↔ Covers table (some 5) "org_tree" o)
    × IsFew table (some 5) ids
scope_orgs_ends_example = scope_orgs_ends table (some 5) "org_tree"

abbrev body : OrganizationCreate
body = record { name = "team"; type = "phong"; parent_id = some 3 }

abbrev log_entry : OrgEntry
log_entry = record { action = "org.create"; actor = 10; target = none }

abbrev grown : List Organization
grown = table ++ new_organization 7 body ∷ []

create_org-Sees_example :
    (length grown ≡ length table + 1)
    × Sees grown admin 7
    × ((u : User) (x : ℕ) → Sees grown u x ↔ (Sees table u x ⊎ ((x ≡ 7) × SeesNew body table u)))
unfolding create_org create_within visible_org_ids walk one_of
create_org-Sees_example =
    create_org-Sees 7 body admin table grown [] (log_entry ∷ []) (new_organization 7 body) refl refl

abbrev decode : String → Option ℕ
decode t = if str_eq t "t" then some 10 else none

admin_passes : require_role admin_roles decode (some "t") (admin ∷ []) ≡ ok admin
unfolding require_role get_current_user resolve_user_from_token one_of
admin_passes = refl

abbrev claimed : Headers
claimed = record { ssl_client_verify = none; ssl_client_cn = none; machine_id = some "m2" }

-- ===== src/Access/Create.antt =====
-- `create_org` (server/app/api/routes/orgs.py).
use it_asset_inventory.Access.Orgs.{has, visible_org_ids}
use it_asset_inventory.Access.Types.{is_super_admin, Organization, User}
use it_asset_inventory.Base.{
  ℕ, String, Bool, false, not, ◌&&◌, Option, none, some, List, [], ◌∷◌, ◌++◌, if◌then◌else◌,
  is_some, one_of,
}

-- A new organisation, as the request has it.
pub record OrganizationCreate : Type 0 where
  pub name : String
  pub type : String
  pub parent_id : Option ℕ

-- An audit entry: the action, the actor and the target. The id of a new row is drawn after the target is read.
pub record OrgEntry : Type 0 where
  pub action : String
  pub actor : ℕ
  pub target : Option ℕ

pub data OrgResponse : Type 0 where
  unprocessable not_allowed bad_request : OrgResponse
  created : Organization → OrgResponse

abbrev pub high_level_types : List String
high_level_types = "ubnd_xa" ∷ "so_ban_nganh" ∷ []

abbrev pub valid_create_types : List String
valid_create_types = "ubnd_xa" ∷ "so_ban_nganh" ∷ "phong" ∷ "don_vi" ∷ []

-- `body.parent_id and str(body.parent_id) not in visible`.
abbrev pub is_foreign : Option ℕ → List ℕ → Bool
is_foreign none visible = false
is_foreign (some p) visible = not (has p visible)

abbrev pub new_organization : ℕ → OrganizationCreate → Organization
new_organization fresh body = record {
  id = fresh;
  parent_id = body.parent_id;
  name = body.name;
  type = body.type;
}

-- `create_org` from the organisations that the administrator sees on: the answer, the table and the log.
unfoldable pub create_within :
    List ℕ
    → ℕ
    → OrganizationCreate
    → User
    → List Organization
    → List OrgEntry
    → OrgResponse × (List Organization × List OrgEntry)
create_within visible fresh body admin rows audit =
    if is_foreign body.parent_id visible
    then (not_allowed, (rows, audit))
    else if not (is_super_admin admin) && one_of body.type high_level_types
    then (not_allowed, (rows, audit))
    else if not (is_super_admin admin) && not (is_some body.parent_id)
    then (bad_request, (rows, audit))
    else let org = new_organization fresh body in
      let entry : OrgEntry = record { action = "org.create"; actor = admin.id; target = none } in
      (created org, (rows ++ org ∷ [], audit ++ entry ∷ []))

-- `create_org`; `none` stands for a walk without fuel.
unfoldable pub create_org :
    ℕ
    → OrganizationCreate
    → User
    → List Organization
    → List OrgEntry
    → Option (OrgResponse × (List Organization × List OrgEntry))
create_org fresh body admin rows audit =
    if not (one_of body.type valid_create_types)
    then some (unprocessable, (rows, audit))
    else elim (visible_org_ids rows admin) [
      | none ↦ none
      | some visible ↦ some (create_within visible fresh body admin rows audit)
    ]

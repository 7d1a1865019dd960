-- ===== src/Access/Types.antt =====
-- The rows of organisations and users (server/app/db/models.py) that access is decided on.
use it_asset_inventory.Base.{ℕ, String, Bool, Option, List, [], ◌∷◌, one_of}

-- A row of `organizations`.
pub record Organization : Type 0 where
  pub id : ℕ
  pub parent_id : Option ℕ
  pub name : String
  pub type : String

-- A row of `users`. The role is a text, as in the table.
pub record User : Type 0 where
  pub id : ℕ
  pub org_id : ℕ
  pub role : String
  pub is_active : Bool
  pub must_change_password : Bool

abbrev pub super_admin_roles : List String
super_admin_roles = "super_admin" ∷ "admin_global" ∷ []

abbrev pub admin_roles : List String
admin_roles = "super_admin" ∷ "org_admin" ∷ "admin_global" ∷ "admin_org" ∷ []

abbrev pub is_super_admin : User → Bool
is_super_admin u = one_of u.role super_admin_roles

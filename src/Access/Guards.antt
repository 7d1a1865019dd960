-- ===== src/Access/Guards.antt =====
-- The guards of the routes (server/app/api/deps.py): who is signed in, the roles, and the identity of an agent.
-- JWT is an argument: `decode` is the user of an access token, `none` where the token does not decode.
use it_asset_inventory.Access.Types.{super_admin_roles, admin_roles, User}
use it_asset_inventory.Base.{
  ℕ, String, Bool, false, not, ◌&&◌, Option, none, some, List, ◌==◌, if◌then◌else◌, str_eq, get_or,
  find?, one_of,
}

-- A value, or an error by its HTTP status.
pub data Guarded {ℓ} (A : Type ℓ) : Type ℓ where
  unauthorized forbidden : Guarded A
  ok : A → Guarded A

-- `scalar_one_or_none()` on the key of the table.
abbrev pub user_by_id : ℕ → List User → Option User
user_by_id i users = find? (λ u. u.id == i) users

-- `_resolve_user_from_token`.
unfoldable pub resolve_user_from_token :
    (String → Option ℕ) → Option String → List User → Guarded User
resolve_user_from_token decode none users = unauthorized
resolve_user_from_token decode (some credentials) users = elim (decode credentials) [
  | none ↦ unauthorized
  | some i ↦ elim (user_by_id i users) [
    | none ↦ unauthorized
    | some u ↦ if u.is_active then ok u else unauthorized
  ]
]

-- `get_current_user`.
unfoldable pub get_current_user : (String → Option ℕ) → Option String → List User → Guarded User
get_current_user decode credentials users =
    elim (resolve_user_from_token decode credentials users) [
      | unauthorized ↦ unauthorized
      | forbidden ↦ forbidden
      | ok u ↦ if u.must_change_password then forbidden else ok u
    ]

-- `get_current_user_allow_password_change`.
abbrev pub get_current_user_allow_password_change :
    (String → Option ℕ) → Option String → List User → Guarded User
get_current_user_allow_password_change = resolve_user_from_token

-- `require_role`.
unfoldable pub require_role :
    List String → (String → Option ℕ) → Option String → List User → Guarded User
require_role roles decode credentials users = elim (get_current_user decode credentials users) [
  | unauthorized ↦ unauthorized
  | forbidden ↦ forbidden
  | ok u ↦ if one_of u.role roles then ok u else forbidden
]

-- `require_admin`.
abbrev pub require_admin : (String → Option ℕ) → Option String → List User → Guarded User
require_admin = require_role admin_roles

-- `require_super_admin`.
abbrev pub require_super_admin : (String → Option ℕ) → Option String → List User → Guarded User
require_super_admin = require_role super_admin_roles

-- `cn[len(p):]` where `cn` starts with `p`.
unfoldable pub after_prefix : String → String → Option String
after_prefix String.[] cn = some cn
after_prefix (String.◌∷◌ c p) String.[] = none
after_prefix (String.◌∷◌ c p) (String.◌∷◌ d cn) =
    let rest = after_prefix p cn in
    if str_eq (String.◌∷◌ c "") (String.◌∷◌ d "") then rest else none

abbrev pub machine_id_of : String → String
machine_id_of cn = get_or (after_prefix "machine-" cn) cn

-- The headers `X-SSL-Client-Verify`, `X-SSL-Client-CN` and `X-Machine-Id` of a request.
pub record Headers : Type 0 where
  pub ssl_client_verify : Option String
  pub ssl_client_cn : Option String
  pub machine_id : Option String

abbrev pub is_success : Option String → Bool
is_success none = false
is_success (some s) = str_eq s "SUCCESS"

-- `get_client_machine_id`. The argument is `require_agent_mtls_header`.
unfoldable pub get_client_machine_id : Bool → Headers → Guarded String
get_client_machine_id required h =
    if required && not (is_success h.ssl_client_verify)
    then unauthorized
    else elim h.ssl_client_cn [
      | some cn ↦ ok (machine_id_of cn)
      | none ↦
          if required
          then unauthorized
          else elim h.machine_id [ some cn ↦ ok (machine_id_of cn) | none ↦ unauthorized ]
    ]

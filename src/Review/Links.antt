-- ===== src/Review/Links.antt =====
-- Links by which people enrol their own machines (server/app/api/routes/self_service.py), without the listing, the
-- rate limit, and what an answer shows besides the token. Names and phone numbers of a token are left out.
use it_asset_inventory.Access.Orgs.{has}
use it_asset_inventory.Base.{
  ℕ, String, Bool, true, not, Option, none, some, List, [], ◌∷◌, ◌++◌, ◌==◌, if◌then◌else◌, str_eq,
  filter, find?, any, update,
}
use it_asset_inventory.Enroll.Perform.{log}
use it_asset_inventory.Enroll.Types.{Db, EnrollToken, Hashing}
use it_asset_inventory.Review.Tokens.{token_row, add_token, TokenRequest}
use it_asset_inventory.Review.Types.{not_found, not_allowed, issued, done, Admin, Answer, NewToken}

-- A row of `self_service_links`.
pub record SelfServiceLink : Type 0 where
  pub id : ℕ
  pub org_id : ℕ
  pub code : String
  pub enabled : Bool
  pub created_by : ℕ

-- The links, and the tables that an enrolment reads.
pub record Portal : Type 0 where
  pub links : List SelfServiceLink
  pub db : Db

abbrev pub link_by_id : ℕ → List SelfServiceLink → Option SelfServiceLink
link_by_id i links = find? (λ l. l.id == i) links

abbrev pub link_by_code : String → List SelfServiceLink → Option SelfServiceLink
link_by_code code links = find? (λ l. str_eq l.code code) links

abbrev pub is_taken : String → List SelfServiceLink → Bool
is_taken code links = any (λ l. str_eq l.code code) links

abbrev pub new_link : Admin → ℕ → ℕ → String → SelfServiceLink
new_link admin fresh org drawn = record {
  id = fresh;
  org_id = org;
  code = drawn;
  enabled = true;
  created_by = admin.id;
}

-- `create_link`. The codes that are drawn at random are an argument; `none` while each of them is taken.
unfoldable pub create_link : Admin → ℕ → ℕ → List String → Portal → Option (Answer × Portal)
create_link admin fresh org draws p =
    if not (has org admin.visible)
    then some (not_allowed, p)
    else elim (find? (λ code. not (is_taken code p.links)) draws) [
      | none ↦ none
      | some code ↦ some (
        done,
        record p {
          links = p.links ++ new_link admin fresh org code ∷ [];
          db = log "self_service.link_create" p.db;
        },
      )
    ]

-- `toggle_link`.
unfoldable pub toggle_link : Admin → ℕ → Bool → Portal → Answer × Portal
toggle_link admin i on p = elim (link_by_id i p.links) [
  | none ↦ (not_found, p)
  | some l ↦ if not (has l.org_id admin.visible) then (not_allowed, p) else (
    done,
    record p { links = update (λ x. x.id == l.id) (λ _. record l { enabled = on }) p.links },
  )
]

-- `delete_link`.
unfoldable pub delete_link : Admin → ℕ → Portal → Answer × Portal
delete_link admin i p = elim (link_by_id i p.links) [
  | none ↦ (not_found, p)
  | some l ↦
      if not (has l.org_id admin.visible)
      then (not_allowed, p)
      else (done, record p { links = filter (λ x. not (x.id == l.id)) p.links })
]

-- The link of a code, if it is enabled.
abbrev pub open_link : String → Portal → Option SelfServiceLink
open_link code p = elim (link_by_code code p.links) [
  | none ↦ none
  | some l ↦ if l.enabled then some l else none
]

-- `link_info`: the organisation and the link, `none` for the answer 404.
abbrev pub link_info : String → Portal → Option (ℕ × ℕ)
link_info code p = elim (open_link code p) [ none ↦ none | some l ↦ some (l.org_id, l.id) ]

-- The token of a claim.
abbrev pub claim_token : Hashing → NewToken → Option String → ℕ → SelfServiceLink → EnrollToken
claim_token h new mail now l =
    let body : TokenRequest = record {
      org_id = l.org_id;
      email = mail;
      ttl_hours = 72;
      classification = some "official";
      purpose_tags = [];
    } in
    token_row h new body now

-- `claim`.
unfoldable pub claim : Hashing → NewToken → String → Option String → ℕ → Portal → Answer × Portal
claim h new code mail now p = elim (open_link code p) [
  | none ↦ (not_found, p)
  | some l ↦ (
    issued new.text,
    record p { db = log "token.create" (add_token (claim_token h new mail now l) p.db) },
  )
]

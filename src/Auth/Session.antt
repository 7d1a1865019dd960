-- ===== src/Auth/Session.antt =====
-- Sessions: refresh tokens with their rotation, and `logout` (server/app/api/routes/auth.py).
use it_asset_inventory.Auth.Types.{
  User, RefreshToken, Db, Crypto, Fresh, Response, issued, done, unauthorized,
}
use it_asset_inventory.Base.{
  ℕ, ◌+◌, String, Bool, not, ◌&&◌, Option, none, some, List, [], ◌∷◌, ◌++◌, leb, ◌==◌,
  if◌then◌else◌, str_eq, truthy, is_some, get_or, find?, update,
}

abbrev pub log : String → Option String → Db → Db
log action actor db = record db {
  audit = db.audit ++ record { action = action; actor = actor } ∷ [];
}

-- A user that is written back.
abbrev pub put_user : User → Db → Db
put_user u db = record db { users = update (λ v. str_eq v.id u.id) (λ _. u) db.users }

abbrev pub is_live : RefreshToken → Bool
is_live t = not (is_some t.revoked_at)

abbrev pub revoke : ℕ → RefreshToken → RefreshToken
revoke now t = record t { revoked_at = some now }

-- `_issue_tokens`: a new row, in the given family or in a new one.
unfoldable pub issue_tokens : Crypto → ℕ → Fresh → User → Option ℕ → Db → Response × Db
issue_tokens c now f u family db = (
  issued f.token u.must_change_password,
  record db {
    tokens =
        db.tokens
        ++ record {
          id = f.id;
          user_id = u.id;
          token_hash = c.digest f.token;
          family_id = get_or family f.family;
          expires_at = now + c.refresh_seconds;
          revoked_at = none;
          replaced_by = none;
        }
          ∷ [];
  },
)

unfoldable pub revoke_user_refresh_tokens : ℕ → String → Db → Db
revoke_user_refresh_tokens now user db = record db {
  tokens = update (λ t. str_eq t.user_id user && is_live t) (revoke now) db.tokens;
}

unfoldable pub revoke_refresh_family : ℕ → ℕ → Db → Db
revoke_refresh_family now family db = record db {
  tokens = update (λ t. t.family_id == family && is_live t) (revoke now) db.tokens;
}

abbrev pub find_token : String → List RefreshToken → Option RefreshToken
find_token h = find? (λ t. str_eq t.token_hash h)

abbrev pub put_token : RefreshToken → Db → Db
put_token t db = record db { tokens = update (λ s. s.id == t.id) (λ _. t) db.tokens }

abbrev pub find_user : String → List User → Option User
find_user id = find? (λ u. str_eq u.id id)

-- The rotation: the old row is revoked and names the new row, which is in its family.
abbrev pub rotate : Crypto → ℕ → Fresh → User → RefreshToken → Db → Response × Db
rotate c now f u t db =
    let (resp, db') = issue_tokens c now f u (some t.family_id) (put_token (revoke now t) db) in
    elim (find_token (c.digest f.token) db'.tokens) [
      | none ↦ (resp, db')
      | some n ↦ (resp, put_token (record (revoke now t) { replaced_by = some n.id }) db')
    ]

abbrev pub refresh_row : Crypto → ℕ → Fresh → String → RefreshToken → Db → Response × Db
refresh_row c now f user t db =
    if leb t.expires_at now
    then (unauthorized, db)
    else if not (is_live t)
    then (
      unauthorized,
      log "auth.refresh_reuse_detected" (some t.user_id) (revoke_refresh_family now t.family_id db),
    )
    else elim (find_user user db.users) [
      | none ↦ (unauthorized, db)
      | some u ↦ if u.is_active then rotate c now f u t db else (unauthorized, db)
    ]

unfoldable pub refresh : Crypto → ℕ → Fresh → String → Db → Response × Db
unfolding issue_tokens revoke_refresh_family
refresh c now f token db = elim (c.decode token) [
  | none ↦ (unauthorized, db)
  | some user ↦ elim (find_token (c.digest token) db.tokens) [
    | none ↦ (unauthorized, db)
    | some t ↦ refresh_row c now f user t db
  ]
]

-- `logout`: the live row of the token that is sent, if any, is revoked.
unfoldable pub logout : Crypto → ℕ → User → Option String → Db → Response × Db
logout c now u token db =
    let closed : Db = elim token [
      | none ↦ db
      | some s ↦
          if truthy s
          then elim (find? (λ t. str_eq t.token_hash (c.digest s) && is_live t) db.tokens) [
            | none ↦ db
            | some t ↦ put_token (revoke now t) db
          ]
          else db
    ] in
    (done, log "auth.logout" (some u.id) closed)

-- ===== src/Auth/Account.antt =====
-- The calls by which users change their own password and second factor (server/app/api/routes/auth.py).
use it_asset_inventory.Auth.Session.{log, put_user, issue_tokens, revoke_user_refresh_tokens}
use it_asset_inventory.Auth.SignIn.{verify_totp_counter}
use it_asset_inventory.Auth.Types.{
  bad_request, unauthorized, User, Db, Crypto, Fresh, Response, done, crashed,
}
use it_asset_inventory.Base.{
  ℕ, String, true, false, not, none, some, List, [], if◌then◌else◌, str_eq, truthy, truthy?,
  text_of, strip,
}

-- `verify_password` with a password hash that is `None` raises.
abbrev pub with_password : Crypto → String → User → Db → Response × Db → Response × Db
with_password c password u db next = elim u.password_hash [
  | none ↦ (crashed, db)
  | some h ↦ if c.verify_password password h then next else (unauthorized, db)
]

unfoldable pub change_password : Crypto → ℕ → User → String → String → Db → Response × Db
unfolding revoke_user_refresh_tokens
change_password c now u old new db = with_password c old u db (
    if str_eq old new
    then (bad_request, db)
    else let u' = record u {
      password_hash = some (c.hash_password new);
      must_change_password = false;
    } in
      (
        done,
        log "auth.change_password" (some u.id)
            (revoke_user_refresh_tokens now u.id (put_user u' db)),
      ))

-- The display name, without the spaces round it.
unfoldable pub update_my_profile : User → String → Db → Response × Db
update_my_profile u name db = if not (truthy (strip name)) then (bad_request, db) else (
  done,
  log "auth.update_profile" (some u.id) (put_user (record u { full_name = strip name }) db),
)

-- The second factor is set up, confirmed and turned off. `sealed` is the encrypted new secret.
unfoldable pub totp_setup : String → List String → User → Db → Response × Db
totp_setup sealed codes u db = (
  done,
  put_user
      (record u {
        totp_secret_encrypted = some sealed;
        backup_codes = codes;
        is_2fa_enabled = false;
      })
      db,
)

unfoldable pub totp_confirm : Crypto → ℕ → Fresh → User → String → Db → Response × Db
totp_confirm c now f u code db =
    if not (truthy? u.totp_secret_encrypted)
    then (bad_request, db)
    else elim (c.decrypt (text_of u.totp_secret_encrypted)) [
      | none ↦ (crashed, db)
      | some secret ↦ elim (verify_totp_counter c now secret code) [
        | none ↦ (crashed, db)
        | some none ↦ (bad_request, db)
        | some (some counter) ↦
            let u' = record u { is_2fa_enabled = true; totp_last_counter = some counter } in
            issue_tokens c now f u' none (log "auth.totp_enabled" (some u.id) (put_user u' db))
      ]
    ]

unfoldable pub disable_my_totp : Crypto → User → String → Db → Response × Db
disable_my_totp c u password db = with_password c password u db (
  done,
  log "auth.totp_disabled" (some u.id) (
      put_user
        (record u {
          is_2fa_enabled = false;
          totp_secret_encrypted = none;
          backup_codes = [];
          totp_last_counter = none;
        })
        db),
)

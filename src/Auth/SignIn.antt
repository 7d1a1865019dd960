-- ===== src/Auth/SignIn.antt =====
-- `login` and the second factor (server/app/api/routes/auth.py), with `verify_totp_counter` of
-- server/app/core/security.py. The rate limit and the address of the client are left out.
use mathlib.Core.Option
use it_asset_inventory.Auth.Session.{log, put_user, issue_tokens}
use it_asset_inventory.Auth.Types.{
  unauthorized, User, Db, Crypto, Fresh, Response, requires_2fa, crashed,
}
use it_asset_inventory.Base.{
  ℕ, zero, suc, ◌+◌, ◌-◌, ◌/◌, String, Bool, true, false, not, ◌&&◌, Option, none, some, List, [],
  ◌∷◌, ltb, if◌then◌else◌, str_eq, truthy?, text_of, find?, strip, is_ascii, one_of,
}

-- `hmac.compare_digest(str(totp.at(t)), code.strip())`, the time-step if it holds.
abbrev pub try_step : Crypto → String → String → ℕ → Option ℕ → Option ℕ
try_step c secret code t other =
    if str_eq (c.code_at secret t) (strip code) then some (t / c.interval) else other

-- The offsets -1, 0 and 1, in this order. `none` where `compare_digest` raises TypeError, which it does at the first
-- offset if the code holds a character that is not ASCII; the codes that are compared are digits.
unfoldable pub verify_totp_counter : Crypto → ℕ → String → String → Option (Option ℕ)
verify_totp_counter c now secret code =
    if is_ascii (strip code)
    then some (
        try_step c secret code (now - c.interval)
          (try_step c secret code now (try_step c secret code (now + c.interval) none)))
    else none

-- `counter is not None and counter > (last or -1)`: a last counter of 0 counts as none.
abbrev pub is_new_counter : Option ℕ → Option ℕ → Bool
is_new_counter none last = false
is_new_counter (some c) none = true
is_new_counter (some c) (some zero) = true
is_new_counter (some c) (some (suc l)) = ltb (suc l) c

-- `next((h for h in codes if verify_password(code, h)), None)`, then `codes.remove(matched)`.
unfoldable pub take_backup : Crypto → String → List String → Option (List String)
take_backup c code [] = none
take_backup c code (h ∷ hs) = elim (c.verify_password code h) [
  | true ↦ some hs
  | false ↦ Option.map (λ rest. h ∷ rest) (take_backup c code hs)
]

-- The second factor: the user after a code was accepted, `none` for a wrong code, or a crash.
pub data Second : Type 0 where
  accepted : User → Second
  refused broken : Second

abbrev pub by_backup : Crypto → String → User → Second
by_backup c code u = elim (take_backup c code u.backup_codes) [
  | none ↦ refused
  | some rest ↦ accepted (record u { backup_codes = rest })
]

abbrev pub by_counter : Crypto → String → User → Option ℕ → Second
by_counter c code u counter =
    if is_new_counter counter u.totp_last_counter
    then accepted (record u { totp_last_counter = counter })
    else by_backup c code u

unfoldable pub second_factor : Crypto → ℕ → String → User → Second
unfolding take_backup
second_factor c now code u =
    if truthy? u.totp_secret_encrypted
    then elim (c.decrypt (text_of u.totp_secret_encrypted)) [
      | none ↦ broken
      | some secret ↦ elim (verify_totp_counter c now secret code) [
        | none ↦ broken
        | some counter ↦ by_counter c code u counter
      ]
    ]
    else by_backup c code u

-- From the success on: the time of the login, the audit entry and the tokens.
abbrev pub finish_login : Crypto → ℕ → Fresh → User → Db → Response × Db
finish_login c now f u db =
    let u' = record u { last_login_at = some now } in
    issue_tokens c now f u' none (log "auth.login" (some u'.id) (put_user u' db))

abbrev pub check_second : Crypto → ℕ → Fresh → String → User → Db → Response × Db
check_second c now f code u db = elim (second_factor c now code u) [
  | accepted u' ↦ finish_login c now f u' db
  | refused ↦ (unauthorized, log "auth.totp_failed" (some u.id) db)
  | broken ↦ (crashed, db)
]

abbrev pub knows_password : Crypto → String → User → Bool
knows_password c password u =
    truthy? u.password_hash && c.verify_password password (text_of u.password_hash)

abbrev pub login_as : Crypto → ℕ → Fresh → String → Option String → User → Db → Response × Db
login_as c now f password code u db =
    if not (knows_password c password u)
    then (unauthorized, log "auth.login_failed" (some u.id) db)
    else if not u.is_active
    then (unauthorized, log "auth.login_blocked" (some u.id) db)
    else if not u.is_2fa_enabled
    then finish_login c now f u db
    else if not (truthy? code)
    then (requires_2fa, db)
    else check_second c now f (text_of code) u db

-- The user is the first whose address is among the candidates.
unfoldable pub login :
    Crypto → ℕ → Fresh → List String → String → Option String → Db → Response × Db
login c now f candidates password code db = elim (find? (λ u. one_of u.email candidates) db.users) [
  | none ↦ (unauthorized, log "auth.login_failed" none db)
  | some u ↦ login_as c now f password code u db
]

-- ===== src/Auth/Tests.antt =====
-- The theorems on sessions at concrete users and tokens.
-- Hashes are the texts themselves, and a code is the text of its secret.
use it_asset_inventory.Auth.Account.{change_password}
use it_asset_inventory.Auth.Closing.{of_others, change_password_closes}
use it_asset_inventory.Auth.Login.{Spends, second_factor-Spends}
use it_asset_inventory.Auth.Rotation.{IsDead, refresh_replay}
use it_asset_inventory.Auth.Session.{is_live, find_user, refresh}
use it_asset_inventory.Auth.SignIn.{verify_totp_counter, second_factor, accepted, broken}
use it_asset_inventory.Auth.Types.{
  unauthorized, User, RefreshToken, Db, Crypto, Fresh, issued, done,
}
use it_asset_inventory.Base.{
  ◌≡◌, refl, true, false, none, some, [], ◌∷◌, arith, str_eq, All, strip, is_ascii,
}

abbrev crypto : Crypto
crypto = record {
  verify_password = str_eq;
  hash_password = λ p. p;
  decrypt = λ s. some s;
  decode = λ t. some "u";
  digest = λ t. t;
  code_at = λ secret t. secret;
  interval = 30;
  refresh_seconds = 1000;
}

abbrev user : User
user = record {
  id = "u";
  email = "u@org";
  full_name = "U";
  role = "admin";
  password_hash = some "old";
  totp_secret_encrypted = some "123456";
  backup_codes = "b1" ∷ "b2" ∷ [];
  is_2fa_enabled = true;
  is_active = true;
  last_login_at = none;
  must_change_password = true;
  totp_last_counter = some 1;
}

abbrev token : RefreshToken
token = record {
  id = 1;
  user_id = "u";
  token_hash = "t1";
  family_id = 7;
  expires_at = 1000;
  revoked_at = none;
  replaced_by = none;
}

abbrev db : Db
db = record { users = user ∷ []; tokens = token ∷ []; audit = [] }

abbrev fresh : Fresh
fresh = record { id = 2; family = 8; token = "t2" }

abbrev fresher : Fresh
fresher = record { id = 3; family = 9; token = "t3" }

refresh_replay_example :
    let after = refresh crypto 200 fresher "t1" (refresh crypto 100 fresh "t1" db).1 in
    ((refresh crypto 100 fresh "t1" db).0 ≡ issued "t2" true)
    × (after.0 ≡ unauthorized)
    × IsDead 7 after.1.tokens
refresh_replay_example =
    refresh_replay crypto 100 200 fresh fresher "t1" "u" user token db refl refl refl refl refl
      (omega arith) (omega arith)

second_factor-Spends_example :
    Spends crypto 100 "123456" user (record user { totp_last_counter = some 2 })
unfolding second_factor verify_totp_counter strip is_ascii
second_factor-Spends_example =
    second_factor-Spends crypto 100 "123456" user (record user { totp_last_counter = some 2 }) refl

-- A code of the time-step 0 is accepted twice.
zero_twice :
    second_factor crypto 30 "123456" (record user { totp_last_counter = some 0 })
    ≡ accepted (record user { totp_last_counter = some 0 })
unfolding second_factor verify_totp_counter strip is_ascii
zero_twice = refl

-- A code in full-width digits makes the comparison raise.
wide_code : second_factor crypto 100 "１２３４５６" user ≡ broken
unfolding second_factor verify_totp_counter strip is_ascii
wide_code = refl

change_password_closes_example :
    let after = change_password crypto 100 user "old" "new" db in
    (after.0 ≡ done)
    × All (λ t. t.user_id ≡ "u" → is_live t ≡ false) after.1.tokens
    × (of_others "u" after.1.tokens ≡ of_others "u" db.tokens)
    × (w : User) × (find_user "u" after.1.users ≡ some w)
    × (w.password_hash ≡ some "new")
    × (w.must_change_password ≡ false)
change_password_closes_example =
    change_password_closes crypto 100 user "old" "old" "new" db refl refl refl user refl

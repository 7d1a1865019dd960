-- ===== src/Auth/Types.antt =====
-- The rows that the authentication routes read and write (server/app/db/models.py), and what they
-- take from other libraries.
use it_asset_inventory.Base.{ℕ, String, Bool, Option, List}

pub record User : Type 0 where
  pub id : String
  pub email : String
  pub full_name : String
  pub role : String
  pub password_hash : Option String
  pub totp_secret_encrypted : Option String
  pub backup_codes : List String
  pub is_2fa_enabled : Bool
  pub is_active : Bool
  pub last_login_at : Option ℕ
  pub must_change_password : Bool
  pub totp_last_counter : Option ℕ

-- A row of `refresh_tokens`.
pub record RefreshToken : Type 0 where
  pub id : ℕ
  pub user_id : String
  pub token_hash : String
  pub family_id : ℕ
  pub expires_at : ℕ
  pub revoked_at : Option ℕ
  pub replaced_by : Option ℕ

-- An audit entry: the action and the actor.
pub record Entry : Type 0 where
  pub action : String
  pub actor : Option String

pub record Db : Type 0 where
  pub users : List User
  pub tokens : List RefreshToken
  pub audit : List Entry

-- What comes from bcrypt, AES-GCM, pyotp, JWT and SHA-256, and the settings. `decrypt` is `none`
-- where the decryption raises; `decode` is the user of a refresh token, `none` where the token
-- does not decode; `code_at` is the code of a secret at a time.
pub record Crypto : Type 0 where
  pub verify_password : String → String → Bool
  pub hash_password : String → String
  pub decrypt : String → Option String
  pub decode : String → Option String
  pub digest : String → String
  pub code_at : String → ℕ → String
  pub interval : ℕ
  pub refresh_seconds : ℕ

-- What one request draws anew: an identifier, a family and the text of a refresh token.
pub record Fresh : Type 0 where
  pub id : ℕ
  pub family : ℕ
  pub token : String

-- A response: the session's refresh token, a request for the second factor, a plain success, or an error
-- by its HTTP status.
pub data Response : Type 0 where
  issued : String → Bool → Response
  requires_2fa : Response
  done : Response
  unauthorized bad_request crashed : Response

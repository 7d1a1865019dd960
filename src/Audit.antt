-- ===== src/Audit.antt =====
-- The audit log as a chain of hashes (server/app/core/audit.py). `digest` is the SHA-256 of the JSON of
-- the action, the target, the actor and the time.
pub mod Chain
mod Tests
use it_asset_inventory.Base.{
  ℕ, ◌+◌, String, Bool, true, false, not, ◌||◌, Option, none, some, List, [], ◌∷◌, ◌++◌,
  if◌then◌else◌, str_eq, truthy,
}

pub record Event : Type 0 where
  pub action : String
  pub target : Option String
  pub actor : Option String
  pub ts : ℕ

-- A row of `audit_log`. The address, the request and the machine are stored and not hashed.
pub record Row : Type 0 where
  pub event : Event
  pub ip : Option String
  pub prev_hash : String
  pub content_hash : String

-- "0" * 64
abbrev pub genesis : String
genesis = "0000000000000000000000000000000000000000000000000000000000000000"

-- The rows, the oldest first.
module _ (digest : Event → String) where
  unfoldable pub last_hash : List Row → String
  last_hash [] = genesis
  last_hash (r ∷ []) = if truthy r.content_hash then r.content_hash else genesis
  last_hash (r ∷ s ∷ rest) = last_hash (s ∷ rest)

  unfoldable pub append_audit : Event → Option String → List Row → List Row
  unfolding last_hash
  append_audit e ip rows =
      rows
      ++ record { event = e; ip = ip; prev_hash = last_hash rows; content_hash = digest e } ∷ []

  -- Whether the chain is whole, and the index of the first row at which it breaks.
  unfoldable pub verify_from : ℕ → String → List Row → Bool × Option ℕ
  verify_from i prev [] = (true, none)
  verify_from i prev (r ∷ rest) =
      let next = verify_from (i + 1) r.content_hash rest in
      if not (str_eq r.prev_hash prev) || not (str_eq r.content_hash (digest r.event))
      then (false, some i)
      else next

  unfoldable pub verify_chain : List Row → Bool × Option ℕ
  unfolding verify_from
  verify_chain rows = verify_from 0 genesis rows

  unfoldable pub anchor_hash : List Row → String
  unfolding last_hash
  anchor_hash rows = last_hash rows

-- ===== src/Review/Types.antt =====
-- The answers of the routes, and what an administrator is.
use it_asset_inventory.Base.{ℕ, String, Bool, List}

-- An administrator, with the organisations that `visible_org_ids` finds.
pub record Admin : Type 0 where
  pub id : ℕ
  pub is_super : Bool
  pub visible : List ℕ

-- An error by its HTTP status, or a success, with the new token where there is one.
pub data Answer : Type 0 where
  not_found not_allowed bad_request done : Answer
  issued : String → Answer

-- What a new token is made of: its text and the id of its row.
pub record NewToken : Type 0 where
  pub text : String
  pub id : ℕ

abbrev pub hour : ℕ
hour = 3600

-- ===== src/Requests/Types.antt =====
-- The rows that requests for an investigation read and write (server/app/db/models.py), and the bodies and answers
-- of the routes. The address in an audit entry and the names of people and machines are left out: a requester is
-- shown by the identifier.
use it_asset_inventory.Access.Types.{User}
use it_asset_inventory.Base.{ℕ, String, Option, List}

-- `status`, a text in the table.
pub data RequestStatus : Type 0 where
  pending approved rejected running completed failed : RequestStatus

-- A row of `dfir_investigation_requests`.
pub record InvestigationRequest : Type 0 where
  pub id : ℕ
  pub machine_id : ℕ
  pub artifact : String
  pub reason : Option String
  pub urgency : String
  pub status : RequestStatus
  pub requested_by : ℕ
  pub reviewed_by : Option ℕ
  pub review_notes : Option String
  pub velociraptor_flow_id : Option String
  pub velociraptor_url : Option String
  pub completed_at : Option ℕ
  pub created_at : ℕ

-- An audit entry: the action, the actor, the request and its machine.
pub record RequestEntry : Type 0 where
  pub action : String
  pub actor : ℕ
  pub target : ℕ
  pub machine_id : ℕ

-- The tables. Of a machine only its identifier matters.
pub record Db : Type 0 where
  pub users : List User
  pub machines : List ℕ
  pub requests : List InvestigationRequest
  pub audit_log : List RequestEntry

-- Who calls: `decode` is the user of an access token, `none` where the token does not decode.
pub record Caller : Type 0 where
  pub decode : String → Option ℕ
  pub credentials : Option String

-- `DfirInvestigationRequestCreate`.
pub record RequestCreate : Type 0 where
  pub machine_id : ℕ
  pub artifact : String
  pub reason : Option String
  pub urgency : String

-- `DfirInvestigationRequestReview`.
pub record RequestReview : Type 0 where
  pub action : String
  pub notes : Option String
  pub velociraptor_flow_id : Option String

-- `DfirInvestigationRequestOut`.
pub record RequestOut : Type 0 where
  pub id : ℕ
  pub machine_id : ℕ
  pub artifact : String
  pub reason : Option String
  pub urgency : String
  pub status : RequestStatus
  pub requested_by : ℕ
  pub requested_at : ℕ
  pub review_notes : Option String
  pub completed_at : Option ℕ
  pub velociraptor_flow_id : Option String
  pub velociraptor_url : Option String

-- An error by its HTTP status, or a success with what it shows.
pub data Answer : Type 0 where
  http_400 http_401 http_403 http_404 : Answer
  shown : RequestOut → Answer
  listed : List RequestOut → Answer

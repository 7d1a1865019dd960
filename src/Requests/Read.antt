-- ===== src/Requests/Read.antt =====
-- The calls that read requests (`list_requests` and `get_request` of server/app/api/routes/dfir_requests.py).
use it_asset_inventory.Access.Guards.{get_current_user}
use it_asset_inventory.Access.Types.{User}
use it_asset_inventory.Base.{
  ℕ, String, Bool, true, not, ◌&&◌, ◌||◌, Option, none, some, List, [], ◌∷◌, map, ltb, ◌==◌,
  if◌then◌else◌, str_eq, truthy?, text_of, take, filter,
}
use it_asset_inventory.Requests.Handle.{guarded, request_to_out, request_by_id}
use it_asset_inventory.Requests.Types.{
  Db, approved, rejected, Answer, pending, running, completed, failed, shown, RequestStatus,
  InvestigationRequest, Caller, http_403, http_404, listed,
}

-- A row before the first that is not newer; rows of the same time stay in the order of the table.
abbrev pub insert_newest :
    InvestigationRequest → List InvestigationRequest → List InvestigationRequest
insert_newest r [] = r ∷ []
insert_newest r (x ∷ xs) =
    let rest = insert_newest r xs in if ltb r.created_at x.created_at then x ∷ rest else r ∷ x ∷ xs

-- `order_by(created_at.desc())`.
abbrev pub by_newest : List InvestigationRequest → List InvestigationRequest
by_newest [] = []
by_newest (r ∷ rows) = insert_newest r (by_newest rows)

-- The text of a status in the table.
abbrev pub status_text : RequestStatus → String
status_text pending = "pending"
status_text approved = "approved"
status_text rejected = "rejected"
status_text running = "running"
status_text completed = "completed"
status_text failed = "failed"

abbrev pub has_super_role : User → Bool
has_super_role u = str_eq u.role "super_admin"

-- The two filters of the query: the status, left out where it is empty, and the machine.
abbrev pub is_wanted : Option String → Option ℕ → InvestigationRequest → Bool
is_wanted wanted machine r =
    (not (truthy? wanted) || str_eq (text_of wanted) (status_text r.status))
    && elim machine [ none ↦ true | some m ↦ r.machine_id == m ]

abbrev pub may_see : User → InvestigationRequest → Bool
may_see u r = has_super_role u || r.requested_by == u.id

-- `list_requests`, after its guard.
unfoldable pub list_as : Option String → Option ℕ → ℕ → Db → User → Answer
list_as wanted machine limit db u = listed (
    map (λ (r : InvestigationRequest). request_to_out r (has_super_role u))
      (take limit
        (filter (λ r. may_see u r && is_wanted wanted machine r) (by_newest db.requests))))

-- `get_request`, after its guard.
unfoldable pub get_as : ℕ → Db → User → Answer
get_as i db u = elim (request_by_id i db.requests) [
  | none ↦ http_404
  | some r ↦ if may_see u r then shown (request_to_out r (has_super_role u)) else http_403
]

-- A call that reads.
pub data RequestQuery : Type 0 where
  list : Option String → Option ℕ → ℕ → RequestQuery
  get : ℕ → RequestQuery

abbrev pub read_as : RequestQuery → Db → User → Answer
read_as (list wanted machine limit) db u = list_as wanted machine limit db u
read_as (get i) db u = get_as i db u

-- A route that reads, with its guard.
unfoldable pub read : Caller → RequestQuery → Db → Answer
read k q db =
    (guarded (get_current_user k.decode k.credentials db.users) (λ u. (read_as q db u, db)) db).0

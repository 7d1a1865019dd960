-- ===== src/Requests/Hidden.antt =====
-- What a user who is no super administrator reads of requests.
use it_asset_inventory.Access.Guards.{get_current_user, ok}
use it_asset_inventory.Access.Types.{User}
use it_asset_inventory.Base.{
  ℕ, zero, suc, String, ◌≡◌, refl, inl, inr, Bool, true, false, not, ◌&&◌, Option, none, some, List,
  [], ◌∷◌, map, arith, ◌==◌, if◌then◌else◌, Bool-cases, Option-cases, is_some, take, filter, all,
}
use it_asset_inventory.Requests.Handle.{request_to_out, request_by_id}
use it_asset_inventory.Requests.Read.{
  by_newest, has_super_role, is_wanted, may_see, list_as, get_as, read_as, read, RequestQuery, list,
  get,
}
use it_asset_inventory.Requests.Types.{
  Db, Answer, shown, InvestigationRequest, Caller, RequestOut, http_400, http_401, http_403,
  http_404, listed,
}

-- A request of the user's own, without what the vendor's tool says of it.
abbrev pub is_hidden : User → RequestOut → Bool
is_hidden u o =
    o.requested_by == u.id
    && not (is_some o.velociraptor_flow_id)
    && not (is_some o.velociraptor_url)

-- The requests that an answer shows.
abbrev pub outs : Answer → List RequestOut
outs http_400 = []
outs http_401 = []
outs http_403 = []
outs http_404 = []
outs (shown o) = o ∷ []
outs (listed os) = os

hidden_list :
    (u : User) (n : ℕ) (q : InvestigationRequest → Bool) (rows : List InvestigationRequest)
    → has_super_role u ≡ false
    → all (is_hidden u) (
        map
          (λ (r : InvestigationRequest). request_to_out r (has_super_role u))
          (take n (filter (λ r. may_see u r && q r) rows)))
      ≡ true
hidden_list u zero q rows s = refl
hidden_list u (suc n) q [] s = refl
hidden_list u (suc n) q (r ∷ rows) s = elim (Bool-cases (may_see u r && q r)) [
  | inr h ↦ rw h (hidden_list u (suc n) q rows s)
  | inl h ↦ rw h (ground (arith, hidden_list u n q rows s))
]

read_list :
    (wanted : Option String) (machine : Option ℕ) (limit : ℕ) (db : Db) (u : User)
    → has_super_role u ≡ false
    → all (is_hidden u) (outs (list_as wanted machine limit db u)) ≡ true
unfolding list_as
read_list wanted machine limit db u s =
    hidden_list u limit (is_wanted wanted machine) (by_newest db.requests) s

read_one :
    (i : ℕ) (db : Db) (u : User)
    → has_super_role u ≡ false
    → all (is_hidden u) (outs (get_as i db u)) ≡ true
unfolding get_as
read_one i db u s = elim (Option-cases (request_by_id i db.requests)) [
  | inl n ↦ rw (n, get_as) refl
  | inr (r, n) ↦ elim (Bool-cases (may_see u r)) [
    | inr h ↦ rw (n, h, get_as) refl
    | inl h ↦ rw (n, h, s, get_as) (ground arith)
  ]
]

-- What a user who is no super administrator is to see of one request.
abbrev pub own_view : User → Option InvestigationRequest → Answer
own_view u none = http_404
own_view u (some r) = if r.requested_by == u.id then shown (request_to_out r false) else http_403

own_request :
    (i : ℕ) (db : Db) (u : User)
    → has_super_role u ≡ false
    → get_as i db u ≡ own_view u (request_by_id i db.requests)
unfolding get_as
own_request i db u s = elim (Option-cases (request_by_id i db.requests)) [
  | inl n ↦ rw (n, get_as) refl
  | inr (r, n) ↦ rw (n, s, get_as) refl
]

read_any :
    (q : RequestQuery) (db : Db) (u : User)
    → has_super_role u ≡ false
    → all (is_hidden u) (outs (read_as q db u)) ≡ true
read_any (list wanted machine limit) db u s = read_list wanted machine limit db u s
read_any (get i) db u s = read_one i db u s

-- Whatever a signed-in user whose role is not `super_admin` reads, a list or one request, holds only requests of
-- their own, without flow or address of the vendor's tool; and one request is shown if it is theirs, is refused with
-- 403 if it is another's, and is not found if there is none.
pub read-Hidden :
    (k : Caller) (db : Db) (u : User)
    → get_current_user k.decode k.credentials db.users ≡ ok u
    → has_super_role u ≡ false
    → ((q : RequestQuery) → all (is_hidden u) (outs (read k q db)) ≡ true)
      × ((i : ℕ) → read k (get i) db ≡ own_view u (request_by_id i db.requests))
unfolding read
read-Hidden k db u e s =
    (λ q. rw (e, read) (read_any q db u s), λ i. rw (e, read) (own_request i db u s))

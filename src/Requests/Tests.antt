-- ===== src/Requests/Tests.antt =====
-- The theorems on requests at concrete calls: 7 is a super administrator, 8 an administrator of an organisation.
use it_asset_inventory.Access.Guards.{resolve_user_from_token, get_current_user, require_role, ok}
use it_asset_inventory.Access.Types.{User}
use it_asset_inventory.Base.{
  ℕ, String, ◌≡◌, refl, true, false, Option, none, some, List, [], ◌∷◌, if◌then◌else◌, str_eq, all,
  one_of,
}
use it_asset_inventory.Requests.Decisions.{serve_all-Traced}
use it_asset_inventory.Requests.Handle.{
  approve, create, request_to_out, request_by_id, create_as, create_request, failed_with,
  approve_as, complete_as, fail_as, patch_as, serve, serve_all, RequestCall, complete, patch,
}
use it_asset_inventory.Requests.Hidden.{is_hidden, outs, own_view, read-Hidden}
use it_asset_inventory.Requests.Read.{get_as, read, RequestQuery, get}
use it_asset_inventory.Requests.Trail.{Keeps}
use it_asset_inventory.Requests.Types.{
  Db, completed, shown, InvestigationRequest, Caller, RequestCreate, RequestReview, http_400,
}

abbrev super : User
super = record {
  id = 7;
  org_id = 1;
  role = "super_admin";
  is_active = true;
  must_change_password = false;
}

abbrev local : User
local = record {
  id = 8;
  org_id = 1;
  role = "org_admin";
  is_active = true;
  must_change_password = false;
}

abbrev user_of : String → Option ℕ
user_of token = if str_eq token "seven" then some 7 else some 8

abbrev by_super : Caller
by_super = record { decode = user_of; credentials = some "seven" }

abbrev by_local : Caller
by_local = record { decode = user_of; credentials = some "eight" }

abbrev start : Db
start = record { users = super ∷ local ∷ []; machines = 5 ∷ []; requests = []; audit_log = [] }

abbrev wish : RequestCreate
wish = record { machine_id = 5; artifact = "Generic"; reason = none; urgency = "high" }

abbrev review : RequestReview
review = record { action = "fail"; notes = none; velociraptor_flow_id = some "F.1" }

abbrev to_completion : List (Caller × RequestCall)
to_completion =
    (by_local, create wish 1 0)
    ∷ (by_local, approve 1)
    ∷ (by_super, approve 1)
    ∷ (by_super, complete 1 review 60)
    ∷ []

abbrev done : InvestigationRequest
done = record {
  id = 1;
  machine_id = 5;
  artifact = "Generic";
  reason = none;
  urgency = "high";
  status = completed;
  requested_by = 8;
  reviewed_by = some 7;
  review_notes = none;
  velociraptor_flow_id = some "F.1";
  velociraptor_url = none;
  completed_at = some 60;
  created_at = 0;
}

abbrev after : Db
after = serve_all to_completion start

requests_after : after.requests ≡ done ∷ []
unfolding serve_all serve create_request create_as approve_as complete_as require_role one_of
    get_current_user resolve_user_from_token
requests_after = refl

-- A completed request can be set to failed, and no other decision is possible.
fails_after :
    (serve by_super (patch 1 review 90) after).1.requests ≡ failed_with review 90 done ∷ []
unfolding serve_all serve create_request create_as approve_as complete_as fail_as patch_as one_of
    require_role get_current_user resolve_user_from_token
fails_after = refl

approve_after : (serve by_super (approve 1) after).0 ≡ http_400
unfolding serve_all serve create_request create_as approve_as complete_as require_role one_of
    get_current_user resolve_user_from_token
approve_after = refl

serve_all-Traced_example : Keeps start (serve_all to_completion start)
serve_all-Traced_example = serve_all-Traced to_completion start refl

-- The rows after the completion, as a table.
abbrev table : Db
table = record start { requests = done ∷ [] }

local_signed_in : get_current_user by_local.decode by_local.credentials table.users ≡ ok local
unfolding get_current_user resolve_user_from_token
local_signed_in = refl

read-Hidden_example :
    ((q : RequestQuery) → all (is_hidden local) (outs (read by_local q table)) ≡ true)
    × ((i : ℕ) → read by_local (get i) table ≡ own_view local (request_by_id i table.requests))
read-Hidden_example = read-Hidden by_local table local local_signed_in refl

read_own : read by_local (get 1) table ≡ shown (request_to_out done false)
unfolding read get_as get_current_user resolve_user_from_token
read_own = refl

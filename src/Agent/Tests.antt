-- ===== src/Agent/Tests.antt =====
-- The theorems on the DeepAgent service at concrete requests, jobs and replies.
use it_asset_inventory.Agent.Again.{create_twice}
use it_asset_inventory.Agent.Catalog.{Request, ArtifactRef, custom, initial_custom_tool_names}
use it_asset_inventory.Agent.Jobs.{
  create_investigation, is_for, new_job, is_running, started, start, Job,
}
use it_asset_inventory.Agent.Reach.{Reachable-Bounded}
use it_asset_inventory.Agent.Retry.{submit_result_with_retry, Reply, transport_error, response}
use it_asset_inventory.Agent.Rounds.{Delivers, submit_result-Delivers}
use it_asset_inventory.Agent.Slots.{begin, Reachable, create, empty, next}
use it_asset_inventory.Base.{
  ℕ, ◌≤◌, ◌≡◌, refl, false, some, List, [], ◌∷◌, ◌==◌, if◌then◌else◌, count, one_of,
}

abbrev evil : ArtifactRef
evil = record { name = "Custom.Evil"; tier = some 1; supported_platforms = "windows" ∷ [] }

abbrev request : Request
request = record { target_platform = "windows"; custom_artifacts = evil ∷ [] }

-- An artifact that only the request names is not used.
evil_left_out : one_of (custom "Custom.Evil") (initial_custom_tool_names request) ≡ false
unfolding one_of initial_custom_tool_names
evil_left_out = refl

abbrev created : List Job
created = new_job "a" ∷ []

abbrev running_jobs : List Job
running_jobs = started (new_job "a") ∷ []

reached : Reachable 1 running_jobs
unfolding create_investigation start
reached = next (next empty (create "a" [])) (begin "deepagent-a" created)

Reachable-Bounded_example :
    (count (is_for "a") running_jobs ≤ 1) × (count (λ j. is_running j.status) running_jobs ≤ 1)
Reachable-Bounded_example = Reachable-Bounded 1 running_jobs "a" reached

create_twice_example :
    let first = create_investigation "a" [] in create_investigation "a" first.1 ≡ (first.0, first.1)
create_twice_example = create_twice "a" []

abbrev reply : ℕ → Reply
reply n = if n == 1 then response 200 (some "{}") else transport_error "timeout"

submit_result-Delivers_example : Delivers reply 0 3 (submit_result_with_retry reply)
submit_result-Delivers_example = submit_result-Delivers reply

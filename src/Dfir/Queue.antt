-- ===== src/Dfir/Queue.antt =====
-- The capacity queue: `claim_deepagent_dispatches` of services/dfir_investigation.py, over the
-- table of investigations. `free` says which rows no other transaction has locked
-- (`with_for_update(skip_locked=True)`).
use Prim.Native.String.{◌++◌ as ◌+++◌}
use it_asset_inventory.Base.{
  ℕ, ◌-◌, String, Bool, ◌&&◌, some, List, [], ◌∷◌, map, leb, ◌==◌, if◌then◌else◌, str_eq, take,
  filter, count, any, update,
}
use it_asset_inventory.Dfir.Types.{is_pending, is_analyzing, is_deepagent, Inv}

-- f"deepagent-{inv.id}"
abbrev pub job_id : String → String
job_id id = ◌+++◌ "deepagent-" id

-- A DeepAgent row that holds a slot, and one that waits for a slot.
abbrev pub is_active : Inv → Bool
is_active i = is_deepagent i.orchestrator && is_analyzing i.status

abbrev pub is_waiting : Inv → Bool
is_waiting i = is_deepagent i.orchestrator && is_pending i.status

-- `order_by(DfirInvestigation.created_at.asc())`, rows of one time in the table's order.
abbrev pub insert_by_created : Inv → List Inv → List Inv
insert_by_created i [] = i ∷ []
insert_by_created i (j ∷ js) =
    if leb i.created_at j.created_at then i ∷ j ∷ js else j ∷ insert_by_created i js

abbrev pub sort_by_created : List Inv → List Inv
sort_by_created [] = []
sort_by_created (i ∷ is) = insert_by_created i (sort_by_created is)

abbrev pub has_id : String → List Inv → Bool
has_id x = any (λ i. str_eq i.id x)

abbrev pub reserve : Inv → Inv
reserve i = record i { external_job_id = some (job_id i.id) }

-- The rows that the query picks.
unfoldable pub picked : (Inv → Bool) → ℕ → List Inv → List Inv
picked free capacity rows =
    take (capacity - count is_active rows)
      (sort_by_created (filter (λ i. is_waiting i && free i) rows))

-- The claimed rows, and the table after the commit.
unfoldable pub claim_deepagent_dispatches : (Inv → Bool) → ℕ → List Inv → List Inv × List Inv
claim_deepagent_dispatches free capacity rows =
    if leb capacity 0
    then ([], rows)
    else if (capacity - count is_active rows) == 0
    then ([], rows)
    else let chosen = picked free capacity rows in
      (map reserve chosen, update (λ i. has_id i.id chosen) reserve rows)

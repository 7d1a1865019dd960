-- ===== src/Dfir/Frame.antt =====
-- The rows that a tick of the worker leaves alone.
use it_asset_inventory.Base.{
  ℕ, ◌-◌, String, ◌≡◌, refl, ◌∙◌, inl, inr, Bool, true, false, not, ◌&&◌, none, some, List, [], ◌∷◌,
  map, arith, eq_iff, Bool-cases, str_eq, filter, count, update,
}
use it_asset_inventory.Dfir.External.{find_row}
use it_asset_inventory.Dfir.Queue.{
  is_active, is_waiting, sort_by_created, has_id, reserve, picked, claim_deepagent_dispatches,
}
use it_asset_inventory.Dfir.Rows.{
  check_rows-IsKeyed, dispatch_rows-IsKeyed, check_rows_others, dispatch_rows_others,
  process_rows_others,
}
use it_asset_inventory.Dfir.Slots.{checked, claim-IsKeyed}
use it_asset_inventory.Dfir.Table.{IsKeyed, has_id-filter, has_id-sort, has_id-take}
use it_asset_inventory.Dfir.Types.{is_final, Inv}
use it_asset_inventory.Dfir.Worker.{
  check_rows, dispatch_rows, sql_ne_deepagent, local_rows, run_claimed, run_pending_investigations,
  World, Store,
}

-- A row that a test refuses is not among the rows that the test admits.
filter_misses :
    (x : String) (p : Inv → Bool) (rows : List Inv) (i : Inv)
    → IsKeyed rows
    → find_row x rows ≡ some i
    → p i ≡ false
    → has_id x (filter p rows) ≡ false
filter_misses x p [] i k f h = refl
filter_misses x p (j ∷ rows) i k f h = elim (Bool-cases (str_eq j.id x)) [
  | inl e ↦ ground (arith, eq_iff j.id x, has_id-filter j.id p rows k.0)
  | inr e ↦ ground (arith, filter_misses x p rows i k.1)
]

find_row-reserve :
    (x : String) (chosen rows : List Inv)
    → has_id x chosen ≡ false
    → find_row x (update (λ i. has_id i.id chosen) reserve rows) ≡ find_row x rows
find_row-reserve x chosen [] h = refl
find_row-reserve x chosen (j ∷ rows) h =
    ground (arith, eq_iff j.id x, find_row-reserve x chosen rows h)

has_id-map-reserve : (x : String) (rows : List Inv) → has_id x (map reserve rows) ≡ has_id x rows
has_id-map-reserve x [] = refl
has_id-map-reserve x (j ∷ rows) = ground (arith, has_id-map-reserve x rows)

-- No query of the worker selects such a row.
pub record IsIdle (i : Inv) : Type 0 where
  pub no_slot : is_active i ≡ false
  pub no_wait : is_waiting i ≡ false
  pub no_local : (not (is_final i.status) && sql_ne_deepagent i.orchestrator) ≡ false

checked_misses :
    (free : Inv → Bool) (x : String) (rows : List Inv) (i : Inv)
    → IsKeyed rows
    → find_row x rows ≡ some i
    → IsIdle i
    → has_id x (checked free rows) ≡ false
checked_misses free x rows i k f idle =
    let p = λ (j : Inv). is_active j && free j in
    let refused : p i ≡ false = ground (arith, idle.no_slot) in
    has_id-sort x (filter p rows) ∙ filter_misses x p rows i k f refused

picked_misses :
    (free : Inv → Bool) (capacity : ℕ) (x : String) (rows : List Inv) (i : Inv)
    → IsKeyed rows
    → find_row x rows ≡ some i
    → IsIdle i
    → has_id x (picked free capacity rows) ≡ false
unfolding picked
picked_misses free capacity x rows i k f idle =
    let p = λ (j : Inv). is_waiting j && free j in
    let refused : p i ≡ false = ground (arith, idle.no_wait) in
    has_id-take x (capacity - count is_active rows) (sort_by_created (filter p rows))
      (has_id-sort x (filter p rows) ∙ filter_misses x p rows i k f refused)

local_misses :
    (free : Inv → Bool) (x : String) (rows : List Inv) (i : Inv)
    → IsKeyed rows
    → find_row x rows ≡ some i
    → IsIdle i
    → has_id x (local_rows free rows) ≡ false
unfolding local_rows
local_misses free x rows i k f idle =
    let p = λ (j : Inv). not (is_final j.status) && sql_ne_deepagent j.orchestrator && free j in
    let refused : p i ≡ false = ground (arith, idle.no_local) in
    has_id-take x 5 (sort_by_created (filter p rows))
      (has_id-sort x (filter p rows) ∙ filter_misses x p rows i k f refused)

claim_keeps :
    (free : Inv → Bool) (capacity : ℕ) (x : String) (rows : List Inv) (i : Inv)
    → IsKeyed rows
    → find_row x rows ≡ some i
    → IsIdle i
    → (has_id x (claim_deepagent_dispatches free capacity rows).0 ≡ false)
      × (find_row x (claim_deepagent_dispatches free capacity rows).1 ≡ some i)
unfolding claim_deepagent_dispatches
claim_keeps free capacity x rows i k f idle =
    let misses = picked_misses free capacity x rows i k f idle in
    let mapped = has_id-map-reserve x (picked free capacity rows) in
    let same = find_row-reserve x (picked free capacity rows) rows misses in
    ground (arith, misses, mapped, same)

run_claimed_keeps :
    (w : World) (x : String) (s : Store) (i : Inv)
    → IsKeyed s.rows
    → find_row x s.rows ≡ some i
    → IsIdle i
    → find_row x (run_claimed w s).1.rows ≡ some i
unfolding run_claimed
run_claimed_keeps w x s i k f idle =
    let cap = w.settings.deepagent_max_concurrent_jobs in
    let c = claim_deepagent_dispatches w.free cap s.rows in
    let d = dispatch_rows w c.0 c.1 (0, 0) in
    let kept = claim_keeps w.free cap x s.rows i k f idle in
    let sent = dispatch_rows_others w x c.0 c.1 (0, 0) kept.0 ∙ kept.1 in
    let keyed = dispatch_rows-IsKeyed w c.0 c.1 (0, 0) (claim-IsKeyed w.free cap s.rows k) in
    process_rows_others w x (local_rows w.free d.0) (record s { rows = d.0 }) d.1
      (local_misses w.free x d.0 i keyed sent idle)
    ∙ sent

-- A tick leaves a row that no query selects as it was.
run_pending_keeps :
    (w : World) (x : String) (s : Store) (i : Inv)
    → IsKeyed s.rows
    → find_row x s.rows ≡ some i
    → IsIdle i
    → find_row x (run_pending_investigations w s).1.rows ≡ some i
unfolding run_pending_investigations
run_pending_keeps w x s i k f idle =
    let active = checked w.free s.rows in
    let r = check_rows w active s.rows in
    let same =
      check_rows_others w x active s.rows (checked_misses w.free x s.rows i k f idle) ∙ f in
    let after =
      run_claimed_keeps w x (record s { rows = r.1 }) i (check_rows-IsKeyed w active s.rows k) same
        idle in
    ground (arith, same, after)

-- A completed or failed investigation is never changed by a tick of the worker, whatever the
-- services answer. The identifiers of the table must be distinct.
pub run_pending_keeps_final :
    (w : World) (x : String) (s : Store) (i : Inv)
    → IsKeyed s.rows
    → find_row x s.rows ≡ some i
    → is_final i.status ≡ true
    → find_row x (run_pending_investigations w s).1.rows ≡ some i
run_pending_keeps_final w x s i k f h =
    run_pending_keeps w x s i k f
      (record { no_slot = ground arith; no_wait = ground arith; no_local = ground arith })

-- An investigation with no external orchestrator is never changed by a tick of the worker: none
-- of the worker's queries selects it, whatever its status. The identifiers must be distinct.
pub run_pending_starves_local :
    (w : World) (x : String) (s : Store) (i : Inv)
    → IsKeyed s.rows
    → find_row x s.rows ≡ some i
    → i.orchestrator ≡ none
    → find_row x (run_pending_investigations w s).1.rows ≡ some i
run_pending_starves_local w x s i k f h =
    run_pending_keeps w x s i k f
      (record { no_slot = ground arith; no_wait = ground arith; no_local = ground arith })

-- ===== src/Dfir/Worker.antt =====
-- The background worker: `_process_one` and `run_pending_investigations` of
-- services/dfir_investigation.py. What the world answers during one tick is a record.
use it_asset_inventory.Base.{
  ℕ, ◌+◌, String, Bool, true, false, not, ◌&&◌, Option, none, some, List, [], ◌∷◌, if◌then◌else◌,
  str_eq, take, filter, update,
}
use it_asset_inventory.Dfir.Analyze.{is_llm_enabled, state_analyze, Side, Chat}
use it_asset_inventory.Dfir.Collect.{fail, state_start, stored_poll, Built, Velo}
use it_asset_inventory.Dfir.Dispatch.{dispatch_deepagent, PostReply}
use it_asset_inventory.Dfir.Prepare.{prepare, Sources, Request}
use it_asset_inventory.Dfir.Queue.{is_active, sort_by_created, claim_deepagent_dispatches}
use it_asset_inventory.Dfir.Reconcile.{check_deepagent_job, GetReply}
use it_asset_inventory.Dfir.Types.{
  is_failed, is_final, is_deepagent, Status, Orchestrator, Exc, Outcome, Inv, Settings, LlmConfig,
  pending, running, collecting, analyzing, hermes, deepagent, llm_error, dispatch_uncertain,
  dispatch_failed, generic, returned, raised, worker_exception,
}

pub record World : Type 0 where
  pub now : ℕ
  pub settings : Settings
  pub free : Inv → Bool
  pub get_job : Inv → GetReply
  pub sources : Inv → Sources
  pub decrypt : String → Option String
  pub before : String → String → Bool
  pub describe : String → String
  pub post : Request → PostReply
  pub velo : Inv → Built Velo
  pub prompts : LlmConfig → Inv → String × String
  pub chat : String → String → Chat
  pub find_severity : String → Option String
  pub find_count : String → Option ℕ × ℕ

-- The database: the table of investigations and what is kept beside it.
pub record Store : Type 0 where
  pub rows : List Inv
  pub side : Side

-- A row that is written back.
abbrev pub put : Inv → List Inv → List Inv
put i = update (λ j. str_eq j.id i.id) (λ _. i)

unfoldable pub check_row : World → Inv → Outcome × Inv
check_row w i = check_deepagent_job w.settings w.now (w.get_job i) i

unfoldable pub dispatch_row : World → Inv → Outcome × Inv
dispatch_row w i =
    dispatch_deepagent (prepare w.decrypt w.before w.describe w.settings (w.sources i) w.now i)
      w.post w.now i

abbrev pub process_deepagent : World → Status → Inv → Outcome × Inv
process_deepagent w pending i = dispatch_row w i
process_deepagent w analyzing i = check_row w i
process_deepagent w _ i = (returned, i)

abbrev pub beside : Side → Outcome × Inv → Outcome × Inv × Side
beside d (o, i) = (o, i, d)

abbrev pub process_local : World → Status → Inv → Side → Outcome × Inv × Side
process_local w pending i d = beside d (state_start w.now (w.velo i) i)
process_local w running i d = beside d (stored_poll w.settings w.now (w.velo i) i)
process_local w collecting i d = beside d (stored_poll w.settings w.now (w.velo i) i)
process_local w analyzing i d =
    state_analyze w.now w.find_severity w.find_count w.prompts w.chat i d
process_local w _ i d = (returned, i, d)

unfoldable pub process_one : World → Inv → Side → Outcome × Inv × Side
process_one w i d =
    if is_deepagent i.orchestrator
    then beside d (process_deepagent w i.status i)
    else process_local w i.status i d

-- The loop that checks the active jobs. An exception leaves the worker.
abbrev pub go_on : Outcome → Outcome × List Inv → List Inv → Outcome × List Inv
go_on returned rest rows = rest
go_on (raised e) rest rows = (raised e, rows)

unfoldable pub check_rows : World → List Inv → List Inv → Outcome × List Inv
check_rows w [] rows = (returned, rows)
check_rows w (i ∷ is) rows =
    let (o, i') = check_row w i in go_on o (check_rows w is (put i' rows)) (put i' rows)

-- The `except` clauses round a dispatch: whether the row counts as processed, and the row.
unfoldable pub after_dispatch : ℕ → Outcome → Inv → Bool × Inv
after_dispatch now returned i = (true, i)
after_dispatch now (raised (dispatch_uncertain e)) i = (true, i)
after_dispatch now (raised (dispatch_failed e)) i =
    (false, if is_failed i.status then i else fail (worker_exception (dispatch_failed e)) now i)
after_dispatch now (raised (llm_error e)) i = (false, fail (worker_exception (llm_error e)) now i)
after_dispatch now (raised (generic e)) i = (false, fail (worker_exception (generic e)) now i)

unfoldable pub dispatch_claimed : World → Inv → Bool × Inv
unfolding dispatch_row after_dispatch
dispatch_claimed w i = let (o, i') = dispatch_row w i in after_dispatch w.now o i'

-- The numbers of rows processed and of errors.
abbrev pub tally : Bool → ℕ × ℕ → ℕ × ℕ
tally true (p, e) = (p + 1, e)
tally false (p, e) = (p, e + 1)

unfoldable pub dispatch_rows : World → List Inv → List Inv → ℕ × ℕ → List Inv × (ℕ × ℕ)
dispatch_rows w [] rows n = (rows, n)
dispatch_rows w (i ∷ is) rows n =
    let (done, i') = dispatch_claimed w i in dispatch_rows w is (put i' rows) (tally done n)

-- `external_orchestrator != 'deepagent'` in SQL: a comparison with NULL is not true.
abbrev pub sql_ne_deepagent : Option Orchestrator → Bool
sql_ne_deepagent none = false
sql_ne_deepagent (some hermes) = true
sql_ne_deepagent (some deepagent) = false

unfoldable pub local_rows : (Inv → Bool) → List Inv → List Inv
local_rows free rows = take 5 (
    sort_by_created
      (filter (λ i. not (is_final i.status) && sql_ne_deepagent i.orchestrator && free i) rows))

abbrev pub after_process : ℕ → Outcome × Inv × Side → Bool × Inv × Side
after_process now (returned, i, d) = (true, i, d)
after_process now (raised e, i, d) = (false, fail (worker_exception e) now i, d)

unfoldable pub process_rows : World → List Inv → Store → ℕ × ℕ → Store × (ℕ × ℕ)
unfolding process_one
process_rows w [] s n = (s, n)
process_rows w (i ∷ is) s n =
    let (done, i', d) = after_process w.now (process_one w i s.side) in
    process_rows w is (record s { rows = put i' s.rows; side = d }) (tally done n)

-- What one call returns: skipped, left by an exception, or the two numbers.
pub data Tick : Type 0 where
  skipped : Tick
  crashed : Exc → Tick
  ran : ℕ × ℕ → Tick

-- From the claim to the end of the tick.
unfoldable pub run_claimed : World → Store → Tick × Store
unfolding claim_deepagent_dispatches dispatch_rows local_rows process_rows
run_claimed w s =
    let (claimed, rows) =
      claim_deepagent_dispatches w.free w.settings.deepagent_max_concurrent_jobs s.rows in
    let (rows', n) = dispatch_rows w claimed rows (0, 0) in
    let (s', n') = process_rows w (local_rows w.free rows') (record s { rows = rows' }) n in
    (ran n', s')

abbrev pub after_checks : World → Outcome → Store → Tick × Store
after_checks w returned s = run_claimed w s
after_checks w (raised e) s = (crashed e, s)

unfoldable pub run_pending_investigations : World → Store → Tick × Store
unfolding check_rows run_claimed is_llm_enabled
run_pending_investigations w s =
    if not (is_llm_enabled s.side)
    then (skipped, s)
    else let active = sort_by_created (filter (λ i. is_active i && w.free i) s.rows) in
      let (o, rows) = check_rows w active s.rows in after_checks w o (record s { rows = rows })

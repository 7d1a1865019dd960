-- ===== src/Dfir/Moves.antt =====
-- The transitions that the worker takes a row of its own or of Hermes through (server/app/services/dfir_investigation.py).
use it_asset_inventory.Base.{◌≡◌, refl, Bool, true, false, arith}
use it_asset_inventory.Dfir.Analyze.{finish_chat, state_analyze, Side}
use it_asset_inventory.Dfir.Collect.{state_start, state_poll_collect, stored_poll}
use it_asset_inventory.Dfir.Rows.{settled_one}
use it_asset_inventory.Dfir.Types.{
  is_deepagent, Status, Inv, pending, running, collecting, analyzing, completed, failed,
}
use it_asset_inventory.Dfir.Worker.{process_local, process_one, after_process, World}

-- From a status to the statuses that one turn of the worker may leave.
abbrev pub may_move : Status → Status → Bool
may_move pending collecting = true
may_move pending failed = true
may_move running running = true
may_move running analyzing = true
may_move running failed = true
may_move collecting collecting = true
may_move collecting analyzing = true
may_move collecting failed = true
may_move analyzing analyzing = true
may_move analyzing completed = true
may_move analyzing failed = true
may_move completed completed = true
may_move failed failed = true
may_move _ _ = false

moves_by_status :
    (w : World) (s : Status) (i : Inv) (d : Side)
    → i.status ≡ s
    → may_move s (after_process w.now (process_local w s i d)).1.status ≡ true
unfolding state_start stored_poll state_poll_collect state_analyze finish_chat
moves_by_status w pending i d h = ground arith
moves_by_status w running i d h = ground arith
moves_by_status w collecting i d h = ground arith
moves_by_status w analyzing i d h = ground arith
moves_by_status w completed i d h = ground arith
moves_by_status w failed i d h = ground arith

-- One turn of the worker on a row that is not DeepAgent's, exceptions included, moves its status only along the
-- lifecycle: a pending row to collecting or failed; a running or collecting row stays, or
-- goes on to analyzing or failed; an analyzing row stays or ends; and an ended row stays as it ended.
settled_one_moves :
    (w : World) (i : Inv) (d : Side)
    → is_deepagent i.orchestrator ≡ false
    → may_move i.status (settled_one w i d).1.status ≡ true
unfolding process_one
settled_one_moves w i d h = rw (h, process_one) (moves_by_status w i.status i d refl)

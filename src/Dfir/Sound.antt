-- ===== src/Dfir/Sound.antt =====
-- Soundness of one row, and the handlers of the worker.
use it_asset_inventory.Base.{◌≡◌, refl, ◌⊎◌, inr, true, false, none, some, arith, is_some}
use it_asset_inventory.Dfir.Analyze.{finish_chat, state_analyze, Side}
use it_asset_inventory.Dfir.Collect.{state_start, state_poll_collect, stored_poll}
use it_asset_inventory.Dfir.Dispatch.{dispatch_deepagent}
use it_asset_inventory.Dfir.Queue.{job_id, is_active, is_waiting, reserve}
use it_asset_inventory.Dfir.Reconcile.{check_deepagent_job}
use it_asset_inventory.Dfir.Rows.{settled_one, process_one-orchestrator, settled_one-inactive}
use it_asset_inventory.Dfir.Types.{is_final, is_deepagent, Inv}
use it_asset_inventory.Dfir.Worker.{
  check_row, dispatch_row, process_one, after_dispatch, dispatch_claimed, World,
}

pub record IsSound (i : Inv) : Type 0 where
  pub finished : is_some i.completed_at ≡ is_final i.status
  pub bound :
      is_deepagent i.orchestrator ≡ true
      → (i.external_job_id ≡ none) ⊎ (i.external_job_id ≡ some (job_id i.id))
  pub owned : is_active i ≡ true → i.external_job_id ≡ some (job_id i.id)

pub check_row-IsSound :
    (w : World) (i : Inv) → is_active i ≡ true → IsSound i → IsSound (check_row w i).1
unfolding check_row check_deepagent_job
check_row-IsSound w i a h = record {
  finished = ground (arith, h.finished);
  bound = ground (arith, h.bound);
  owned = ground (arith, h.owned);
}

pub reserve-IsSound : (i : Inv) → IsSound i → IsSound (reserve i)
reserve-IsSound i h = record { finished = h.finished; bound = λ d. inr refl; owned = λ d. refl }

pub dispatch_claimed-IsSound :
    (w : World) (i : Inv) → is_waiting i ≡ true → IsSound i → IsSound (dispatch_claimed w i).1
unfolding dispatch_claimed after_dispatch dispatch_row dispatch_deepagent
dispatch_claimed-IsSound w i a h = record {
  finished = ground (arith, h.finished);
  bound = ground (arith, h.bound);
  owned = ground (arith, h.owned);
}

-- A row that DeepAgent does not own.
pub settled_one-IsSound :
    (w : World) (i : Inv) (d : Side)
    → is_deepagent i.orchestrator ≡ false
    → is_final i.status ≡ false
    → IsSound i
    → IsSound (settled_one w i d).1
unfolding process_one state_start stored_poll state_poll_collect state_analyze finish_chat
settled_one-IsSound w i d e f h = record {
  finished = ground (arith, h.finished);
  bound = ground (arith, settled_one-inactive w i d e, process_one-orchestrator w i d e);
  owned = ground (arith, settled_one-inactive w i d e);
}

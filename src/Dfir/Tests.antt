-- ===== src/Dfir/Tests.antt =====
-- The theorems on investigations at the sample rows.
use mathlib.Core.List.{Perm}
use it_asset_inventory.Base.{
  ◌-◌, ◌≤◌, min, ◌≡◌, refl, inl, inr, true, not, ◌&&◌, some, List, ◌++◌, arith, length, filter, All,
}
use it_asset_inventory.Dfir.Callback.{submit_twice}
use it_asset_inventory.Dfir.Calls.{InOrder}
use it_asset_inventory.Dfir.Capacity.{slots, IsFifo, picked-IsFifo}
use it_asset_inventory.Dfir.External.{admit, find_row, submit_external_result}
use it_asset_inventory.Dfir.Frame.{run_pending_keeps_final, run_pending_starves_local}
use it_asset_inventory.Dfir.Monotone.{shown, update_all, shown-update_all}
use it_asset_inventory.Dfir.Queue.{is_active, is_waiting, picked}
use it_asset_inventory.Dfir.Reach.{Reachable-InOrder, Reachable, tick, create, stop, empty, next}
use it_asset_inventory.Dfir.Reconcile.{check_deepagent_job, not_json, reply}
use it_asset_inventory.Dfir.Release.{releases, check_releases_iff}
use it_asset_inventory.Dfir.Samples.{
  created, row_a, row_c, row_d, table, store, settings, world, good_callback, stored_row, steps,
  wanted, link, bare, stopped,
}
use it_asset_inventory.Dfir.Slots.{slots-run_pending_investigations}
use it_asset_inventory.Dfir.Sound.{IsSound}
use it_asset_inventory.Dfir.Table.{IsKeyed}
use it_asset_inventory.Dfir.Types.{Inv}
use it_asset_inventory.Dfir.Worker.{run_pending_investigations}

table-IsKeyed : IsKeyed table
table-IsKeyed = (refl, (refl, (refl, (refl, tt))))

table_sound : All IsSound table
table_sound = (
  record { finished = refl; bound = λ d. inl refl; owned = λ a. cc },
  (
    record { finished = refl; bound = λ d. inr refl; owned = λ a. refl },
    (
      record { finished = refl; bound = λ d. cc; owned = λ a. cc },
      (record { finished = refl; bound = λ d. inr refl; owned = λ a. cc }, tt),
    ),
  ),
)

-- A tick on a table with one slot taken of two.
slots-run_pending_example : slots (run_pending_investigations world store).1.rows ≤ 2
slots-run_pending_example = slots-run_pending_investigations world store table-IsKeyed

picked-IsFifo_example :
    (rest : List Inv) × Perm
      (picked (λ i. true) 2 table ++ rest)
      (filter (λ i. is_waiting i && true) table)
    × IsFifo (picked (λ i. true) 2 table ++ rest)
    × (length (picked (λ i. true) 2 table)
        ≡ min (2 - slots table) (length (picked (λ i. true) 2 table ++ rest)))
picked-IsFifo_example = picked-IsFifo (λ i. true) 2 table

submit_twice_example :
    submit_external_result 200 "a" good_callback
      (submit_external_result 100 "a" good_callback store).1
    ≡ (inr stored_row, (submit_external_result 100 "a" good_callback store).1)
unfolding submit_external_result admit
submit_twice_example = submit_twice 100 200 "a" good_callback store stored_row refl

check_releases_iff_example :
    is_active (check_deepagent_job settings 100 (reply 404 not_json) row_a).1
    ≡ not (releases settings 100 (reply 404 not_json) row_a)
check_releases_iff_example = check_releases_iff settings 100 (reply 404 not_json) row_a refl refl

run_pending_keeps_final_example :
    find_row "d" (run_pending_investigations world store).1.rows ≡ some row_d
run_pending_keeps_final_example =
    run_pending_keeps_final world "d" store row_d table-IsKeyed refl refl

run_pending_starves_local_example :
    find_row "c" (run_pending_investigations world store).1.rows ≡ some row_c
run_pending_starves_local_example =
    run_pending_starves_local world "c" store row_c table-IsKeyed refl refl

shown-update_all_example : shown row_a ≤ shown (update_all steps row_a)
shown-update_all_example = shown-update_all steps row_a

stopped-Reachable : Reachable 2 stopped
stopped-Reachable =
    next
      (next (next (empty store.side) (create 90 settings wanted (some link) bare refl))
        (tick world created (omega arith)))
      (stop 110 "e" (run_pending_investigations world created).1)

Reachable-InOrder_example : InOrder 2 stopped.rows
Reachable-InOrder_example = Reachable-InOrder 2 stopped stopped-Reachable

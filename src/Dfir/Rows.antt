-- ===== src/Dfir/Rows.antt =====
-- The loops of the worker over the table: identifiers stay, and a loop touches only the rows that
-- it was given.
use it_asset_inventory.Base.{ℕ, String, ◌≡◌, refl, ◌∙◌, Bool, false, List, [], ◌∷◌, arith, str_eq}
use it_asset_inventory.Dfir.Analyze.{finish_chat, state_analyze, Side}
use it_asset_inventory.Dfir.Collect.{state_start, state_poll_collect, stored_poll}
use it_asset_inventory.Dfir.Dispatch.{dispatch_deepagent}
use it_asset_inventory.Dfir.External.{find_row}
use it_asset_inventory.Dfir.Queue.{is_active, has_id}
use it_asset_inventory.Dfir.Reconcile.{check_deepagent_job}
use it_asset_inventory.Dfir.Table.{IsKeyed, put-IsKeyed, find_row-put_ne}
use it_asset_inventory.Dfir.Types.{is_deepagent, Inv}
use it_asset_inventory.Dfir.Worker.{
  put, check_row, dispatch_row, process_one, check_rows, dispatch_claimed, tally, dispatch_rows,
  after_process, process_rows, World, Store,
}

pub check_row-id : (w : World) (i : Inv) → (check_row w i).1.id ≡ i.id
unfolding check_row check_deepagent_job
check_row-id w i = ground arith

dispatch_row-id : (w : World) (i : Inv) → (dispatch_row w i).1.id ≡ i.id
unfolding dispatch_row dispatch_deepagent
dispatch_row-id w i = ground arith

dispatch_claimed-id : (w : World) (i : Inv) → (dispatch_claimed w i).1.id ≡ i.id
unfolding dispatch_claimed
dispatch_claimed-id w i = ground (arith, dispatch_row-id w i)

abbrev pub settled_one : World → Inv → Side → Bool × Inv × Side
settled_one w i d = after_process w.now (process_one w i d)

process_one-id : (w : World) (i : Inv) (d : Side) → (process_one w i d).1.id ≡ i.id
unfolding process_one state_start stored_poll state_poll_collect state_analyze finish_chat
process_one-id w i d = ground (arith, check_row-id w i, dispatch_row-id w i)

pub process_one-orchestrator :
    (w : World) (i : Inv) (d : Side)
    → is_deepagent i.orchestrator ≡ false
    → (process_one w i d).1.orchestrator ≡ i.orchestrator
unfolding process_one state_start stored_poll state_poll_collect state_analyze finish_chat
process_one-orchestrator w i d h = ground arith

settled_one-id : (w : World) (i : Inv) (d : Side) → (settled_one w i d).1.id ≡ i.id
settled_one-id w i d = ground (arith, process_one-id w i d)

pub settled_one-inactive :
    (w : World) (i : Inv) (d : Side)
    → is_deepagent i.orchestrator ≡ false
    → is_active (settled_one w i d).1 ≡ false
settled_one-inactive w i d h = ground (arith, process_one-orchestrator w i d h)

-- Each loop keeps the table keyed.
pub check_rows-IsKeyed :
    (w : World) (is rows : List Inv) → IsKeyed rows → IsKeyed (check_rows w is rows).1
unfolding check_rows
check_rows-IsKeyed w [] rows k = k
check_rows-IsKeyed w (i ∷ is) rows k = ground (
  arith,
  put-IsKeyed (check_row w i).1 rows k,
  check_rows-IsKeyed w is (put (check_row w i).1 rows),
)

pub dispatch_rows-IsKeyed :
    (w : World) (is rows : List Inv) (n : ℕ × ℕ)
    → IsKeyed rows
    → IsKeyed (dispatch_rows w is rows n).0
unfolding dispatch_rows
dispatch_rows-IsKeyed w [] rows n k = k
dispatch_rows-IsKeyed w (i ∷ is) rows n k =
    let r = dispatch_claimed w i in
    dispatch_rows-IsKeyed w is (put r.1 rows) (tally r.0 n) (put-IsKeyed r.1 rows k)

pub process_rows-IsKeyed :
    (w : World) (is : List Inv) (s : Store) (n : ℕ × ℕ)
    → IsKeyed s.rows
    → IsKeyed (process_rows w is s n).0.rows
unfolding process_rows
process_rows-IsKeyed w [] s n k = k
process_rows-IsKeyed w (i ∷ is) s n k =
    let r = settled_one w i s.side in
    process_rows-IsKeyed w is (record s { rows = put r.1 s.rows; side = r.2 }) (tally r.0 n)
      (put-IsKeyed r.1 s.rows k)

-- A row whose identifier is not among the given ones is found as before.
pub check_rows_others :
    (w : World) (x : String) (is rows : List Inv)
    → has_id x is ≡ false
    → find_row x (check_rows w is rows).1 ≡ find_row x rows
unfolding check_rows
check_rows_others w x [] rows h = refl
check_rows_others w x (i ∷ is) rows h = ground (
  arith,
  check_row-id w i,
  find_row-put_ne x (check_row w i).1 rows,
  check_rows_others w x is (put (check_row w i).1 rows),
)

pub dispatch_rows_others :
    (w : World) (x : String) (is rows : List Inv) (n : ℕ × ℕ)
    → has_id x is ≡ false
    → find_row x (dispatch_rows w is rows n).0 ≡ find_row x rows
unfolding dispatch_rows
dispatch_rows_others w x [] rows n h = refl
dispatch_rows_others w x (i ∷ is) rows n h = ground (
  arith,
  dispatch_claimed-id w i,
  find_row-put_ne x (dispatch_claimed w i).1 rows,
  dispatch_rows_others w x is (put (dispatch_claimed w i).1 rows)
      (tally (dispatch_claimed w i).0 n),
)

pub process_rows_others :
    (w : World) (x : String) (is : List Inv) (s : Store) (n : ℕ × ℕ)
    → has_id x is ≡ false
    → find_row x (process_rows w is s n).0.rows ≡ find_row x s.rows
unfolding process_rows
process_rows_others w x [] s n h = refl
process_rows_others w x (i ∷ is) s n h =
    let r = settled_one w i s.side in
    let ne : str_eq r.1.id x ≡ false = rw (settled_one-id w i s.side) (ground arith) in
    process_rows_others w x is (record s { rows = put r.1 s.rows; side = r.2 }) (tally r.0 n)
      (ground arith)
    ∙ find_row-put_ne x r.1 s.rows ne

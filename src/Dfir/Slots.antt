-- ===== src/Dfir/Slots.antt =====
-- The slots over a whole tick of the worker.
use it_asset_inventory.Base.{
  ℕ, ◌+◌, ◌≤◌, max, String, ◌≡◌, refl, Bool, true, false, not, ◌&&◌, List, [], ◌∷◌, arith, length,
  filter, all, update, All,
}
use it_asset_inventory.Dfir.Capacity.{
  slots, length-claim, slots-put, slots-put_inactive, Holds, slots-put_active, Holds-put_ne,
}
use it_asset_inventory.Dfir.Queue.{
  is_active, sort_by_created, has_id, reserve, picked, claim_deepagent_dispatches,
}
use it_asset_inventory.Dfir.Rows.{
  check_row-id, settled_one, settled_one-inactive, check_rows-IsKeyed,
}
use it_asset_inventory.Dfir.Table.{
  IsKeyed, str_eq_comm, put-IsKeyed, filter-IsKeyed, sort-IsKeyed, All-filter, All-test, All-sort,
  All-take,
}
use it_asset_inventory.Dfir.Types.{is_final, is_deepagent, Inv}
use it_asset_inventory.Dfir.Worker.{
  put, check_row, check_rows, dispatch_claimed, tally, dispatch_rows, sql_ne_deepagent, local_rows,
  process_rows, run_claimed, run_pending_investigations, World, Store,
}

Holds-of_not-has : (x : String) (rows : List Inv) → has_id x rows ≡ false → Holds x rows
Holds-of_not-has x [] h = tt
Holds-of_not-has x (j ∷ rows) h = (λ e. ground arith, Holds-of_not-has x rows (ground arith))

abbrev Owns : List Inv → Inv → Type 0
Owns rows i = is_active i ≡ true → Holds i.id rows

Owns-cons :
    (j : Inv) (all rows : List Inv)
    → has_id j.id rows ≡ false
    → All (Owns all) rows
    → All (Owns (j ∷ all)) rows
Owns-cons j all [] h o = tt
Owns-cons j all (i ∷ rows) h o = (
  λ a. (λ e. absurd (ground (arith, str_eq_comm i.id j.id)), o.0 a),
  Owns-cons j all rows (ground arith) o.1,
)

-- In a keyed table the identifier of an active row stands on active rows only.
rows_own : (rows : List Inv) → IsKeyed rows → All (Owns rows) rows
rows_own [] k = tt
rows_own (j ∷ rows) k =
    (λ a. (λ e. a, Holds-of_not-has j.id rows k.0), Owns-cons j rows rows k.0 (rows_own rows k.1))

apply_active :
    (all is : List Inv)
    → All (Owns all) is
    → All (λ i. is_active i ≡ true) is
    → All (λ i. Holds i.id all) is
apply_active all [] o a = tt
apply_active all (i ∷ is) o a = (o.0 a.0, apply_active all is o.1 a.1)

active_of_free :
    (free : Inv → Bool) (is : List Inv)
    → All (λ i. (is_active i && free i) ≡ true) is
    → All (λ i. is_active i ≡ true) is
active_of_free free [] a = tt
active_of_free free (i ∷ is) a = (ground arith, active_of_free free is a.1)

-- The rows that the worker checks.
abbrev pub checked : (Inv → Bool) → List Inv → List Inv
checked free rows = sort_by_created (filter (λ i. is_active i && free i) rows)

checked_hold :
    (free : Inv → Bool) (rows : List Inv)
    → IsKeyed rows
    → All (λ i. Holds i.id rows) (checked free rows)
checked_hold free rows k =
    let p = λ (i : Inv). is_active i && free i in
    apply_active rows (checked free rows)
      (All-sort (Owns rows) (filter p rows) (All-filter (Owns rows) p rows (rows_own rows k)))
      (active_of_free free (checked free rows)
        (All-sort (λ i. p i ≡ true) (filter p rows) (All-test p rows)))

Holds-put_all :
    (i : Inv) (rows is : List Inv)
    → has_id i.id is ≡ false
    → All (λ j. Holds j.id rows) is
    → All (λ j. Holds j.id (put i rows)) is
Holds-put_all i rows [] h a = tt
Holds-put_all i rows (j ∷ is) h a = (
  Holds-put_ne j.id i rows (ground (arith, str_eq_comm i.id j.id)) a.0,
  Holds-put_all i rows is (ground arith) a.1,
)

-- Checking active rows frees slots and takes none.
slots-check_rows :
    (w : World) (is rows : List Inv)
    → IsKeyed is
    → All (λ i. Holds i.id rows) is
    → slots (check_rows w is rows).1 ≤ slots rows
unfolding check_rows
slots-check_rows w [] rows k a = omega arith
slots-check_rows w (i ∷ is) rows k a =
    let same = check_row-id w i in
    let i' = (check_row w i).1 in
    let less = slots-put_active i' rows (rw same a.0) in
    let rest =
      slots-check_rows w is (put i' rows) k.1 (Holds-put_all i' rows is (rw same k.0) a.1) in
    ground (arith, less, rest)

-- A dispatch takes one slot at most.
slots-dispatch_rows :
    (w : World) (is rows : List Inv) (n : ℕ × ℕ)
    → IsKeyed rows
    → slots (dispatch_rows w is rows n).0 ≤ slots rows + length is
unfolding dispatch_rows
slots-dispatch_rows w [] rows n k = omega arith
slots-dispatch_rows w (i ∷ is) rows n k =
    let r = dispatch_claimed w i in
    omega (
      arith,
      slots-put r.1 rows k,
      slots-dispatch_rows w is (put r.1 rows) (tally r.0 n) (put-IsKeyed r.1 rows k),
    )

-- The other rows take no slot.
slots-process_rows :
    (w : World) (is : List Inv) (s : Store) (n : ℕ × ℕ)
    → All (λ i. is_deepagent i.orchestrator ≡ false) is
    → slots (process_rows w is s n).0.rows ≤ slots s.rows
unfolding process_rows
slots-process_rows w [] s n a = omega arith
slots-process_rows w (i ∷ is) s n a =
    let r = settled_one w i s.side in
    omega (
      arith,
      slots-put_inactive r.1 s.rows (settled_one-inactive w i s.side a.0),
      slots-process_rows w is (record s { rows = put r.1 s.rows; side = r.2 }) (tally r.0 n) a.1,
    )

not_deepagent :
    (free : Inv → Bool) (is : List Inv)
    → All (λ i. (not (is_final i.status) && sql_ne_deepagent i.orchestrator && free i) ≡ true) is
    → All (λ i. is_deepagent i.orchestrator ≡ false) is
not_deepagent free [] a = tt
not_deepagent free (i ∷ is) a = (ground arith, not_deepagent free is a.1)

local_rows_not_deepagent :
    (free : Inv → Bool) (rows : List Inv)
    → All (λ i. is_deepagent i.orchestrator ≡ false) (local_rows free rows)
unfolding local_rows
local_rows_not_deepagent free rows =
    let p = λ (i : Inv). not (is_final i.status) && sql_ne_deepagent i.orchestrator && free i in
    not_deepagent free (local_rows free rows) (
      All-take (λ i. p i ≡ true) 5 (sort_by_created (filter p rows))
        (All-sort (λ i. p i ≡ true) (filter p rows) (All-test p rows)))

-- Reserving rows changes no status, so it takes no slot.
slots-reserve :
    (x : List Inv) (rows : List Inv) → slots (update (λ i. has_id i.id x) reserve rows) ≡ slots rows
slots-reserve x [] = refl
slots-reserve x (i ∷ rows) = ground (arith, slots-reserve x rows)

has_id-reserve :
    (y : String) (x rows : List Inv)
    → has_id y (update (λ i. has_id i.id x) reserve rows) ≡ has_id y rows
has_id-reserve y x [] = refl
has_id-reserve y x (i ∷ rows) = ground (arith, has_id-reserve y x rows)

reserve-IsKeyed :
    (x rows : List Inv) → IsKeyed rows → IsKeyed (update (λ i. has_id i.id x) reserve rows)
reserve-IsKeyed x [] k = tt
reserve-IsKeyed x (i ∷ rows) k =
    ground (arith, has_id-reserve i.id x rows, reserve-IsKeyed x rows k.1)

slots-claim :
    (free : Inv → Bool) (capacity : ℕ) (rows : List Inv)
    → slots (claim_deepagent_dispatches free capacity rows).1 ≡ slots rows
unfolding claim_deepagent_dispatches
slots-claim free capacity rows = ground (arith, slots-reserve (picked free capacity rows) rows)

pub claim-IsKeyed :
    (free : Inv → Bool) (capacity : ℕ) (rows : List Inv)
    → IsKeyed rows
    → IsKeyed (claim_deepagent_dispatches free capacity rows).1
unfolding claim_deepagent_dispatches
claim-IsKeyed free capacity rows k =
    ground (arith, reserve-IsKeyed (picked free capacity rows) rows k)

slots-run_claimed :
    (w : World) (s : Store)
    → IsKeyed s.rows
    → slots (run_claimed w s).1.rows ≤ max w.settings.deepagent_max_concurrent_jobs (slots s.rows)
unfolding run_claimed
slots-run_claimed w s k =
    let cap = w.settings.deepagent_max_concurrent_jobs in
    let c = claim_deepagent_dispatches w.free cap s.rows in
    let d = dispatch_rows w c.0 c.1 (0, 0) in
    omega (
      arith,
      length-claim w.free cap s.rows,
      slots-claim w.free cap s.rows,
      slots-dispatch_rows w c.0 c.1 (0, 0) (claim-IsKeyed w.free cap s.rows k),
      slots-process_rows w (local_rows w.free d.0) (record s { rows = d.0 }) d.1
          (local_rows_not_deepagent w.free d.0),
    )

-- After a tick no more rows hold a slot than the configured number of jobs, or than held one
-- before, if those were more already. The identifiers of the table must be distinct.
pub slots-run_pending_investigations :
    (w : World) (s : Store)
    → IsKeyed s.rows
    → slots (run_pending_investigations w s).1.rows
      ≤ max w.settings.deepagent_max_concurrent_jobs (slots s.rows)
unfolding run_pending_investigations
slots-run_pending_investigations w s k =
    let p = λ (i : Inv). is_active i && w.free i in
    let active = checked w.free s.rows in
    let r = check_rows w active s.rows in
    let fewer =
      slots-check_rows w active s.rows (sort-IsKeyed (filter p s.rows) (filter-IsKeyed p s.rows k))
        (checked_hold w.free s.rows k) in
    let then' =
      slots-run_claimed w (record s { rows = r.1 }) (check_rows-IsKeyed w active s.rows k) in
    ground (arith, fewer, then')

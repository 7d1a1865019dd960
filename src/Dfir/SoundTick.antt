-- ===== src/Dfir/SoundTick.antt =====
-- Soundness of the rows over a tick of the worker.
use it_asset_inventory.Base.{
  ℕ, ◌-◌, ◌≡◌, inl, inr, Bool, true, not, ◌&&◌, List, [], ◌∷◌, map, arith, leb, ◌==◌, Bool-cases,
  str_eq, take, filter, count, update, All,
}
use it_asset_inventory.Dfir.Analyze.{is_llm_enabled}
use it_asset_inventory.Dfir.Queue.{
  has_id, is_active, is_waiting, sort_by_created, reserve, picked, claim_deepagent_dispatches,
}
use it_asset_inventory.Dfir.Rows.{settled_one}
use it_asset_inventory.Dfir.Slots.{checked}
use it_asset_inventory.Dfir.Sound.{
  check_row-IsSound, reserve-IsSound, dispatch_claimed-IsSound, settled_one-IsSound, IsSound,
}
use it_asset_inventory.Dfir.Table.{All-filter, All-test, All-sort, All-take}
use it_asset_inventory.Dfir.Types.{raised, is_final, Outcome, Inv, returned}
use it_asset_inventory.Dfir.Worker.{
  put, check_row, go_on, check_rows, dispatch_claimed, tally, dispatch_rows, sql_ne_deepagent,
  local_rows, process_rows, run_claimed, after_checks, run_pending_investigations, World, Store,
}

pub All-put : (i : Inv) (rows : List Inv) → IsSound i → All IsSound rows → All IsSound (put i rows)
All-put i [] h a = tt
All-put i (j ∷ rows) h a = elim (Bool-cases (str_eq j.id i.id)) [
  | inl e ↦ rw e (h, All-put i rows h a.1)
  | inr e ↦ rw e (a.0, All-put i rows h a.1)
]

All-and :
    (p : Inv → Bool) (is : List Inv)
    → All IsSound is
    → All (λ i. p i ≡ true) is
    → All (λ i. (p i ≡ true) × IsSound i) is
All-and p [] a b = tt
All-and p (i ∷ is) a b = ((b.0, a.0), All-and p is a.1 b.1)

-- The rows that a query chooses are sound and pass its test.
chosen :
    (p : Inv → Bool) (rows : List Inv)
    → All IsSound rows
    → All (λ i. (p i ≡ true) × IsSound i) (sort_by_created (filter p rows))
chosen p rows a =
    All-and p (sort_by_created (filter p rows))
      (All-sort IsSound (filter p rows) (All-filter IsSound p rows a))
      (All-sort (λ i. p i ≡ true) (filter p rows) (All-test p rows))

go_on-IsSound :
    (o : Outcome) (rest : Outcome × List Inv) (rows : List Inv)
    → All IsSound rest.1
    → All IsSound rows
    → All IsSound (go_on o rest rows).1
go_on-IsSound returned rest rows a b = a
go_on-IsSound (raised e) rest rows a b = b

check_rows-IsSound :
    (w : World) (is rows : List Inv)
    → All (λ i. ((is_active i && w.free i) ≡ true) × IsSound i) is
    → All IsSound rows
    → All IsSound (check_rows w is rows).1
unfolding check_rows
check_rows-IsSound w [] rows c a = a
check_rows-IsSound w (i ∷ is) rows c a =
    let j = (check_row w i).1 in
    let now_sound = All-put j rows (check_row-IsSound w i (ground arith) c.0.1) a in
    go_on-IsSound (check_row w i).0 (check_rows w is (put j rows)) (put j rows)
      (check_rows-IsSound w is (put j rows) c.1 now_sound) now_sound

dispatch_rows-IsSound :
    (w : World) (is rows : List Inv) (n : ℕ × ℕ)
    → All (λ i. (is_waiting i ≡ true) × IsSound i) is
    → All IsSound rows
    → All IsSound (dispatch_rows w is rows n).0
unfolding dispatch_rows
dispatch_rows-IsSound w [] rows n c a = a
dispatch_rows-IsSound w (i ∷ is) rows n c a =
    let r = dispatch_claimed w i in
    dispatch_rows-IsSound w is (put r.1 rows) (tally r.0 n) c.1
      (All-put r.1 rows (dispatch_claimed-IsSound w i c.0.0 c.0.1) a)

abbrev is_local : (Inv → Bool) → Inv → Bool
is_local free i = not (is_final i.status) && sql_ne_deepagent i.orchestrator && free i

process_rows-IsSound :
    (w : World) (is : List Inv) (s : Store) (n : ℕ × ℕ)
    → All (λ i. (is_local w.free i ≡ true) × IsSound i) is
    → All IsSound s.rows
    → All IsSound (process_rows w is s n).0.rows
unfolding process_rows
process_rows-IsSound w [] s n c a = a
process_rows-IsSound w (i ∷ is) s n c a =
    let r = settled_one w i s.side in
    let sound = settled_one-IsSound w i s.side (ground arith) (ground arith) c.0.1 in
    process_rows-IsSound w is (record s { rows = put r.1 s.rows; side = r.2 }) (tally r.0 n) c.1
      (All-put r.1 s.rows sound a)

All-reserve :
    (x rows : List Inv) → All IsSound rows → All IsSound (update (λ i. has_id i.id x) reserve rows)
All-reserve x [] a = tt
All-reserve x (i ∷ rows) a = elim (Bool-cases (has_id i.id x)) [
  | inl e ↦ rw e (reserve-IsSound i a.0, All-reserve x rows a.1)
  | inr e ↦ rw e (a.0, All-reserve x rows a.1)
]

All-map-reserve :
    (free : Inv → Bool) (is : List Inv)
    → All (λ i. ((is_waiting i && free i) ≡ true) × IsSound i) is
    → All (λ i. (is_waiting i ≡ true) × IsSound i) (map reserve is)
All-map-reserve free [] c = tt
All-map-reserve free (i ∷ is) c =
    ((ground arith, reserve-IsSound i c.0.1), All-map-reserve free is c.1)

claim-IsSound :
    (free : Inv → Bool) (capacity : ℕ) (rows : List Inv)
    → All IsSound rows
    → All (λ i. (is_waiting i ≡ true) × IsSound i) (claim_deepagent_dispatches free capacity rows).0
      × All IsSound (claim_deepagent_dispatches free capacity rows).1
unfolding claim_deepagent_dispatches picked
claim-IsSound free capacity rows a =
    let p = λ (i : Inv). is_waiting i && free i in
    let n = capacity - count is_active rows in
    let picks = take n (sort_by_created (filter p rows)) in
    let fits = All-map-reserve free picks (
      All-take (λ i. (p i ≡ true) × IsSound i) n (sort_by_created (filter p rows))
        (chosen p rows a)) in
    elim (Bool-cases (leb capacity 0)) [
      | inl e ↦ rw e (tt, a)
      | inr e ↦ elim (Bool-cases (n == 0)) [
        | inl z ↦ rw (e, z) (tt, a)
        | inr z ↦ rw (e, z) (fits, All-reserve picks rows a)
      ]
    ]

run_claimed-IsSound :
    (w : World) (s : Store) → All IsSound s.rows → All IsSound (run_claimed w s).1.rows
unfolding run_claimed local_rows
run_claimed-IsSound w s a =
    let c = claim_deepagent_dispatches w.free w.settings.deepagent_max_concurrent_jobs s.rows in
    let sound = claim-IsSound w.free w.settings.deepagent_max_concurrent_jobs s.rows a in
    let d = dispatch_rows w c.0 c.1 (0, 0) in
    let after = dispatch_rows-IsSound w c.0 c.1 (0, 0) sound.0 sound.1 in
    process_rows-IsSound w (local_rows w.free d.0) (record s { rows = d.0 }) d.1
      (All-take (λ i. (is_local w.free i ≡ true) × IsSound i) 5
        (sort_by_created (filter (is_local w.free) d.0)) (chosen (is_local w.free) d.0 after))
      after

after_checks-IsSound :
    (w : World) (o : Outcome) (s : Store)
    → All IsSound s.rows
    → All IsSound (after_checks w o s).1.rows
after_checks-IsSound w returned s a = run_claimed-IsSound w s a
after_checks-IsSound w (raised e) s a = a

-- If every row is sound before a tick, every row is sound after it: it has an end time exactly if it is
-- completed or failed, a DeepAgent row names no job but its own, and an analyzing one names its own.
pub run_pending-IsSound :
    (w : World) (s : Store)
    → All IsSound s.rows
    → All IsSound (run_pending_investigations w s).1.rows
unfolding run_pending_investigations
run_pending-IsSound w s a =
    let p = λ (i : Inv). is_active i && w.free i in
    let r = check_rows w (checked w.free s.rows) s.rows in
    let sound = check_rows-IsSound w (checked w.free s.rows) s.rows (chosen p s.rows a) a in
    elim (Bool-cases (is_llm_enabled s.side)) [
      | inr e ↦ rw e a
      | inl e ↦ rw e (after_checks-IsSound w r.0 (record s { rows = r.1 }) sound)
    ]

-- ===== src/Dfir/Reach.antt =====
-- Every state that the service can reach, by ticks of the worker and calls from outside in any order.
use it_asset_inventory.Base.{
  ℕ, ◌≤◌, String, ◌≡◌, refl, ◌⊎◌, inl, inr, Bool, true, false, not, Option, none, some, List, [],
  arith, Bool-cases, Option-cases, Sum-cases, str_eq, truthy,
}
use it_asset_inventory.Dfir.Analyze.{is_llm_enabled, Side}
use it_asset_inventory.Dfir.Calls.{
  callback-Calm, progress-Calm, stop-Calm, poll-Calm, put-InOrder, filter-InOrder, append-InOrder,
  poll-InOrder, InOrder,
}
use it_asset_inventory.Dfir.External.{
  admit, find_row, submit_external_result, list_pending_for_external, mark_external_polled, Refusal,
  Callback,
}
use it_asset_inventory.Dfir.Progress.{
  update_investigation_status, stop_investigation, is_busy, delete_investigation,
  configured_external, chosen_name, parse_orchestrator, create_investigation, Progress, Wanted,
}
use it_asset_inventory.Dfir.Queue.{has_id, claim_deepagent_dispatches}
use it_asset_inventory.Dfir.Rows.{check_rows-IsKeyed, dispatch_rows-IsKeyed, process_rows-IsKeyed}
use it_asset_inventory.Dfir.Slots.{checked, claim-IsKeyed, slots-run_pending_investigations}
use it_asset_inventory.Dfir.SoundTick.{run_pending-IsSound}
use it_asset_inventory.Dfir.Table.{IsKeyed}
use it_asset_inventory.Dfir.Types.{raised, is_final, Outcome, Inv, Settings, Link, returned}
use it_asset_inventory.Dfir.Worker.{
  put, check_rows, dispatch_rows, local_rows, run_claimed, after_checks, run_pending_investigations,
  World, Store,
}

-- One step, with at most `n` jobs at a time in the settings of every tick. A new row has a new identifier.
pub data Step (n : ℕ) : Store → Store → Type 0 where
  tick :
      (w : World) (s : Store)
      → w.settings.deepagent_max_concurrent_jobs ≤ n
      → Step n s (run_pending_investigations w s).1
  create :
      (now : ℕ) (c : Settings) (q : Wanted) (l : Option Link) (s : Store)
      → has_id q.fresh s.rows ≡ false
      → Step n s (create_investigation now c q l s).1
  callback :
      (now : ℕ) (id : String) (b : Callback) (s : Store)
      → Step n s (submit_external_result now id b s).1
  report :
      (p : Progress) (id : String) (i : Inv) (s : Store)
      → find_row id s.rows ≡ some i
      → Step n s (record s { rows = put (update_investigation_status p i).1 s.rows })
  poll :
      (free : Inv → Bool) (now limit : ℕ) (s : Store)
      → Step n s (record s { rows = (list_pending_for_external free now limit s.rows).1 })
  mark :
      (now : ℕ) (id : String) (i : Inv) (s : Store)
      → find_row id s.rows ≡ some i
      → Step n s (record s { rows = mark_external_polled now i s.rows })
  stop :
      (now : ℕ) (id : String) (s : Store)
      → Step n s (record s { rows = (stop_investigation now id s.rows).1 })
  delete :
      (id : String) (s : Store) → Step n s (record s { rows = (delete_investigation id s.rows).1 })

-- The states that steps lead to from a table without rows.
pub data Reachable (n : ℕ) : Store → Type 0 where
  empty : (d : Side) → Reachable n (record { rows = []; side = d })
  next : {s t : Store} → Reachable n s → Step n s t → Reachable n t

run_claimed-IsKeyed : (w : World) (s : Store) → IsKeyed s.rows → IsKeyed (run_claimed w s).1.rows
unfolding run_claimed
run_claimed-IsKeyed w s k =
    let c = claim_deepagent_dispatches w.free w.settings.deepagent_max_concurrent_jobs s.rows in
    let d = dispatch_rows w c.0 c.1 (0, 0) in
    process_rows-IsKeyed w (local_rows w.free d.0) (record s { rows = d.0 }) d.1
      (dispatch_rows-IsKeyed w c.0 c.1 (0, 0)
        (claim-IsKeyed w.free w.settings.deepagent_max_concurrent_jobs s.rows k))

run_pending-IsKeyed :
    (w : World) (s : Store) → IsKeyed s.rows → IsKeyed (run_pending_investigations w s).1.rows
unfolding run_pending_investigations
run_pending-IsKeyed w s k =
    let r = check_rows w (checked w.free s.rows) s.rows in
    let keyed = check_rows-IsKeyed w (checked w.free s.rows) s.rows k in
    elim (Bool-cases (is_llm_enabled s.side)) [
      | inr e ↦ rw e k
      | inl e ↦ rw e (by_outcome r.0 (record s { rows = r.1 }) keyed)
    ]
  where
    by_outcome : (o : Outcome) (t : Store) → IsKeyed t.rows → IsKeyed (after_checks w o t).1.rows
    by_outcome returned t q = run_claimed-IsKeyed w t q
    by_outcome (raised e) t q = q

create-InOrder :
    (n now : ℕ) (c : Settings) (q : Wanted) (l : Option Link) (s : Store)
    → has_id q.fresh s.rows ≡ false
    → InOrder n s.rows
    → InOrder n (create_investigation now c q l s).1.rows
unfolding create_investigation
create-InOrder n now c q none s new o = elim (Bool-cases (is_llm_enabled s.side)) [
  | inr e ↦ rw (e, create_investigation) o
  | inl e ↦ rw (e, create_investigation) o
]
create-InOrder n now c q (some l) s new o = elim (Bool-cases (is_llm_enabled s.side)) [
  | inr e ↦ rw (e, create_investigation) o
  | inl e ↦ elim (Bool-cases (truthy l.client_id)) [
    | inr t ↦ rw (e, t, create_investigation) o
    | inl t ↦ elim (Option-cases s.side.config) [
      | inl f ↦ rw (e, t, f, create_investigation) o
      | inr (g, f) ↦
          elim (Sum-cases (
            parse_orchestrator
              (chosen_name q.use_external_orchestrator (configured_external c g)))) [
                | inl (r, z) ↦ rw (e, t, f, z, create_investigation) o
                | inr (w, z) ↦
                    rw (e, t, f, z, create_investigation)
                      (append-InOrder n s.rows _ new (ground arith)
                        (record { finished = refl; bound = λ d. inl refl; owned = ground arith }) o)
              ]
    ]
  ]
]

tick-InOrder :
    (n : ℕ) (w : World) (s : Store)
    → w.settings.deepagent_max_concurrent_jobs ≤ n
    → InOrder n s.rows
    → InOrder n (run_pending_investigations w s).1.rows
tick-InOrder n w s h o = record {
  keyed = run_pending-IsKeyed w s o.keyed;
  sound = run_pending-IsSound w s o.sound;
  within = omega (arith, slots-run_pending_investigations w s o.keyed, o.within);
}

callback-InOrder :
    (n now : ℕ) (id : String) (b : Callback) (s : Store)
    → InOrder n s.rows
    → InOrder n (submit_external_result now id b s).1.rows
unfolding submit_external_result
callback-InOrder n now id b s o = elim (Option-cases (find_row id s.rows)) [
  | inl e ↦ rw (e, submit_external_result) o
  | inr (i, e) ↦ by_guard i e (admit b i) refl
]
  where
    by_guard :
        (i : Inv)
        → find_row id s.rows ≡ some i
        → (r : Refusal ⊎ Bool) → admit b i ≡ r
        → InOrder n (submit_external_result now id b s).1.rows
    by_guard i e (inl r) g = rw (e, g, submit_external_result) o
    by_guard i e (inr false) g = rw (e, g, submit_external_result) o
    by_guard i e (inr true) g =
        rw (e, g, submit_external_result)
          (put-InOrder n id s.rows i _ e (callback-Calm now b i s.side g) o)

stop-InOrder :
    (n now : ℕ) (id : String) (rows : List Inv)
    → InOrder n rows
    → InOrder n (stop_investigation now id rows).1
unfolding stop_investigation
stop-InOrder n now id rows o = elim (Option-cases (find_row id rows)) [
  | inl e ↦ rw (e, stop_investigation) o
  | inr (i, e) ↦ elim (Bool-cases (is_final i.status)) [
    | inl f ↦ rw (e, f, stop_investigation) o
    | inr f ↦ rw (e, f, stop_investigation) (put-InOrder n id rows i _ e (stop-Calm now i) o)
  ]
]

delete-InOrder :
    (n : ℕ) (id : String) (rows : List Inv)
    → InOrder n rows
    → InOrder n (delete_investigation id rows).1
unfolding delete_investigation
delete-InOrder n id rows o = elim (Option-cases (find_row id rows)) [
  | inl e ↦ rw (e, delete_investigation) o
  | inr (i, e) ↦ elim (Bool-cases (is_busy i.status)) [
    | inl f ↦ rw (e, f, delete_investigation) o
    | inr f ↦ rw (e, f, delete_investigation) (filter-InOrder n (λ j. not (str_eq j.id id)) rows o)
  ]
]

-- In every reachable state the identifiers are distinct, every row is sound, and no more rows hold a slot than
-- the largest number of jobs at a time that the settings of any tick have named.
pub Reachable-InOrder : (n : ℕ) (s : Store) → Reachable n s → InOrder n s.rows
unfolding list_pending_for_external mark_external_polled
Reachable-InOrder n s (empty d) = record { keyed = tt; sound = tt; within = omega arith }
Reachable-InOrder n s (next r (tick w t h)) = tick-InOrder n w t h (Reachable-InOrder n t r)
Reachable-InOrder n s (next r (create now c q l t h)) =
    create-InOrder n now c q l t h (Reachable-InOrder n t r)
Reachable-InOrder n s (next r (callback now id b t)) =
    callback-InOrder n now id b t (Reachable-InOrder n t r)
Reachable-InOrder n s (next r (report p id i t e)) =
    put-InOrder n id t.rows i _ e (progress-Calm p i) (Reachable-InOrder n t r)
Reachable-InOrder n s (next r (poll free now limit t)) =
    poll-InOrder n now _ t.rows (Reachable-InOrder n t r)
Reachable-InOrder n s (next r (mark now id i t e)) =
    put-InOrder n id t.rows i _ e (poll-Calm now i) (Reachable-InOrder n t r)
Reachable-InOrder n s (next r (stop now id t)) =
    stop-InOrder n now id t.rows (Reachable-InOrder n t r)
Reachable-InOrder n s (next r (delete id t)) = delete-InOrder n id t.rows (Reachable-InOrder n t r)

-- ===== src/Dfir/Monotone.antt =====
-- Progress updates, and polls of external services.
use it_asset_inventory.Base.{
  ℕ, suc, ◌+◌, ◌≤◌, ◌≡◌, refl, ap, ◌∙◌, Bool, true, false, ◌&&◌, none, some, List, [], ◌∷◌, map,
  arith, length, take, filter, All, length-take-le,
}
use it_asset_inventory.Dfir.External.{claim_poll, is_offered, list_pending_for_external}
use it_asset_inventory.Dfir.Progress.{update_investigation_status, Progress}
use it_asset_inventory.Dfir.Queue.{sort_by_created}
use it_asset_inventory.Dfir.Types.{
  is_final, Inv, reason, reconciled, ambiguous, ambiguous_http, dispatched_job, progress, raw,
}

-- The progress that a row shows.
abbrev pub shown : Inv → ℕ
shown i = elim i.hermes_response [
  | none ↦ 0
  | some r ↦ elim r [
    | progress _ n _ _ _ ↦ n
    | reason _ ↦ 0
    | reconciled _ _ ↦ 0
    | ambiguous _ ↦ 0
    | ambiguous_http _ ↦ 0
    | dispatched_job _ _ ↦ 0
    | raw _ ↦ 0
  ]
]

update_grows : (p : Progress) (i : Inv) → shown i ≤ shown (update_investigation_status p i).1
unfolding update_investigation_status
update_grows p i = ground arith

-- A row under any number of progress updates, in the order of their arrival.
pub update_all : List Progress → Inv → Inv
update_all [] i = i
update_all (p ∷ ps) i = update_all ps (update_investigation_status p i).1

-- However many updates arrive, in any order, the progress that the row shows never falls.
pub shown-update_all : (ps : List Progress) (i : Inv) → shown i ≤ shown (update_all ps i)
unfolding update_all
shown-update_all [] i = omega arith
shown-update_all (p ∷ ps) i =
    omega (arith, update_grows p i, shown-update_all ps (update_investigation_status p i).1)

-- Any number of updates changes only the job, the phase and the response: the lifecycle, the end time and the error
-- stay, and a final row stays as it is.
update_all_frame :
    (ps : List Progress) (i : Inv)
    → let j = update_all ps i in
      (j.status ≡ i.status)
      × (j.completed_at ≡ i.completed_at)
      × (j.error ≡ i.error)
      × (is_final i.status ≡ true → j ≡ i)
unfolding update_all
update_all_frame [] i = (refl, refl, refl, λ f. refl)
update_all_frame (p ∷ ps) i =
    let here = one p i in
    let later = update_all_frame ps (update_investigation_status p i).1 in
    (
      later.0 ∙ here.0,
      later.1 ∙ here.1,
      later.2 ∙ here.2,
      λ f. later.3 (ap is_final here.0 ∙ f) ∙ here.3 f,
    )
  where
    one :
        (q : Progress) (k : Inv)
        → let j = (update_investigation_status q k).1 in
          (j.status ≡ k.status)
          × (j.completed_at ≡ k.completed_at)
          × (j.error ≡ k.error)
          × (is_final k.status ≡ true → j ≡ k)
    one q k = unfold update_investigation_status in ground arith

not_offered :
    (now later : ℕ)
    → later ≤ now + 300
    → (is : List Inv) → All (λ i. is_offered later i ≡ false) (map (claim_poll now) is)
not_offered now later h [] = tt
not_offered now later h (i ∷ is) = (ground arith, not_offered now later h is)

length-claim_poll : (now : ℕ) (is : List Inv) → length (map (claim_poll now) is) ≡ length is
length-claim_poll now [] = refl
length-claim_poll now (i ∷ is) = ap suc (length-claim_poll now is)

-- A poll gives at most the rows asked for, and a row that it gave is not offered again before five minutes have
-- passed.
list_pending_once :
    (free : Inv → Bool) (now later limit : ℕ) (rows : List Inv)
    → later ≤ now + 300
    → let given = (list_pending_for_external free now limit rows).0 in
      (length given ≤ limit) × All (λ i. is_offered later i ≡ false) given
unfolding list_pending_for_external
list_pending_once free now later limit rows h =
    let offered = sort_by_created (filter (λ i. is_offered now i && free i) rows) in
    (
      omega (arith, length-claim_poll now (take limit offered), length-take-le limit offered),
      not_offered now later h (take limit offered),
    )

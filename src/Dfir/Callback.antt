-- ===== src/Dfir/Callback.antt =====
-- What a callback of an external service can do.
use it_asset_inventory.Base.{
  ℕ, String, ◌≡◌, refl, sym, ap, ◌∙◌, subst, ◌≢◌, ◌⊎◌, inl, inr, Bool, true, false, Option, none,
  some, List, [], ◌∷◌, arith, eq_iff, Bool-cases, Option-cases, str_eq, is_some, truthy?,
}
use it_asset_inventory.Dfir.Analyze.{Side}
use it_asset_inventory.Dfir.External.{
  text_eq?, admit, store_callback, find_row, submit_external_result, Refusal, Callback, conflict,
}
use it_asset_inventory.Dfir.Queue.{has_id}
use it_asset_inventory.Dfir.Table.{str_eq_refl, find_row-put_self}
use it_asset_inventory.Dfir.Types.{is_analyzing, is_final, is_deepagent, Inv}
use it_asset_inventory.Dfir.Worker.{put, Store}

-- A refused callback changes nothing at all.
submit_refused :
    (now : ℕ) (id : String) (b : Callback) (s : Store) (r : Refusal)
    → (submit_external_result now id b s).0 ≡ inl r
    → (submit_external_result now id b s).1 ≡ s
unfolding submit_external_result
submit_refused now id b s r h = ground arith

-- What the guards let through.
admit_new :
    (b : Callback) (i : Inv)
    → admit b i ≡ inr true
    → (is_some i.orchestrator ≡ true)
      × (truthy? b.idempotency_key ≡ true)
      × (is_analyzing i.status ≡ true)
      × ((truthy? i.external_job_id ≡ true) → text_eq? b.external_job_id i.external_job_id ≡ true)
unfolding admit
admit_new b i h = ground arith

text_eq?-refl : (a : Option String) → text_eq? a a ≡ true
text_eq?-refl none = refl
text_eq?-refl (some s) = str_eq_refl s

pub text_eq?→eq : (a b : Option String) → text_eq? a b ≡ true → a ≡ b
text_eq?→eq none none h = refl
text_eq?→eq none (some t) h = cc
text_eq?→eq (some s) none h = cc
text_eq?→eq (some s) (some t) h = ap some (sym ((eq_iff t s).0 h))

-- After its callback was stored, a row is final and keeps the key.
stored_final :
    (now : ℕ) (b : Callback) (i : Inv) (d : Side)
    → (is_final (store_callback now b i d).0.status ≡ true)
      × ((store_callback now b i d).0.callback_key ≡ b.idempotency_key)
      × ((store_callback now b i d).0.orchestrator ≡ i.orchestrator)
      × ((store_callback now b i d).0.id ≡ i.id)
unfolding store_callback
stored_final now b i d = ground arith

-- A DeepAgent row still names a job.
stored_job :
    (now : ℕ) (b : Callback) (i : Inv) (d : Side)
    → truthy? i.external_job_id ≡ true
    → truthy? (store_callback now b i d).0.external_job_id ≡ true
unfolding store_callback
stored_job now b i d h = ground arith

-- The guards at a final row of the same key.
admit_again :
    (b : Callback) (i : Inv)
    → is_some i.orchestrator ≡ true
    → truthy? b.idempotency_key ≡ true
    → (is_deepagent i.orchestrator ≡ true → truthy? i.external_job_id ≡ true)
    → is_final i.status ≡ true
    → i.callback_key ≡ b.idempotency_key
    → admit b i ≡ inr false
unfolding admit
admit_again b i o k j f e =
    ground (arith, text_eq?-refl b.idempotency_key, ap truthy? e, ap (text_eq? b.idempotency_key) e)

admit_job :
    (b : Callback) (i : Inv)
    → admit b i ≡ inr true
    → is_deepagent i.orchestrator ≡ true
    → truthy? i.external_job_id ≡ true
unfolding admit
admit_job b i h d = ground arith

pub find_row-id : (x : String) (rows : List Inv) (i : Inv) → find_row x rows ≡ some i → i.id ≡ x
find_row-id x [] i h = cc
find_row-id x (j ∷ rows) i h = elim (Bool-cases (str_eq j.id x)) [
  | inl e ↦ ground (arith, eq_iff j.id x)
  | inr e ↦ ground (arith, find_row-id x rows i)
]

find_row-has_id :
    (x : String) (rows : List Inv) (i : Inv) → find_row x rows ≡ some i → has_id x rows ≡ true
find_row-has_id x [] i h = cc
find_row-has_id x (j ∷ rows) i h = ground (arith, find_row-has_id x rows i)

-- The row that a stored callback leaves is found, and the same callback is a repetition there.
again :
    (now : ℕ) (x : String) (b : Callback) (s : Store) (i : Inv)
    → find_row x s.rows ≡ some i
    → admit b i ≡ inr true
    → let j = (store_callback now b i s.side).0 in
      (find_row x (put j s.rows) ≡ some j) × (admit b j ≡ inr false)
again now x b s i f h =
    let j = (store_callback now b i s.side).0 in
    let fin = stored_final now b i s.side in
    let open_ = admit_new b i h in
    let same : j.id ≡ x = fin.3 ∙ find_row-id x s.rows i f in
    (
      subst (λ y. find_row y (put j s.rows) ≡ some j) same
          (find_row-put_self j s.rows
            (subst (λ y. has_id y s.rows ≡ true) (sym same) (find_row-has_id x s.rows i f))),
      admit_again b j (ap is_some fin.2 ∙ open_.0) open_.1
          (λ d. stored_job now b i s.side (admit_job b i h (sym (ap is_deepagent fin.2) ∙ d))) fin.0
          fin.1,
    )

-- A callback that was accepted may be sent again, at any later time: the answer is the same and
-- nothing changes, so the result is stored and the notices are sent once.
pub submit_twice :
    (now later : ℕ) (id : String) (b : Callback) (s : Store) (i : Inv)
    → (submit_external_result now id b s).0 ≡ inr i
    → submit_external_result later id b (submit_external_result now id b s).1
      ≡ (inr i, (submit_external_result now id b s).1)
unfolding submit_external_result
submit_twice now later id b s i h = elim (Option-cases (find_row id s.rows)) [
  | inl e ↦ ground arith
  | inr (j, e) ↦ by_guard j e (admit b j) refl
]
  where
    by_guard :
        (j : Inv)
        → find_row id s.rows ≡ some j
        → (r : Refusal ⊎ Bool) → admit b j ≡ r
        → submit_external_result later id b (submit_external_result now id b s).1
          ≡ (inr i, (submit_external_result now id b s).1)
    by_guard j e (inl x) g = ground arith
    by_guard j e (inr false) g = ground arith
    by_guard j e (inr true) g = ground (arith, again now id b s j e g)

-- A final row refuses every callback whose key is not the stored one, and nothing changes.
submit_late :
    (now : ℕ) (id : String) (b : Callback) (s : Store) (i : Inv)
    → find_row id s.rows ≡ some i
    → is_final i.status ≡ true
    → b.idempotency_key ≢ i.callback_key
    → submit_external_result now id b s ≡ (inl conflict, s)
unfolding submit_external_result admit
submit_late now id b s i f h ne = ground (arith, text_eq?→eq b.idempotency_key i.callback_key)

-- ===== src/Agent/Reach.antt =====
-- The invariant of the service holds in every state that it can reach.
use Prim.Native.String.{◌++◌ as text_append}
use it_asset_inventory.Agent.Jobs.{
  create_investigation, is_active, is_for, is_job, new_job, is_running, can_start, started, start,
  ended, finish, can_leave, left_at, leave, Job,
}
use it_asset_inventory.Agent.Slots.{
  begin, Reachable, create, stop, empty, next, holding, IsDistinct, is_proper, Invariant,
  distinct-count, count-can_start, update-IsDistinct, holding-started, holding-kept, quit,
}
use it_asset_inventory.Base.{
  ℕ, ◌+◌, ◌≤◌, ◌<◌, String, ◌≡◌, refl, sym, ap, ◌∙◌, inl, inr, Bool, true, false, not, ◌||◌, Option,
  none, some, List, [], ◌∷◌, ◌++◌, arith, eq_iff, ltb, Bool-cases, Option-cases, str_eq, count,
  find?, any, all, any-append, all-append, all-update,
}
use text.Mathlib.TextLemmas.{append_cancel_left}
use text.Mathlib.TextPositions.{eq_refl}

holding-append : (xs ys : List Job) → holding (xs ++ ys) ≡ holding xs + holding ys
holding-append [] ys = omega arith
holding-append (x ∷ xs) ys = ground (arith, holding-append xs ys)

IsDistinct-append :
    (jobs : List Job) (j : Job)
    → any (is_job j.job_id) jobs ≡ false
    → IsDistinct jobs
    → IsDistinct (jobs ++ j ∷ [])
IsDistinct-append [] j n d = (refl, tt)
IsDistinct-append (x ∷ jobs) j n (m, d) =
    let away : is_job x.job_id j ≡ false =
      let n' : is_job j.job_id x ≡ false = ground arith in
      ground (arith, eq_iff j.job_id x.job_id, eq_iff x.job_id j.job_id) in
    (
      ground (arith, any-append (is_job x.job_id) jobs (j ∷ [])),
      IsDistinct-append jobs j (ground arith) d,
    )

-- A service without a job for an investigation has none with the key of one.
no_key :
    (i : String) (jobs : List Job)
    → find? (is_for i) jobs ≡ none
    → all is_proper jobs ≡ true
    → any (is_job (text_append "deepagent-" i)) jobs ≡ false
no_key i [] n a = refl
no_key i (j ∷ jobs) n a = elim (Bool-cases (is_for i j)) [
  | inl h ↦ let n' = rw h at n in cc
  | inr h ↦
      let rest = no_key i jobs (rw h at n) (ground arith) in
      let named : j.job_id ≡ text_append "deepagent-" j.investigation_id =
        (eq_iff _ _).0 (ground arith) in
      elim (Bool-cases (is_job (text_append "deepagent-" i) j)) [
        | inr k ↦ rw k rest
        | inl k ↦
            let same : text_append "deepagent-" j.investigation_id ≡ text_append "deepagent-" i =
              sym named ∙ (eq_iff _ _).0 k in
            let equal : j.investigation_id ≡ i = append_cancel_left "deepagent-" _ _ same in
            let h' = (eq_iff j.investigation_id i).1 equal in cc
      ]
]

create-Invariant :
    (places : ℕ) (i : String) (jobs : List Job)
    → Invariant places jobs
    → Invariant places (create_investigation i jobs).1
unfolding create_investigation
create-Invariant places i jobs (l, d, a) = elim (Option-cases (find? (is_for i) jobs)) [
  | inr (j, n) ↦ rw (n, create_investigation) (l, d, a)
  | inl n ↦
      let own : str_eq (new_job i).job_id (text_append "deepagent-" i) ≡ true = eq_refl _ in
      rw (n, create_investigation)
        (
          omega (arith, l, holding-append jobs (new_job i ∷ [])),
          IsDistinct-append jobs (new_job i) (no_key i jobs n a) d,
          ground (arith, all-append is_proper jobs (new_job i ∷ [])),
        )
]

start-Invariant :
    (places : ℕ) (k : String) (jobs : List Job)
    → Invariant places jobs
    → Invariant places (start places k jobs)
unfolding start
start-Invariant places k jobs (l, d, a) = elim (Bool-cases (ltb (holding jobs) places)) [
  | inr h ↦ rw (h, start) (l, d, a)
  | inl h ↦
      let room : holding jobs < places = ground arith in
      let at_most : count (can_start k) jobs ≤ 1 =
        omega (arith, distinct-count k jobs d, count-can_start k jobs) in
      rw (h, start)
        (
          omega (arith, room, at_most, holding-started k jobs),
          update-IsDistinct (can_start k) started jobs (λ j. refl) d,
          all-update is_proper (can_start k) started jobs (λ j c q. ground arith) a,
        )
]

finish-Invariant :
    (places : ℕ) (k : String) (outcome : Option String) (jobs : List Job)
    → Invariant places jobs
    → Invariant places (finish k outcome jobs)
unfolding finish
finish-Invariant places k outcome jobs (l, d, a) = (
  omega (arith, l, holding-kept (is_active k) (ended outcome) jobs (keeps outcome)),
  update-IsDistinct (is_active k) (ended outcome) jobs (keeps_id outcome) d,
  all-update is_proper (is_active k) (ended outcome) jobs (keeps_proper outcome) a,
)
  where
    keeps : (o : Option String) (j : Job) → not (ended o j).holds || j.holds ≡ true
    keeps none j = ground arith
    keeps (some e) j = ground arith

    keeps_id : (o : Option String) (j : Job) → (ended o j).job_id ≡ j.job_id
    keeps_id none j = refl
    keeps_id (some e) j = refl

    keeps_proper :
        (o : Option String) (j : Job)
        → is_active k j ≡ true
        → is_proper j ≡ true
        → is_proper (ended o j) ≡ true
    keeps_proper none j c q = ground arith
    keeps_proper (some e) j c q = ground arith

leave-Invariant :
    (places : ℕ) (k : String) (now : ℕ) (jobs : List Job)
    → Invariant places jobs
    → Invariant places (leave k now jobs)
unfolding leave
leave-Invariant places k now jobs (l, d, a) = (
  omega (arith, l, holding-kept (can_leave k) (left_at now) jobs (λ j. refl)),
  update-IsDistinct (can_leave k) (left_at now) jobs (λ j. refl) d,
  all-update is_proper (can_leave k) (left_at now) jobs (λ j c q. ground arith) a,
)

Reachable-Invariant : (places : ℕ) (jobs : List Job) → Reachable places jobs → Invariant places jobs
Reachable-Invariant places _ empty = (omega arith, tt, refl)
Reachable-Invariant places _ (next r (create i jobs)) =
    create-Invariant places i jobs (Reachable-Invariant places jobs r)
Reachable-Invariant places _ (next r (begin k jobs)) =
    start-Invariant places k jobs (Reachable-Invariant places jobs r)
Reachable-Invariant places _ (next r (stop k outcome jobs)) =
    finish-Invariant places k outcome jobs (Reachable-Invariant places jobs r)
Reachable-Invariant places _ (next r (quit k now jobs)) =
    leave-Invariant places k now jobs (Reachable-Invariant places jobs r)

count_mono :
    (p q r : Job → Bool) (jobs : List Job)
    → ((j : Job) → r j ≡ true → not (p j) || q j ≡ true)
    → all r jobs ≡ true
    → count p jobs ≤ count q jobs
count_mono p q r [] w a = omega arith
count_mono p q r (j ∷ jobs) w a = ground (arith, count_mono p q r jobs w, w j)

-- In every state that requests and the steps of jobs lead to, in any order, an investigation has at most one job,
-- and no more jobs are running than the semaphore has places.
pub Reachable-Bounded :
    (places : ℕ) (jobs : List Job) (i : String)
    → Reachable places jobs
    → (count (is_for i) jobs ≤ 1) × (count (λ j. is_running j.status) jobs ≤ places)
Reachable-Bounded places jobs i r =
    let (l, d, a) = Reachable-Invariant places jobs r in
    let key = text_append "deepagent-" i in
    (
      omega (
        arith,
        distinct-count key jobs d,
        count_mono (is_for i) (is_job key) is_proper jobs (λ j q. named j q) a,
      ),
      omega (
        arith,
        l,
        count_mono (λ j. is_running j.status) (λ j. j.holds) is_proper jobs (λ j q. ground arith) a,
      ),
    )
  where
    named :
        (j : Job)
        → is_proper j ≡ true
        → not (is_for i j) || is_job (text_append "deepagent-" i) j ≡ true
    named j q = elim (Bool-cases (is_for i j)) [
      | inr h ↦ rw h refl
      | inl h ↦
          let equal : j.investigation_id ≡ i = (eq_iff _ _).0 h in
          let key : j.job_id ≡ text_append "deepagent-" j.investigation_id =
            (eq_iff _ _).0 (ground arith) in
          let its : is_job (text_append "deepagent-" i) j ≡ true =
            (eq_iff _ _).1 (key ∙ ap (text_append "deepagent-") equal) in
          ground arith
    ]

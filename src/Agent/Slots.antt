-- ===== src/Agent/Slots.antt =====
-- Every state of the service: a job per investigation, and no more jobs at work than places.
use Prim.Native.String.{◌++◌ as text_append}
use it_asset_inventory.Agent.Jobs.{
  create_investigation, is_job, is_running, can_start, started, start, finish, leave, Job,
}
use it_asset_inventory.Base.{
  ℕ, ◌+◌, ◌≤◌, String, ◌≡◌, refl, ◌∙◌, subst, inl, inr, Bool, true, false, not, ◌&&◌, ◌||◌, Option,
  List, [], ◌∷◌, arith, eq_iff, Bool-cases, str_eq, count, any, all, update,
}

-- One step: a request, or a job that gets a place, ends or leaves, in any order.
pub data Step (places : ℕ) : List Job → List Job → Type 0 where
  create : (i : String) (jobs : List Job) → Step places jobs (create_investigation i jobs).1
  begin : (k : String) (jobs : List Job) → Step places jobs (start places k jobs)
  stop :
      (k : String) (outcome : Option String) (jobs : List Job)
      → Step places jobs (finish k outcome jobs)
  quit : (k : String) (now : ℕ) (jobs : List Job) → Step places jobs (leave k now jobs)

-- The states that steps lead to from a service without jobs.
pub data Reachable (places : ℕ) : List Job → Type 0 where
  empty : Reachable places []
  next : {s t : List Job} → Reachable places s → Step places s t → Reachable places t

abbrev pub holding : List Job → ℕ
holding jobs = count (λ j. j.holds) jobs

abbrev pub IsDistinct : List Job → Type 0
IsDistinct [] = Unit
IsDistinct (j ∷ jobs) = (any (is_job j.job_id) jobs ≡ false) × IsDistinct jobs

-- The job is named after its investigation, and has a place if it is running.
abbrev pub is_proper : Job → Bool
is_proper j =
    str_eq j.job_id (text_append "deepagent-" j.investigation_id)
    && (not (is_running j.status) || j.holds)

abbrev pub Invariant : ℕ → List Job → Type 0
Invariant places jobs = (holding jobs ≤ places) × IsDistinct jobs × (all is_proper jobs ≡ true)

pub any-count : (p : Job → Bool) (jobs : List Job) → any p jobs ≡ false → count p jobs ≡ 0
any-count p [] h = omega arith
any-count p (j ∷ jobs) h = ground (arith, any-count p jobs)

pub distinct-count : (k : String) (jobs : List Job) → IsDistinct jobs → count (is_job k) jobs ≤ 1
distinct-count k [] d = omega arith
distinct-count k (j ∷ jobs) (n, d) = elim (Bool-cases (is_job k j)) [
  | inr h ↦ rw h (omega (arith, distinct-count k jobs d))
  | inl h ↦
      let same : j.job_id ≡ k = (eq_iff j.job_id k).0 h in
      let n' : any (is_job k) jobs ≡ false = subst (λ x. any (is_job x) jobs ≡ false) same n in
      rw h (omega (arith, any-count (is_job k) jobs n'))
]

pub count-can_start :
    (k : String) (jobs : List Job) → count (can_start k) jobs ≤ count (is_job k) jobs
count-can_start k [] = omega arith
count-can_start k (j ∷ jobs) = ground (arith, count-can_start k jobs)

-- A change that keeps the keys of jobs.
any-update :
    (k : String) (p : Job → Bool) (f : Job → Job) (jobs : List Job)
    → ((j : Job) → (f j).job_id ≡ j.job_id)
    → any (is_job k) (update p f jobs) ≡ any (is_job k) jobs
any-update k p f [] keep = refl
any-update k p f (j ∷ jobs) keep = elim (Bool-cases (p j)) [
  | inl h ↦ rw (h, any-update k p f jobs keep, keep j) refl
  | inr h ↦ rw (h, any-update k p f jobs keep) refl
]

pub update-IsDistinct :
    (p : Job → Bool) (f : Job → Job) (jobs : List Job)
    → ((j : Job) → (f j).job_id ≡ j.job_id)
    → IsDistinct jobs
    → IsDistinct (update p f jobs)
update-IsDistinct p f [] keep d = tt
update-IsDistinct p f (j ∷ jobs) keep (n, d) = elim (Bool-cases (p j)) [
  | inl h ↦
      rw (h, keep j) (any-update j.job_id p f jobs keep ∙ n, update-IsDistinct p f jobs keep d)
  | inr h ↦ rw h (any-update j.job_id p f jobs keep ∙ n, update-IsDistinct p f jobs keep d)
]

pub holding-started :
    (k : String) (jobs : List Job)
    → holding (update (can_start k) started jobs) ≤ holding jobs + count (can_start k) jobs
holding-started k [] = omega arith
holding-started k (j ∷ jobs) = ground (arith, holding-started k jobs)

pub holding-kept :
    (p : Job → Bool) (f : Job → Job) (jobs : List Job)
    → ((j : Job) → not (f j).holds || j.holds ≡ true)
    → holding (update p f jobs) ≤ holding jobs
holding-kept p f [] keep = omega arith
holding-kept p f (j ∷ jobs) keep = ground (arith, holding-kept p f jobs keep, keep j)

-- ===== src/Agent/Jobs.antt =====
-- The jobs of the service (deepagent/deepagent/api.py): one per investigation, and as many at a time as the
-- semaphore has places. What a job does is its outcome.
use Prim.Native.String.{◌++◌ as text_append}
use it_asset_inventory.Base.{
  ℕ, String, Bool, true, false, not, ◌&&◌, Option, none, some, List, [], ◌∷◌, ◌++◌, ltb,
  if◌then◌else◌, str_eq, count, find?, update,
}

pub data JobState : Type 0 where
  queued running completed failed : JobState

-- A job, and whether it has a place of the semaphore.
pub record Job : Type 0 where
  pub job_id : String
  pub investigation_id : String
  pub status : JobState
  pub error : Option String
  pub completed_at : Option ℕ
  pub holds : Bool

abbrev pub is_for : String → Job → Bool
is_for i j = str_eq j.investigation_id i

abbrev pub is_job : String → Job → Bool
is_job k j = str_eq j.job_id k

abbrev pub new_job : String → Job
new_job i = record {
  job_id = text_append "deepagent-" i;
  investigation_id = i;
  status = queued;
  error = none;
  completed_at = none;
  holds = false;
}

-- `create_investigation`.
unfoldable pub create_investigation : String → List Job → Job × List Job
create_investigation i jobs = elim (find? (is_for i) jobs) [
  | some job ↦ (job, jobs)
  | none ↦ (new_job i, jobs ++ new_job i ∷ [])
]

-- `get_job`.
unfoldable pub get_job : String → List Job → Option Job
get_job k jobs = find? (is_job k) jobs

abbrev pub is_queued : JobState → Bool
is_queued queued = true
is_queued running = false
is_queued completed = false
is_queued failed = false

abbrev pub is_running : JobState → Bool
is_running running = true
is_running queued = false
is_running completed = false
is_running failed = false

abbrev pub can_start : String → Job → Bool
can_start k j = is_job k j && is_queued j.status && not j.holds

abbrev pub started : Job → Job
started j = record j { status = running; holds = true }

-- `async with _semaphore`, and the status that follows: a job waits while every place is taken.
unfoldable pub start : ℕ → String → List Job → List Job
start places k jobs =
    if ltb (count (λ j. j.holds) jobs) places then update (can_start k) started jobs else jobs

-- The outcome of the runner: `none`, or the exception's text.
abbrev pub ended : Option String → Job → Job
ended none j = record j { status = completed }
ended (some e) j = record j { status = failed; error = some e }

abbrev pub is_active : String → Job → Bool
is_active k j = is_job k j && is_running j.status

unfoldable pub finish : String → Option String → List Job → List Job
finish k outcome jobs = update (is_active k) (ended outcome) jobs

-- The `finally` block and the end of the `with` block, after the runner has ended.
abbrev pub can_leave : String → Job → Bool
can_leave k j = is_job k j && j.holds && not (is_running j.status)

abbrev pub left_at : ℕ → Job → Job
left_at now j = record j { completed_at = some now; holds = false }

unfoldable pub leave : String → ℕ → List Job → List Job
leave k now jobs = update (can_leave k) (left_at now) jobs

-- ===== src/Jobs.antt =====
-- The durable work queue of source processing:
-- backend/app/modules/ingestion/infrastructure/pg_jobs.py (the row), pg_executor.py (enqueue,
-- claim, fenced update, lease renewal, execution of a claim) and pg_recovery.py (reconciliation).
-- A statement that the program sends to PostgreSQL is a function on the table of rows, at the
-- instant `now` (in seconds) at which it runs; the table has the row locks of its transactions.
pub mod Execution
pub mod Recovery
pub mod Rows
pub mod Choice
pub mod Steps
pub mod Budget
pub mod Fence
pub mod Claiming
pub mod Outcomes
pub mod Reconcile
mod Tests
use maeglagi.Base.{
  ℕ, zero, ◌+◌, ◌*◌, ◌^◌, min, Bool, true, false, not, ◌&&◌, ◌||◌, Option, none, some, List, [],
  ◌∷◌, ◌++◌, ltb, leb, ◌==◌, option_eq, nat_eq, if◌then◌else◌, select,
}
use maeglagi.Base.Rows.{find, update}
use maeglagi.Base.Text.{Text}
use maeglagi.States.{ProcessingStage}

pub data JobStatus : Type 0 where
  pending running completed failed cancelled : JobStatus

pub record Job : Type 0 where
  pub source_id : ℕ
  pub status : JobStatus
  pub stage : ProcessingStage
  pub provider_attempts : ℕ
  pub claim_generation : ℕ
  pub lease_owner : Option ℕ
  pub lease_expires_at : Option ℕ
  pub next_run_at : ℕ
  pub last_error : Option Text
  pub created_at : ℕ
  pub updated_at : ℕ

abbrev pub job_key : Job → ℕ
job_key job = job.source_id

abbrev pub is_running : JobStatus → Bool
is_running JobStatus.running = true
is_running _ = false

abbrev pub is_pending : JobStatus → Bool
is_pending JobStatus.pending = true
is_pending _ = false

-- `status IN ('completed', 'failed', 'cancelled')`
abbrev pub is_final : JobStatus → Bool
is_final JobStatus.pending = false
is_final JobStatus.running = false
is_final _ = true

-- A comparison with a NULL timestamp selects no row.
abbrev pub expired : Option ℕ → ℕ → Bool
expired none now = false
expired (some t) now = leb t now

abbrev pub live : Option ℕ → ℕ → Bool
live none now = false
live (some t) now = ltb now t

pub new_job : ℕ → ProcessingStage → ℕ → Job
new_job source_id stage now = record {
  source_id = source_id;
  status = JobStatus.pending;
  stage = stage;
  provider_attempts = 0;
  claim_generation = 0;
  lease_owner = none;
  lease_expires_at = none;
  next_run_at = now;
  last_error = none;
  created_at = now;
  updated_at = now;
}

-- The `set_` of `on_conflict_do_update`, under its `where`.
pub rearm : ProcessingStage → Bool → ℕ → Job → Job
rearm stage supersede_existing now job =
    if is_final job.status || supersede_existing
    then record job {
      status = JobStatus.pending;
      stage = stage;
      provider_attempts = 0;
      claim_generation = job.claim_generation + 1;
      lease_owner = none;
      lease_expires_at = none;
      next_run_at = now;
      last_error = none;
      updated_at = now;
    }
    else job

pub enqueue_source : ℕ → ProcessingStage → Bool → ℕ → List Job → List Job
unfolding new_job rearm
enqueue_source source_id stage supersede_existing now jobs = elim (find job_key source_id jobs) [
  | none ↦ jobs ++ new_job source_id stage now ∷ []
  | some _ ↦ update job_key source_id (rearm stage supersede_existing now) jobs
]

-- The WHERE clause of the candidate.
pub claimable : ℕ → Job → Bool
claimable now job =
    (is_pending job.status && leb job.next_run_at now)
    || (is_running job.status && expired job.lease_expires_at now)

-- ORDER BY next_run_at, source_id
pub runs_before : Job → Job → Bool
runs_before a b =
    ltb a.next_run_at b.next_run_at
    || (a.next_run_at == b.next_run_at && leb a.source_id b.source_id)

-- The first row in that order: LIMIT 1.
pub first_candidate : List Job → Option Job
unfolding runs_before
first_candidate [] = none
first_candidate (job ∷ jobs) = elim (first_candidate jobs) [
  | none ↦ some job
  | some best ↦ some (if runs_before job best then job else best)
]

pub record Claim : Type 0 where
  pub source_id : ℕ
  pub generation : ℕ
  pub attempts : ℕ

pub take_lease : ℕ → ℕ → ℕ → Job → Job
take_lease owner lease_seconds now job = record job {
  status = JobStatus.running;
  lease_owner = some owner;
  lease_expires_at = some (now + lease_seconds);
  claim_generation = job.claim_generation + 1;
  updated_at = now;
}

-- `locked`: the rows that other transactions hold, which SKIP LOCKED passes over.
pub candidate : (ℕ → Bool) → ℕ → List Job → Option Job
unfolding claimable first_candidate
candidate locked now jobs =
    first_candidate (select (λ job. claimable now job && not (locked job.source_id)) jobs)

pub claim_job : ℕ → ℕ → (ℕ → Bool) → ℕ → List Job → Option Claim × List Job
unfolding candidate take_lease
claim_job owner lease_seconds locked now jobs = elim (candidate locked now jobs) [
  | none ↦ (none, jobs)
  | some job ↦ (
    some (record {
      source_id = job.source_id;
      generation = job.claim_generation + 1;
      attempts = job.provider_attempts;
    }),
    update job_key job.source_id (take_lease owner lease_seconds now) jobs,
  )
]

-- The WHERE clause of a fenced update, beside `source_id`.
pub holds_fence : ℕ → ℕ → ℕ → Job → Bool
holds_fence owner generation now job =
    is_running job.status
    && job.lease_owner == some owner
    && job.claim_generation == generation
    && live job.lease_expires_at now

pub fenced : ℕ → ℕ → ℕ → (Job → Job) → Job → Job
unfolding holds_fence
fenced owner generation now assignment job =
    if holds_fence owner generation now job
    then record (assignment job) { updated_at = now }
    else job

-- Whether one row was updated, and the table.
pub fenced_update : ℕ → ℕ → ℕ → (Job → Job) → ℕ → List Job → Bool × List Job
unfolding fenced
fenced_update source_id owner generation assignment now jobs = (
  elim (find job_key source_id jobs) [
    | none ↦ false
    | some job ↦ holds_fence owner generation now job
  ],
  update job_key source_id (fenced owner generation now assignment) jobs,
)

pub extend_lease : ℕ → ℕ → Job → Job
extend_lease seconds now job = record job { lease_expires_at = some (now + seconds) }

pub renew : ℕ → ℕ → ℕ → ℕ → ℕ → List Job → Bool × List Job
unfolding fenced_update extend_lease
renew source_id owner generation seconds now jobs =
    fenced_update source_id owner generation (extend_lease seconds now) now jobs

-- ===== src/Jobs/Execution.antt =====
-- `_execute_claim` of backend/app/modules/ingestion/infrastructure/pg_executor.py: what happens to
-- the row of a claim once its attempt has ended. The attempt itself, `process_source_attempt`, is
-- an argument: it is given the source and whether this is the final attempt.
use maeglagi.Base.{
  ℕ, ◌+◌, ◌*◌, ◌^◌, min, Bool, false, ◌&&◌, ◌||◌, Option, none, some, List, [], ◌∷◌, leb, ◌==◌,
  nat_eq, list_eq, if◌then◌else◌,
}
use maeglagi.Base.Text.{Text, codes}
use maeglagi.States.{SourceStatus, status_eq}
use maeglagi.Jobs.{Job, JobStatus, fenced_update}

-- The fields of `SafeAttemptError` that decide what follows.
pub record SafeError : Type 0 where
  pub code : Text
  pub terminal : Bool
  pub provider_failure : Bool
  pub http_status : Option ℕ

abbrev pub missing_credential : Text
missing_credential = codes "missing_capability_credential"

-- `http_status in {401, 403, 404}`
abbrev pub access_status : Option ℕ → Bool
access_status none = false
access_status (some s) = s == 401 || s == 403 || s == 404

unfoldable pub expected : SafeError → Bool
expected e = e.code == missing_credential || (e.provider_failure && access_status e.http_status)

-- How `process_source_attempt` ends: it returns no error or one, the database fails, or the task is
-- cancelled by a shutdown.
pub data Attempt : Type 0 where
  returned : Option SafeError → Attempt
  db_error cancelled : Attempt

-- What is logged: `_report_terminal_failure`, or the line for an expected configuration failure.
pub data Report : Type 0 where
  terminal_failure expected_stop : Report

unfoldable pub release : ℕ → Job → Job
release next_run_at job = record job {
  status = JobStatus.pending;
  lease_owner = none;
  lease_expires_at = none;
  next_run_at = next_run_at;
}

unfoldable pub complete : Job → Job
complete job = record job {
  status = JobStatus.completed;
  lease_owner = none;
  lease_expires_at = none;
  last_error = none;
}

-- The crash between the terminal source update and the job's completion: `last_error` is kept.
unfoldable pub fail_recovered : Job → Job
fail_recovered job = record job {
  status = JobStatus.failed;
  lease_owner = none;
  lease_expires_at = none;
  provider_attempts = job.provider_attempts + 1;
}

unfoldable pub fail : Text → Job → Job
unfolding fail_recovered
fail code job = record (fail_recovered job) { last_error = some code }

-- `min(300, 10 * 2**attempts)`
unfoldable pub retry_delay : ℕ → ℕ
retry_delay attempts = min 300 (10 * 2 ^ attempts)

unfoldable pub retry : ℕ → Text → ℕ → Job → Job
unfolding release retry_delay
retry attempts code now job = record (release (now + retry_delay attempts) job) {
  provider_attempts = job.provider_attempts + 1;
  last_error = some code;
}

abbrev pub source_failed : Option SourceStatus → Bool
source_failed none = false
source_failed (some s) = s == SourceStatus.failed

-- A report goes out only if the fenced update changed the row.
abbrev reported : Report → Bool × List Job → List Report × List Job
reported report (updated, jobs) = (if updated then report ∷ [] else [], jobs)

abbrev silent : Bool × List Job → List Report × List Job
silent (_, jobs) = ([], jobs)

-- `source_id`, `owner`, `generation` and `attempts` of the claim.
module _ (source_id owner generation attempts : ℕ) where
  -- After the attempt.
  unfoldable pub finish : Attempt → ℕ → List Job → List Report × List Job
  unfolding expected release complete fail retry
  finish db_error now jobs =
      silent (fenced_update source_id owner generation (release (now + 30)) now jobs)
  finish cancelled now jobs =
      silent (fenced_update source_id owner generation (release now) now jobs)
  finish (returned none) now jobs =
      silent (fenced_update source_id owner generation complete now jobs)
  finish (returned (some e)) now jobs =
      if leb 3 attempts || e.terminal
      then reported (if expected e then expected_stop else terminal_failure)
          (fenced_update source_id owner generation (fail e.code) now jobs)
      else silent (fenced_update source_id owner generation (retry attempts e.code now) now jobs)

  -- A source that is already FAILED after three attempts is not attempted again.
  unfoldable pub execute_claim :
      (ℕ → Option SourceStatus) → (ℕ → Bool → Attempt) → ℕ → List Job → List Report × List Job
  unfolding finish fail_recovered
  execute_claim status_of attempt now jobs =
      if leb 3 attempts && source_failed (status_of source_id)
      then reported terminal_failure
          (fenced_update source_id owner generation fail_recovered now jobs)
      else finish (attempt source_id (leb 3 attempts)) now jobs

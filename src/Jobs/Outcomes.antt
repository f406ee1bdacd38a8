-- ===== src/Jobs/Outcomes.antt =====
-- What an execution makes of the row that its claim still holds, and of the table at a start.
use maeglagi.Base.{
  ℕ, zero, suc, ◌+◌, ◌≡◌, refl, inl, inr, Bool, true, ◌||◌, none, some, List, [], ◌∷◌, arith,
  nat_eq, ==-refl, leb, if◌then◌else◌, Bool-cases,
}
use maeglagi.Base.Rows.{find, find-update}
use maeglagi.Jobs.{Job, JobStatus, job_key, holds_fence, fenced, fenced_update}
use maeglagi.Jobs.Execution.{
  SafeError, Attempt, Report, terminal_failure, expected_stop, returned, db_error, cancelled,
  finish, expected, release, complete, fail, retry,
}

-- The status, the attempts spent and the time of the next run.
pub record Verdict : Type 0 where
  pub status : JobStatus
  pub spent : ℕ
  pub next_run_at : ℕ

abbrev pub verdict : Job → Verdict
verdict job = record {
  status = job.status;
  spent = job.provider_attempts;
  next_run_at = job.next_run_at;
}

-- The policy: success completes the job; an infrastructure failure waits 30 seconds and a shutdown not
-- at all, and neither costs an attempt; a failure that a retry cannot mend, or the fourth, is final;
-- the first three wait 10, 20 and 40 seconds.
abbrev pub ladder : ℕ → Job → ℕ → Verdict
ladder zero job now = record { status = JobStatus.pending; spent = 1; next_run_at = now + 10 }
ladder (suc zero) job now = record { status = JobStatus.pending; spent = 2; next_run_at = now + 20 }
ladder (suc (suc zero)) job now = record {
  status = JobStatus.pending;
  spent = 3;
  next_run_at = now + 40;
}
ladder (suc (suc (suc n))) job now = record {
  status = JobStatus.failed;
  spent = n + 4;
  next_run_at = job.next_run_at;
}

abbrev pub policy : Attempt → Job → ℕ → Verdict
policy (returned none) job now = record {
  status = JobStatus.completed;
  spent = job.provider_attempts;
  next_run_at = job.next_run_at;
}
policy db_error job now = record {
  status = JobStatus.pending;
  spent = job.provider_attempts;
  next_run_at = now + 30;
}
policy cancelled job now = record {
  status = JobStatus.pending;
  spent = job.provider_attempts;
  next_run_at = now;
}
policy (returned (some e)) job now =
    if e.terminal
    then record {
      status = JobStatus.failed;
      spent = job.provider_attempts + 1;
      next_run_at = job.next_run_at;
    }
    else ladder job.provider_attempts job now

-- What is reported: a final failure, apart by whether the configuration explains it.
abbrev pub reports : Attempt → Job → List Report
reports (returned (some e)) job =
    if e.terminal || leb 3 job.provider_attempts
    then (if expected e then expected_stop else terminal_failure) ∷ []
    else []
reports _ job = []

after_failure : (n : ℕ) (e : SafeError) (now : ℕ) → Job → Job
after_failure n e now job =
    if leb 3 n || e.terminal then fail e.code job else retry n e.code now job

verdict-after_failure :
    (n : ℕ) (e : SafeError) (now : ℕ) (job : Job)
    → job.provider_attempts ≡ n
    → verdict (after_failure n e now job) ≡ policy (returned (some e)) job now
unfolding after_failure fail retry
verdict-after_failure zero e now job h = ground arith
verdict-after_failure (suc zero) e now job h = ground arith
verdict-after_failure (suc (suc zero)) e now job h = ground arith
verdict-after_failure (suc (suc (suc n))) e now job h = ground arith

module _ (owner : ℕ) (now : ℕ) (jobs : List Job) (job : Job)
    (found : find job_key job.source_id jobs ≡ some job)
    (holds : holds_fence owner job.claim_generation now job ≡ true) where
  abbrev written : (Job → Job) → Bool × List Job
  written write = fenced_update job.source_id owner job.claim_generation write now jobs

  fenced_source :
      (write : Job → Job)
      → ((j : Job) → (write j).source_id ≡ j.source_id)
      → (j : Job) → (fenced owner job.claim_generation now write j).source_id ≡ j.source_id
  unfolding fenced
  fenced_source write same j = ground (arith, same j)

  flag-written : (write : Job → Job) → (written write).0 ≡ true
  unfolding fenced_update
  flag-written write = ground (arith, found, holds)

  find-written :
      (write : Job → Job)
      → ((j : Job) → (write j).source_id ≡ j.source_id)
      → find job_key job.source_id (written write).1
        ≡ some (record (write job) { updated_at = now })
  unfolding fenced_update
  find-written write same =
      rw
        (
          find-update job_key (fenced owner job.claim_generation now write)
              (fenced_source write same) job.source_id job.source_id jobs,
          found,
          ==-refl job.source_id,
        )
        (rw (holds, fenced) refl)

  -- The claim's row after its attempt, and what is reported.
  abbrev pub Executed : Attempt → List Report × List Job → Type 0
  Executed a result =
      (after : Job) × (find job_key job.source_id result.1 ≡ some after)
      × (verdict after ≡ policy a job now)
      × (after.lease_owner ≡ none)
      × (after.claim_generation ≡ job.claim_generation)
      × (result.0 ≡ reports a job)

  -- While its fence holds, executing a claim leaves the row as the policy says, without a lease and in
  -- the same generation, and reports exactly the final failures.
  pub finish_lem :
      (a : Attempt)
      → Executed a
          (finish job.source_id owner job.claim_generation job.provider_attempts a now jobs)
  unfolding finish release complete fail retry after_failure
  finish_lem db_error = (_, find-written (release (now + 30)) (λ j. refl), refl, refl, refl, refl)
  finish_lem cancelled = (_, find-written (release now) (λ j. refl), refl, refl, refl, refl)
  finish_lem (returned none) = (_, find-written complete (λ j. refl), refl, refl, refl, refl)
  finish_lem (returned (some e)) =
      let v = verdict-after_failure job.provider_attempts e now job refl in
      elim (Bool-cases (leb 3 job.provider_attempts || e.terminal)) [
        | inl last ↦ rw last (
          _,
          find-written (fail e.code) (λ j. refl),
          rw (last, after_failure) at v,
          refl,
          refl,
          rw (flag-written (fail e.code)) (ground arith),
        )
        | inr again ↦ rw again (
          _,
          find-written (retry job.provider_attempts e.code now) (λ j. refl),
          rw (again, after_failure) at v,
          refl,
          refl,
          ground arith,
        )
      ]

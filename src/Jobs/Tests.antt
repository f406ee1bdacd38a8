-- ===== src/Jobs/Tests.antt =====
-- Runs of the queue, and each theorem at one of them.
use maeglagi.Base.{
  ℕ, ◌≡◌, ◌<◌, refl, Bool, true, false, Option, none, some, List, [], ◌∷◌, arith, All, count_if,
  ◌≤◌,
}
use maeglagi.Base.Rows.{find}
use maeglagi.Base.Text.{codes}
use maeglagi.States.{SourceStatus, ReviewState, ProcessingStage}
use maeglagi.Jobs.{Job, JobStatus, job_key, enqueue_source, claim_job, holds_fence, claimable}
use maeglagi.Jobs.Execution.{SafeError, Attempt, returned, finish, execute_claim}
use maeglagi.Jobs.Recovery.{SourceRow, recover_missing_jobs, stranded}
use maeglagi.Jobs.Steps.{
  Held, Queue, start, hand_out, Among, newest, older, wait, enqueue, claim, Reach, begin, next,
}
use maeglagi.Jobs.Budget.{IsValidQueue, Reach-IsValid}
use maeglagi.Jobs.Fence.{stale_claim_is_shut_out, claim_is_fresh, superseded_claim_is_shut_out}
use maeglagi.Jobs.Claiming.{eligible, Claimed, claim_job_lem, claims, claims-leave_none}
use maeglagi.Jobs.Outcomes.{Executed, finish_lem}
use maeglagi.Jobs.Reconcile.{HasRow, recover_missing_jobs_idem, find-recover_missing_jobs}

abbrev unlocked : ℕ → Bool
unlocked _ = false

-- A source is queued, claimed by executor 7 for a minute, and claimed by executor 8 after that.
abbrev queued : Queue
queued = record start { jobs = enqueue_source 1 ProcessingStage.uploaded false 0 [] }

abbrev claimed : Queue
claimed = record queued {
  jobs = (claim_job 7 60 unlocked 0 queued.jobs).1;
  held = hand_out 7 (claim_job 7 60 unlocked 0 queued.jobs).0 [];
}

abbrev late : Queue
late = record claimed { now = 61 }

abbrev reclaimed : Queue
reclaimed = record late {
  jobs = (claim_job 8 60 unlocked 61 late.jobs).1;
  held = hand_out 8 (claim_job 8 60 unlocked 61 late.jobs).0 late.held;
}

late-Reach : Reach late
late-Reach =
    next
      (next (next begin (enqueue start 1 ProcessingStage.uploaded false))
        (claim queued 7 60 unlocked))
      (wait claimed 61)

reclaimed-Reach : Reach reclaimed
reclaimed-Reach = next late-Reach (claim late 8 60 unlocked)

abbrev first_held : Held
first_held = record { owner = 7; claim = record { source_id = 1; generation = 1; attempts = 0 } }

abbrev second_held : Held
second_held = record { owner = 8; claim = record { source_id = 1; generation = 2; attempts = 0 } }

late-held : Among first_held late.held
unfolding enqueue_source claim_job
late-held = newest

reclaimed-first : Among first_held reclaimed.held
unfolding enqueue_source claim_job
reclaimed-first = older newest

reclaimed-second : Among second_held reclaimed.held
unfolding enqueue_source claim_job
reclaimed-second = newest

abbrev no_status : ℕ → Option SourceStatus
no_status _ = none

abbrev refused : SafeError
refused = record {
  code = codes "http_timeout";
  terminal = false;
  provider_failure = true;
  http_status = none;
}

abbrev refuse : ℕ → Bool → Attempt
refuse _ _ = returned (some refused)

Reach-IsValid_example : IsValidQueue reclaimed
Reach-IsValid_example = Reach-IsValid reclaimed-Reach

stale_claim_is_shut_out_example :
    execute_claim 1 7 1 0 no_status refuse 61 reclaimed.jobs ≡ ([], reclaimed.jobs)
stale_claim_is_shut_out_example =
    stale_claim_is_shut_out first_held second_held no_status refuse reclaimed-Reach reclaimed-first
      reclaimed-second refl (omega arith)

claim_late : (claim_job 8 60 unlocked 61 late.jobs).0 ≡ some second_held.claim
unfolding enqueue_source claim_job
claim_late = refl

claim_is_fresh_example : ◌<◌ 1 2
claim_is_fresh_example =
    claim_is_fresh first_held 8 60 unlocked second_held.claim late-Reach late-held claim_late refl

superseded_claim_is_shut_out_example :
    let jobs = enqueue_source 1 ProcessingStage.confirmed true 61 late.jobs in
    execute_claim 1 7 1 0 no_status refuse 62 jobs ≡ ([], jobs)
superseded_claim_is_shut_out_example =
    superseded_claim_is_shut_out first_held ProcessingStage.confirmed no_status refuse 62 late-Reach
      late-held

-- Three rows: one is due, one is leased, and the lease of one has run out.
abbrev idle : Job
idle = record {
  source_id = 4;
  status = JobStatus.pending;
  stage = ProcessingStage.uploaded;
  provider_attempts = 2;
  claim_generation = 5;
  lease_owner = none;
  lease_expires_at = none;
  next_run_at = 10;
  last_error = none;
  created_at = 0;
  updated_at = 0;
}

abbrev busy : Job
busy = record idle {
  source_id = 5;
  status = JobStatus.running;
  lease_owner = some 7;
  lease_expires_at = some 90;
}

abbrev lost : Job
lost = record busy { source_id = 6; lease_expires_at = some 40; next_run_at = 3 }

abbrev table : List Job
table = idle ∷ busy ∷ lost ∷ []

claim_job_lem_example : Claimed 8 60 unlocked 50 table (claim_job 8 60 unlocked 50 table)
claim_job_lem_example = claim_job_lem 8 60 unlocked 50 table (refl, (refl, (refl, tt)))

-- The row whose lease ran out is due first.
claim_table :
    (claim_job 8 60 unlocked 50 table).0
    ≡ some (record { source_id = 6; generation = 6; attempts = 2 })
unfolding claim_job
claim_table = refl

two_eligible : count_if (eligible unlocked 50) table ≤ 2
unfolding claimable
two_eligible = omega arith

claims-leave_none_example :
    All (λ j. eligible unlocked 50 j ≡ false) (claims 8 60 unlocked 50 2 table)
claims-leave_none_example =
    claims-leave_none 8 60 unlocked 50 2 table (omega arith) (refl, (refl, (refl, tt))) two_eligible

busy-holds : holds_fence 7 5 50 busy ≡ true
unfolding holds_fence
busy-holds = refl

-- The third failed attempt waits 40 seconds.
finish_lem_example :
    Executed 7 50 table busy refl busy-holds
      (returned (some refused))
      (finish 5 7 5 2 (returned (some refused)) 50 table)
finish_lem_example = finish_lem 7 50 table busy refl busy-holds (returned (some refused))

abbrev stored : List SourceRow
stored =
    record {
      id = 9;
      analysis_mode = codes "server";
      status = SourceStatus.processing;
      kind = codes "meeting";
      review_state = some ReviewState.confirmed;
      processing_stage = ProcessingStage.confirmed;
    }
    ∷ []

recover_stored : (recover_missing_jobs 50 stored table).0 ≡ 1
unfolding recover_missing_jobs stranded
recover_stored = refl

recover_missing_jobs_idem_example :
    let after = (recover_missing_jobs 50 stored table).1 in
    All (HasRow after) stored × (recover_missing_jobs 80 stored after ≡ (0, after))
recover_missing_jobs_idem_example = recover_missing_jobs_idem 50 80 stored table

find-recover_missing_jobs_example :
    find job_key 5 (recover_missing_jobs 50 stored table).1 ≡ some busy
find-recover_missing_jobs_example = find-recover_missing_jobs 50 stored 5 table refl

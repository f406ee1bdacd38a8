-- ===== src/Jobs/Rows.antt =====
-- What one row may look like, and what each write of the queue makes of it.
use maeglagi.Base.{ℕ, ◌≤◌, ◌<◌, ◌≡◌, refl, ◌≢◌, Bool, true, false, none, arith}
use maeglagi.Base.Text.{Text}
use maeglagi.States.{ProcessingStage}
use maeglagi.Jobs.{
  Job, Claim, is_final, is_running, new_job, rearm, claimable, take_lease, holds_fence, fenced,
  extend_lease,
}
use maeglagi.Jobs.Execution.{release, complete, fail_recovered, fail, retry}

-- The retry budget, and a lease exactly while the job runs.
pub record IsSound (job : Job) : Type 0 where
  pub budget : job.provider_attempts ≤ 4
  pub open_budget : is_final job.status ≡ false → job.provider_attempts ≤ 3
  pub leased :
      is_running job.status ≡ true → (job.lease_owner ≢ none) × (job.lease_expires_at ≢ none)
  pub unleased :
      is_running job.status ≡ false → (job.lease_owner ≡ none) × (job.lease_expires_at ≡ none)

-- What the row knows of a claim that was handed out: its generation is not older, and while the
-- claim is the current one the row has spent as many attempts as the claim says.
pub record Knows (claim : Claim) (job : Job) : Type 0 where
  pub newer : claim.generation ≤ job.claim_generation
  pub spent :
      is_running job.status ≡ true
      → claim.generation ≡ job.claim_generation
      → job.provider_attempts ≡ claim.attempts

pub new_job-IsSound : (s : ℕ) (stage : ProcessingStage) (now : ℕ) → IsSound (new_job s stage now)
unfolding new_job
new_job-IsSound s stage now = ground arith

module _ (stage : ProcessingStage) (b : Bool) (now : ℕ) (job : Job) where
  pub rearm-IsSound : IsSound job → IsSound (rearm stage b now job)
  unfolding rearm
  rearm-IsSound h = ground arith

  pub rearm-Knows : (c : Claim) → Knows c job → Knows c (rearm stage b now job)
  unfolding rearm
  rearm-Knows c h = ground arith

  pub rearm-source_id : (rearm stage b now job).source_id ≡ job.source_id
  unfolding rearm
  rearm-source_id = ground arith

module _ (owner seconds now : ℕ) (job : Job) where
  pub take_lease-IsSound :
      IsSound job → claimable now job ≡ true → IsSound (take_lease owner seconds now job)
  unfolding take_lease claimable
  take_lease-IsSound h e = ground arith

  pub take_lease-Knows : (c : Claim) → Knows c job → Knows c (take_lease owner seconds now job)
  unfolding take_lease
  take_lease-Knows c h = ground arith

-- A write that is only made behind the fence. `attempts` is the claim's.
pub record IsGuarded (attempts : ℕ) (write : Job → Job) : Type 0 where
  pub same_source : (job : Job) → (write job).source_id ≡ job.source_id
  pub same_generation : (job : Job) → (write job).claim_generation ≡ job.claim_generation
  pub sound :
      (job : Job)
      → IsSound job
      → is_running job.status ≡ true
      → job.provider_attempts ≡ attempts
      → IsSound (write job)
  pub same_attempts :
      (job : Job)
      → is_running (write job).status ≡ true
      → (write job).provider_attempts ≡ job.provider_attempts

module _ (attempts : ℕ) where
  pub release-IsGuarded : (at : ℕ) → IsGuarded attempts (release at)
  unfolding release
  release-IsGuarded at = record {
    same_source = λ job. refl;
    same_generation = λ job. refl;
    sound = λ job h r e. ground arith;
    same_attempts = λ job e. refl;
  }

  pub complete-IsGuarded : IsGuarded attempts complete
  unfolding complete
  complete-IsGuarded = record {
    same_source = λ job. refl;
    same_generation = λ job. refl;
    sound = λ job h r e. ground arith;
    same_attempts = λ job e. refl;
  }

  pub fail_recovered-IsGuarded : IsGuarded attempts fail_recovered
  unfolding fail_recovered
  fail_recovered-IsGuarded = record {
    same_source = λ job. refl;
    same_generation = λ job. refl;
    sound = λ job h r e. ground arith;
    same_attempts = λ job e. cc;
  }

  pub fail-IsGuarded : (code : Text) → IsGuarded attempts (fail code)
  unfolding fail
  fail-IsGuarded code = record {
    same_source = λ job. refl;
    same_generation = λ job. refl;
    sound = λ job h r e. ground arith;
    same_attempts = λ job e. cc;
  }

  -- The attempt that is counted must not be the last.
  pub retry-IsGuarded :
      (code : Text) (now : ℕ) → attempts < 3 → IsGuarded attempts (retry attempts code now)
  unfolding retry
  retry-IsGuarded code now lt = record {
    same_source = λ job. refl;
    same_generation = λ job. refl;
    sound = λ job h r e. ground arith;
    same_attempts = λ job e. cc;
  }

  pub extend_lease-IsGuarded : (seconds now : ℕ) → IsGuarded attempts (extend_lease seconds now)
  unfolding extend_lease
  extend_lease-IsGuarded seconds now = record {
    same_source = λ job. refl;
    same_generation = λ job. refl;
    sound = λ job h r e. ground arith;
    same_attempts = λ job e. refl;
  }

module _ (owner now : ℕ) (claim : Claim) (write : Job → Job) (g : IsGuarded claim.attempts write)
    (job : Job) where
  pub fenced-source_id : (fenced owner claim.generation now write job).source_id ≡ job.source_id
  unfolding fenced
  fenced-source_id = ground (arith, g.same_source job)

  pub fenced-IsSound :
      Knows claim job → IsSound job → IsSound (fenced owner claim.generation now write job)
  unfolding fenced holds_fence
  fenced-IsSound k h = ground (arith, g.sound job h)

  pub fenced-Knows :
      (c : Claim) → Knows c job → Knows c (fenced owner claim.generation now write job)
  unfolding fenced holds_fence
  fenced-Knows c k = ground (arith, g.same_generation job, g.same_attempts job)

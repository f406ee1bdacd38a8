-- ===== src/Jobs/Claiming.antt =====
-- `claim_job`: which row it takes, what it changes, and that no row that may run is left behind.
use maeglagi.Base.{
  ℕ, zero, suc, ◌+◌, ◌≤◌, ◌<◌, ◌≡◌, refl, subst, inl, inr, Bool, true, false, not, ◌&&◌, Option,
  none, some, List, [], ◌∷◌, map, arith, nat_beq, nat_eq, if◌then◌else◌, All, count_if,
  count_if-zero, count_if_of_none, Distinct, select, Option-cases,
}
use maeglagi.Base.Rows.{find, find-update, keys-update, count_if-update}
use maeglagi.Jobs.{
  Job, Claim, job_key, claimable, first_candidate, candidate, take_lease, claim_job,
}
use maeglagi.Jobs.Choice.{
  candidate_lem, RunsFirst, first_candidate-runs_before, first_candidate-ne-none,
}

-- The rows that a claim may take.
abbrev pub eligible : (ℕ → Bool) → ℕ → Job → Bool
eligible locked now job = claimable now job && not (locked job.source_id)

module _ (owner seconds : ℕ) (locked : ℕ → Bool) (now : ℕ) (jobs : List Job) where
  -- What a claim did: it took the lease of an eligible row, the first of the eligible rows by its
  -- time and source, handed out that row's next generation, which the row then has, and its attempts,
  -- and changed no other row.
  pub record Took (c : Claim) (after : List Job) : Type 0 where
    pub job : Job
    pub found : find job_key c.source_id jobs ≡ some job
    pub free : eligible locked now job ≡ true
    pub first : RunsFirst job (select (eligible locked now) jobs)
    pub next_generation : c.generation ≡ job.claim_generation + 1
    pub row_agrees : (take_lease owner seconds now job).claim_generation ≡ c.generation
    pub attempts : c.attempts ≡ job.provider_attempts
    pub rows :
        (s : ℕ)
        → find job_key s after ≡ (
            if nat_beq c.source_id s
            then some (take_lease owner seconds now job)
            else find job_key s jobs)

  abbrev pub Claimed : Option Claim × List Job → Type 0
  Claimed (none, after) = (after ≡ jobs) × All (λ j. eligible locked now j ≡ false) jobs
  Claimed (some c, after) = Took c after

  take_lease-source_id : (job : Job) → (take_lease owner seconds now job).source_id ≡ job.source_id
  unfolding take_lease
  take_lease-source_id job = refl

  no_candidate :
      (l : List Job)
      → select (eligible locked now) l ≡ []
      → All (λ j. eligible locked now j ≡ false) l
  no_candidate [] e = tt
  no_candidate (j ∷ l) e = (ground arith, no_candidate l (ground arith))

  candidate-none : candidate locked now jobs ≡ none → select (eligible locked now) jobs ≡ []
  unfolding candidate
  candidate-none e = go (select (eligible locked now) jobs) refl
    where
      go :
          (l : List Job)
          → select (eligible locked now) jobs ≡ l
          → select (eligible locked now) jobs ≡ []
      go [] p = p
      go (j ∷ l) p =
          absurd (first_candidate-ne-none j l (subst (λ l. first_candidate l ≡ none) p e))

  -- In a table with one row for each source, a claim that returns nothing has changed nothing and
  -- found no eligible row; one that returns a claim has taken the lease of the eligible row that is
  -- due first, with a new generation, and left the other rows alone.
  pub claim_job_lem :
      Distinct (map job_key jobs) → Claimed (claim_job owner seconds locked now jobs)
  unfolding claim_job take_lease
  claim_job_lem d = elim (Option-cases (candidate locked now jobs)) [
    | inl e ↦ rw (e, claim_job) (refl, no_candidate jobs (candidate-none e))
    | inr (job, e) ↦
        let (found, free, unlocked) = candidate_lem locked now jobs d e in
        rw (e, claim_job)
          (record {
            job = job;
            found = found;
            free = ground arith;
            first =
                unfold candidate in
                first_candidate-runs_before (select (eligible locked now) jobs) e;
            next_generation = refl;
            row_agrees = refl;
            attempts = refl;
            rows = λ s. ground (
              arith,
              find-update job_key (take_lease owner seconds now) take_lease-source_id job.source_id
                  s jobs,
            );
          })
  ]

-- Executors that claim one after another at one instant: the table after `n` claims.
module _ (owner seconds : ℕ) (locked : ℕ → Bool) (now : ℕ) where
  pub claims : ℕ → List Job → List Job
  claims zero jobs = jobs
  claims (suc n) jobs = claims n (claim_job owner seconds locked now jobs).1

  taken_is_busy :
      (job : Job) → 0 < seconds → eligible locked now (take_lease owner seconds now job) ≡ false
  unfolding take_lease claimable
  taken_is_busy job h = ground arith

  keyed-claim_job :
      (jobs : List Job) → map job_key (claim_job owner seconds locked now jobs).1 ≡ map job_key jobs
  unfolding claim_job
  keyed-claim_job jobs = elim (Option-cases (candidate locked now jobs)) [
    | inl e ↦ rw (e, claim_job) refl
    | inr (job, e) ↦
        rw (e, claim_job)
          (keys-update job_key job.source_id (take_lease owner seconds now) jobs
            (take_lease-source_id owner seconds locked now jobs))
  ]

  -- A claim takes one row off the eligible ones, as long as there is one.
  count_if-claim_job :
      (jobs : List Job) (n : ℕ)
      → 0 < seconds
      → Distinct (map job_key jobs)
      → count_if (eligible locked now) jobs ≤ suc n
      → count_if (eligible locked now) (claim_job owner seconds locked now jobs).1 ≤ n
  unfolding claim_job
  count_if-claim_job jobs n pos d h = elim (Option-cases (candidate locked now jobs)) [
    | inl e ↦
        rw (e, claim_job)
          (omega (
            arith,
            count_if_of_none (eligible locked now) jobs (
                no_candidate owner seconds locked now jobs jobs
                  (candidate-none owner seconds locked now jobs e)),
          ))
    | inr (job, e) ↦
        let (found, free, unlocked) = candidate_lem locked now jobs d e in
        rw (e, claim_job)
          (omega (
            arith,
            count_if-update job_key (eligible locked now) job.source_id
                (take_lease owner seconds now) jobs d found (ground arith) (taken_is_busy job pos),
          ))
  ]

  -- After as many claims as there are eligible rows, no eligible row is left: every row that is due,
  -- or whose lease has run out, is claimed.
  pub claims-leave_none :
      (n : ℕ) (jobs : List Job)
      → 0 < seconds
      → Distinct (map job_key jobs)
      → count_if (eligible locked now) jobs ≤ n
      → All (λ j. eligible locked now j ≡ false) (claims n jobs)
  unfolding claims
  claims-leave_none zero jobs pos d h = count_if-zero (eligible locked now) jobs (omega arith)
  claims-leave_none (suc n) jobs pos d h =
      claims-leave_none n (claim_job owner seconds locked now jobs).1 pos
        (rw (keyed-claim_job jobs) d) (count_if-claim_job jobs n pos d h)

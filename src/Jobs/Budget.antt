-- ===== src/Jobs/Budget.antt =====
-- The retry budget and the fence hold in every reachable queue.
use mathlib.Core.List.{map-append}
use maeglagi.Base.{
  ℕ, ◌+◌, ◌≡◌, refl, subst, inl, inr, Bool, true, ◌&&◌, Option, none, some, List, [], ◌∷◌, ◌++◌,
  map, arith, nat_beq, nat_eq, leb, All, All-append, Distinct, Distinct-append_new, if_ind, ==-refl,
  ◌||◌, Bool-cases, Option-cases,
}
use maeglagi.Base.Rows.{
  find, update, find-append_new, find-update, keys-update, contains-keys_of_none, All-update_found,
}
use maeglagi.States.{SourceStatus, ProcessingStage}
use maeglagi.Jobs.{
  Job, Claim, job_key, new_job, rearm, enqueue_source, claimable, candidate, take_lease, claim_job,
  fenced_update, extend_lease, renew,
}
use maeglagi.Jobs.Execution.{
  Attempt, Report, returned, db_error, cancelled, finish, execute_claim, source_failed,
}
use maeglagi.Jobs.Recovery.{SourceRow, recover_missing_jobs, stranded, absent}
use maeglagi.Jobs.Rows.{
  IsSound, Knows, IsGuarded, new_job-IsSound, rearm-IsSound, rearm-Knows, rearm-source_id,
  take_lease-IsSound, take_lease-Knows, release-IsGuarded, complete-IsGuarded,
  fail_recovered-IsGuarded, fail-IsGuarded, retry-IsGuarded, extend_lease-IsGuarded,
  fenced-source_id, fenced-IsSound, fenced-Knows,
}
use maeglagi.Jobs.Choice.{candidate_lem}
use maeglagi.Jobs.Steps.{
  Held, Queue, hand_out, Among, Among-cons, Step, wait, enqueue, claim, beat, execute, recover,
  Reach, begin, next,
}

-- One row for each source, every row sound, and every claim known to its row.
pub record IsValid (jobs : List Job) (held : List Held) : Type 0 where
  pub keyed : Distinct (map job_key jobs)
  pub sound : All IsSound jobs
  pub known :
      (h : Held)
      → Among h held
      → (job : Job) × (find job_key h.claim.source_id jobs ≡ some job) × Knows h.claim job

module _ {jobs : List Job} {held : List Held} (v : IsValid jobs held) where
  -- A new row for a source that has none.
  append_new-IsValid :
      (s : ℕ) (stage : ProcessingStage) (now : ℕ)
      → find job_key s jobs ≡ none
      → IsValid (jobs ++ new_job s stage now ∷ []) held
  append_new-IsValid s stage now e = record {
    keyed = rw map-append (
        unfold new_job in
        Distinct-append_new s (map job_key jobs) (contains-keys_of_none job_key s jobs e) v.keyed);
    sound = All-append IsSound jobs _ v.sound (new_job-IsSound s stage now, tt);
    known = λ h m.
        let (job, found, k) = v.known h m in
        (
          job,
          rw (find-append_new job_key h.claim.source_id jobs (new_job s stage now), found) refl,
          k,
        );
  }

  -- A write to one row, which keeps what the row knows of the claims.
  update-IsValid :
      (k : ℕ) (write : Job → Job)
      → ((job : Job) → (write job).source_id ≡ job.source_id)
      → ((job : Job) → find job_key k jobs ≡ some job → IsSound job → IsSound (write job))
      → ((job : Job) (c : Claim) → Knows c job → Knows c (write job))
      → IsValid (update job_key k write jobs) held
  update-IsValid k write same sound knows = record {
    keyed = rw (keys-update job_key k write jobs same) v.keyed;
    sound = All-update_found job_key IsSound k write jobs v.keyed sound v.sound;
    known = λ h m.
        let (job, found, kn) = v.known h m in
        elim (Bool-cases (nat_beq k h.claim.source_id)) [
          | inl e ↦ (
            write job,
            rw (find-update job_key write same k h.claim.source_id jobs, e, found) refl,
            knows job h.claim kn,
          )
          | inr e ↦ (job, rw (find-update job_key write same k h.claim.source_id jobs, e) found, kn)
        ];
  }

  -- A fenced write under one of the claims.
  fenced_update-IsValid :
      (h : Held) (write : Job → Job) (now : ℕ)
      → Among h held
      → IsGuarded h.claim.attempts write
      → IsValid (fenced_update h.claim.source_id h.owner h.claim.generation write now jobs).1 held
  unfolding fenced_update
  fenced_update-IsValid h write now m g =
      update-IsValid h.claim.source_id _ (fenced-source_id h.owner now h.claim write g)
        (λ job e s.
          let (job', e', k) = v.known h m in
          fenced-IsSound h.owner now h.claim write g job (subst (Knows h.claim) (cc (e, e')) k) s)
        (λ job c k. fenced-Knows h.owner now h.claim write g job c k)

  enqueue-IsValid :
      (s : ℕ) (stage : ProcessingStage) (b : Bool) (now : ℕ)
      → IsValid (enqueue_source s stage b now jobs) held
  unfolding enqueue_source
  enqueue-IsValid s stage b now = elim (Option-cases (find job_key s jobs)) [
    | inl e ↦ rw (e, enqueue_source) (append_new-IsValid s stage now e)
    | inr (job, e) ↦
        rw (e, enqueue_source)
          (update-IsValid s (rearm stage b now) (λ j. rearm-source_id stage b now j)
            (λ j _ h. rearm-IsSound stage b now j h) (λ j c h. rearm-Knows stage b now j c h))
  ]

module _ {jobs : List Job} {held : List Held} (v : IsValid jobs held) where
  -- The claim that is handed out knows its row, and its row knows it.
  handed_out-IsValid :
      (owner seconds now : ℕ) (job : Job)
      → find job_key job.source_id jobs ≡ some job
      → claimable now job ≡ true
      → let c : Claim = record {
        source_id = job.source_id;
        generation = job.claim_generation + 1;
        attempts = job.provider_attempts;
      } in
        IsValid
          (update job_key job.source_id (take_lease owner seconds now) jobs)
          (record { owner = owner; claim = c } ∷ held)
  unfolding take_lease
  handed_out-IsValid owner seconds now job found free =
      let w =
        update-IsValid v job.source_id (take_lease owner seconds now) (λ j. refl)
          (λ j e s.
            take_lease-IsSound owner seconds now j s
              (subst (λ x. claimable now x ≡ true) (cc (e, found)) free))
          (λ j c k. take_lease-Knows owner seconds now j c k) in
      record {
        keyed = w.keyed;
        sound = w.sound;
        known =
            Among-cons
              (λ h.
                (j : Job) × (find job_key h.claim.source_id
                    (update job_key job.source_id (take_lease owner seconds now) jobs)
                  ≡ some j)
                × Knows h.claim j)
              _ held
              (
                take_lease owner seconds now job,
                rw
                    (
                      find-update job_key (take_lease owner seconds now) (λ j. refl) job.source_id
                          job.source_id jobs,
                      found,
                      ==-refl job.source_id,
                    )
                    refl,
                ground arith,
              )
              w.known;
      }

  claim-IsValid :
      (owner seconds now : ℕ) (locked : ℕ → Bool)
      → let r = claim_job owner seconds locked now jobs in IsValid r.1 (hand_out owner r.0 held)
  unfolding claim_job
  claim-IsValid owner seconds now locked = elim (Option-cases (candidate locked now jobs)) [
    | inl e ↦ rw (e, hand_out, claim_job) v
    | inr (job, e) ↦
        let (found, free, _) = candidate_lem locked now jobs v.keyed e in
        rw (e, hand_out, claim_job) (handed_out-IsValid owner seconds now job found free)
  ]

  module _ (h : Held) (m : Among h held) (now : ℕ) where
    fence-IsValid :
        (write : Job → Job)
        → IsGuarded h.claim.attempts write
        → IsValid (fenced_update h.claim.source_id h.owner h.claim.generation write now jobs).1 held
    fence-IsValid write g = fenced_update-IsValid v h write now m g

    finish-IsValid :
        (a : Attempt)
        → IsValid
            (finish h.claim.source_id h.owner h.claim.generation h.claim.attempts a now jobs).1
            held
    unfolding finish
    finish-IsValid db_error = fence-IsValid _ (release-IsGuarded _ _)
    finish-IsValid cancelled = fence-IsValid _ (release-IsGuarded _ _)
    finish-IsValid (returned none) = fence-IsValid _ (complete-IsGuarded _)
    finish-IsValid (returned (some e)) = elim (Bool-cases (leb 3 h.claim.attempts || e.terminal)) [
      | inl last ↦ rw last (fence-IsValid _ (fail-IsGuarded _ e.code))
      | inr again ↦ rw again (fence-IsValid _ (retry-IsGuarded _ e.code now (ground arith)))
    ]

    execute-IsValid :
        (status_of : ℕ → Option SourceStatus) (attempt : ℕ → Bool → Attempt)
        → IsValid
            (execute_claim h.claim.source_id h.owner h.claim.generation h.claim.attempts status_of
              attempt now jobs).1
            held
    unfolding execute_claim
    execute-IsValid status_of attempt =
        if_ind (λ (r : List Report × List Job). IsValid r.1 held)
          (leb 3 h.claim.attempts && source_failed (status_of h.claim.source_id))
          (fence-IsValid _ (fail_recovered-IsGuarded _))
          (finish-IsValid (attempt h.claim.source_id (leb 3 h.claim.attempts)))

abbrev pub IsValidQueue : Queue → Type 0
IsValidQueue q = IsValid q.jobs q.held

recover-IsValid :
    (now : ℕ) (sources : List SourceRow) {jobs : List Job} {held : List Held}
    → IsValid jobs held
    → IsValid (recover_missing_jobs now sources jobs).1 held
unfolding recover_missing_jobs
recover-IsValid now [] v = v
recover-IsValid now (s ∷ sources) {jobs} {held} v =
    elim (Bool-cases (stranded s && absent (find job_key s.id jobs))) [
      | inl new ↦ rw new (
          recover-IsValid now sources
            (append_new-IsValid v s.id s.processing_stage now (ground arith)))
      | inr old ↦ rw old (recover-IsValid now sources v)
    ]

Step-IsValid : {q r : Queue} → Step q r → IsValidQueue q → IsValidQueue r
Step-IsValid (wait q seconds) v = v
Step-IsValid (enqueue q s stage b) v = enqueue-IsValid v s stage b q.now
Step-IsValid (claim q owner seconds locked) v = claim-IsValid v owner seconds q.now locked
Step-IsValid (beat q h seconds m) v =
    unfold renew in
    fenced_update-IsValid v h (extend_lease seconds q.now) q.now m
      (extend_lease-IsGuarded h.claim.attempts seconds q.now)
Step-IsValid (execute q h status_of attempt m) v = execute-IsValid v h m q.now status_of attempt
Step-IsValid (recover q sources) v = recover-IsValid q.now sources v

-- In every reachable queue each source has one row, no row has spent more than four attempts, a row
-- that still waits or runs has spent at most three, and a row has a lease exactly while it runs.
pub Reach-IsValid : {q : Queue} → Reach q → IsValidQueue q
Reach-IsValid begin = record { keyed = tt; sound = tt; known = λ h m. elim m [ ] }
Reach-IsValid (next r s) = Step-IsValid s (Reach-IsValid r)

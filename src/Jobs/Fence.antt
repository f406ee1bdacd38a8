-- ===== src/Jobs/Fence.antt =====
-- Only the newest claim of a source can write its row.
use maeglagi.Base.{
  ℕ, ◌≤◌, ◌<◌, ◌≡◌, refl, subst, sym, inl, inr, Bool, true, false, ◌&&◌, ◌||◌, Option, none, some,
  List, [], map, arith, nat_eq, leb, ==-refl, if_ind, Distinct, Option-cases,
}
use maeglagi.Base.Rows.{find, find-update, update_same, find_same}
use maeglagi.States.{SourceStatus, ProcessingStage}
use maeglagi.Jobs.{
  Job, Claim, job_key, is_running, rearm, enqueue_source, candidate, claim_job, holds_fence, fenced,
  fenced_update,
}
use maeglagi.Jobs.Execution.{
  Attempt, returned, db_error, cancelled, finish, execute_claim, source_failed,
}
use maeglagi.Jobs.Rows.{rearm-source_id}
use maeglagi.Jobs.Choice.{candidate_lem}
use maeglagi.Jobs.Steps.{Held, Queue, Among, enqueue, Reach, next}
use maeglagi.Jobs.Budget.{Reach-IsValid}

-- The fence does not let the claim through at `now`.
abbrev pub IsShutOut : Held → ℕ → List Job → Type 0
IsShutOut h now jobs =
    (job : Job)
    → find job_key h.claim.source_id jobs ≡ some job
    → holds_fence h.owner h.claim.generation now job ≡ false

-- A claim that is shut out writes nothing and reports nothing.
module _ (h : Held) (now : ℕ) (jobs : List Job) (d : Distinct (map job_key jobs))
    (out : IsShutOut h now jobs) where
  shut_update :
      (write : Job → Job)
      → fenced_update h.claim.source_id h.owner h.claim.generation write now jobs ≡ (false, jobs)
  unfolding fenced_update
  shut_update write =
      let same =
        update_same job_key h.claim.source_id (fenced h.owner h.claim.generation now write) jobs d
          (λ job e. rw (out job e, fenced) refl) in
      elim (Option-cases (find job_key h.claim.source_id jobs)) [
        | inl e ↦ cc (e, same)
        | inr (job, e) ↦ cc (e, same, out job e)
      ]

  shut_finish :
      (attempts : ℕ) (a : Attempt)
      → finish h.claim.source_id h.owner h.claim.generation attempts a now jobs ≡ ([], jobs)
  unfolding finish
  shut_finish attempts db_error = simp shut_update
  shut_finish attempts cancelled = simp shut_update
  shut_finish attempts (returned none) = simp shut_update
  shut_finish attempts (returned (some e)) =
      simp shut_update (if_ind (λ r. r ≡ ([], jobs)) (leb 3 attempts || e.terminal) refl refl)

  pub shut_execute :
      (attempts : ℕ) (status_of : ℕ → Option SourceStatus) (attempt : ℕ → Bool → Attempt)
      → execute_claim h.claim.source_id h.owner h.claim.generation attempts status_of attempt now
          jobs
        ≡ ([], jobs)
  unfolding execute_claim
  shut_execute attempts status_of attempt =
      simp (shut_update, shut_finish)
        (if_ind (λ r. r ≡ ([], jobs))
          (leb 3 attempts && source_failed (status_of h.claim.source_id)) refl refl)

-- The generation that a row has is newer than that of a claim: the fence is shut for good.
newer_generation :
    (h : Held) (now g : ℕ) (job : Job)
    → h.claim.generation < g
    → g ≤ job.claim_generation
    → holds_fence h.owner h.claim.generation now job ≡ false
unfolding holds_fence
newer_generation h now g job lt le = ground arith

-- Once a newer claim of the same source was handed out, whatever its attempt and the source have come
-- to, executing the older claim writes no row and reports nothing.
pub stale_claim_is_shut_out :
    {q : Queue} (old new : Held) (status_of : ℕ → Option SourceStatus)
    (attempt : ℕ → Bool → Attempt)
    → Reach q
    → Among old q.held
    → Among new q.held
    → old.claim.source_id ≡ new.claim.source_id
    → old.claim.generation < new.claim.generation
    → execute_claim old.claim.source_id old.owner old.claim.generation old.claim.attempts status_of
        attempt q.now q.jobs
      ≡ ([], q.jobs)
stale_claim_is_shut_out {q} old new status_of attempt r mo mn same lt =
    let v = Reach-IsValid r in
    let (row, found, k) = v.known new mn in
    shut_execute old q.now q.jobs v.keyed
      (λ job e. newer_generation old q.now new.claim.generation job lt (
        subst (λ (j : Job). new.claim.generation ≤ j.claim_generation)
          (find_same job_key q.jobs (sym same) found e) k.newer))
      old.claim.attempts status_of attempt

-- A claim that is handed out has a generation that no earlier claim of its source has.
pub claim_is_fresh :
    {q : Queue} (h : Held) (owner seconds : ℕ) (locked : ℕ → Bool) (c : Claim)
    → Reach q
    → Among h q.held
    → (claim_job owner seconds locked q.now q.jobs).0 ≡ some c
    → h.claim.source_id ≡ c.source_id
    → h.claim.generation < c.generation
unfolding claim_job
claim_is_fresh {q} h owner seconds locked c r m e same =
    let v = Reach-IsValid r in
    let (row, found, k) = v.known h m in
    elim (Option-cases (candidate locked q.now q.jobs)) [
      | inl none_free ↦ absurd (ground arith)
      | inr (job, chosen) ↦
          let (at, _, _) = candidate_lem locked q.now q.jobs v.keyed chosen in
          ground (arith, k.newer)
    ]

rearm_is_pending :
    (stage : ProcessingStage) (now : ℕ) (job : Job)
    → is_running (rearm stage true now job).status ≡ false
unfolding rearm
rearm_is_pending stage now job = ground arith

idle_row :
    (h : Held) (now : ℕ) (job : Job)
    → is_running job.status ≡ false
    → holds_fence h.owner h.claim.generation now job ≡ false
unfolding holds_fence
idle_row h now job e = ground arith

find-enqueue_source :
    (s : ℕ) (stage : ProcessingStage) (b : Bool) (now : ℕ) (jobs : List Job) {row : Job}
    → find job_key s jobs ≡ some row
    → find job_key s (enqueue_source s stage b now jobs) ≡ some (rearm stage b now row)
unfolding enqueue_source
find-enqueue_source s stage b now jobs e =
    rw (e, enqueue_source)
      (rw
        (
          find-update job_key (rearm stage b now) (λ j. rearm-source_id stage b now j) s s jobs,
          e,
          ==-refl s,
        )
        refl)

-- Re-arming a source with `supersede_existing` shuts out every claim of it that is still held.
pub superseded_claim_is_shut_out :
    {q : Queue} (h : Held) (stage : ProcessingStage) (status_of : ℕ → Option SourceStatus)
    (attempt : ℕ → Bool → Attempt) (now : ℕ)
    → Reach q
    → Among h q.held
    → let jobs = enqueue_source h.claim.source_id stage true q.now q.jobs in
      execute_claim h.claim.source_id h.owner h.claim.generation h.claim.attempts status_of attempt
        now jobs
      ≡ ([], jobs)
superseded_claim_is_shut_out {q} h stage status_of attempt now r m =
    let v = Reach-IsValid r in
    let (row, found, _) = v.known h m in
    shut_execute h now (enqueue_source h.claim.source_id stage true q.now q.jobs)
      (Reach-IsValid (next r (enqueue q h.claim.source_id stage true))).keyed
      (λ job e. idle_row h now job (
        subst (λ (j : Job). is_running j.status ≡ false)
          (find_same job_key (enqueue_source h.claim.source_id stage true q.now q.jobs) refl
            (find-enqueue_source h.claim.source_id stage true q.now q.jobs found) e)
          (rearm_is_pending stage q.now row)))
      h.claim.attempts status_of attempt

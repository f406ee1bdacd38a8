-- ===== src/Jobs/Reconcile.antt =====
-- The reconciliation at an executor's start.
use maeglagi.Base.{
  ℕ, ◌≡◌, refl, inl, inr, true, false, ◌&&◌, some, List, [], ◌∷◌, ◌++◌, arith, if◌then◌else◌, All,
  Bool-cases, Option-cases,
}
use maeglagi.Base.Rows.{find, find-append_new}
use maeglagi.Jobs.{Job, job_key, new_job}
use maeglagi.Jobs.Recovery.{SourceRow, recover_missing_jobs, stranded, absent}

-- The table once one source was looked at.
abbrev visited : ℕ → SourceRow → List Job → List Job
visited now s jobs =
    if stranded s && absent (find job_key s.id jobs)
    then jobs ++ new_job s.id s.processing_stage now ∷ []
    else jobs

find-visited :
    (now : ℕ) (s : SourceRow) (k : ℕ) (jobs : List Job) {r : Job}
    → find job_key k jobs ≡ some r
    → find job_key k (visited now s jobs) ≡ some r
find-visited now s k jobs e =
    ground (arith, find-append_new job_key k jobs (new_job s.id s.processing_stage now))

-- A row that is there stays as it is: its budget, lease, generation and status.
pub find-recover_missing_jobs :
    (now : ℕ) (sources : List SourceRow) (k : ℕ) (jobs : List Job) {r : Job}
    → find job_key k jobs ≡ some r
    → find job_key k (recover_missing_jobs now sources jobs).1 ≡ some r
unfolding recover_missing_jobs
find-recover_missing_jobs now [] k jobs e = e
find-recover_missing_jobs now (s ∷ sources) k jobs e =
    find-recover_missing_jobs now sources k (visited now s jobs) (find-visited now s k jobs e)

abbrev pub HasRow : List Job → SourceRow → Type 0
HasRow jobs s = stranded s ≡ true → absent (find job_key s.id jobs) ≡ false

visited-HasRow : (now : ℕ) (s : SourceRow) (jobs : List Job) → HasRow (visited now s jobs) s
unfolding new_job
visited-HasRow now s jobs h =
    ground (arith, find-append_new job_key s.id jobs (new_job s.id s.processing_stage now))

keep-HasRow :
    (now : ℕ) (sources : List SourceRow) (s : SourceRow) (jobs : List Job)
    → HasRow jobs s
    → HasRow (recover_missing_jobs now sources jobs).1 s
keep-HasRow now sources s jobs h t = elim (Option-cases (find job_key s.id jobs)) [
  | inl e ↦ absurd (ground arith)
  | inr (r, e) ↦ rw (find-recover_missing_jobs now sources s.id jobs e) refl
]

All-stranded_have_rows :
    (now : ℕ) (sources : List SourceRow) (jobs : List Job)
    → All (HasRow (recover_missing_jobs now sources jobs).1) sources
unfolding recover_missing_jobs
All-stranded_have_rows now [] jobs = tt
All-stranded_have_rows now (s ∷ sources) jobs = (
  keep-HasRow now sources s (visited now s jobs) (visited-HasRow now s jobs),
  All-stranded_have_rows now sources (visited now s jobs),
)

not_inserted :
    (jobs : List Job) (s : SourceRow)
    → HasRow jobs s
    → (stranded s && absent (find job_key s.id jobs)) ≡ false
not_inserted jobs s h = elim (Bool-cases (stranded s)) [
  | inl e ↦ rw (e, h e) refl
  | inr e ↦ rw e refl
]

nothing_missing :
    (now : ℕ) (sources : List SourceRow) (jobs : List Job)
    → All (HasRow jobs) sources
    → recover_missing_jobs now sources jobs ≡ (0, jobs)
unfolding recover_missing_jobs
nothing_missing now [] jobs h = refl
nothing_missing now (s ∷ sources) jobs h =
    rw (not_inserted jobs s h.0) (rw (nothing_missing now sources jobs h.1) refl)

-- After a reconciliation every stranded source has a row, and another one, at any time, inserts
-- nothing and changes nothing.
pub recover_missing_jobs_idem :
    (now later : ℕ) (sources : List SourceRow) (jobs : List Job)
    → let after = (recover_missing_jobs now sources jobs).1 in
      All (HasRow after) sources × (recover_missing_jobs later sources after ≡ (0, after))
recover_missing_jobs_idem now later sources jobs = (
  All-stranded_have_rows now sources jobs,
  nothing_missing later sources _ (All-stranded_have_rows now sources jobs),
)

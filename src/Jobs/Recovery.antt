-- ===== src/Jobs/Recovery.antt =====
-- `recover_missing_jobs` of backend/app/modules/ingestion/infrastructure/pg_recovery.py.
use maeglagi.Base.{
  ℕ, ◌+◌, Bool, true, false, ◌&&◌, ◌||◌, Option, none, some, List, [], ◌∷◌, ◌++◌, ◌==◌, list_eq,
  nat_eq, if◌then◌else◌,
}
use maeglagi.Base.Rows.{find}
use maeglagi.Base.Text.{Text, codes}
use maeglagi.States.{SourceStatus, ReviewState, ProcessingStage, status_eq, review_eq}
use maeglagi.Jobs.{Job, job_key, new_job}

-- The columns of `sources` that the statement reads.
pub record SourceRow : Type 0 where
  pub id : ℕ
  pub analysis_mode : Text
  pub status : SourceStatus
  pub kind : Text
  pub review_state : Option ReviewState
  pub processing_stage : ProcessingStage

-- `review_state IN ('confirmed', 'transcribing')`; NULL is in no list.
abbrev review_runs : Option ReviewState → Bool
review_runs none = false
review_runs (some s) = s == ReviewState.confirmed || s == ReviewState.transcribing

unfoldable pub stranded : SourceRow → Bool
stranded s =
    s.analysis_mode == codes "server"
    && (s.status == SourceStatus.queued
        || s.status == SourceStatus.processing
        || s.status == SourceStatus.enqueue_pending)
    && (s.kind == codes "document" || (s.kind == codes "meeting" && review_runs s.review_state))

abbrev pub absent : Option Job → Bool
absent none = true
absent (some _) = false

-- The rows that are inserted, one for each stranded source without a row. The NOT EXISTS and the
-- ON CONFLICT look at the table as it grows, so a source listed twice gets one row.
unfoldable pub recover_missing_jobs : ℕ → List SourceRow → List Job → ℕ × List Job
recover_missing_jobs now [] jobs = (0, jobs)
recover_missing_jobs now (s ∷ sources) jobs =
    let insert_it = stranded s && absent (find job_key s.id jobs) in
    let (count, jobs') =
      recover_missing_jobs now sources
        (if insert_it then jobs ++ new_job s.id s.processing_stage now ∷ [] else jobs) in
    (if insert_it then count + 1 else count, jobs')

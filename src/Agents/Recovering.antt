-- ===== src/Agents/Recovering.antt =====
-- The recovery of a failed recording with a transcript of the user's browser:
-- backend/app/modules/ingestion/application/transcript_recovery.py. The utterances are validated ones,
-- and the error message of the row, which is cleared, is not modelled.
use maeglagi.Base.{
  ℕ, ◌+◌, Bool, true, false, not, ◌&&◌, Option, none, some, List, [], ◌++◌, map, all, any, ◌==◌,
  nat_eq, option_eq, list_eq, leb, ltb, length, select, if◌then◌else◌,
}
use maeglagi.Base.Results.{returns, ◌>>=◌, ◌>>◌, check}
use maeglagi.Base.Rows.{find}
use maeglagi.Base.Text.{Text, codes, is_empty}
use maeglagi.States.{SourceStatus, ReviewState, ProcessingStage, review_eq}
use maeglagi.Access.{viewer}
use maeglagi.Sources.{Source, Utterance, WorkspacePerson, Database}
use maeglagi.Store.Closing.{starts_with}
use maeglagi.Jobs.{Job, JobStatus, job_key}
use maeglagi.Validation.{
  recovery_unavailable, stale_revision, recording_missing, processing_active, invalid_transcript,
  invalid_person,
}
use maeglagi.Agents.{Raising, source_for, put_source, meeting_kind}
use maeglagi.Agents.Directory.{person_key, utterance_people}
use maeglagi.Agents.Editing.{joined, blank_line, line, no_repeat}

abbrev pub is_failed : SourceStatus → Bool
is_failed SourceStatus.failed = true
is_failed _ = false

abbrev pub is_recoverable : Source → Bool
is_recoverable s =
    s.kind == meeting_kind
    && is_failed s.status
    && s.review_state == some ReviewState.transcribing
    && s.analysis_mode == codes "server"

-- A job that waits or runs.
abbrev pub is_active : Option Job → Bool
is_active none = false
is_active (some job) = elim job.status [
  | JobStatus.pending ↦ true
  | JobStatus.running ↦ true
  | JobStatus.completed ↦ false
  | JobStatus.failed ↦ false
  | JobStatus.cancelled ↦ false
]

-- The person is there, not archived, and of the workspace and of the caller.
abbrev pub is_participant : ℕ → ℕ → List WorkspacePerson → ℕ → Bool
is_participant owner_id workspace_id people id = elim (find person_key id people) [
  | none ↦ false
  | some p ↦ p.owner_id == owner_id && p.workspace_id == workspace_id && not p.archived
]

abbrev pub has_text : Utterance → Bool
has_text item = not (is_empty item.text)

-- The first transcript is kept; an empty one is replaced.
abbrev pub is_blank_raw : Option Text → Bool
is_blank_raw none = true
is_blank_raw (some t) = is_empty t

unfoldable pub recovered : List Utterance → Source → Source
recovered utterances s =
    let fresh = is_blank_raw s.raw_transcript_text in
    record s {
      review_utterances = utterances;
      raw_transcript_text =
          if fresh
          then some (joined blank_line (map line (select has_text utterances)))
          else s.raw_transcript_text;
      raw_utterances = if fresh then utterances else s.raw_utterances;
      transcript_source = some (codes "browser");
      review_revision = s.review_revision + 1;
      review_state = some ReviewState.awaiting_review;
      status = SourceStatus.awaiting_review;
      processing_stage = ProcessingStage.awaiting_review;
      progress = 45;
    }

module _ (uuid_text : ℕ → Text) where
  -- `f"{owner_id}/{workspace_id}/{source_id}/"`, where the owner is the caller.
  abbrev pub caller_prefix : ℕ → ℕ → ℕ → Text
  caller_prefix owner_id workspace_id source_id =
      uuid_text owner_id
      ++ codes "/"
      ++ uuid_text workspace_id
      ++ codes "/"
      ++ uuid_text source_id
      ++ codes "/"

  unfoldable pub recover_browser_transcript :
      ℕ → ℕ → ℕ → ℕ → List Utterance → List Job → Database → Raising Database
  unfolding recovered
  recover_browser_transcript owner_id workspace_id source_id revision utterances jobs db = do
    s ← source_for db owner_id workspace_id source_id viewer
    check (is_recoverable s) recovery_unavailable
    check (s.review_revision == revision) stale_revision
    check
        (ltb 0 s.size_bytes
          && starts_with (caller_prefix owner_id workspace_id source_id) s.object_path)
        recording_missing
    check (not (is_active (find job_key source_id jobs))) processing_active
    check (ltb 0 (length utterances) && leb (length utterances) 1000 && any has_text utterances)
        invalid_transcript
    check (no_repeat (map (λ (i : Utterance). i.id) utterances)) invalid_transcript
    check (all (is_participant owner_id workspace_id db.people) (utterance_people utterances []))
        invalid_person
    returns (put_source (recovered utterances s) db)

-- ===== src/Sources.antt =====
-- The rows of a workspace and its sources: backend/app/modules/workspaces/infrastructure/models.py,
-- `Chunk` of modules/context_engine/infrastructure/models.py and the utterances of
-- modules/agent_workflows/schemas.py. Only the columns that the modelled operations read or write are
-- here. `progress` is in hundredths.
use maeglagi.Base.{ℕ, Bool, false, ◌||◌, Option, none, some, List, ltb, length, if◌then◌else◌}
use maeglagi.Base.Text.{Text, strip, is_empty}
use maeglagi.States.{SourceStatus, ReviewState, ProcessingStage}
use maeglagi.Extraction.{ExtractionResult}
use maeglagi.Access.{Workspace, WorkspaceMember}
use maeglagi.Store.Service.{Tables}

-- AgentUtterance
pub record Utterance : Type 0 where
  pub id : Text
  pub person_id : Option ℕ
  pub speaker_name : Text
  pub text : Text
  pub start_seconds : Option ℕ
  pub end_seconds : Option ℕ

abbrev pub ends_before : Option ℕ → Option ℕ → Bool
ends_before (some start) (some end) = ltb end start
ends_before _ _ = false

-- `model_validate`: the bounds of the fields, then `clean`; none where it raises.
unfoldable pub clean : Utterance → Option Utterance
clean item =
    let id = strip item.id in
    let speaker_name = strip item.speaker_name in
    if is_empty item.id
      || ltb 80 (length item.id)
      || is_empty item.speaker_name
      || ltb 120 (length item.speaker_name)
      || ltb 10000 (length item.text)
    then none
    else if is_empty id || is_empty speaker_name
    then none
    else if ends_before item.start_seconds item.end_seconds
    then none
    else some (record item { id = id; speaker_name = speaker_name; text = strip item.text })

-- A person and a project as a snapshot of the directory has them.
pub record PersonRow : Type 0 where
  pub id : ℕ
  pub name : Text
  pub role : Option Text
  pub email : Option Text
  pub aliases : List Text

pub record ProjectRow : Type 0 where
  pub id : ℕ
  pub name : Text
  pub goal : Option Text
  pub description : Option Text
  pub owner_person_id : Option ℕ
  pub owner_name : Option Text
  pub owner_role : Option Text
  pub starts_on : Option ℕ
  pub ends_on : Option ℕ

pub record Snapshot : Type 0 where
  pub project : Option ProjectRow
  pub projects : List ProjectRow
  pub people : List PersonRow
  pub roster : List PersonRow

pub data Phase : Type 0 where
  extracted context_applied done : Phase

-- The checkpoint of an analysis, without the resolved graph and the provenance. `agent` is whether its
-- mode is that of an agent; a key that it does not have is none.
pub record Checkpoint : Type 0 where
  pub agent : Bool
  pub fingerprint : ℕ
  pub context_fingerprint : Option ℕ
  pub decision_fingerprint : Option ℕ
  pub result_hash : Option ℕ
  pub phase : Phase
  pub result : ExtractionResult
  pub context_warnings : List Text
  pub warnings : List Text

pub record Source : Type 0 where
  pub id : ℕ
  pub workspace_id : ℕ
  pub owner_id : ℕ
  pub kind : Text
  pub title : Text
  pub object_path : Text
  pub content_type : Text
  pub size_bytes : ℕ
  pub analysis_mode : Text
  pub transcript_source : Option Text
  pub transcript_text : Option Text
  pub raw_transcript_text : Option Text
  pub raw_utterances : List Utterance
  pub review_utterances : List Utterance
  pub review_state : Option ReviewState
  pub review_revision : ℕ
  pub project_id : Option ℕ
  pub association_revision : ℕ
  pub confirmed_at : Option ℕ
  pub confirmed_snapshot : Option Snapshot
  pub content_text : Option Text
  pub analysis_checkpoint : Option Checkpoint
  pub status : SourceStatus
  pub processing_stage : ProcessingStage
  pub progress : ℕ

abbrev pub source_key : Source → ℕ
source_key s = s.id

pub record WorkspacePerson : Type 0 where
  pub id : ℕ
  pub workspace_id : ℕ
  pub owner_id : ℕ
  pub name : Text
  pub email : Option Text
  pub role : Option Text
  pub aliases : List Text
  pub archived : Bool

pub record WorkspaceProject : Type 0 where
  pub id : ℕ
  pub workspace_id : ℕ
  pub owner_id : ℕ
  pub name : Text
  pub goal : Option Text
  pub description : Option Text
  pub owner_person_id : Option ℕ
  pub starts_on : Option ℕ
  pub ends_on : Option ℕ
  pub archived : Bool

pub record ProjectMember : Type 0 where
  pub project_id : ℕ
  pub person_id : ℕ

pub record SourceProject : Type 0 where
  pub workspace_id : ℕ
  pub source_id : ℕ
  pub project_id : ℕ
  pub position : ℕ

-- `author` is whether the role is that of the author; the other role is that of a participant.
pub record SourcePerson : Type 0 where
  pub workspace_id : ℕ
  pub source_id : ℕ
  pub person_id : ℕ
  pub author : Bool

pub record Chunk : Type 0 where
  pub workspace_id : ℕ
  pub source_id : ℕ
  pub owner_id : ℕ
  pub position : ℕ
  pub content : Text
  pub start_seconds : Option ℕ
  pub end_seconds : Option ℕ

-- A row of the audit log.
pub record AuditEvent : Type 0 where
  pub workspace_id : ℕ
  pub actor_id : ℕ
  pub action : Text
  pub target_id : ℕ

pub record Database : Type 0 where
  pub workspaces : List Workspace
  pub members : List WorkspaceMember
  pub people : List WorkspacePerson
  pub projects : List WorkspaceProject
  pub project_members : List ProjectMember
  pub sources : List Source
  pub source_people : List SourcePerson
  pub source_projects : List SourceProject
  pub chunks : List Chunk
  pub tables : Tables
  pub audit : List AuditEvent

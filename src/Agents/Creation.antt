-- ===== src/Agents/Creation.antt =====
-- New rows: `create_workspace`, `_create_source` and `create_text_source` of
-- backend/app/modules/agent_workflows/service.py. The ids that `uuid4` gives are arguments.
use maeglagi.Base.{
  ℕ, suc, Bool, true, not, ◌&&◌, ◌||◌, Option, none, some, List, [], ◌∷◌, ◌++◌, ◌==◌, nat_eq,
  list_eq, leb, length, select, contains, if◌then◌else◌,
}
use maeglagi.Base.Results.{returns, ◌>>=◌, ◌>>◌, check}
use maeglagi.Base.Text.{Text, codes, is_empty, strip}
use maeglagi.States.{SourceStatus, ReviewState, ProcessingStage}
use maeglagi.Access.{editor, owner, WorkspaceMember}
use maeglagi.Sources.{Source, Utterance, Database, SourceProject, WorkspaceProject}
use maeglagi.Validation.{
  invalid_name, invalid_kind, invalid_source, invalid_project, invalid_text, uncaught,
}
use maeglagi.Agents.{Raising, workspace_for, audited, agent_mode, meeting_kind, document_kind}
use maeglagi.Agents.Directory.{add_id}
use maeglagi.Agents.Editing.{utf8_size}

abbrev pub owner_row : ℕ → ℕ → ℕ → WorkspaceMember
owner_row workspace_id owner_id now = record {
  workspace_id = workspace_id;
  user_id = some owner_id;
  email = [];
  email_normalized = [];
  role = owner;
  invited_by = owner_id;
  joined_at = some now;
}

unfoldable pub create_workspace : ℕ → ℕ → Text → ℕ → Database → Raising Database
create_workspace id owner_id name now db = do
  check (not (is_empty (strip name)) && leb (length (strip name)) 120) invalid_name
  returns (record db {
    workspaces = db.workspaces ++ record { id = id; owner_id = owner_id; name = strip name } ∷ [];
    members = db.members ++ owner_row id owner_id now ∷ [];
  })

-- `list(dict.fromkeys(ids))`
pub without_repeats : List ℕ → List ℕ → List ℕ
without_repeats [] seen = seen
without_repeats (id ∷ ids) seen = without_repeats ids (add_id id seen)

abbrev pub usable_project : ℕ → ℕ → List ℕ → WorkspaceProject → Bool
usable_project workspace_id owner_id ids p =
    contains p.id ids && p.workspace_id == workspace_id && p.owner_id == owner_id && not p.archived

abbrev pub first_id : List ℕ → Option ℕ
first_id [] = none
first_id (id ∷ ids) = some id

pub project_links : ℕ → ℕ → ℕ → List ℕ → List SourceProject
project_links workspace_id source_id position [] = []
project_links workspace_id source_id position (id ∷ ids) =
    record {
      workspace_id = workspace_id;
      source_id = source_id;
      project_id = id;
      position = position;
    }
    ∷ project_links workspace_id source_id (suc position) ids

abbrev pub initial_utterance : Text → Utterance
initial_utterance text = record {
  id = codes "initial";
  person_id = none;
  speaker_name = codes "화자 1";
  text = strip text;
  start_seconds = none;
  end_seconds = none;
}

-- The utterance of a transcript that came with the meeting. `AgentUtterance` strips the text.
abbrev pub initial_utterances : Bool → Option Text → List Utterance
initial_utterances meeting none = []
initial_utterances meeting (some text) =
    if meeting && not (is_empty text) then initial_utterance text ∷ [] else []

-- What a call of `_create_source` brings.
pub record NewSource : Type 0 where
  pub source_id : ℕ
  pub title : Text
  pub kind : Text
  pub object_path : Text
  pub content_type : Text
  pub size_bytes : ℕ
  pub text : Option Text
  pub project_ids : List ℕ

unfoldable pub new_source : ℕ → ℕ → List ℕ → NewSource → Source
new_source workspace_id owner_id ids n =
    let meeting = n.kind == meeting_kind in
    record {
      id = n.source_id;
      workspace_id = workspace_id;
      owner_id = owner_id;
      kind = n.kind;
      title = strip n.title;
      object_path = n.object_path;
      content_type = n.content_type;
      size_bytes = n.size_bytes;
      analysis_mode = agent_mode;
      transcript_source = if meeting then some agent_mode else none;
      transcript_text = none;
      raw_transcript_text = if meeting then n.text else none;
      raw_utterances = [];
      review_utterances = initial_utterances meeting n.text;
      review_state = if meeting then some ReviewState.awaiting_review else none;
      review_revision = 0;
      project_id = first_id ids;
      association_revision = 0;
      confirmed_at = none;
      confirmed_snapshot = none;
      content_text = if meeting then none else n.text;
      analysis_checkpoint = none;
      status = if meeting then SourceStatus.awaiting_review else SourceStatus.awaiting_agent;
      processing_stage =
          if meeting then ProcessingStage.awaiting_review else ProcessingStage.awaiting_agent;
      progress = if meeting then 45 else 0;
    }

-- The length of an utterance's text is bounded: a longer one raises an exception that is not caught.
unfoldable pub create_source : ℕ → ℕ → NewSource → Database → Raising Database
unfolding without_repeats project_links new_source
create_source actor_id workspace_id n db = do
  w ← workspace_for db actor_id workspace_id editor
  check (n.kind == document_kind || n.kind == meeting_kind) invalid_kind
  check (not (is_empty (strip n.title)) && leb (length (strip n.title)) 255) invalid_source
  let ids = without_repeats n.project_ids []
  check (length (select (usable_project workspace_id w.owner_id ids) db.projects) == length ids)
      invalid_project
  check (fits_utterance n) uncaught
  returns (
      audited actor_id workspace_id (codes "source.created") n.source_id (record db {
        sources = db.sources ++ new_source workspace_id w.owner_id ids n ∷ [];
        source_projects = db.source_projects ++ project_links workspace_id n.source_id 0 ids;
      }))
  where
    fits_utterance : NewSource → Bool
    fits_utterance n = elim n.text [
      | none ↦ true
      | some text ↦ not (n.kind == meeting_kind) || leb (length text) 10000
    ]

-- `path` is `inline:<source_id>`.
unfoldable pub create_text_source :
    ℕ → ℕ → ℕ → ℕ → Text → Text → Text → Text → List ℕ → Database → Raising Database
create_text_source limit actor_id workspace_id source_id path title text kind project_ids db = do
  check (not (is_empty (strip text)) && leb (utf8_size text) limit) invalid_text
  create_source actor_id workspace_id
      (record {
        source_id = source_id;
        title = title;
        kind = kind;
        object_path = path;
        content_type = codes "text/plain; charset=utf-8";
        size_bytes = utf8_size text;
        text = some text;
        project_ids = project_ids;
      })
      db

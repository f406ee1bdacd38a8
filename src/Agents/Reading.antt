-- ===== src/Agents/Reading.antt =====
-- What the service reads: `list_workspaces`, `list_sources` and `source_content` of service.py and
-- repositories.py, with `source_info`. Instants of creation are not modelled: the rows are in the order
-- in which the database returns them.
use maeglagi.Base.{
  ℕ, Bool, not, ◌&&◌, ◌||◌, Option, none, some, List, ◌++◌, map, ◌==◌, nat_eq, option_eq, list_eq,
  leb, ltb, any, select, if◌then◌else◌,
}
use maeglagi.Base.Results.{returns, ◌>>=◌, required}
use maeglagi.Base.Sort.{sort}
use maeglagi.Base.Text.{Text, codes, is_empty}
use maeglagi.States.{SourceStatus, ProcessingStage, ReviewState}
use maeglagi.Access.{viewer, Workspace, WorkspaceMember}
use maeglagi.Sources.{Source, Utterance, Database, Chunk}
use maeglagi.Store.Closing.{starts_with}
use maeglagi.Validation.{uncaught}
use maeglagi.Agents.{Raising, source_for, workspace_for, meeting_kind}
use maeglagi.Agents.Editing.{joined, blank_line, line, clean_all}

pub record SourceInfo : Type 0 where
  pub id : ℕ
  pub workspace_id : ℕ
  pub title : Text
  pub kind : Text
  pub status : SourceStatus
  pub stage : ProcessingStage
  pub analysis_mode : Text
  pub review_state : Option ReviewState
  pub revision : ℕ
  pub has_media : Bool
  pub content_type : Text
  pub size_bytes : ℕ

abbrev pub is_member : ℕ → Workspace → List WorkspaceMember → Bool
is_member actor_id w members =
    any (λ (m : WorkspaceMember). m.workspace_id == w.id && m.user_id == some actor_id) members

unfoldable pub list_workspaces : ℕ → Database → List Workspace
list_workspaces actor_id db =
    select (λ (w : Workspace). w.owner_id == actor_id || is_member actor_id w db.members)
      db.workspaces

abbrev pub chunk_before : Chunk → Chunk → Bool
chunk_before a b = leb a.position b.position

abbrev pub non_empty : Text → Option Text
non_empty t = if is_empty t then none else some t

abbrev pub or_else : Option Text → Option Text → Option Text
or_else none b = b
or_else (some t) b = if is_empty t then b else some t

module _ (uuid_text : ℕ → Text) where
  -- `f"{owner_id}/{workspace_id}/{id}/"`
  abbrev pub stored_path : Source → Text
  stored_path s =
      uuid_text s.owner_id
      ++ codes "/"
      ++ uuid_text s.workspace_id
      ++ codes "/"
      ++ uuid_text s.id
      ++ codes "/"

  unfoldable pub source_info : Source → SourceInfo
  source_info s = record {
    id = s.id;
    workspace_id = s.workspace_id;
    title = s.title;
    kind = s.kind;
    status = s.status;
    stage = s.processing_stage;
    analysis_mode = s.analysis_mode;
    review_state = s.review_state;
    revision = s.review_revision;
    has_media = ltb 0 s.size_bytes && starts_with (stored_path s) s.object_path;
    content_type = s.content_type;
    size_bytes = s.size_bytes;
  }

  pub record SourceContent : Type 0 where
    pub source : SourceInfo
    pub text : Option Text
    pub utterances : List Utterance
    pub chunks : List Chunk
    pub storage_path : Option Text

  -- The edited text of a meeting, or its confirmed or its raw one.
  pub readable_text : Source → List Utterance → Option Text
  readable_text s utterances =
      let spoken = select (λ (i : Utterance). not (is_empty i.text)) utterances in
      if s.kind == meeting_kind
      then (let edited = non_empty (joined blank_line (map line spoken)) in
          or_else (or_else edited s.transcript_text) s.raw_transcript_text)
      else s.content_text

  abbrev pub chunks_of : Source → List Chunk → List Chunk
  chunks_of s chunks = sort chunk_before (
      select
        (λ (c : Chunk).
          c.source_id == s.id && c.workspace_id == s.workspace_id && c.owner_id == s.owner_id)
        chunks)

  unfoldable pub source_content : ℕ → ℕ → ℕ → Database → Raising SourceContent
  unfolding readable_text
  source_content actor_id workspace_id source_id db = do
    s ← source_for db actor_id workspace_id source_id viewer
    utterances ← required (clean_all s.review_utterances) uncaught
    let info = source_info s
    returns (record {
      source = info;
      text = readable_text s utterances;
      utterances = utterances;
      chunks = chunks_of s db.chunks;
      storage_path = if info.has_media then some s.object_path else none;
    })

  unfoldable pub list_sources : ℕ → ℕ → Database → Raising (List SourceInfo)
  list_sources actor_id workspace_id db = do
    w ← workspace_for db actor_id workspace_id viewer
    returns (
        map source_info (
          select (λ (s : Source). s.owner_id == w.owner_id && s.workspace_id == workspace_id)
            db.sources))

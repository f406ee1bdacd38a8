-- ===== src/Analysis/Submission.antt =====
-- `submit_analysis` of backend/app/modules/agent_workflows/service.py and the steps of
-- `analyze_source` (backend/app/modules/ingestion/application/source_analysis.py) that it runs. A
-- submission is the list of the databases that it commits and what it comes to: a process that dies
-- leaves the last of those that it reached. What the graph store answers is an argument.
use maeglagi.Base.{
  ℕ, Bool, true, false, ◌&&◌, Option, none, some, List, [], ◌∷◌, ◌++◌, ◌==◌, nat_eq, option_eq,
  list_eq,
}
use maeglagi.Base.Results.{returns, raises, ◌>>=◌, ◌>>◌, check, required}
use maeglagi.Base.Text.{Text, codes}
use maeglagi.States.{SourceStatus, ProcessingStage}
use maeglagi.Extraction.{ExtractionResult, Unicode}
use maeglagi.Access.{editor}
use maeglagi.Sources.{Source, Database, Snapshot, Checkpoint, Phase, Chunk}
use maeglagi.Validation.{
  WorkflowError, Verdict, accepted, rejected, validate_extraction, invalid_source, invalid_analysis,
  stale_revision, stale_context, analysis_conflict, uncaught,
}
use maeglagi.Temporal.{Calendar}
use maeglagi.Resolution.Entities.{ResolvedGraph}
use maeglagi.Resolution.Graph.{resolve_extraction}
use maeglagi.Directory.{canonicalize}
use maeglagi.Store.Service.{Tables}
use maeglagi.Keyless.{keyless_apply, current_decisions}
use maeglagi.Agents.{
  Raising, source_for, workspace_for, put_source, audited, agent_mode, meeting_kind,
}
use maeglagi.Agents.Directory.{directory_snapshot}
use maeglagi.Analysis.{
  Hashed, source_text, source_fingerprint, context_fingerprint, result_fingerprint,
  decision_fingerprint, index_source_text,
}

-- What the program takes from Python's own library, and its settings.
pub record World : Type 0 where
  pub unicode : Unicode
  pub calendar : Calendar
  pub uuid5 : Text → ℕ
  pub isoformat : ℕ → Text
  pub uuid_text : ℕ → Text
  pub segment_id : ℕ → ℕ → ℕ
  pub hash : Hashed → ℕ
  pub chunk_size : ℕ
  pub chunk_overlap : ℕ

-- The `result` of a call: the length of its JSON, what it decodes to, the JSON of its classification
-- and whether it is classified as a meeting.
pub record Supplied : Type 0 where
  pub size : ℕ
  pub decoded : Option ExtractionResult
  pub classification : Text
  pub is_meeting : Bool

pub record AnalysisSubmission : Type 0 where
  pub source_id : ℕ
  pub warnings : List Text
  pub already_applied : Bool

pub record Request : Type 0 where
  pub actor_id : ℕ
  pub workspace_id : ℕ
  pub source_id : ℕ
  pub expected_revision : ℕ
  pub expected_fingerprint : ℕ
  pub supplied : Supplied
  pub now : ℕ
  pub graph : Option (List Text)

abbrev pub Run : Type 0
Run = List Database × Raising AnalysisSubmission

abbrev pub stops : WorkflowError → Run
stops e = ([], raises e)

abbrev pub commit : Database → Run → Run
commit db run = (db ∷ run.0, run.1)

-- What follows a call that may raise.
abbrev pub and_then : {A : Type 0} → Raising A → (A → Run) → Run
and_then (raises e) rest = stops e
and_then (returns a) rest = rest a

abbrev pub validated_of : Verdict → Raising ExtractionResult
validated_of (rejected e) = raises e
validated_of (accepted result) = returns result

-- How a submission begins.
pub data Begun : Type 0 where
  replayed : List Text → Begun
  extracted_before : Checkpoint → Begun
  applied_before : Checkpoint → Begun
  fresh : ExtractionResult → List Chunk → Begun

abbrev pub resumed : Phase → Checkpoint → Begun
resumed Phase.extracted c = extracted_before c
resumed Phase.context_applied c = applied_before c
resumed Phase.done c = replayed c.warnings

abbrev pub directory_of : Database → Source → Raising Snapshot
directory_of db s = elim s.confirmed_snapshot [
  | none ↦ directory_snapshot db s
  | some snapshot ↦ returns snapshot
]

module _ (world : World) (r : Request) where
  -- The branch with a checkpoint.
  unfoldable pub replay : ℕ → Checkpoint → Raising Begun
  replay current c = do
    check
        (c.agent
          && c.fingerprint == current
          && c.context_fingerprint == some r.expected_fingerprint)
        analysis_conflict
    result ← required r.supplied.decoded invalid_analysis
    check (c.result_hash == some (result_fingerprint world.hash r.supplied.classification result))
        analysis_conflict
    returns (resumed c.phase c)

  -- The branch without one, up to its commit.
  unfoldable pub first_time : Database → Source → Text → Snapshot → Raising Begun
  first_time db s text directory =
      let known = current_decisions r.workspace_id db.tables.stores in
      do
        check (r.expected_fingerprint == context_fingerprint world.hash s text known directory)
            stale_context
        result ← validated_of (
            validate_extraction world.unicode r.supplied.size r.supplied.decoded
              (s.kind == meeting_kind) r.supplied.is_meeting text known)
        chunks ←
            index_source_text s.transcript_source none world.segment_id world.uuid_text
              world.chunk_size world.chunk_overlap s text db.chunks
        returns (fresh result chunks)

  abbrev pub started : Database → Source → Text → Snapshot → Option Checkpoint → Raising Begun
  started db s text directory (some c) = replay (source_fingerprint world.hash s text directory) c
  started db s text directory none = first_time db s text directory

  -- The source with its text, directory and beginning.
  pub record Begin : Type 0 where
    pub source : Source
    pub text : Text
    pub directory : Snapshot
    pub begun : Begun

  unfoldable pub begin : Database → Raising Begin
  unfolding replay first_time
  begin db = do
    s ← source_for db r.actor_id r.workspace_id r.source_id editor
    check (s.analysis_mode == agent_mode) invalid_source
    check (s.review_revision == r.expected_revision) stale_revision
    text ← source_text s
    directory ← directory_of db s
    begun ← started db s text directory s.analysis_checkpoint
    returns (record { source = s; text = text; directory = directory; begun = begun })

  abbrev pub with_checkpoint : Checkpoint → ProcessingStage → Source → Source
  with_checkpoint c stage s = record s { analysis_checkpoint = some c; processing_stage = stage }

  abbrev pub done_source : Source → Checkpoint → List Text → Source
  done_source s c warnings = record s {
    analysis_checkpoint = some (record c { phase = Phase.done; warnings = warnings });
    status = SourceStatus.succeeded;
    processing_stage = ProcessingStage.completed;
    progress = 100;
  }

  -- After the graph store's answer, the analysis is done.
  abbrev pub finish_with : Option (List Text) → Database → Source → Checkpoint → List Text → Run
  finish_with none db s c warnings = stops uncaught
  finish_with (some answers) db s c warnings =
      commit
        (audited r.actor_id r.workspace_id (codes "analysis.completed") s.id
          (put_source (done_source s c (warnings ++ answers)) db))
        (
          [],
          returns (record {
            source_id = s.id;
            warnings = warnings ++ answers;
            already_applied = false;
          }),
        )

  unfoldable pub finish_analysis : Database → Source → Checkpoint → List Text → Run
  finish_analysis db s c warnings = finish_with r.graph db s c warnings

  abbrev pub applied_to : Text → ExtractionResult → Database → Source → Option (Tables × List Text)
  applied_to subject result db s =
      keyless_apply world.unicode world.calendar world.uuid_text r.workspace_id s.owner_id s.id
        s.title subject result r.now db.tables

  -- The context rows and the phase are committed together.
  unfoldable pub save_context : Database → Source → Checkpoint → Tables × List Text → Run
  unfolding finish_analysis
  save_context db s c applied =
      let c' = record c { phase = Phase.context_applied; context_warnings = applied.1 } in
      let s' = with_checkpoint c' ProcessingStage.graphing s in
      let db' = record (put_source s' db) { tables = applied.0 } in
      commit db' (finish_analysis db' s' c' applied.1)

  unfoldable pub apply_context : Text → ExtractionResult → Database → Source → Checkpoint → Run
  unfolding save_context
  apply_context subject result db s c =
      and_then (required (applied_to subject result db s) uncaught) (save_context db s c)

  -- The extraction with the directory's people, and the identifiers of the directory to trust.
  abbrev pub canonicalized : Begin → ExtractionResult → ExtractionResult × List Text
  canonicalized b result =
      canonicalize world.unicode world.uuid_text result (some b.directory) b.text

  abbrev pub canonical : Begin → ExtractionResult → ExtractionResult
  canonical b result = (canonicalized b result).0

  -- The graph of the extraction, which is made before the first checkpoint.
  abbrev pub resolved : Begin → ExtractionResult → Option ResolvedGraph
  resolved b result =
      resolve_extraction world.unicode world.uuid_text world.calendar world.uuid5 world.isoformat
        r.workspace_id b.source.id none none (canonicalized b result).1 (canonical b result)

  unfoldable pub first_checkpoint : Database → Begin → ExtractionResult → Checkpoint
  first_checkpoint db b result = record {
    agent = true;
    fingerprint = source_fingerprint world.hash b.source b.text b.directory;
    context_fingerprint = some r.expected_fingerprint;
    decision_fingerprint =
        some (decision_fingerprint world.hash (current_decisions r.workspace_id db.tables.stores));
    result_hash = some (result_fingerprint world.hash r.supplied.classification result);
    phase = Phase.extracted;
    result = canonical b result;
    context_warnings = [];
    warnings = [];
  }

  -- The chunks and the status are committed, then the extraction.
  unfoldable pub extract : Database → Begin → ExtractionResult → List Chunk → Run
  unfolding apply_context first_checkpoint
  extract db b result chunks =
      let s' = record b.source {
        status = SourceStatus.processing;
        processing_stage = ProcessingStage.analyzing;
      } in
      let db' = record (put_source s' db) { chunks = chunks } in
      let c = first_checkpoint db' b result in
      let s'' = with_checkpoint c ProcessingStage.analyzing s' in
      let db'' = put_source s'' db' in
      commit db' (
        and_then (workspace_for db' r.actor_id r.workspace_id editor) (λ w.
          and_then (required (resolved b result) uncaught)
            (λ _. commit db'' (apply_context w.name (canonical b result) db'' s'' c))))

  -- What follows a beginning, under the workspace's name.
  unfoldable pub continued : Database → Begin → Begun → Run
  unfolding finish_analysis apply_context extract
  continued db b (replayed warnings) = (
    [],
    returns (record { source_id = b.source.id; warnings = warnings; already_applied = true }),
  )
  continued db b (fresh result chunks) = extract db b result chunks
  continued db b (extracted_before c) =
      and_then (workspace_for db r.actor_id r.workspace_id editor)
        (λ w. apply_context w.name (canonical b c.result) db b.source c)
  continued db b (applied_before c) =
      and_then (workspace_for db r.actor_id r.workspace_id editor)
        (λ _. finish_analysis db b.source c c.context_warnings)

  abbrev pub continue_with : Database → Begin → Run
  continue_with db b = continued db b b.begun

  unfoldable pub submit_analysis : Database → Run
  unfolding begin continued
  submit_analysis db = and_then (begin db) (continue_with db)

-- The database after a process that died having reached at most `n` of the commits.
abbrev pub last_of : Database → List Database → Database
last_of db [] = db
last_of db (next ∷ rest) = last_of next rest

-- ===== src/Analysis/Context.antt =====
-- `analysis_context` of backend/app/modules/agent_workflows/service.py, without the JSON schemas, and
-- the submission that answers it.
use maeglagi.Base.{
  ℕ, ◌≡◌, refl, ap, ◌∙◌, sym, subst, true, none, some, List, ◌==◌, nat_eq, list_eq, option_eq,
  list_beq_iff, nat_beq_iff,
}
use maeglagi.Base.Results.{returns, ◌>>=◌, ◌>>◌, check, bind_inv, check_inv, bind_of, check_of}
use maeglagi.Base.Rows.{find}
use maeglagi.Base.Text.{Text}
use maeglagi.Extraction.{ExtractionResult}
use maeglagi.Access.{viewer, editor}
use maeglagi.Sources.{Source, Database, Snapshot, Chunk, source_key}
use maeglagi.Validation.{
  accepted, validate_extraction, invalid_source, stale_revision, stale_context,
}
use maeglagi.Keyless.{current_decisions}
use maeglagi.Agents.{Raising, source_for, agent_mode, meeting_kind, role_of, has_level}
use maeglagi.Agents.Reading.{SourceInfo, source_info}
use maeglagi.Agents.Rights.{Reaches, source_for_inv, source_for_of}
use maeglagi.Agents.Refusals.{may}
use maeglagi.Analysis.{source_text, context_fingerprint, index_source_text}
use maeglagi.Analysis.Submission.{
  World, Request, directory_of, validated_of, first_time, started, begin, fresh,
}

pub record AnalysisContext : Type 0 where
  pub source : SourceInfo
  pub text : Text
  pub fingerprint : ℕ
  pub known_decisions : List Text
  pub directory : Snapshot

module _ (world : World) where
  unfoldable pub analysis_context : ℕ → ℕ → ℕ → Database → Raising AnalysisContext
  analysis_context actor_id workspace_id source_id db = do
    s ← source_for db actor_id workspace_id source_id viewer
    check (s.analysis_mode == agent_mode) invalid_source
    text ← source_text s
    let known = current_decisions workspace_id db.tables.stores
    directory ← directory_of db s
    returns (record {
      source = source_info world.uuid_text s;
      text = text;
      fingerprint = context_fingerprint world.hash s text known directory;
      known_decisions = known;
      directory = directory;
    })

  -- What a context that is returned has been made of.
  pub record Shows (s : Source) (workspace_id : ℕ) (db : Database) (context : AnalysisContext)
      : Type 0 where
    pub agent : s.analysis_mode ≡ agent_mode
    pub readable : source_text s ≡ returns context.text
    pub seen : directory_of db s ≡ returns context.directory
    pub known : current_decisions workspace_id db.tables.stores ≡ context.known_decisions
    pub fingerprint :
        context_fingerprint world.hash s context.text context.known_decisions context.directory
        ≡ context.fingerprint
    pub revision : s.review_revision ≡ context.source.revision

  analysis_context_inv :
      (actor_id workspace_id source_id : ℕ) (db : Database) {context : AnalysisContext}
      → analysis_context actor_id workspace_id source_id db ≡ returns context
      → (s : Source) × Reaches db actor_id workspace_id source_id viewer s
        × Shows s workspace_id db context
  unfolding analysis_context source_info
  analysis_context_inv actor_id workspace_id source_id db {context} h =
      let (s, reached, h₁) = bind_inv (source_for db actor_id workspace_id source_id viewer) _ h in
      let (agent, h₂) = check_inv (s.analysis_mode == agent_mode) invalid_source _ h₁ in
      let (text, readable, h₃) = bind_inv (source_text s) _ h₂ in
      let (directory, seen, h₄) = bind_inv (directory_of db s) _ h₃ in
      (
        s,
        source_for_inv db actor_id workspace_id source_id viewer reached,
        record {
          agent = (list_beq_iff s.analysis_mode agent_mode).0 agent;
          readable = readable ∙ cc;
          seen = seen ∙ cc;
          known = cc;
          fingerprint = cc;
          revision = cc;
        },
      )

  first_time_of :
      (r : Request) (db : Database) (s : Source) (text : Text) (directory : Snapshot)
      {result : ExtractionResult} {chunks : List Chunk}
      → r.expected_fingerprint
        ≡ context_fingerprint world.hash s text
            (current_decisions r.workspace_id db.tables.stores)
            directory
      → validate_extraction world.unicode r.supplied.size r.supplied.decoded
          (s.kind == meeting_kind)
          r.supplied.is_meeting
          text
          (current_decisions r.workspace_id db.tables.stores)
        ≡ accepted result
      → index_source_text s.transcript_source none world.segment_id world.uuid_text world.chunk_size
          world.chunk_overlap s text db.chunks
        ≡ returns chunks
      → first_time world r db s text directory ≡ returns (fresh result chunks)
  unfolding first_time
  first_time_of r db s text directory same valid indexed =
      check_of _ stale_context _ ((nat_beq_iff r.expected_fingerprint _).1 same)
        (bind_of _ _ (ap validated_of valid) (bind_of _ _ indexed refl))

  -- A submission by an editor under the revision and the fingerprint of an analysis context, read by
  -- anyone from the same database, begins on a source without a checkpoint whenever its result is valid
  -- for the text and the decisions of that context and the text can be indexed.
  pub context_is_accepted :
      (reader_id : ℕ) (r : Request) (db : Database) {context : AnalysisContext} {s : Source}
      {result : ExtractionResult} {chunks : List Chunk}
      → analysis_context reader_id r.workspace_id r.source_id db ≡ returns context
      → may db r.actor_id r.workspace_id editor ≡ true
      → r.expected_revision ≡ context.source.revision
      → r.expected_fingerprint ≡ context.fingerprint
      → find source_key r.source_id db.sources ≡ some s
      → s.analysis_checkpoint ≡ none
      → validate_extraction world.unicode r.supplied.size r.supplied.decoded
          (s.kind == meeting_kind)
          r.supplied.is_meeting
          context.text
          context.known_decisions
        ≡ accepted result
      → index_source_text s.transcript_source none world.segment_id world.uuid_text world.chunk_size
          world.chunk_overlap s context.text db.chunks
        ≡ returns chunks
      → begin world r db
        ≡ returns (record {
          source = s;
          text = context.text;
          directory = context.directory;
          begun = fresh result chunks;
        })
  unfolding begin
  context_is_accepted reader_id r db {context} {s} {result} {chunks} read editing revision
        fingerprint found absent valid indexed =
      let (s', reached, shows) =
        analysis_context_inv reader_id r.workspace_id r.source_id db read in
      let same : s' ≡ s = cc (found, reached.found) in
      let there : Reaches db reader_id r.workspace_id r.source_id viewer s =
        subst (Reaches db reader_id r.workspace_id r.source_id viewer) same reached in
      let shown : Shows s r.workspace_id db context =
        subst (λ x. Shows x r.workspace_id db context) same shows in
      let right : has_level editor (role_of there.workspace r.actor_id db.members) ≡ true =
        rw (there.stored, may) at editing in
      let first =
        first_time_of r db s context.text context.directory
          (fingerprint
            ∙ sym shown.fingerprint
            ∙ ap (λ k. context_fingerprint world.hash s context.text k context.directory)
                (sym shown.known))
          (subst
            (λ k.
              validate_extraction world.unicode r.supplied.size r.supplied.decoded
                (s.kind == meeting_kind) r.supplied.is_meeting context.text k
              ≡ accepted result)
            (sym shown.known) valid)
          indexed in
      bind_of _ _ (source_for_of r.actor_id editor there right) (
        check_of _ invalid_source _ ((list_beq_iff s.analysis_mode agent_mode).1 shown.agent) (
          check_of _ stale_revision _
            ((nat_beq_iff s.review_revision r.expected_revision).1 (shown.revision ∙ sym revision))
            (bind_of _ _ shown.readable (
              bind_of _ _ shown.seen (
                bind_of _ _
                  (subst
                    (λ o.
                      started world r db s context.text context.directory o
                      ≡ returns (fresh result chunks))
                    (sym absent) first)
                  refl)))))

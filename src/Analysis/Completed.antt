-- ===== src/Analysis/Completed.antt =====
-- A submission that begins ends with the analysis done, if the graph store answers and no date
-- overflows.
use maeglagi.Base.{ℕ, ◌≡◌, refl, sym, subst, true, false, none, some, List, ◌++◌}
use maeglagi.Base.Results.{returns, required}
use maeglagi.Base.Rows.{find}
use maeglagi.Base.Text.{Text}
use maeglagi.States.{SourceStatus, ProcessingStage}
use maeglagi.Extraction.{ExtractionResult}
use maeglagi.Access.{editor}
use maeglagi.Sources.{Source, Database, Checkpoint, Phase, Chunk, source_key}
use maeglagi.Validation.{uncaught}
use maeglagi.Store.Service.{Tables}
use maeglagi.Store.Timeline.{events_overflow}
use maeglagi.Keyless.{keyless_apply-returns}
use maeglagi.Resolution.Returns.{relations_overflow, resolve_extraction-returns}
use maeglagi.Agents.{Raising, workspace_for, put_source}
use maeglagi.Agents.Rights.{workspace_for_of, workspace_for_same}
use maeglagi.Analysis.Submission.{
  World, Request, Run, AnalysisSubmission, and_then, Begun, replayed, extracted_before,
  applied_before, fresh, Begin, begin, canonicalized, canonical, resolved, applied_to, save_context,
  with_checkpoint, first_checkpoint, done_source, finish_with, commit, finish_analysis,
  apply_context, extract, continued, continue_with, submit_analysis, last_of,
}
use maeglagi.Analysis.Merged.{find-put_source}
use maeglagi.Analysis.Begun.{Fits, Begins, begin_inv}

-- The run returns, and leaves the source with an analysis that is done, with the same warnings.
pub record Completes (source_id : ℕ) (db : Database) (run : Run) : Type 0 where
  pub answer : AnalysisSubmission
  pub returned : run.1 ≡ returns answer
  pub source : Source
  pub found : find source_key source_id (last_of db run.0).sources ≡ some source
  pub checkpoint : Checkpoint
  pub has : source.analysis_checkpoint ≡ some checkpoint
  pub finished : checkpoint.phase ≡ Phase.done
  pub warnings : checkpoint.warnings ≡ answer.warnings

module _ (world : World) (r : Request) where
  -- No date of the result overflows in UTC.
  abbrev pub InRange : ExtractionResult → Type 0
  InRange result =
      (events_overflow world.calendar result.events ≡ false)
      × (relations_overflow world.calendar result.relations ≡ false)

  -- Nor one of the result that is still to be resolved or applied after such a beginning.
  abbrev pub DatesInRange : Begin world r → Begun → Type 0
  DatesInRange b (fresh result chunks) = InRange (canonical world r b result)
  DatesInRange b (extracted_before c) = InRange (canonical world r b c.result)
  DatesInRange b _ = Unit

module _ (world : World) (r : Request) {answers : List Text} (graph : r.graph ≡ some answers) where
  finish_analysis-Completes :
      (db : Database) (s : Source) (c : Checkpoint) (warnings : List Text) {old : Source}
      → find source_key s.id db.sources ≡ some old
      → Completes s.id db (finish_analysis world r db s c warnings)
  unfolding finish_analysis
  finish_analysis-Completes db s c warnings found =
      let s' = done_source world r s c (warnings ++ answers) in
      subst (λ g. Completes s.id db (finish_with world r g db s c warnings)) (sym graph)
        (record {
          answer = record {
            source_id = s.id;
            warnings = warnings ++ answers;
            already_applied = false;
          };
          returned = refl;
          source = s';
          found = find-put_source db s' found refl;
          checkpoint = record c { phase = Phase.done; warnings = warnings ++ answers };
          has = refl;
          finished = refl;
          warnings = refl;
        })

  -- A commit more in front.
  commit-Completes :
      {source_id : ℕ} (db next : Database) (run : Run)
      → Completes source_id next run
      → Completes source_id db (commit next run)
  commit-Completes db next run c = record {
    answer = c.answer;
    returned = c.returned;
    source = c.source;
    found = c.found;
    checkpoint = c.checkpoint;
    has = c.has;
    finished = c.finished;
    warnings = c.warnings;
  }

  and_then-Completes :
      {A : Type 0} {source_id : ℕ} (db : Database) (m : Raising A) (rest : A → Run) {a : A}
      → m ≡ returns a
      → Completes source_id db (rest a)
      → Completes source_id db (and_then m rest)
  and_then-Completes {A} {source_id} db m rest h c =
      subst (λ m. Completes source_id db (and_then m rest)) (sym h) c

  save_context-Completes :
      (db : Database) (s : Source) (c : Checkpoint) (after : Tables × List Text) {old : Source}
      → find source_key s.id db.sources ≡ some old
      → Completes s.id db (save_context world r db s c after)
  unfolding save_context
  save_context-Completes db s c after found =
      let c' = record c { phase = Phase.context_applied; context_warnings = after.1 } in
      let s' = with_checkpoint world r c' ProcessingStage.graphing s in
      let db' : Database = record (put_source s' db) { tables = after.0 } in
      commit-Completes db db' (finish_analysis world r db' s' c' after.1)
        (finish_analysis-Completes db' s' c' after.1 (find-put_source db s' found refl))

  apply_context-Completes :
      (subject : Text) (result : ExtractionResult) (db : Database) (s : Source) (c : Checkpoint)
      {old : Source}
      → find source_key s.id db.sources ≡ some old
      → events_overflow world.calendar result.events ≡ false
      → Completes s.id db (apply_context world r subject result db s c)
  unfolding apply_context
  apply_context-Completes subject result db s c found fine =
      let (after, applied) =
        keyless_apply-returns world.unicode world.calendar world.uuid_text r.workspace_id s.owner_id
          s.id s.title subject result r.now db.tables fine in
      and_then-Completes db (required (applied_to world r subject result db s) uncaught)
        (save_context world r db s c) (rw applied refl) (save_context-Completes db s c after found)

  extract-Completes :
      (db : Database) (b : Begin world r) (result : ExtractionResult) (chunks : List Chunk)
      → Begins world r db b
      → find source_key b.source.id db.sources ≡ some b.source
      → InRange world r (canonical world r b result)
      → Completes b.source.id db (extract world r db b result chunks)
  unfolding extract
  extract-Completes db b result chunks i found fine =
      let s' : Source = record b.source {
        status = SourceStatus.processing;
        processing_stage = ProcessingStage.analyzing;
      } in
      let db' : Database = record (put_source s' db) { chunks = chunks } in
      let c = first_checkpoint world r db' b result in
      let s'' = with_checkpoint world r c ProcessingStage.analyzing s' in
      let db'' = put_source s'' db' in
      let w = i.reached.workspace in
      let rest = apply_context world r w.name (canonical world r b result) db'' s'' c in
      commit-Completes db db' _ (
        and_then-Completes db' (workspace_for db' r.actor_id r.workspace_id editor) _
          (workspace_for_same db db' r.actor_id r.workspace_id editor refl refl
            (workspace_for_of i.reached))
          (let (g, made) =
              resolve_extraction-returns world.unicode world.uuid_text world.calendar world.uuid5
                world.isoformat r.workspace_id b.source.id none none
                (canonicalized world r b result).1 (canonical world r b result) fine.0 fine.1 in
            and_then-Completes db' (required (resolved world r b result) uncaught)
              (λ _. commit db'' rest) {a = g} (rw made refl)
              (commit-Completes db' db'' rest (
                apply_context-Completes w.name (canonical world r b result) db'' s'' c
                  (find-put_source db' s'' (find-put_source db s' found refl) refl) fine.0))))

  continued-Completes :
      (db : Database) (b : Begin world r) (begun : Begun)
      → Begins world r db b
      → find source_key b.source.id db.sources ≡ some b.source
      → Fits b.source.analysis_checkpoint begun
      → DatesInRange world r b begun
      → Completes b.source.id db (continued world r db b begun)
  unfolding continued
  continued-Completes db b (fresh result chunks) i found fits fine =
      extract-Completes db b result chunks i found fine
  continued-Completes db b (replayed warnings) i found fits fine =
      let (c, has, finished, same) = fits in
      record {
        answer = record { source_id = b.source.id; warnings = warnings; already_applied = true };
        returned = refl;
        source = b.source;
        found = found;
        checkpoint = c;
        has = has;
        finished = finished;
        warnings = sym same;
      }
  continued-Completes db b (extracted_before c) i found fits fine =
      and_then-Completes db (workspace_for db r.actor_id r.workspace_id editor) _
        (workspace_for_of i.reached)
        (apply_context-Completes i.reached.workspace.name (canonical world r b c.result) db b.source
          c found fine.0)
  continued-Completes db b (applied_before c) i found fits fine =
      and_then-Completes db (workspace_for db r.actor_id r.workspace_id editor) _
        (workspace_for_of i.reached)
        (finish_analysis-Completes db b.source c c.context_warnings found)

  -- A submission that passes its checks, fresh, resumed after a crash or repeated, returns if the graph
  -- store answers and no date of the result that it has yet to resolve or apply overflows in UTC, and
  -- after its last commit the source has an analysis that is done with the returned warnings.
  pub submission-Completes :
      (db : Database) {b : Begin world r}
      → begin world r db ≡ returns b
      → DatesInRange world r b b.begun
      → Completes r.source_id db (submit_analysis world r db)
  unfolding submit_analysis
  submission-Completes db {b} began fine =
      let i = begin_inv world r db began in
      and_then-Completes db (begin world r db) (continue_with world r db) began (
        subst (λ k. Completes k db (continue_with world r db b)) i.reached.named
          (continued-Completes db b b.begun i
            (subst (λ k. find source_key k db.sources ≡ some b.source) (sym i.reached.named)
              i.reached.found)
            i.fits fine))

-- ===== src/Analysis/Merged.antt =====
-- An analysis is merged into the context once, however often it is submitted and wherever a
-- submission dies.
use maeglagi.Base.{
  ℕ, ◌≡◌, refl, ◌∙◌, subst, Option, none, some, List, ◌++◌, nat_eq, option_eq, list_eq, All,
  ==-refl,
}
use maeglagi.Base.Results.{returns, raises, required, required-some}
use maeglagi.Base.Rows.{find, find-overwrite}
use maeglagi.Base.Text.{Text}
use maeglagi.States.{SourceStatus, ProcessingStage}
use maeglagi.Extraction.{ExtractionResult}
use maeglagi.Access.{editor}
use maeglagi.Store.Service.{Tables}
use maeglagi.Validation.{uncaught}
use maeglagi.Sources.{Source, Database, Checkpoint, Phase, Chunk, source_key}
use maeglagi.Keyless.{keyless_apply}
use maeglagi.Agents.{Raising, workspace_for, put_source}
use maeglagi.Analysis.Submission.{
  World, Request, Run, and_then, Begin, with_checkpoint, first_checkpoint, done_source, finish_with,
  finish_analysis, applied_to, save_context, apply_context, canonical, resolved, extract,
}

-- One application of a result to the tables.
pub record Application : Type 0 where
  pub workspace_id : ℕ
  pub owner_id : ℕ
  pub title : Text
  pub subject : Text
  pub result : ExtractionResult
  pub now : ℕ

abbrev pub applied_with_warnings : World → ℕ → Application → Tables → Option (Tables × List Text)
applied_with_warnings world source_id a tables =
    keyless_apply world.unicode world.calendar world.uuid_text a.workspace_id a.owner_id source_id
      a.title a.subject a.result a.now tables

-- The application succeeds on the tables before, and gives the tables after.
abbrev pub AppliedOnce : World → ℕ → Application → Tables → Tables → Type 0
AppliedOnce world source_id a before after =
    (warnings : List Text) × (applied_with_warnings world source_id a before
      ≡ some (after, warnings))

abbrev pub ByPhase : World → ℕ → Tables → Tables → Phase → Type 0
ByPhase world source_id start tables Phase.extracted = tables ≡ start
ByPhase world source_id start tables Phase.context_applied =
    (a : Application) × AppliedOnce world source_id a start tables
ByPhase world source_id start tables Phase.done =
    (a : Application) × AppliedOnce world source_id a start tables

-- Since a time when the tables were `start`, the analysis with the checkpoint has been applied to them
-- once if its phase says so, and not yet if not.
abbrev pub StandsAt : World → ℕ → Tables → Tables → Option Checkpoint → Type 0
StandsAt world source_id start tables none = tables ≡ start
StandsAt world source_id start tables (some c) = ByPhase world source_id start tables c.phase

pub standing_extracted :
    (world : World) (start : Tables) (source_id : ℕ) (tables : Tables) (c : Checkpoint)
    → c.phase ≡ Phase.extracted
    → StandsAt world source_id start tables (some c)
    → tables ≡ start
standing_extracted world start source_id tables c p st =
    subst (λ q. ByPhase world source_id start tables q) p st

pub standing_applied :
    (world : World) (start : Tables) (source_id : ℕ) (tables : Tables) (c : Checkpoint)
    → c.phase ≡ Phase.context_applied
    → StandsAt world source_id start tables (some c)
    → (a : Application) × AppliedOnce world source_id a start tables
standing_applied world start source_id tables c p st =
    subst (λ q. ByPhase world source_id start tables q) p st

pub record Stands (world : World) (source_id : ℕ) (start : Tables) (db : Database) : Type 0 where
  pub source : Source
  pub found : find source_key source_id db.sources ≡ some source
  pub stands : StandsAt world source_id start db.tables source.analysis_checkpoint

-- Every commit of a run that follows a call.
pub and_then-All :
    {A : Type 0} (P : Database → Type 0) (m : Raising A) (rest : A → Run)
    → ((a : A) → m ≡ returns a → All P (rest a).0)
    → All P (and_then m rest).0
and_then-All P (raises e) rest h = tt
and_then-All P (returns a) rest h = h a refl

pub find-put_source :
    (db : Database) {source_id : ℕ} {old : Source} (s : Source)
    → find source_key source_id db.sources ≡ some old
    → s.id ≡ source_id
    → find source_key source_id (put_source s db).sources ≡ some s
find-put_source db {source_id} {old} s found named =
    find-overwrite source_key s source_id db.sources {old = old} (rw named found)
    ∙ rw (named, ==-refl source_id) refl

Stands-of :
    (world : World) (start : Tables) (db after : Database) (s : Source) {old : Source}
    → find source_key s.id db.sources ≡ some old
    → after.sources ≡ (put_source s db).sources
    → StandsAt world s.id start after.tables s.analysis_checkpoint
    → Stands world s.id start after
Stands-of world start db after s found written stands = record {
  source = s;
  found = rw written (find-put_source db s found refl);
  stands = stands;
}

module _ (world : World) (r : Request) (start : Tables) where
  finish_with-Stands :
      (graph : Option (List Text)) (db : Database) (s : Source) (c : Checkpoint)
      (warnings : List Text) {old : Source} (a : Application)
      → find source_key s.id db.sources ≡ some old
      → AppliedOnce world s.id a start db.tables
      → All (Stands world s.id start) (finish_with world r graph db s c warnings).0
  finish_with-Stands none db s c warnings a found once = tt
  finish_with-Stands (some answers) db s c warnings a found once = (
    Stands-of world start db _ (done_source world r s c (warnings ++ answers)) found refl (a, once),
    tt,
  )

  pub finish_analysis-Stands :
      (db : Database) (s : Source) (c : Checkpoint) (warnings : List Text) {old : Source}
      (a : Application)
      → find source_key s.id db.sources ≡ some old
      → AppliedOnce world s.id a start db.tables
      → All (Stands world s.id start) (finish_analysis world r db s c warnings).0
  unfolding finish_analysis
  finish_analysis-Stands db s c warnings a found once =
      finish_with-Stands r.graph db s c warnings a found once

  save_context-Stands :
      (subject : Text) (result : ExtractionResult) (db : Database) (s : Source) (c : Checkpoint)
      {old : Source} (after : Tables × List Text)
      → find source_key s.id db.sources ≡ some old
      → db.tables ≡ start
      → applied_to world r subject result db s ≡ some after
      → All (Stands world s.id start) (save_context world r db s c after).0
  unfolding save_context
  save_context-Stands subject result db s c after found same applies =
      let applied : Application = record {
        workspace_id = r.workspace_id;
        owner_id = s.owner_id;
        title = s.title;
        subject = subject;
        result = result;
        now = r.now;
      } in
      let c' = record c { phase = Phase.context_applied; context_warnings = after.1 } in
      let s' = with_checkpoint world r c' ProcessingStage.graphing s in
      let db' : Database = record (put_source s' db) { tables = after.0 } in
      let once : AppliedOnce world s.id applied start db'.tables = (
        after.1,
        subst (λ t. applied_with_warnings world s.id applied t ≡ some after) same applies,
      ) in
      (
        Stands-of world start db db' s' found refl (applied, once),
        finish_analysis-Stands db' s' c' after.1 applied (find-put_source db s' found refl) once,
      )

  pub apply_context-Stands :
      (subject : Text) (result : ExtractionResult) (db : Database) (s : Source) (c : Checkpoint)
      {old : Source}
      → find source_key s.id db.sources ≡ some old
      → db.tables ≡ start
      → All (Stands world s.id start) (apply_context world r subject result db s c).0
  unfolding apply_context
  apply_context-Stands subject result db s c found same =
      and_then-All (Stands world s.id start)
        (required (applied_to world r subject result db s) uncaught) (save_context world r db s c)
        (λ after applies.
          save_context-Stands subject result db s c after found same
            (required-some _ uncaught applies))

  pub extract-Stands :
      (db : Database) (b : Begin world r) (result : ExtractionResult) (chunks : List Chunk)
      {old : Source}
      → find source_key b.source.id db.sources ≡ some old
      → b.source.analysis_checkpoint ≡ none
      → db.tables ≡ start
      → All (Stands world b.source.id start) (extract world r db b result chunks).0
  unfolding extract
  extract-Stands db b result chunks found absent same =
      let s' : Source = record b.source {
        status = SourceStatus.processing;
        processing_stage = ProcessingStage.analyzing;
      } in
      let db' : Database = record (put_source s' db) { chunks = chunks } in
      let c = first_checkpoint world r db' b result in
      let s'' = with_checkpoint world r c ProcessingStage.analyzing s' in
      let db'' = put_source s'' db' in
      let found' = find-put_source db s' found refl in
      let found'' = find-put_source db' s'' found' refl in
      (
        Stands-of world start db db' s' found refl (rw absent same),
        and_then-All (Stands world b.source.id start)
            (workspace_for db' r.actor_id r.workspace_id editor) _
            (λ w reached.
              and_then-All (Stands world b.source.id start)
                (required (resolved world r b result) uncaught) _
                (λ _ made. (
                  Stands-of world start db' db'' s'' found' refl same,
                  apply_context-Stands w.name (canonical world r b result) db'' s'' c found'' same,
                ))),
      )

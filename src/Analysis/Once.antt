-- ===== src/Analysis/Once.antt =====
-- Any number of submissions of one source, each dying anywhere.
use maeglagi.Base.{
  ℕ, ◌≡◌, refl, ap, ◌∙◌, sym, subst, ◌⊎◌, inl, inr, true, Option, none, some, List, [], ◌∷◌, All,
  All-take, take,
}
use maeglagi.Base.Results.{returns, raises, Outcome-cases}
use maeglagi.Base.Rows.{find}
use maeglagi.Access.{editor}
use maeglagi.Store.Service.{Tables}
use maeglagi.Sources.{Source, Database, Checkpoint, Phase, source_key}
use maeglagi.Validation.{WorkflowError}
use maeglagi.Agents.{workspace_for}
use maeglagi.Analysis.Submission.{
  World, Request, AnalysisSubmission, and_then, Begun, replayed, extracted_before, applied_before,
  fresh, Begin, begin, canonical, continued, continue_with, submit_analysis, last_of,
}
use maeglagi.Analysis.Merged.{
  and_then-All, StandsAt, Stands, finish_analysis-Stands, apply_context-Stands, extract-Stands,
  standing_extracted, standing_applied,
}
use maeglagi.Analysis.Begun.{Fits, begin_inv}

-- Submissions one after the other; the process of each may die after some of its commits, and goes
-- to its end if their number is large.
pub record Attempt : Type 0 where
  pub request : Request
  pub reached : ℕ

unfoldable pub attempts : World → List Attempt → Database → Database
attempts world [] db = db
attempts world (a ∷ rest) db =
    attempts world rest (last_of db (take a.reached (submit_analysis world a.request db).0))

last_of-All :
    (P : Database → Type 0) (db : Database) (dbs : List Database)
    → P db
    → All P dbs
    → P (last_of db dbs)
last_of-All P db [] h a = h
last_of-All P db (next ∷ dbs) h a = last_of-All P next dbs a.0 a.1

module _ (world : World) (start : Tables) where
  continued-Stands :
      (r : Request) (db : Database) (b : Begin world r) (o : Option Checkpoint) (begun : Begun)
      → find source_key b.source.id db.sources ≡ some b.source
      → b.source.analysis_checkpoint ≡ o
      → Fits o begun
      → StandsAt world b.source.id start db.tables o
      → All (Stands world b.source.id start) (continued world r db b begun).0
  unfolding continued
  continued-Stands r db b o (replayed warnings) found has fits stands = tt
  continued-Stands r db b o (fresh result chunks) found has fits stands =
      extract-Stands world r start db b result chunks found (has ∙ fits)
        (subst (StandsAt world b.source.id start db.tables) fits stands)
  continued-Stands r db b o (extracted_before c) found has fits stands =
      let same =
        standing_extracted world start b.source.id db.tables c fits.1
          (subst (StandsAt world b.source.id start db.tables) fits.0 stands) in
      and_then-All (Stands world b.source.id start)
        (workspace_for db r.actor_id r.workspace_id editor) _
        (λ w reached.
          apply_context-Stands world r start w.name (canonical world r b c.result) db b.source c
            found same)
  continued-Stands r db b o (applied_before c) found has fits stands =
      let (a, once) =
        standing_applied world start b.source.id db.tables c fits.1
          (subst (StandsAt world b.source.id start db.tables) fits.0 stands) in
      and_then-All (Stands world b.source.id start)
        (workspace_for db r.actor_id r.workspace_id editor) _
        (λ w reached.
          finish_analysis-Stands world r start db b.source c c.context_warnings a found once)

  continue_with-Stands :
      (r : Request) (db : Database) (b : Begin world r)
      → find source_key b.source.id db.sources ≡ some b.source
      → Fits b.source.analysis_checkpoint b.begun
      → StandsAt world b.source.id start db.tables b.source.analysis_checkpoint
      → All (Stands world b.source.id start) (continue_with world r db b).0
  continue_with-Stands r db b found fits stands =
      continued-Stands r db b b.source.analysis_checkpoint b.begun found refl fits stands

  -- A submission keeps what stands, at each of its commits.
  submit_analysis-Stands :
      (r : Request) (db : Database)
      → Stands world r.source_id start db
      → All (Stands world r.source_id start) (submit_analysis world r db).0
  unfolding submit_analysis
  submit_analysis-Stands r db st =
      and_then-All (Stands world r.source_id start) (begin world r db) _ (λ b began.
        let i = begin_inv world r db began in
        let same : st.source ≡ b.source = cc (st.found, i.reached.found) in
        subst (λ k. All (Stands world k start) (continue_with world r db b).0) i.reached.named
          (continue_with-Stands r db b
            (subst (λ k. find source_key k db.sources ≡ some b.source) (sym i.reached.named)
              i.reached.found)
            i.fits
            (subst (λ k. StandsAt world k start db.tables b.source.analysis_checkpoint)
              (sym i.reached.named)
              (subst
                (λ (s : Source). StandsAt world r.source_id start db.tables s.analysis_checkpoint)
                same st.stands))))

  attempts-Stands :
      (source_id : ℕ) (made : List Attempt) (db : Database)
      → All (λ a. a.request.source_id ≡ source_id) made
      → Stands world source_id start db
      → Stands world source_id start (attempts world made db)
  unfolding attempts
  attempts-Stands source_id [] db h st = st
  attempts-Stands source_id (a ∷ made) db h st =
      let dbs = (submit_analysis world a.request db).0 in
      attempts-Stands source_id made (last_of db (take a.reached dbs)) h.1 (
        last_of-All (Stands world source_id start) db (take a.reached dbs) st (
          All-take (Stands world source_id start) a.reached dbs (
            subst (λ k. All (Stands world k start) dbs) h.0
              (submit_analysis-Stands a.request db (rw h.0 st)))))

replayed-lem :
    (world : World) (r : Request) (db : Database) (b : Begin world r) (begun : Begun) {s : Source}
    {c : Checkpoint}
    → Fits s.analysis_checkpoint begun
    → b.source ≡ s
    → s.analysis_checkpoint ≡ some c
    → c.phase ≡ Phase.done
    → continued world r db b begun
      ≡ ([], returns (record { source_id = s.id; warnings = c.warnings; already_applied = true }))
unfolding continued
replayed-lem world r db b (fresh result chunks) fits same has finished = cc
replayed-lem world r db b (extracted_before c') fits same has finished = cc
replayed-lem world r db b (applied_before c') fits same has finished = cc
replayed-lem world r db b (replayed warnings) fits same has finished =
    let (c', has', finished', known) = fits in cc

-- However often the analysis of a source without a checkpoint is submitted, by whomever and with
-- whatever results, and wherever the submissions die, the source is there in the end, and the context
-- tables are as they were if its checkpoint is missing or in its first phase, and are those after
-- exactly one application of a result if it is in a later one.
pub merged_once :
    (world : World) (source_id : ℕ) (made : List Attempt) (db : Database) {s : Source}
    → All (λ a. a.request.source_id ≡ source_id) made
    → find source_key source_id db.sources ≡ some s
    → s.analysis_checkpoint ≡ none
    → Stands world source_id db.tables (attempts world made db)
merged_once world source_id made db {s} same found fresh_source =
    attempts-Stands world db.tables source_id made db same (record {
      source = s;
      found = found;
      stands = subst (StandsAt world source_id db.tables db.tables) (sym fresh_source) refl;
    })

abbrev pub already : Source → Checkpoint → AnalysisSubmission
already s c = record { source_id = s.id; warnings = c.warnings; already_applied = true }

-- A submission to a source whose analysis is done commits nothing: it raises, or it gives the stored
-- warnings back as already applied.
pub done_is_final :
    (world : World) (r : Request) (db : Database) {s : Source} {c : Checkpoint}
    → find source_key r.source_id db.sources ≡ some s
    → s.analysis_checkpoint ≡ some c
    → c.phase ≡ Phase.done
    → (submit_analysis world r db ≡ ([], returns (already s c)))
      ⊎ ((e : WorkflowError) × (submit_analysis world r db ≡ ([], raises e)))
unfolding submit_analysis
done_is_final world r db {s} {c} found has finished = elim (Outcome-cases (begin world r db)) [
  | inl (e, refused) ↦ inr (e, rw refused refl)
  | inr (b, began) ↦
      let i = begin_inv world r db began in
      let same : b.source ≡ s = cc (found, i.reached.found) in
      inl (
        ap (λ m. and_then m (continue_with world r db)) began
        ∙ replayed-lem world r db b b.begun
            (subst (λ (x : Source). Fits x.analysis_checkpoint b.begun) same i.fits) same has
            finished)
]

-- ===== src/Analysis/Begun.antt =====
-- What the beginning of a submission that returns has found.
use maeglagi.Base.{
  ℕ, ◌≡◌, refl, sym, subst, ◌&&◌, Option, none, some, List, arith, ◌==◌, nat_eq, option_eq, list_eq,
  nat_beq_iff, list_beq_iff, option_beq_iff,
}
use maeglagi.Base.Results.{returns, bind_inv, check_inv, required_inv}
use maeglagi.Base.Text.{Text}
use maeglagi.Access.{editor}
use maeglagi.Sources.{Source, Database, Snapshot, Checkpoint, Phase, Chunk}
use maeglagi.Validation.{
  validate_extraction, invalid_source, invalid_analysis, stale_revision, stale_context,
  analysis_conflict,
}
use maeglagi.Extraction.{ExtractionResult}
use maeglagi.Keyless.{current_decisions}
use maeglagi.Agents.{source_for, agent_mode, meeting_kind}
use maeglagi.Agents.Rights.{Reaches, source_for_inv}
use maeglagi.Analysis.{
  source_text, source_fingerprint, context_fingerprint, result_fingerprint, index_source_text,
}
use maeglagi.Analysis.Submission.{
  World, Request, Begun, replayed, extracted_before, applied_before, fresh, resumed, directory_of,
  validated_of, replay, first_time, started, Begin, begin,
}

-- How a beginning follows from the source's checkpoint.
abbrev pub Fits : Option Checkpoint → Begun → Type 0
Fits o (fresh result chunks) = o ≡ none
Fits o (extracted_before c) = (o ≡ some c) × (c.phase ≡ Phase.extracted)
Fits o (applied_before c) = (o ≡ some c) × (c.phase ≡ Phase.context_applied)
Fits o (replayed warnings) =
    (c : Checkpoint) × (o ≡ some c) × (c.phase ≡ Phase.done) × (warnings ≡ c.warnings)

resumed-Fits :
    (o : Option Checkpoint) (c : Checkpoint) (p : Phase)
    → o ≡ some c
    → c.phase ≡ p
    → Fits o (resumed p c)
resumed-Fits o c Phase.extracted h g = (h, g)
resumed-Fits o c Phase.context_applied h g = (h, g)
resumed-Fits o c Phase.done h g = (c, h, g, refl)

module _ (world : World) (r : Request) where
  pub replay_inv :
      (current : ℕ) (c : Checkpoint) {b : Begun}
      → replay world r current c ≡ returns b
      → (result : ExtractionResult) × (r.supplied.decoded ≡ some result)
        × (c.fingerprint ≡ current)
        × (c.context_fingerprint ≡ some r.expected_fingerprint)
        × (c.result_hash ≡ some (result_fingerprint world.hash r.supplied.classification result))
        × (b ≡ resumed c.phase c)
  unfolding replay
  replay_inv current c {b} h =
      let (same, h₁) =
        check_inv
          (c.agent
            && c.fingerprint == current
            && c.context_fingerprint == some r.expected_fingerprint)
          analysis_conflict _ h in
      let (result, decoded, h₂) = required_inv r.supplied.decoded invalid_analysis _ h₁ in
      let (hashed, h₃) =
        check_inv
          (c.result_hash == some (result_fingerprint world.hash r.supplied.classification result))
          analysis_conflict _ h₂ in
      (
        result,
        decoded,
        ground (arith, nat_beq_iff c.fingerprint current),
        ground (arith, option_beq_iff c.context_fingerprint (some r.expected_fingerprint)),
        (option_beq_iff c.result_hash
              (some (result_fingerprint world.hash r.supplied.classification result))).0
            hashed,
        cc,
      )

  first_time_inv :
      (db : Database) (s : Source) (text : Text) (directory : Snapshot) {b : Begun}
      → first_time world r db s text directory ≡ returns b
      → (result : ExtractionResult) × (chunks : List Chunk) × (b ≡ fresh result chunks)
  unfolding first_time
  first_time_inv db s text directory h =
      let known = current_decisions r.workspace_id db.tables.stores in
      let (current, h₁) =
        check_inv (r.expected_fingerprint == context_fingerprint world.hash s text known directory)
          stale_context _ h in
      let (result, valid, h₂) =
        bind_inv
          (validated_of (
            validate_extraction world.unicode r.supplied.size r.supplied.decoded
              (s.kind == meeting_kind) r.supplied.is_meeting text known))
          _ h₁ in
      let (chunks, indexed, h₃) =
        bind_inv
          (index_source_text s.transcript_source none world.segment_id world.uuid_text
            world.chunk_size world.chunk_overlap s text db.chunks)
          _ h₂ in
      (result, chunks, cc)

  pub record Begins (db : Database) (b : Begin world r) : Type 0 where
    pub reached : Reaches db r.actor_id r.workspace_id r.source_id editor b.source
    pub agent : b.source.analysis_mode ≡ agent_mode
    pub current : b.source.review_revision ≡ r.expected_revision
    pub readable : source_text b.source ≡ returns b.text
    pub seen : directory_of db b.source ≡ returns b.directory
    pub fits : Fits b.source.analysis_checkpoint b.begun

  started-Fits :
      (db : Database) (s : Source) (text : Text) (directory : Snapshot) (o : Option Checkpoint)
      {b : Begun}
      → started world r db s text directory o ≡ returns b
      → Fits o b
  started-Fits db s text directory none h =
      let (result, chunks, same) = first_time_inv db s text directory h in
      subst (Fits none) (sym same) refl
  started-Fits db s text directory (some c) h =
      let (_, _, _, _, _, same) = replay_inv (source_fingerprint world.hash s text directory) c h in
      subst (Fits (some c)) (sym same) (resumed-Fits (some c) c c.phase refl refl)

  pub begin_inv : (db : Database) {b : Begin world r} → begin world r db ≡ returns b → Begins db b
  unfolding begin
  begin_inv db {b} h =
      let (s, reached, h₁) =
        bind_inv (source_for db r.actor_id r.workspace_id r.source_id editor) _ h in
      let (agent, h₂) = check_inv (s.analysis_mode == agent_mode) invalid_source _ h₁ in
      let (current, h₃) =
        check_inv (s.review_revision == r.expected_revision) stale_revision _ h₂ in
      let (text, readable, h₄) = bind_inv (source_text s) _ h₃ in
      let (directory, seen, h₅) = bind_inv (directory_of db s) _ h₄ in
      let (begun, start, h₆) =
        bind_inv (started world r db s text directory s.analysis_checkpoint) _ h₅ in
      let found : Begin world r = record {
        source = s;
        text = text;
        directory = directory;
        begun = begun;
      } in
      let same : found ≡ b = cc in
      subst (Begins db) same (record {
        reached = source_for_inv db r.actor_id r.workspace_id r.source_id editor reached;
        agent = (list_beq_iff s.analysis_mode agent_mode).0 agent;
        current = (nat_beq_iff s.review_revision r.expected_revision).0 current;
        readable = readable;
        seen = seen;
        fits = started-Fits db s text directory s.analysis_checkpoint start;
      })

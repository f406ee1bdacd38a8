-- ===== src/Agents/Rows.antt =====
-- The row that an edit writes: what it needs, what it keeps, and that it shuts out a second edit of
-- the same revision.
use maeglagi.Base.{
  ℕ, ◌+◌, ◌≡◌, refl, ◌⊎◌, inl, inr, true, some, List, map, arith, ◌==◌, nat_eq, option_eq, list_eq,
  leb, nat_beq_iff, length, list_beq_iff, option_beq_iff, subst,
}
use maeglagi.Base.Results.{returns, bind_inv, check_inv, required_inv}
use maeglagi.Base.Text.{Text}
use maeglagi.States.{ReviewState, review_eq}
use maeglagi.Sources.{Source, Database, Utterance, Snapshot}
use maeglagi.Validation.{stale_revision, invalid_transcript, review_closed}
use maeglagi.Agents.{agent_mode, meeting_kind, document_kind}
use maeglagi.Agents.Directory.{directory_snapshot}
use maeglagi.Agents.Editing.{
  edit_document, clean_all, no_repeat, awaits_review, with_utterances, edit_transcript, confirmable,
  confirmed,
}
use maeglagi.Agents.Edits.{Call, text_edit, transcript_edit, confirmation, expected_of, edit}

-- The identity of a row.
pub record Same (s row : Source) : Type 0 where
  pub id : row.id ≡ s.id
  pub workspace_id : row.workspace_id ≡ s.workspace_id
  pub owner_id : row.owner_id ≡ s.owner_id
  pub kind : row.kind ≡ s.kind
  pub mode : row.analysis_mode ≡ s.analysis_mode
  pub checkpoint : row.analysis_checkpoint ≡ s.analysis_checkpoint

-- The edited row has the next revision, or is a meeting whose review is over.
pub record Rewrites (expected_revision : ℕ) (s row : Source) : Type 0 where
  pub same : Same s row
  pub agent : s.analysis_mode ≡ agent_mode
  pub current : s.review_revision ≡ expected_revision
  pub moved :
      (row.review_revision ≡ expected_revision + 1)
      ⊎ ((s.kind ≡ meeting_kind) × (row.review_state ≡ some ReviewState.confirmed))

edit_document_inv :
    (limit expected_revision : ℕ) (text : Text) (s : Source) {row : Source}
    → edit_document limit expected_revision text s ≡ returns row
    → Rewrites expected_revision s row
unfolding edit_document
edit_document_inv limit expected_revision text s {row} h = ground (
  arith,
  list_beq_iff s.analysis_mode agent_mode,
  nat_beq_iff s.review_revision expected_revision,
)

pub awaits_review_inv :
    (s : Source)
    → awaits_review s ≡ true
    → (s.analysis_mode ≡ agent_mode)
      × (s.kind ≡ meeting_kind)
      × (s.review_state ≡ some ReviewState.awaiting_review)
awaits_review_inv s h = ground (
  arith,
  list_beq_iff s.analysis_mode agent_mode,
  list_beq_iff s.kind meeting_kind,
  option_beq_iff s.review_state (some ReviewState.awaiting_review),
)

with_utterances-Rewrites :
    (checked : List Utterance) (expected_revision : ℕ) (s : Source)
    → s.analysis_mode ≡ agent_mode
    → s.review_revision ≡ expected_revision
    → Rewrites expected_revision s (with_utterances checked s)
unfolding with_utterances
with_utterances-Rewrites checked expected_revision s agent current = ground arith

edit_transcript_inv :
    (expected_revision : ℕ) (utterances : List Utterance) (s : Source) {row : Source}
    → edit_transcript expected_revision utterances s ≡ returns row
    → Rewrites expected_revision s row
unfolding edit_transcript
edit_transcript_inv expected_revision utterances s {row} h =
    let (open_review, h₁) = check_inv (awaits_review s) review_closed _ h in
    let (current, h₂) = check_inv (s.review_revision == expected_revision) stale_revision _ h₁ in
    let (short, h₃) = check_inv (leb (length utterances) 1000) invalid_transcript _ h₂ in
    let (checked, read, h₄) = required_inv (clean_all utterances) invalid_transcript _ h₃ in
    let (fresh, h₅) =
      check_inv (no_repeat (map (λ (i : Utterance). i.id) checked)) invalid_transcript _ h₄ in
    subst (Rewrites expected_revision s) (ground arith) (
      with_utterances-Rewrites checked expected_revision s (awaits_review_inv s open_review).0
        ((nat_beq_iff s.review_revision expected_revision).0 current))

confirmable_inv :
    (expected_revision : ℕ) (s : Source) {utterances : List Utterance}
    → confirmable expected_revision s ≡ returns utterances
    → (awaits_review s ≡ true) × (s.review_revision ≡ expected_revision)
unfolding confirmable
confirmable_inv expected_revision s h =
    let (open_review, h₁) = check_inv (awaits_review s) review_closed _ h in
    let (current, h₂) = check_inv (s.review_revision == expected_revision) stale_revision _ h₁ in
    (open_review, (nat_beq_iff s.review_revision expected_revision).0 current)

confirmed-Rewrites :
    (utterances : List Utterance) (snapshot : Snapshot) (now expected_revision : ℕ) (s : Source)
    → awaits_review s ≡ true
    → s.review_revision ≡ expected_revision
    → Rewrites expected_revision s (confirmed utterances snapshot now s)
unfolding confirmed
confirmed-Rewrites utterances snapshot now expected_revision s open_review current =
    let (agent, meeting, awaiting) = awaits_review_inv s open_review in
    record {
      same = record {
        id = refl;
        workspace_id = refl;
        owner_id = refl;
        kind = refl;
        mode = refl;
        checkpoint = refl;
      };
      agent = agent;
      current = current;
      moved = inr (meeting, refl);
    }

pub edit_inv :
    (c : Call) (db : Database) (s : Source) {row : Source}
    → edit c db s ≡ returns row
    → Rewrites (expected_of c) s row
unfolding edit
edit_inv (text_edit limit expected_revision text) db s h =
    edit_document_inv limit expected_revision text s h
edit_inv (transcript_edit expected_revision utterances) db s h =
    edit_transcript_inv expected_revision utterances s h
edit_inv (confirmation expected_revision now) db s h =
    let (utterances, kept, h₁) = bind_inv (confirmable expected_revision s) _ h in
    let (snapshot, taken, h₂) = bind_inv (directory_snapshot db s) _ h₁ in
    let (open_review, current) = confirmable_inv expected_revision s kept in
    subst (Rewrites expected_revision s) (ground arith)
      (confirmed-Rewrites utterances snapshot now expected_revision s open_review current)

-- An edit that returns needs a document, or a meeting that awaits review.
edit-open :
    (c : Call) (db : Database) (s : Source) {row : Source}
    → edit c db s ≡ returns row
    → (s.kind ≡ document_kind) ⊎ (s.review_state ≡ some ReviewState.awaiting_review)
unfolding edit edit_document edit_transcript
edit-open (text_edit limit expected_revision text) db s h =
    inl (ground (arith, list_beq_iff s.kind document_kind))
edit-open (transcript_edit expected_revision utterances) db s h =
    inr (awaits_review_inv s (check_inv (awaits_review s) review_closed _ h).0).2
edit-open (confirmation expected_revision now) db s h =
    let (utterances, kept, h₁) = bind_inv (confirmable expected_revision s) _ h in
    inr (awaits_review_inv s (confirmable_inv expected_revision s kept).0).2

-- The row of an edit takes no other edit of the same revision.
pub edit-once :
    (c c' : Call) (db db' : Database) (s : Source) {row next : Source}
    → expected_of c' ≡ expected_of c
    → edit c db s ≡ returns row
    → edit c' db' row ≡ returns next
    → ⊥
edit-once c c' db db' s {row} {next} same_revision first second =
    let r = edit_inv c db s first in
    let r' = edit_inv c' db' row second in
    elim r.moved [
      | inl raised ↦ omega arith
      | inr (meeting, closed) ↦ elim (edit-open c' db' row second) [
        | inl document ↦ cc (r.same.kind, meeting, document)
        | inr awaiting ↦ cc (closed, awaiting)
      ]
    ]

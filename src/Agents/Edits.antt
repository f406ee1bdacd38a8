-- ===== src/Agents/Edits.antt =====
-- The three edits of a source as one kind of call, and what a call that returns has done.
use maeglagi.Base.{ℕ, ◌≡◌, refl, List, nat_eq, option_eq, list_eq}
use maeglagi.Base.Results.{returns, ◌>>=◌, bind_inv}
use maeglagi.Base.Text.{Text, codes}
use maeglagi.States.{review_eq}
use maeglagi.Access.{editor}
use maeglagi.Sources.{Source, Database, Utterance, SourcePerson, Snapshot}
use maeglagi.Agents.{Raising, source_for, put_source, audited}
use maeglagi.Agents.Directory.{directory_snapshot, replace_participants}
use maeglagi.Agents.Editing.{
  edit_document, edit_transcript, confirmable, confirmed, save_document_text, save_transcript,
  confirm_transcript,
}
use maeglagi.Agents.Rights.{Reaches, source_for_inv}

pub data Call : Type 0 where
  text_edit : ℕ → ℕ → Text → Call
  transcript_edit : ℕ → List Utterance → Call
  confirmation : ℕ → ℕ → Call

abbrev pub expected_of : Call → ℕ
expected_of (text_edit limit expected_revision text) = expected_revision
expected_of (transcript_edit expected_revision utterances) = expected_revision
expected_of (confirmation expected_revision now) = expected_revision

-- The row that the call writes.
unfoldable pub edit : Call → Database → Source → Raising Source
edit (text_edit limit expected_revision text) db s = edit_document limit expected_revision text s
edit (transcript_edit expected_revision utterances) db s =
    edit_transcript expected_revision utterances s
edit (confirmation expected_revision now) db s = do
  utterances ← confirmable expected_revision s
  snapshot ← directory_snapshot db s
  returns (confirmed utterances snapshot now s)

abbrev pub call : ℕ → ℕ → ℕ → Call → Database → Raising Database
call actor_id workspace_id source_id (text_edit limit expected_revision text) db =
    save_document_text actor_id workspace_id source_id limit expected_revision text db
call actor_id workspace_id source_id (transcript_edit expected_revision utterances) db =
    save_transcript actor_id workspace_id source_id expected_revision utterances db
call actor_id workspace_id source_id (confirmation expected_revision now) db =
    confirm_transcript actor_id workspace_id source_id expected_revision now db

-- What a call that returns has done to the database.
pub record Edits (actor_id workspace_id source_id : ℕ) (c : Call) (db after : Database)
    : Type 0 where
  pub source : Source
  pub reached : Reaches db actor_id workspace_id source_id editor source
  pub row : Source
  pub made : edit c db source ≡ returns row
  pub sources : after.sources ≡ (put_source row db).sources
  pub workspaces : after.workspaces ≡ db.workspaces
  pub members : after.members ≡ db.members
  pub people : after.people ≡ db.people
  pub chunks : after.chunks ≡ db.chunks
  pub tables : after.tables ≡ db.tables

edit-confirmation :
    (expected_revision now : ℕ) (db : Database) (s : Source) {utterances : List Utterance}
    {snapshot : Snapshot}
    → confirmable expected_revision s ≡ returns utterances
    → directory_snapshot db s ≡ returns snapshot
    → edit (confirmation expected_revision now) db s ≡ returns (confirmed utterances snapshot now s)
unfolding edit
edit-confirmation expected_revision now db s kept taken = rw (kept, taken) refl

Edits-of :
    (actor_id workspace_id source_id : ℕ) (c : Call) (db : Database) {after : Database}
    (action : Text) (participants : List SourcePerson) {s row : Source}
    → source_for db actor_id workspace_id source_id editor ≡ returns s
    → edit c db s ≡ returns row
    → ◌≡◌ {A = Raising Database}
        (returns (
          audited actor_id workspace_id action s.id
            (record (put_source row db) { source_people = participants })))
        (returns after)
    → Edits actor_id workspace_id source_id c db after
Edits-of actor_id workspace_id source_id c db action participants {s} {row} reached made h =
    record {
      source = s;
      reached = source_for_inv db actor_id workspace_id source_id editor reached;
      row = row;
      made = made;
      sources = cc;
      workspaces = cc;
      members = cc;
      people = cc;
      chunks = cc;
      tables = cc;
    }

pub call_inv :
    (actor_id workspace_id source_id : ℕ) (c : Call) (db : Database) {after : Database}
    → call actor_id workspace_id source_id c db ≡ returns after
    → Edits actor_id workspace_id source_id c db after
unfolding save_document_text save_transcript confirm_transcript edit
call_inv actor_id workspace_id source_id (text_edit limit expected_revision text) db h =
    let (s, reached, h₁) =
      bind_inv (source_for db actor_id workspace_id source_id editor)
        (λ s. edit_document limit expected_revision text s >>= λ edited.
          returns
            (audited actor_id workspace_id (codes "source.edited") s.id (put_source edited db)))
        h in
    let (row, made, h₂) =
      bind_inv (edit_document limit expected_revision text s)
        (λ edited.
          returns
            (audited actor_id workspace_id (codes "source.edited") s.id (put_source edited db)))
        h₁ in
    Edits-of actor_id workspace_id source_id (text_edit limit expected_revision text) db
      (codes "source.edited") db.source_people reached made h₂
call_inv actor_id workspace_id source_id (transcript_edit expected_revision utterances) db h =
    let (s, reached, h₁) =
      bind_inv (source_for db actor_id workspace_id source_id editor)
        (λ s. edit_transcript expected_revision utterances s >>= λ edited.
          returns
            (audited actor_id workspace_id (codes "transcript.edited") s.id (put_source edited db)))
        h in
    let (row, made, h₂) =
      bind_inv (edit_transcript expected_revision utterances s)
        (λ edited.
          returns
            (audited actor_id workspace_id (codes "transcript.edited") s.id (put_source edited db)))
        h₁ in
    Edits-of actor_id workspace_id source_id (transcript_edit expected_revision utterances) db
      (codes "transcript.edited") db.source_people reached made h₂
call_inv actor_id workspace_id source_id (confirmation expected_revision now) db h =
    let (s, reached, h₁) =
      bind_inv (source_for db actor_id workspace_id source_id editor)
        (λ s. confirmable expected_revision s >>= λ utterances.
          directory_snapshot db s >>= λ snapshot.
          returns (confirmation_of s (confirmed utterances snapshot now s)))
        h in
    let (utterances, kept, h₂) =
      bind_inv (confirmable expected_revision s)
        (λ utterances. directory_snapshot db s >>= λ snapshot.
          returns (confirmation_of s (confirmed utterances snapshot now s)))
        h₁ in
    let (snapshot, taken, h₃) =
      bind_inv (directory_snapshot db s)
        (λ snapshot. returns (confirmation_of s (confirmed utterances snapshot now s))) h₂ in
    Edits-of actor_id workspace_id source_id (confirmation expected_revision now) db
      (codes "source.confirmed")
      (replace_participants (confirmed utterances snapshot now s) db.source_people) reached
      (edit-confirmation expected_revision now db s kept taken) h₃
  where
    confirmation_of : Source → Source → Database
    confirmation_of s edited =
        audited actor_id workspace_id (codes "source.confirmed") s.id
          (record (put_source edited db) {
            source_people = replace_participants edited db.source_people;
          })

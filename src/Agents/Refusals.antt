-- ===== src/Agents/Refusals.antt =====
-- The errors of the service: who is refused, and with which answer.
use maeglagi.Base.{
  ℕ, ◌≡◌, refl, inl, inr, Bool, true, false, ◌&&◌, none, some, arith, ◌==◌, nat_eq, if◌then◌else◌,
  Bool-cases,
}
use maeglagi.Base.Results.{raises}
use maeglagi.Base.Rows.{find}
use maeglagi.Access.{Role, editor, workspace_key}
use maeglagi.Sources.{Database, source_key}
use maeglagi.Validation.{WorkflowError, workspace_not_found, source_not_found}
use maeglagi.Agents.{role_of, has_level, workspace_for, source_for}
use maeglagi.Agents.Creation.{NewSource, create_source}
use maeglagi.Agents.Edits.{Call, text_edit, transcript_edit, confirmation, call}
use maeglagi.Agents.Editing.{save_document_text, save_transcript, confirm_transcript}

-- The workspace is there and the actor has the role in it.
abbrev pub may : Database → ℕ → ℕ → Role → Bool
may db actor_id workspace_id minimum = elim (find workspace_key workspace_id db.workspaces) [
  | none ↦ false
  | some w ↦ has_level minimum (role_of w actor_id db.members)
]

-- The source is there, in the workspace and of its owner.
abbrev pub holds : Database → ℕ → ℕ → Bool
holds db workspace_id source_id = elim (find workspace_key workspace_id db.workspaces) [
  | none ↦ false
  | some w ↦ elim (find source_key source_id db.sources) [
    | none ↦ false
    | some s ↦ s.owner_id == w.owner_id && s.workspace_id == workspace_id
  ]
]

workspace_for-refused :
    (db : Database) (actor_id workspace_id : ℕ) (minimum : Role)
    → may db actor_id workspace_id minimum ≡ false
    → workspace_for db actor_id workspace_id minimum ≡ raises workspace_not_found
unfolding workspace_for
workspace_for-refused db actor_id workspace_id minimum h = ground arith

source_for-refused :
    (db : Database) (actor_id workspace_id source_id : ℕ) (minimum : Role)
    → may db actor_id workspace_id minimum ≡ false
    → source_for db actor_id workspace_id source_id minimum ≡ raises workspace_not_found
unfolding source_for
source_for-refused db actor_id workspace_id source_id minimum h =
    rw (workspace_for-refused db actor_id workspace_id minimum h) refl

source_for-missing :
    (db : Database) (actor_id workspace_id source_id : ℕ) (minimum : Role)
    → may db actor_id workspace_id minimum ≡ true
    → holds db workspace_id source_id ≡ false
    → source_for db actor_id workspace_id source_id minimum ≡ raises source_not_found
unfolding source_for workspace_for
source_for-missing db actor_id workspace_id source_id minimum h g = ground arith

call-raises :
    (actor_id workspace_id source_id : ℕ) (c : Call) (db : Database) {e : WorkflowError}
    → source_for db actor_id workspace_id source_id editor ≡ raises e
    → call actor_id workspace_id source_id c db ≡ raises e
unfolding save_document_text save_transcript confirm_transcript
call-raises actor_id workspace_id source_id (text_edit limit expected_revision text) db h =
    rw h refl
call-raises actor_id workspace_id source_id (transcript_edit expected_revision utterances) db h =
    rw h refl
call-raises actor_id workspace_id source_id (confirmation expected_revision now) db h = rw h refl

-- An edit of a source by an actor without at least the role of an editor in a workspace that is there
-- raises workspace_not_found, whatever else it is given; with that role, an edit of a source that is
-- not there, or not the workspace's and its owner's, raises source_not_found.
pub refusals :
    (actor_id workspace_id source_id : ℕ) (c : Call) (db : Database)
    → (may db actor_id workspace_id editor && holds db workspace_id source_id) ≡ false
    → call actor_id workspace_id source_id c db
      ≡ raises
          (if may db actor_id workspace_id editor then source_not_found else workspace_not_found)
refusals actor_id workspace_id source_id c db h =
    elim (Bool-cases (may db actor_id workspace_id editor)) [
      | inl inside ↦ rw inside (
          call-raises actor_id workspace_id source_id c db
            (source_for-missing db actor_id workspace_id source_id editor inside (rw inside at h)))
      | inr outside ↦ rw outside (
          call-raises actor_id workspace_id source_id c db
            (source_for-refused db actor_id workspace_id source_id editor outside))
    ]

-- So is the creation of a source.
create_source-refused :
    (actor_id workspace_id : ℕ) (n : NewSource) (db : Database)
    → may db actor_id workspace_id editor ≡ false
    → create_source actor_id workspace_id n db ≡ raises workspace_not_found
unfolding create_source
create_source-refused actor_id workspace_id n db h =
    rw (workspace_for-refused db actor_id workspace_id editor h) refl

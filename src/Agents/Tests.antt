-- ===== src/Agents/Tests.antt =====
-- A workspace of user 1 with a viewer, a document that awaits its agent and a meeting that awaits its
-- review.
use maeglagi.Base.{◌≡◌, refl, none, some, [], ◌∷◌, map}
use maeglagi.Base.Results.{IsRaised, returns, raises}
use maeglagi.Base.Text.{codes, is_space, strip}
use maeglagi.States.{SourceStatus, ReviewState, ProcessingStage}
use maeglagi.Access.{viewer}
use maeglagi.Sources.{Source, Utterance, Database, clean, source_key}
use maeglagi.Validation.{workspace_not_found}
use maeglagi.Agents.{
  Raising, agent_mode, meeting_kind, document_kind, source_for, workspace_for, role_of, member_role,
}
use maeglagi.Agents.Creation.{create_text_source, create_source, new_source}
use maeglagi.Agents.Directory.{directory_snapshot, replace_participants}
use maeglagi.Agents.Editing.{
  edit_document, utf8_size, save_document_text, confirmable, confirmed, confirm_transcript,
}
use maeglagi.Agents.Edits.{text_edit, confirmation, call}
use maeglagi.Agents.Once.{Changes, call_lem, second_call_raises}
use maeglagi.Agents.Refusals.{refusals}

abbrev pub memo : Source
memo = record {
  id = 7;
  workspace_id = 5;
  owner_id = 1;
  kind = document_kind;
  title = codes "memo";
  object_path = codes "inline:7";
  content_type = codes "text/plain";
  size_bytes = 5;
  analysis_mode = agent_mode;
  transcript_source = none;
  transcript_text = none;
  raw_transcript_text = none;
  raw_utterances = [];
  review_utterances = [];
  review_state = none;
  review_revision = 0;
  project_id = none;
  association_revision = 0;
  confirmed_at = none;
  confirmed_snapshot = none;
  content_text = some (codes "We use B.");
  analysis_checkpoint = none;
  status = SourceStatus.awaiting_agent;
  processing_stage = ProcessingStage.awaiting_agent;
  progress = 0;
}

abbrev said : Utterance
said = record {
  id = codes "u1";
  person_id = none;
  speaker_name = codes "Kim";
  text = codes "Yes.";
  start_seconds = none;
  end_seconds = none;
}

abbrev talk : Source
talk = record memo {
  id = 8;
  kind = meeting_kind;
  content_text = none;
  review_utterances = said ∷ [];
  review_state = some ReviewState.awaiting_review;
  status = SourceStatus.awaiting_review;
  processing_stage = ProcessingStage.awaiting_review;
}

abbrev pub database : Database
database = record {
  workspaces = record { id = 5; owner_id = 1; name = codes "team" } ∷ [];
  members =
      record {
        workspace_id = 5;
        user_id = some 2;
        email = codes "b@x";
        email_normalized = codes "b@x";
        role = viewer;
        invited_by = 1;
        joined_at = some 1;
      }
      ∷ [];
  people = [];
  projects = [];
  project_members = [];
  sources = memo ∷ talk ∷ [];
  source_people = [];
  source_projects = [];
  chunks = [];
  tables = record { stores = []; contexts = [] };
  audit = [];
}

abbrev after_edit : Raising Database
after_edit = call 1 5 7 (text_edit 100 0 (codes " C. ")) database

abbrev taken : Raising Database → Database
taken (returns db) = db
taken (raises e) = database

text_edit_returns : after_edit ≡ returns (taken after_edit)
unfolding save_document_text edit_document utf8_size source_for role_of member_role strip is_space
text_edit_returns = refl

call_lem_example : Changes 1 5 7 (text_edit 100 0 (codes " C. ")) database (taken after_edit)
call_lem_example =
    call_lem 1 5 7 (text_edit 100 0 (codes " C. ")) database {after = taken after_edit}
      text_edit_returns

abbrev after_confirmation : Raising Database
after_confirmation = call 1 5 8 (confirmation 0 99) database

confirmation_returns : after_confirmation ≡ returns (taken after_confirmation)
unfolding confirm_transcript confirmable confirmed directory_snapshot clean replace_participants
    source_for role_of member_role strip is_space
confirmation_returns = refl

-- A second confirmation, at the same revision.
second_call_raises_example : IsRaised (call 1 5 8 (confirmation 0 100) (taken after_confirmation))
second_call_raises_example =
    second_call_raises 1 5 1 5 8 (confirmation 0 99) (confirmation 0 100) database
      {after = taken after_confirmation} confirmation_returns refl

-- A viewer.
may_not_edit : call 2 5 7 (text_edit 100 0 []) database ≡ raises workspace_not_found
unfolding save_document_text source_for role_of member_role
may_not_edit = refl

refusals_example : call 3 5 7 (text_edit 100 0 []) database ≡ raises workspace_not_found
unfolding role_of
refusals_example = refusals 3 5 7 (text_edit 100 0 []) database refl

abbrev note : Database → Raising Database
note db =
    create_text_source 100 1 5 9 (codes "inline:9") (codes "note") (codes "Hi.") document_kind [] db

note_is_created : map source_key (taken (note database)).sources ≡ 7 ∷ 8 ∷ 9 ∷ []
unfolding create_text_source create_source new_source workspace_for role_of utf8_size strip is_space
note_is_created = refl

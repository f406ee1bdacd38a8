-- ===== src/Agents/Editing.antt =====
-- The edits of a source: `save_document_text`, `save_transcript` and `confirm_transcript` of
-- backend/app/modules/agent_workflows/service.py, on one row and in the database.
use maeglagi.Base.{
  ℕ, ◌+◌, Bool, true, false, not, ◌&&◌, Option, none, some, List, [], ◌∷◌, ◌++◌, map, ◌==◌, nat_eq,
  option_eq, list_eq, leb, ltb, length, select, contains, if◌then◌else◌,
}
use maeglagi.Base.Results.{returns, ◌>>=◌, ◌>>◌, check, required}
use maeglagi.Base.Text.{Text, codes, is_empty, strip}
use maeglagi.States.{SourceStatus, ReviewState, ProcessingStage, review_eq}
use maeglagi.Access.{editor}
use maeglagi.Sources.{Source, Utterance, Database, Snapshot, clean}
use maeglagi.Validation.{
  invalid_source, already_analyzed, stale_revision, invalid_text, review_closed, invalid_transcript,
  text_required, uncaught,
}
use maeglagi.Agents.{
  Raising, source_for, put_source, audited, agent_mode, meeting_kind, document_kind,
}
use maeglagi.Agents.Directory.{directory_snapshot, replace_participants}

-- `len(text.encode())`
unfoldable pub utf8_size : Text → ℕ
utf8_size [] = 0
utf8_size (c ∷ s) =
    (if ltb c 128 then 1 else if ltb c 2048 then 2 else if ltb c 65536 then 3 else 4) + utf8_size s

abbrev pub is_none {ℓ} : {A : Type ℓ} → Option A → Bool
is_none none = true
is_none (some a) = false

-- The row after `save_document_text`; `limit` is `max_upload_bytes`.
unfoldable pub edit_document : ℕ → ℕ → Text → Source → Raising Source
edit_document limit expected_revision text s = do
  check (s.analysis_mode == agent_mode && s.kind == document_kind) invalid_source
  check (is_none s.analysis_checkpoint) already_analyzed
  check (s.review_revision == expected_revision) stale_revision
  check (not (is_empty (strip text)) && leb (utf8_size text) limit) invalid_text
  returns (record s {
    content_text = some (strip text);
    review_revision = s.review_revision + 1;
    status = SourceStatus.awaiting_agent;
    processing_stage = ProcessingStage.awaiting_agent;
  })

-- `sep.join(parts)`
pub joined : Text → List Text → Text
joined sep [] = []
joined sep (p ∷ []) = p
joined sep (p ∷ q ∷ parts) = p ++ sep ++ joined sep (q ∷ parts)

abbrev pub blank_line : Text
blank_line = 10 ∷ 10 ∷ []

pub clean_all : List Utterance → Option (List Utterance)
clean_all [] = some []
clean_all (item ∷ items) = elim (clean item) [
  | none ↦ none
  | some checked ↦ elim (clean_all items) [ none ↦ none | some rest ↦ some (checked ∷ rest) ]
]

-- No id is met twice.
pub no_repeat : List Text → Bool
no_repeat [] = true
no_repeat (id ∷ ids) = not (contains id ids) && no_repeat ids

abbrev pub awaits_review : Source → Bool
awaits_review s =
    s.analysis_mode == agent_mode
    && s.kind == meeting_kind
    && s.review_state == some ReviewState.awaiting_review

-- The row with the checked utterances; the first ones are kept as the raw transcript.
unfoldable pub with_utterances : List Utterance → Source → Source
unfolding joined
with_utterances checked s =
    let edited = record s {
      review_utterances = checked;
      review_revision = s.review_revision + 1;
    } in
    elim s.raw_transcript_text [
      | some _ ↦ edited
      | none ↦ record edited {
        raw_transcript_text = some (
            joined blank_line
              (select (λ t. not (is_empty t)) (map (λ (i : Utterance). i.text) checked)));
        raw_utterances = checked;
      }
    ]

-- The row after `save_transcript`.
unfoldable pub edit_transcript : ℕ → List Utterance → Source → Raising Source
unfolding clean_all no_repeat with_utterances
edit_transcript expected_revision utterances s = do
  check (awaits_review s) review_closed
  check (s.review_revision == expected_revision) stale_revision
  check (leb (length utterances) 1000) invalid_transcript
  checked ← required (clean_all utterances) invalid_transcript
  check (no_repeat (map (λ (i : Utterance). i.id) checked)) invalid_transcript
  returns (with_utterances checked s)

abbrev pub spoken : Utterance → Bool
spoken item = not (is_empty (strip item.text))

abbrev pub line : Utterance → Text
line item = item.speaker_name ++ codes ": " ++ item.text

abbrev pub is_nil {ℓ} : {A : Type ℓ} → List A → Bool
is_nil [] = true
is_nil (x ∷ xs) = false

-- The utterances that `confirm_transcript` keeps.
unfoldable pub confirmable : ℕ → Source → Raising (List Utterance)
unfolding clean_all
confirmable expected_revision s = do
  check (awaits_review s) review_closed
  check (s.review_revision == expected_revision) stale_revision
  utterances ← required (clean_all (select spoken s.review_utterances)) uncaught
  check (not (is_nil utterances)) text_required
  returns utterances

unfoldable pub confirmed : List Utterance → Snapshot → ℕ → Source → Source
unfolding joined
confirmed utterances snapshot now s = record s {
  transcript_text = some (joined blank_line (map line utterances));
  review_utterances = utterances;
  confirmed_snapshot = some snapshot;
  confirmed_at = some now;
  association_revision = s.association_revision + 1;
  review_state = some ReviewState.confirmed;
  status = SourceStatus.awaiting_agent;
  processing_stage = ProcessingStage.awaiting_agent;
}

module _ (actor_id workspace_id source_id : ℕ) where
  unfoldable pub save_document_text : ℕ → ℕ → Text → Database → Raising Database
  unfolding edit_document
  save_document_text limit expected_revision text db = do
    s ← source_for db actor_id workspace_id source_id editor
    edited ← edit_document limit expected_revision text s
    returns (audited actor_id workspace_id (codes "source.edited") s.id (put_source edited db))

  unfoldable pub save_transcript : ℕ → List Utterance → Database → Raising Database
  unfolding edit_transcript
  save_transcript expected_revision utterances db = do
    s ← source_for db actor_id workspace_id source_id editor
    edited ← edit_transcript expected_revision utterances s
    returns (audited actor_id workspace_id (codes "transcript.edited") s.id (put_source edited db))

  unfoldable pub confirm_transcript : ℕ → ℕ → Database → Raising Database
  unfolding confirmable confirmed
  confirm_transcript expected_revision now db = do
    s ← source_for db actor_id workspace_id source_id editor
    utterances ← confirmable expected_revision s
    snapshot ← directory_snapshot db s
    let edited = confirmed utterances snapshot now s
    returns (
        audited actor_id workspace_id (codes "source.confirmed") s.id
          (record (put_source edited db) {
            source_people = replace_participants edited db.source_people;
          }))

-- ===== src/Analysis.antt =====
-- The submission of an external agent's analysis: `_source_text`, the fingerprints, and
-- `_index_source_text` of backend/app/modules/agent_workflows/service.py and validation.py.
-- SHA-256 of the JSON of a value is the parameter `hash`.
pub mod Submission
pub mod Merged
pub mod Begun
pub mod Once
pub mod Completed
pub mod Context
mod Tests
use maeglagi.Base.{
  ℕ, Bool, true, false, not, ◌&&◌, ◌||◌, Option, none, some, List, [], ◌∷◌, ◌++◌, map, ◌==◌, nat_eq,
  option_eq, list_eq, leb, length, if◌then◌else◌, select, ltb,
}
use maeglagi.Base.Results.{Outcome, returns, raises, ◌>>=◌, ◌>>◌, check, required}
use maeglagi.Base.Sort.{sort}
use maeglagi.Base.Text.{text_leb, Text, codes, is_empty, strip}
use maeglagi.States.{ReviewState, review_eq}
use maeglagi.Extraction.{ExtractionResult}
use maeglagi.Sources.{Source, Utterance, Snapshot, Chunk}
use maeglagi.Validation.{WorkflowError, review_required, text_required, uncaught}
use maeglagi.Agents.{Raising, meeting_kind}
use maeglagi.Ingestion.Models.{
  DocumentSection, TranscriptSegment, NormalizedSource, make_section, make_segment,
}
use maeglagi.Ingestion.Normalization.{Request, Raw, sections, utterances, normalize}
use maeglagi.Ingestion.Chunking.{Chunker, make_chunker, SourceChunk, chunk}

-- `not text or not text.strip()`
abbrev pub is_blank : Text → Bool
is_blank text = is_empty text || is_empty (strip text)

unfoldable pub source_text : Source → Raising Text
source_text s = do
  check (not (s.kind == meeting_kind) || s.review_state == some ReviewState.confirmed)
      review_required
  text ←
      required (if s.kind == meeting_kind then s.transcript_text else s.content_text) text_required
  check (not (is_blank text)) text_required
  returns text

-- The values that are hashed; a result with the JSON of its classification.
pub data Hashed : Type 0 where
  of_source : Text → Text → ℕ → ℕ → Snapshot → Hashed
  of_context : ℕ → List Text → Hashed
  of_decisions : List Text → Hashed
  of_result : Text → ExtractionResult → Hashed

module _ (hash : Hashed → ℕ) where
  unfoldable pub source_fingerprint : Source → Text → Snapshot → ℕ
  source_fingerprint s text directory =
      hash (of_source s.title text s.review_revision s.association_revision directory)

  unfoldable pub context_fingerprint : Source → Text → List Text → Snapshot → ℕ
  unfolding source_fingerprint
  context_fingerprint s text known directory =
      hash (of_context (source_fingerprint s text directory) (sort text_leb known))

  unfoldable pub result_fingerprint : Text → ExtractionResult → ℕ
  result_fingerprint classification result = hash (of_result classification result)

  -- `_decision_fingerprint` of source_analysis.py
  unfoldable pub decision_fingerprint : List Text → ℕ
  decision_fingerprint decisions = hash (of_decisions (sort text_leb decisions))

-- `item.get("startSeconds") or 0`, and the end or else the start.
abbrev pub start_of : Utterance → ℕ
start_of item = elim item.start_seconds [ none ↦ 0 | some s ↦ s ]

abbrev pub end_of : Utterance → ℕ
end_of item = elim item.end_seconds [
  | none ↦ start_of item
  | some e ↦ if e == 0 then start_of item else e
]

module _ {Metadata : Type 0} (metadata empty : Metadata) (segment_id : ℕ → ℕ → ℕ)
    (uuid_text : ℕ → Text) where
  -- The segments; none where a constructor raises.
  pub meeting_segments : List Utterance → Option (List (TranscriptSegment Metadata))
  meeting_segments [] = some []
  meeting_segments (item ∷ items) =
      let rest = meeting_segments items in
      if is_empty (strip item.text)
      then rest
      else elim (make_segment (record {
        text = item.text;
        start_seconds = start_of item;
        end_seconds = end_of item;
        speaker = some item.speaker_name;
        timestamp = none;
        metadata = empty;
      })) [
        | none ↦ none
        | some segment ↦ elim rest [ none ↦ none | some segments ↦ some (segment ∷ segments) ]
      ]

  pub text_section : Text → Option (List (DocumentSection Metadata))
  text_section text =
      elim (make_section (record {
        text = text;
        page = none;
        heading = none;
        timestamp = none;
        author = none;
        metadata = empty;
      })) [ none ↦ none | some section ↦ some (section ∷ []) ]

  pub raw_segments : Source → Text → Option (Raw Metadata)
  unfolding meeting_segments text_section
  raw_segments s text =
      if s.kind == meeting_kind
      then (elim (meeting_segments s.review_utterances) [
        | none ↦ none
        | some g ↦ some (utterances g)
      ])
      else (elim (text_section text) [ none ↦ none | some g ↦ some (sections g) ])

  pub request_of : Source → Request Metadata
  request_of s = record {
    source_id = s.id;
    workspace_id = s.workspace_id;
    title = s.title;
    source = none;
    language = none;
    metadata = metadata;
  }

  abbrev pub chunk_row : Source → SourceChunk → Chunk
  chunk_row s c = record {
    workspace_id = s.workspace_id;
    source_id = s.id;
    owner_id = s.owner_id;
    position = c.position;
    content = c.content;
    start_seconds = c.start_seconds;
    end_seconds = c.end_seconds;
  }

  abbrev pub has_chunk : List SourceChunk → Bool
  has_chunk [] = false
  has_chunk (c ∷ chunks) = true

  -- The chunks of the source are replaced; `size` and `overlap` are the settings.
  unfoldable pub index_source_text : ℕ → ℕ → Source → Text → List Chunk → Raising (List Chunk)
  unfolding raw_segments request_of
  index_source_text size overlap s text rows = do
    raw ← required (raw_segments s text) uncaught
    normalized ← required (normalize segment_id uuid_text s.kind (request_of s) raw) uncaught
    chunker ← required (make_chunker size overlap) uncaught
    chunks ← required (chunk chunker normalized) uncaught
    check (has_chunk chunks) text_required
    returns (select (λ (r : Chunk). not (r.source_id == s.id)) rows ++ map (chunk_row s) chunks)

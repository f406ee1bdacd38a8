-- ===== src/Ingestion/Normalization.antt =====
-- The kind-specific normalizers and their registry:
-- backend/app/modules/ingestion/application/normalization.py. `uuid5(source_id, "segment:<n>")` and
-- `str(source_id)` are the parameters `segment_id` and `uuid_text`.
pub mod Positions
mod Tests
use maeglagi.Base.{
  ℕ, zero, suc, Bool, true, ◌&&◌, ◌||◌, Option, none, some, List, [], ◌∷◌, map, leb, ltb, ◌==◌,
  list_eq, nat_eq, if◌then◌else◌,
}
use maeglagi.Base.Sort.{sort}
use maeglagi.Base.Text.{Text, codes, is_empty}
use maeglagi.Ingestion.Models.{
  DocumentSection, TranscriptSegment, NormalizedSegment, NormalizedSource, make_source,
}

abbrev pub document : Text
document = codes "document"

abbrev pub meeting : Text
meeting = codes "meeting"

-- `[f(position, x) for position, x in enumerate(xs)]`, from a first position
abbrev pub enumerate {ℓ κ} : {A : Type ℓ} {B : Type κ} → ℕ → (ℕ → A → B) → List A → List B
enumerate position f [] = []
enumerate position f (x ∷ xs) = f position x ∷ enumerate (suc position) f xs

-- `source or str(source_id)`
abbrev pub text_or : Option Text → Text → Text
text_or none t = t
text_or (some s) t = if is_empty s then t else s

-- The keyword arguments of `normalize` beside the segments.
pub record Request (Metadata : Type 0) : Type 0 where
  pub source_id : ℕ
  pub workspace_id : ℕ
  pub title : Text
  pub source : Option Text
  pub language : Option Text
  pub metadata : Metadata

-- The segments of one of the two kinds that a caller passes.
pub data Raw (Metadata : Type 0) : Type 0 where
  sections : List (DocumentSection Metadata) → Raw Metadata
  utterances : List (TranscriptSegment Metadata) → Raw Metadata

-- `key=lambda segment: (segment.start_seconds, segment.end_seconds)`
abbrev pub spoken_before :
    {Metadata : Type 0} → TranscriptSegment Metadata → TranscriptSegment Metadata → Bool
spoken_before a b =
    ltb a.start_seconds b.start_seconds
    || (a.start_seconds == b.start_seconds && leb a.end_seconds b.end_seconds)

module _ {Metadata : Type 0} (segment_id : ℕ → ℕ → ℕ) (uuid_text : ℕ → Text) where
  unfoldable pub document_segment :
      Request Metadata → ℕ → DocumentSection Metadata → NormalizedSegment Metadata
  document_segment r position section = record {
    id = segment_id r.source_id position;
    position = position;
    source = text_or r.source (uuid_text r.source_id);
    type = document;
    timestamp = section.timestamp;
    author = section.author;
    content = section.text;
    page = section.page;
    heading = section.heading;
    speaker = none;
    start_seconds = none;
    end_seconds = none;
    metadata = section.metadata;
  }

  unfoldable pub normalize_document :
      Request Metadata → List (DocumentSection Metadata) → Option (NormalizedSource Metadata)
  normalize_document r segments = make_source (record {
    source_id = r.source_id;
    workspace_id = r.workspace_id;
    kind = document;
    title = r.title;
    language = r.language;
    segments = enumerate 0 (document_segment r) segments;
    metadata = r.metadata;
  })

  unfoldable pub transcript_segment :
      Request Metadata → ℕ → TranscriptSegment Metadata → NormalizedSegment Metadata
  transcript_segment r position segment = record {
    id = segment_id r.source_id position;
    position = position;
    source = text_or r.source (uuid_text r.source_id);
    type = meeting;
    timestamp = segment.timestamp;
    author = segment.speaker;
    content = segment.text;
    page = none;
    heading = none;
    speaker = segment.speaker;
    start_seconds = some segment.start_seconds;
    end_seconds = some segment.end_seconds;
    metadata = segment.metadata;
  }

  unfoldable pub normalize_transcript :
      Request Metadata → List (TranscriptSegment Metadata) → Option (NormalizedSource Metadata)
  normalize_transcript r segments = make_source (record {
    source_id = r.source_id;
    workspace_id = r.workspace_id;
    kind = meeting;
    title = r.title;
    language = r.language;
    segments = enumerate 0 (transcript_segment r) (sort spoken_before segments);
    metadata = r.metadata;
  })

  -- The service with the two normalizers that its constructor registers; an unknown kind and segments
  -- of the other kind are refused.
  unfoldable pub normalize :
      Text → Request Metadata → Raw Metadata → Option (NormalizedSource Metadata)
  normalize kind r (sections s) = if kind == document then normalize_document r s else none
  normalize kind r (utterances s) = if kind == meeting then normalize_transcript r s else none

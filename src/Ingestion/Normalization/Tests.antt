-- ===== src/Ingestion/Normalization/Tests.antt =====
-- Two utterances that arrive out of order, and a section of a document.
use maeglagi.Base.{ℕ, ◌+◌, ◌*◌, ◌≡◌, refl, none, some, List, [], ◌∷◌, map, false}
use maeglagi.Base.Sort.{IsSorted}
use maeglagi.Base.Text.{Text, codes, is_empty, strip}
use maeglagi.Ingestion.Models.{DocumentSection, TranscriptSegment}
use maeglagi.Ingestion.Normalization.{
  Request, normalize_document, normalize_transcript, spoken_before,
}
use maeglagi.Ingestion.Normalization.Positions.{
  HoldsTexts, normalize_document-HoldsTexts, normalize_transcript-HoldsTexts,
}
use mathlib.Core.List.{Perm}

abbrev pair_id : ℕ → ℕ → ℕ
pair_id u n = u * 1000 + n

-- A stand-in for `str(uuid)`, which is never empty.
abbrev tally : ℕ → Text
tally u = 48 ∷ u ∷ []

abbrev request : Request Unit
request = record {
  source_id = 3;
  workspace_id = 1;
  title = codes "weekly";
  source = none;
  language = none;
  metadata = tt;
}

abbrev utterance : Text → ℕ → ℕ → TranscriptSegment Unit
utterance text a b = record {
  text = text;
  start_seconds = a;
  end_seconds = b;
  speaker = none;
  timestamp = none;
  metadata = tt;
}

abbrev utterances : List (TranscriptSegment Unit)
utterances = utterance (codes "later") 9 12 ∷ utterance (codes "first") 2 4 ∷ []

abbrev sections : List (DocumentSection Unit)
sections =
    record {
      text = codes "scope";
      page = some 1;
      heading = none;
      timestamp = none;
      author = none;
      metadata = tt;
    }
    ∷ []

titled : is_empty (strip request.title) ≡ false
unfolding strip
titled = refl

normalize_document-HoldsTexts_example :
    HoldsTexts (codes "scope" ∷ []) (normalize_document pair_id tally request sections)
normalize_document-HoldsTexts_example =
    normalize_document-HoldsTexts pair_id tally (λ u. refl) request titled sections
      ((refl, refl), tt)

normalize_transcript-HoldsTexts_example :
    (ordered : List (TranscriptSegment Unit)) × Perm ordered utterances
    × IsSorted spoken_before ordered
    × HoldsTexts (map (λ s. s.text) ordered) (normalize_transcript pair_id tally request utterances)
normalize_transcript-HoldsTexts_example =
    normalize_transcript-HoldsTexts pair_id tally (λ u. refl) request titled utterances
      (refl, (refl, tt))

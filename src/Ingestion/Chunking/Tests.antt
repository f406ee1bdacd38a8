-- ===== src/Ingestion/Chunking/Tests.antt =====
-- A short text in chunks of eight characters that share three.
use maeglagi.Base.{ℕ, ◌≡◌, refl, none, some, [], ◌∷◌, arith}
use maeglagi.Base.Text.{Text, codes, strip}
use maeglagi.Ingestion.Models.{NormalizedSegment, NormalizedSource}
use maeglagi.Ingestion.Chunking.{
  Chunker, make_chunker, split, chunk, part_end, rfind_space, next_start,
}
use maeglagi.Ingestion.Chunking.Windows.{IsSplit, split-IsSplit, make_chunker-IsChunker}
use maeglagi.Ingestion.Chunking.Positions.{Chunks, chunk-IsNumbered}

abbrev small : Chunker
small = record { size = 8; overlap = 3 }

abbrev spoken : Text
spoken = codes " we ship on friday "

split-spoken :
    split small spoken
    ≡ some (codes "we ship" ∷ codes "hip on" ∷ codes "on frid" ∷ codes "riday" ∷ [])
unfolding split part_end rfind_space next_start strip
split-spoken = refl

small-made : make_chunker 8 3 ≡ some small
unfolding make_chunker
small-made = refl

split-IsSplit_example : IsSplit small (strip spoken) (split small spoken)
split-IsSplit_example = split-IsSplit small spoken (make_chunker-IsChunker 8 3 small-made)

abbrev segment : ℕ → Text → NormalizedSegment Unit
segment position content = record {
  id = position;
  position = position;
  source = codes "s";
  type = codes "meeting";
  timestamp = none;
  author = none;
  content = content;
  page = none;
  heading = none;
  speaker = none;
  start_seconds = some 0;
  end_seconds = some 4;
  metadata = tt;
}

abbrev recording : NormalizedSource Unit
recording = record {
  source_id = 3;
  workspace_id = 1;
  kind = codes "meeting";
  title = codes "weekly";
  language = none;
  segments = segment 0 spoken ∷ segment 1 (codes "done") ∷ [];
  metadata = tt;
}

chunk-IsNumbered_example : Chunks 3 (chunk small recording)
chunk-IsNumbered_example = chunk-IsNumbered small recording (omega arith)

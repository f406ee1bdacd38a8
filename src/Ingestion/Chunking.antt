-- ===== src/Ingestion/Chunking.antt =====
-- `CharacterOverlapChunker` of backend/app/modules/ingestion/application/chunking.py.
-- Positions in a text are never negative here: where `end - overlap` would be, the source takes
-- `start + 1`, and so does the truncated difference.
pub mod Windows
pub mod Positions
mod Tests
use maeglagi.Base.{
  ℕ, zero, suc, ◌+◌, ◌-◌, ◌/◌, min, max, Bool, true, ◌&&◌, ◌||◌, Option, none, some, List, [], ◌∷◌,
  ◌++◌, ltb, leb, ◌==◌, nat_eq, if◌then◌else◌, length, take, drop,
}
use maeglagi.Base.Text.{Text, strip, is_empty}
use maeglagi.Ingestion.Models.{NormalizedSource, NormalizedSegment}

pub record Chunker : Type 0 where
  pub size : ℕ
  pub overlap : ℕ

-- `__init__`: none where it raises.
unfoldable pub make_chunker : ℕ → ℕ → Option Chunker
make_chunker size overlap =
    if ltb size 1 || leb size overlap
    then none
    else some (record { size = size; overlap = overlap })

-- `content[start:end]`
abbrev pub slice : ℕ → ℕ → Text → Text
slice start end content = take (end - start) (drop start content)

-- The last position of a space in `s`, whose first character stands at position `at`.
abbrev pub last_space : ℕ → Text → Option ℕ
last_space at [] = none
last_space at (c ∷ s) = elim (last_space (suc at) s) [
  | some i ↦ some i
  | none ↦ if c == 32 then some at else none
]

-- `content.rfind(" ", start, end)`; none stands for -1.
unfoldable pub rfind_space : ℕ → ℕ → Text → Option ℕ
rfind_space start end content = last_space start (slice start end content)

abbrev boundary_or : Option ℕ → ℕ → ℕ → ℕ
boundary_or none start end = end
boundary_or (some boundary) start end = if ltb start boundary then boundary else end

-- Where the part that starts at `start` ends.
unfoldable pub part_end : Chunker → Text → ℕ → ℕ
part_end c content start =
    let end = min (start + c.size) (length content) in
    if ltb end (length content)
    then boundary_or (rfind_space (start + c.size / 2) end content) start end
    else end

unfoldable pub next_start : Chunker → ℕ → ℕ → ℕ
next_start c start end = max (end - c.overlap) (start + 1)

-- `if part: parts.append(part)`
abbrev pub keep_part : Text → List Text → List Text
keep_part part parts = if is_empty part then parts else part ∷ parts

-- The loop of `_split`; none where the fuel runs out.
unfoldable pub split_from : Chunker → Text → ℕ → ℕ → Option (List Text)
split_from c content zero start = none
split_from c content (suc fuel) start =
    let end = part_end c content start in
    let part = strip (slice start end content) in
    let later = split_from c content fuel (next_start c start end) in
    if ltb start (length content)
    then (if leb (length content) end
        then some (keep_part part [])
        else elim later [ none ↦ none | some parts ↦ some (keep_part part parts) ])
    else some []

unfoldable pub split : Chunker → Text → Option (List Text)
unfolding split_from
split c content =
    let stripped = strip content in
    if is_empty stripped then some [] else split_from c stripped (suc (length stripped)) 0

pub record SourceChunk : Type 0 where
  pub source_id : ℕ
  pub position : ℕ
  pub content : Text
  pub start_seconds : Option ℕ
  pub end_seconds : Option ℕ

module _ {Metadata : Type 0} where
  abbrev pub source_chunk : ℕ → NormalizedSegment Metadata → ℕ → Text → SourceChunk
  source_chunk source_id segment position content = record {
    source_id = source_id;
    position = position;
    content = content;
    start_seconds = segment.start_seconds;
    end_seconds = segment.end_seconds;
  }

  -- The inner loop: one chunk for each part, at the position that the list has reached.
  unfoldable pub chunk_parts :
      ℕ → NormalizedSegment Metadata → List SourceChunk → List Text → List SourceChunk
  chunk_parts source_id segment chunks [] = chunks
  chunk_parts source_id segment chunks (content ∷ parts) =
      chunk_parts source_id segment
        (chunks ++ source_chunk source_id segment (length chunks) content ∷ []) parts

  unfoldable pub chunk_segments :
      Chunker → ℕ → List SourceChunk → List (NormalizedSegment Metadata) → Option (List SourceChunk)
  chunk_segments c source_id chunks [] = some chunks
  chunk_segments c source_id chunks (segment ∷ segments) = elim (split c segment.content) [
    | none ↦ none
    | some parts ↦ chunk_segments c source_id (chunk_parts source_id segment chunks parts) segments
  ]

  unfoldable pub chunk : Chunker → NormalizedSource Metadata → Option (List SourceChunk)
  unfolding chunk_segments
  chunk c source = chunk_segments c source.source_id [] source.segments

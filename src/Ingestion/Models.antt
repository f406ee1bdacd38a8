-- ===== src/Ingestion/Models.antt =====
-- The raw and the normalized parts of a source, with their validators:
-- backend/app/modules/ingestion/domain/models.py. A constructor of the program raises where the
-- function here returns none. Seconds and instants are numbers on a fixed scale: they are only
-- compared and copied. Metadata is copied unread and has an abstract type.
use maeglagi.Base.{
  ℕ, suc, zero, Bool, true, false, ◌&&◌, Option, none, some, List, [], ◌∷◌, map, leb, ltb, ◌==◌,
  list_eq, nat_eq, if◌then◌else◌, length, all,
}
use maeglagi.Base.Text.{Text, strip, is_empty}

module _ (Metadata : Type 0) where
  pub record DocumentSection : Type 0 where
    pub text : Text
    pub page : Option ℕ
    pub heading : Option Text
    pub timestamp : Option ℕ
    pub author : Option Text
    pub metadata : Metadata

  pub record TranscriptSegment : Type 0 where
    pub text : Text
    pub start_seconds : ℕ
    pub end_seconds : ℕ
    pub speaker : Option Text
    pub timestamp : Option ℕ
    pub metadata : Metadata

  pub record NormalizedSegment : Type 0 where
    pub id : ℕ
    pub position : ℕ
    pub source : Text
    pub type : Text
    pub timestamp : Option ℕ
    pub author : Option Text
    pub content : Text
    pub page : Option ℕ
    pub heading : Option Text
    pub speaker : Option Text
    pub start_seconds : Option ℕ
    pub end_seconds : Option ℕ
    pub metadata : Metadata

  pub record NormalizedSource : Type 0 where
    pub source_id : ℕ
    pub workspace_id : ℕ
    pub kind : Text
    pub title : Text
    pub language : Option Text
    pub segments : List NormalizedSegment
    pub metadata : Metadata

-- `Field(ge=1)` of an optional number
abbrev pub at_least_one : Option ℕ → Bool
at_least_one none = true
at_least_one (some n) = leb 1 n

-- `list(range(start, start + n))`
abbrev pub range_from : ℕ → ℕ → List ℕ
range_from start zero = []
range_from start (suc n) = start ∷ range_from (suc start) n

module _ {Metadata : Type 0} where
  -- `reject_blank_text`, `Field(min_length=1)` and `Field(ge=1)`
  unfoldable pub make_section : DocumentSection Metadata → Option (DocumentSection Metadata)
  make_section s =
      let text = strip s.text in
      if is_empty s.text
      then none
      else if is_empty text
      then none
      else if at_least_one s.page
      then some (record s { text = text })
      else none

  -- and `validate_time_range`
  unfoldable pub make_segment : TranscriptSegment Metadata → Option (TranscriptSegment Metadata)
  make_segment s =
      let text = strip s.text in
      if is_empty s.text
      then none
      else if is_empty text
      then none
      else if ltb s.end_seconds s.start_seconds
      then none
      else some (record s { text = text })

  unfoldable pub segment_fits : NormalizedSegment Metadata → Bool
  segment_fits s =
      not_empty s.source && not_empty s.type && not_empty s.content && at_least_one s.page
    where
      not_empty : Text → Bool
      not_empty t = if is_empty t then false else true

  unfoldable pub make_source : NormalizedSource Metadata → Option (NormalizedSource Metadata)
  unfolding segment_fits
  make_source s =
      let title = strip s.title in
      if is_empty s.kind
      then none
      else if is_empty title
      then none
      else if all segment_fits s.segments
          && map (λ g. g.position) s.segments == range_from 0 (length s.segments)
      then some (record s { title = title })
      else none

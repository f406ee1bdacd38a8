-- ===== src/Ingestion/Normalization/Positions.antt =====
-- Normalized segments are numbered from zero without a gap, in the order of the parser or of time, and
-- parts that the validators accept are never refused.
use mathlib.Core.List.{Perm}
use maeglagi.Base.{
  ℕ, suc, ◌≡◌, refl, ap, sym, true, false, Option, none, some, List, [], ◌∷◌, map, arith, list_eq,
  list_beq_iff, nat_eq, ◌∙◌, length-map, length, all, All,
}
use maeglagi.Base.Sort.{sort, IsSorted, sort-IsSorted, sort-All, sort-perm}
use maeglagi.Base.Text.{Text, strip, is_empty}
use maeglagi.Ingestion.Models.{
  DocumentSection, TranscriptSegment, NormalizedSegment, NormalizedSource, at_least_one, range_from,
  segment_fits, make_source,
}
use maeglagi.Ingestion.Normalization.{
  enumerate, Request, document_segment, normalize_document, spoken_before, transcript_segment,
  normalize_transcript,
}

-- What the validators of the raw parts leave: a text, and a page from 1 on.
abbrev pub IsSection : {Metadata : Type 0} → DocumentSection Metadata → Type 0
IsSection s = (is_empty s.text ≡ false) × (at_least_one s.page ≡ true)

abbrev pub IsUtterance : {Metadata : Type 0} → TranscriptSegment Metadata → Type 0
IsUtterance s = is_empty s.text ≡ false

module _ {Metadata : Type 0} where
  spoken_before_trans :
      (a b c : TranscriptSegment Metadata)
      → spoken_before a b ≡ true
      → spoken_before b c ≡ true
      → spoken_before a c ≡ true
  spoken_before_trans a b c h k = ground arith

  spoken_before_total :
      (a b : TranscriptSegment Metadata) → spoken_before a b ≡ false → spoken_before b a ≡ true
  spoken_before_total a b h = ground arith

module _ {ℓ} {A : Type ℓ} {Metadata : Type 0} (f : ℕ → A → NormalizedSegment Metadata) where
  length-enumerate : (position : ℕ) (xs : List A) → length (enumerate position f xs) ≡ length xs
  length-enumerate position [] = refl
  length-enumerate position (x ∷ xs) = ap suc (length-enumerate (suc position) xs)

  enumerate-positions :
      ((n : ℕ) (x : A) → (f n x).position ≡ n)
      → (position : ℕ) (xs : List A)
      → map (λ g. g.position) (enumerate position f xs)
        ≡ range_from position (length (enumerate position f xs))
  enumerate-positions e position [] = refl
  enumerate-positions e position (x ∷ xs) =
      cc (e position x, enumerate-positions e (suc position) xs)

  enumerate-fits {κ} :
      (P : A → Type κ)
      → ((n : ℕ) (x : A) → P x → segment_fits (f n x) ≡ true)
      → (position : ℕ) (xs : List A) → All P xs
      → all segment_fits (enumerate position f xs) ≡ true
  enumerate-fits P e position [] a = refl
  enumerate-fits P e position (x ∷ xs) a =
      rw (e position x a.0) (enumerate-fits P e (suc position) xs a.1)

-- A normalized source has the given texts, in their order, at the positions 0, 1, 2 and so on.
abbrev pub HoldsTexts :
    {Metadata : Type 0} → List Text → Option (NormalizedSource Metadata) → Type 0
HoldsTexts texts none = ⊥
HoldsTexts texts (some s) =
    (map (λ g. g.content) s.segments ≡ texts)
    × (map (λ g. g.position) s.segments ≡ range_from 0 (length texts))

module _ {Metadata : Type 0} (segment_id : ℕ → ℕ → ℕ) (uuid_text : ℕ → Text)
    (named : (u : ℕ) → is_empty (uuid_text u) ≡ false) where
  document_segment-fits :
      (r : Request Metadata) (n : ℕ) (s : DocumentSection Metadata)
      → IsSection s
      → segment_fits (document_segment segment_id uuid_text r n s) ≡ true
  unfolding segment_fits document_segment
  document_segment-fits r n s h = ground (arith, named r.source_id)

  transcript_segment-fits :
      (r : Request Metadata) (n : ℕ) (s : TranscriptSegment Metadata)
      → IsUtterance s
      → segment_fits (transcript_segment segment_id uuid_text r n s) ≡ true
  unfolding segment_fits transcript_segment
  transcript_segment-fits r n s h = ground (arith, named r.source_id)

  document_segment-keeps :
      (r : Request Metadata) (n : ℕ) (s : DocumentSection Metadata)
      → ((document_segment segment_id uuid_text r n s).position ≡ n)
        × ((document_segment segment_id uuid_text r n s).content ≡ s.text)
  unfolding document_segment
  document_segment-keeps r n s = (refl, refl)

  transcript_segment-keeps :
      (r : Request Metadata) (n : ℕ) (s : TranscriptSegment Metadata)
      → ((transcript_segment segment_id uuid_text r n s).position ≡ n)
        × ((transcript_segment segment_id uuid_text r n s).content ≡ s.text)
  unfolding transcript_segment
  transcript_segment-keeps r n s = (refl, refl)

  enumerate-contents {ℓ} :
      {A : Type ℓ} (f : ℕ → A → NormalizedSegment Metadata) (text : A → Text)
      → ((n : ℕ) (x : A) → (f n x).content ≡ text x)
      → (position : ℕ) (xs : List A) → map (λ g. g.content) (enumerate position f xs) ≡ map text xs
  enumerate-contents f text e position [] = refl
  enumerate-contents f text e position (x ∷ xs) =
      cc (e position x, enumerate-contents f text e (suc position) xs)

  make_source-HoldsTexts :
      (s : NormalizedSource Metadata) (texts : List Text)
      → is_empty s.kind ≡ false
      → is_empty (strip s.title) ≡ false
      → all segment_fits s.segments ≡ true
      → map (λ g. g.content) s.segments ≡ texts
      → length s.segments ≡ length texts
      → map (λ g. g.position) s.segments ≡ range_from 0 (length s.segments)
      → HoldsTexts texts (make_source s)
  unfolding make_source
  make_source-HoldsTexts s texts k t f c l p =
      rw (k, make_source)
        (rw (t, make_source)
          (rw (f, make_source)
            (rw ((list_beq_iff _ _).1 p, make_source) (c, p ∙ ap (range_from 0) l))))

  module _ (r : Request Metadata) (titled : is_empty (strip r.title) ≡ false) where
    -- Sections that the validators accept, under a title that is not blank, are normalized into one
    -- segment each, in their order, at the positions 0, 1, 2 and so on.
    pub normalize_document-HoldsTexts :
        (sections : List (DocumentSection Metadata))
        → All IsSection sections
        → HoldsTexts
            (map (λ s. s.text) sections)
            (normalize_document segment_id uuid_text r sections)
    unfolding normalize_document
    normalize_document-HoldsTexts sections h =
        make_source-HoldsTexts _ _ refl titled
          (enumerate-fits _ IsSection (document_segment-fits r) 0 sections h)
          (enumerate-contents _ (λ s. s.text) (λ n x. (document_segment-keeps r n x).1) 0 sections)
          (length-enumerate _ 0 sections ∙ sym (length-map (λ s. s.text) sections))
          (enumerate-positions _ (λ n x. (document_segment-keeps r n x).0) 0 sections)

    -- Utterances that the validators accept, under a title that is not blank, are normalized into one
    -- segment each at the positions 0, 1, 2 and so on, in an order that is a permutation of theirs in
    -- which no utterance starts after a later one.
    pub normalize_transcript-HoldsTexts :
        (utterances : List (TranscriptSegment Metadata))
        → All IsUtterance utterances
        → (ordered : List (TranscriptSegment Metadata)) × Perm ordered utterances
          × IsSorted spoken_before ordered
          × HoldsTexts
              (map (λ s. s.text) ordered)
              (normalize_transcript segment_id uuid_text r utterances)
    unfolding normalize_transcript
    normalize_transcript-HoldsTexts utterances h =
        let ordered = sort spoken_before utterances in
        (
          ordered,
          sort-perm spoken_before utterances,
          sort-IsSorted spoken_before spoken_before_trans spoken_before_total utterances,
          make_source-HoldsTexts _ _ refl titled
              (enumerate-fits _ IsUtterance (transcript_segment-fits r) 0 ordered
                (sort-All spoken_before IsUtterance utterances h))
              (enumerate-contents _ (λ s. s.text) (λ n x. (transcript_segment-keeps r n x).1) 0
                ordered)
              (length-enumerate _ 0 ordered ∙ sym (length-map (λ s. s.text) ordered))
              (enumerate-positions _ (λ n x. (transcript_segment-keeps r n x).0) 0 ordered),
        )

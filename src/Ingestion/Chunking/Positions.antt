-- ===== src/Ingestion/Chunking/Positions.antt =====
-- The chunks of a source are numbered from zero without a gap, and none is empty.
use mathlib.Core.List.{map-append}
use maeglagi.Base.{
  ℕ, zero, suc, ◌+◌, ◌≡◌, refl, sym, ap, subst, ◌∙◌, false, Option, none, some, List, [], ◌∷◌, ◌++◌,
  map, arith, length, length-append, inl, inr, Option-cases, All, All-append,
}
use maeglagi.Base.Text.{Text, strip, is_empty}
use maeglagi.Ingestion.Models.{NormalizedSegment, NormalizedSource, range_from}
use maeglagi.Ingestion.Chunking.{
  Chunker, keep_part, split, source_chunk, SourceChunk, chunk_parts, chunk_segments, chunk, slice,
}
use maeglagi.Ingestion.Chunking.Windows.{IsChunker, Window, parts_of, IsSplit, split-IsSplit}

range_from-suc : (start n : ℕ) → range_from start (suc n) ≡ range_from start n ++ (start + n) ∷ []
range_from-suc start zero = ap (λ k. k ∷ []) (omega arith)
range_from-suc start (suc n) =
    let e : suc start + n ≡ start + suc n = omega arith in
    ap (◌∷◌ start) (range_from-suc (suc start) n ∙ ap (λ k. range_from (suc start) n ++ k ∷ []) e)

abbrev pub IsText : Text → Type 0
IsText t = is_empty t ≡ false

parts_of-IsText : (content : Text) (ws : List Window) → All IsText (parts_of content ws)
parts_of-IsText content [] = tt
parts_of-IsText content ((a, b) ∷ ws) =
    keep_part-IsText (strip (slice a b content)) (parts_of content ws) (parts_of-IsText content ws)
  where
    keep_part-IsText : (t : Text) (ts : List Text) → All IsText ts → All IsText (keep_part t ts)
    keep_part-IsText [] ts h = h
    keep_part-IsText (x ∷ t) ts h = (refl, h)

-- Chunks of the source `source_id` at the positions 0, 1, 2 and so on, none of them empty.
pub record IsNumbered (source_id : ℕ) (chunks : List SourceChunk) : Type 0 where
  pub positions : map (λ k. k.position) chunks ≡ range_from 0 (length chunks)
  pub texts : All (λ k. IsText k.content) chunks
  pub of_source : All (λ k. k.source_id ≡ source_id) chunks

append-IsNumbered :
    (source_id : ℕ) (chunks : List SourceChunk) (k : SourceChunk)
    → k.position ≡ length chunks
    → IsText k.content
    → k.source_id ≡ source_id
    → IsNumbered source_id chunks
    → IsNumbered source_id (chunks ++ k ∷ [])
append-IsNumbered source_id chunks k p t o h = record {
  positions =
      let e : length (chunks ++ k ∷ []) ≡ suc (length chunks) =
        omega (arith, length-append chunks (k ∷ [])) in
      rw map-append (
        rw h.positions (
          ap (λ n. range_from 0 (length chunks) ++ n ∷ []) p
          ∙ sym (
              ap (range_from 0) e
              ∙ range_from-suc 0 (length chunks)
              ∙ ap (λ n. range_from 0 (length chunks) ++ n ∷ []) (omega arith))));
  texts = All-append (λ k. IsText k.content) chunks (k ∷ []) h.texts (t, tt);
  of_source = All-append (λ k. k.source_id ≡ source_id) chunks (k ∷ []) h.of_source (o, tt);
}

abbrev pub Chunks : ℕ → Option (List SourceChunk) → Type 0
Chunks source_id none = ⊥
Chunks source_id (some chunks) = IsNumbered source_id chunks

IsSplit-texts :
    (c : Chunker) (content : Text) (parts : List Text)
    → IsSplit c content (some parts)
    → All IsText parts
IsSplit-texts c content parts (ws, e, _, _) =
    subst (All IsText) (sym e) (parts_of-IsText content ws)

module _ {Metadata : Type 0} where
  chunk_parts-IsNumbered :
      (source_id : ℕ) (segment : NormalizedSegment Metadata) (chunks : List SourceChunk)
      (parts : List Text)
      → All IsText parts
      → IsNumbered source_id chunks
      → IsNumbered source_id (chunk_parts source_id segment chunks parts)
  unfolding chunk_parts
  chunk_parts-IsNumbered source_id segment chunks [] a h = h
  chunk_parts-IsNumbered source_id segment chunks (t ∷ parts) a h =
      chunk_parts-IsNumbered source_id segment
        (chunks ++ source_chunk source_id segment (length chunks) t ∷ []) parts a.1
        (append-IsNumbered source_id chunks _ refl a.0 refl h)

  chunk_segments-Chunks :
      (c : Chunker) (source_id : ℕ) (chunks : List SourceChunk)
      (segments : List (NormalizedSegment Metadata))
      → IsChunker c
      → IsNumbered source_id chunks
      → Chunks source_id (chunk_segments c source_id chunks segments)
  unfolding chunk_segments
  chunk_segments-Chunks c source_id chunks [] ok h = h
  chunk_segments-Chunks c source_id chunks (g ∷ segments) ok h =
      elim (Option-cases (split c g.content)) [
        | inl e ↦ absurd (subst (IsSplit c (strip g.content)) e (split-IsSplit c g.content ok))
        | inr (parts, e) ↦
            rw (e, chunk_segments)
              (chunk_segments-Chunks c source_id (chunk_parts source_id g chunks parts) segments ok
                (chunk_parts-IsNumbered source_id g chunks parts
                  (IsSplit-texts c (strip g.content) parts
                    (subst (IsSplit c (strip g.content)) e (split-IsSplit c g.content ok)))
                  h))
      ]

  -- For a chunker that its constructor accepts, chunking a source ends, and its chunks are of that
  -- source, stand at the positions 0, 1, 2 and so on across all segments, and have a text each.
  pub chunk-IsNumbered :
      (c : Chunker) (source : NormalizedSource Metadata)
      → IsChunker c
      → Chunks source.source_id (chunk c source)
  unfolding chunk
  chunk-IsNumbered c source ok =
      chunk_segments-Chunks c source.source_id [] source.segments ok
        (record { positions = refl; texts = tt; of_source = tt })

-- ===== src/Resolution/Returns.antt =====
-- When `resolve_extraction` returns.
use maeglagi.Base.{
  ℕ, ◌≡◌, refl, inl, inr, Bool, false, ◌||◌, Option, some, List, [], ◌∷◌, ◌++◌, any, arith,
  Option-cases,
}
use maeglagi.Base.Text.{Text, codes}
use maeglagi.Extraction.{ExtractedRelation, ExtractionResult, Unicode}
use maeglagi.Temporal.{Calendar, overflows, parse_instant-cases}
use maeglagi.Store.Timeline.{events_overflow}
use maeglagi.Resolution.Grouped.{groups_of-AreApart}
use maeglagi.Resolution.Entities.{ResolvedGraph, Known, lookup_of}
use maeglagi.Resolution.Graph.{
  Span, endpoint, ends, add_relation, date_relation, take_relation, take_relations, linked_of,
  resolve_extraction,
}

abbrev pub relations_overflow : Calendar → List ExtractedRelation → Bool
relations_overflow calendar relations =
    any (λ r. overflows calendar r.valid_from || overflows calendar r.valid_to) relations

module _ (u : Unicode) (uuid_text : ℕ → Text) (calendar : Calendar) (uuid5 : Text → ℕ)
    (isoformat : ℕ → Text) (workspace_id source_id : ℕ) (chunk_id timestamp : Option ℕ) where
  abbrev taken :
      List Known → ExtractedRelation → List Span × List Text → Option (List Span × List Text)
  taken lookup r state =
      take_relation u uuid_text calendar uuid5 isoformat workspace_id source_id chunk_id timestamp
        lookup r state

  date_relation-returns :
      (r : ExtractedRelation) (source target : ℕ) (state : List Span × List Text)
      → (overflows calendar r.valid_from || overflows calendar r.valid_to) ≡ false
      → (next : List Span × List Text) × (date_relation u uuid_text calendar uuid5 isoformat
            workspace_id source_id chunk_id timestamp r source target state
          ≡ some next)
  unfolding date_relation
  date_relation-returns r source target state fine =
      elim (parse_instant-cases calendar r.valid_from) [
        | inl (raised, late) ↦ ground (arith, fine, late)
        | inr (begins, read, _) ↦ elim (parse_instant-cases calendar r.valid_to) [
          | inl (raised, late) ↦ ground (arith, fine, late)
          | inr (stops, read', _) ↦ (
            add_relation u uuid_text calendar uuid5 isoformat workspace_id source_id chunk_id
                timestamp r source target begins stops state,
            rw (read, read', date_relation) refl,
          )
        ]
      ]

  take_relation-returns :
      (lookup : List Known) (r : ExtractedRelation) (state : List Span × List Text)
      → (overflows calendar r.valid_from || overflows calendar r.valid_to) ≡ false
      → (next : List Span × List Text) × (taken lookup r state ≡ some next)
  unfolding take_relation
  take_relation-returns lookup r (spans, warnings) fine =
      let source =
        endpoint u uuid_text calendar uuid5 isoformat workspace_id source_id chunk_id timestamp
          lookup r.source warnings in
      let target =
        endpoint u uuid_text calendar uuid5 isoformat workspace_id source_id chunk_id timestamp
          lookup r.target source.1 in
      let dropped : List Span × List Text = (
        spans,
        target.1
            ++ (codes "병합 후 개체를 찾지 못한 관계를 버렸습니다: "
                ++ ends u uuid_text calendar uuid5 isoformat workspace_id source_id chunk_id
                    timestamp r)
              ∷ [],
      ) in
      elim (Option-cases source.0) [
        | inl absent ↦ (dropped, rw (absent, take_relation) refl)
        | inr (s, found) ↦ elim (Option-cases target.0) [
          | inl absent ↦ (dropped, rw (found, absent, take_relation) refl)
          | inr (t, found') ↦
              let (next, dated) = date_relation-returns r s t (spans, target.1) fine in
              (next, rw (found, found', take_relation) dated)
        ]
      ]

  take_relations-returns :
      (lookup : List Known) (relations : List ExtractedRelation) (state : List Span × List Text)
      → relations_overflow calendar relations ≡ false
      → (next : List Span × List Text) × (take_relations u uuid_text calendar uuid5 isoformat
            workspace_id source_id chunk_id timestamp lookup relations state
          ≡ some next)
  unfolding take_relations
  take_relations-returns lookup [] state fine = (state, refl)
  take_relations-returns lookup (r ∷ relations) state fine =
      let (next, one) = take_relation-returns lookup r state (ground (arith, fine)) in
      let (end, all) = take_relations-returns lookup relations next (ground (arith, fine)) in
      (end, rw (one, take_relations) all)

  -- Where no date of an extraction overflows, its graph is made.
  pub resolve_extraction-returns :
      (trusted : List Text) (result : ExtractionResult)
      → events_overflow calendar result.events ≡ false
      → relations_overflow calendar result.relations ≡ false
      → (g : ResolvedGraph) × (resolve_extraction u uuid_text calendar uuid5 isoformat workspace_id
            source_id chunk_id timestamp trusted result
          ≡ some g)
  unfolding resolve_extraction
  resolve_extraction-returns trusted result events relations =
      elim (groups_of-AreApart u uuid_text calendar trusted result) [
        | inl (raised, late) ↦ cc (events, late)
        | inr (grouped, made, _) ↦
            let linked =
              linked_of u uuid_text calendar uuid5 isoformat workspace_id source_id chunk_id
                timestamp result grouped in
            let (spans, taken) =
              take_relations-returns
                (lookup_of u uuid_text calendar uuid5 isoformat workspace_id source_id chunk_id
                  timestamp grouped.0)
                result.relations ([], linked.warnings) relations in
            elim (Option-cases (
              resolve_extraction u uuid_text calendar uuid5 isoformat workspace_id source_id
                chunk_id timestamp trusted result)) [
                  | inr found ↦ found
                  | inl absent ↦ cc (rw (made, taken, resolve_extraction) at absent)
                ]
      ]

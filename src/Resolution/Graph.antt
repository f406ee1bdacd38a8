-- ===== src/Resolution/Graph.antt =====
-- The relations of a graph, and `resolve_extraction` as a whole.
use maeglagi.Base.{
  ℕ, Bool, true, false, ◌&&◌, Option, none, some, List, [], ◌∷◌, ◌++◌, map, ◌==◌, nat_eq, list_eq,
  option_eq, ltb, if◌then◌else◌,
}
use maeglagi.Base.Text.{Text, codes}
use maeglagi.Extraction.{
  EntityKind, RelationKind, ExtractedRelation, ExtractionResult, Unicode, normalize_name, entity_eq,
}
use maeglagi.Temporal.{Interval, normalize, Calendar, parse_instant}
use maeglagi.Resolution.{Group, first_known, groups_of}
use maeglagi.Resolution.Entities.{
  GraphRelation, ResolvedGraph, Known, relation_value, all_kinds, found_ids, relation_id, entity_of,
  lookup_of,
}
use maeglagi.Resolution.Linking.{Linking, link_supersessions}

pub record Span : Type 0 where
  pub source : ℕ
  pub target : ℕ
  pub kind : RelationKind
  pub intervals : List Interval

-- `intervals.setdefault(key, []).append(interval)`
pub add_interval : ℕ → ℕ → RelationKind → Interval → List Span → List Span
add_interval source target kind i [] =
    record { source = source; target = target; kind = kind; intervals = i ∷ [] } ∷ []
add_interval source target kind i (s ∷ spans) =
    let rest = add_interval source target kind i spans in
    if s.source == source && s.target == target && relation_value s.kind == relation_value kind
    then record s { intervals = s.intervals ++ i ∷ [] } ∷ spans
    else s ∷ rest

-- The start and the end of a relation, and whether its stated end was dropped.
pub bounds_of : Option ℕ → Option ℕ → Option ℕ → Interval × Bool
bounds_of stated_from fallback (some valid_to) = elim (first_known stated_from fallback) [
  | none ↦ (record { valid_from = none; valid_to = some valid_to }, false)
  | some begins ↦
      if ltb valid_to begins
      then (elim stated_from [
        | some stated ↦ (record { valid_from = some stated; valid_to = none }, true)
        | none ↦ (record { valid_from = none; valid_to = some valid_to }, false)
      ])
      else (record { valid_from = some begins; valid_to = some valid_to }, false)
]
bounds_of stated_from fallback none =
    (record { valid_from = first_known stated_from fallback; valid_to = none }, false)

module _ (u : Unicode) (uuid_text : ℕ → Text) (calendar : Calendar) (uuid5 : Text → ℕ)
    (isoformat : ℕ → Text) where
  module _ (workspace_id source_id : ℕ) (chunk_id timestamp : Option ℕ) where
    pub endpoint_ids : Text → List Known → List EntityKind → List ℕ → List ℕ
    endpoint_ids name lookup [] ids = ids
    endpoint_ids name lookup (kind ∷ kinds) ids =
        endpoint_ids name lookup kinds (found_ids kind (normalize_name u name kind) lookup ids)

    -- The one entity of a name, of any kind, and the warnings.
    pub endpoint : List Known → Text → List Text → Option ℕ × List Text
    unfolding endpoint_ids
    endpoint lookup name warnings = elim (endpoint_ids name lookup all_kinds []) [
      | [] ↦ (none, warnings)
      | id ∷ [] ↦ (some id, warnings)
      | id ∷ other ∷ others ↦
          (none, warnings ++ (codes "이름이 같은 개체가 여러 개라 관계 끝점을 정할 수 없습니다: " ++ name) ∷ [])
    ]

    abbrev pub ends : ExtractedRelation → Text
    ends r = r.source ++ codes " → " ++ r.target

    -- What follows the parsing of the two dates.
    abbrev pub add_relation :
        ExtractedRelation
        → ℕ
        → ℕ
        → Option ℕ
        → Option ℕ
        → List Span × List Text
        → List Span × List Text
    unfolding bounds_of add_interval
    add_relation r source target stated_from valid_to (spans, warnings) =
        let (interval, cut) = bounds_of stated_from timestamp valid_to in
        (
          add_interval source target r.kind interval spans,
          if cut
              then warnings ++ (codes "종료가 시작보다 빨라 valid_to를 버렸습니다: " ++ ends r) ∷ []
              else warnings,
        )

    -- A relation whose ends are found; none is the OverflowError of a date.
    unfoldable pub date_relation :
        ExtractedRelation → ℕ → ℕ → List Span × List Text → Option (List Span × List Text)
    unfolding add_interval
    date_relation r source target state = elim (parse_instant calendar r.valid_from) [
      | none ↦ none
      | some stated_from ↦ elim (parse_instant calendar r.valid_to) [
        | none ↦ none
        | some valid_to ↦ some (add_relation r source target stated_from valid_to state)
      ]
    ]

    -- The body of the loop over the relations.
    unfoldable pub take_relation :
        List Known → ExtractedRelation → List Span × List Text → Option (List Span × List Text)
    unfolding endpoint date_relation
    take_relation lookup r (spans, warnings) =
        let source = endpoint lookup r.source warnings in
        let target = endpoint lookup r.target source.1 in
        let dropped : List Span × List Text =
          (spans, target.1 ++ (codes "병합 후 개체를 찾지 못한 관계를 버렸습니다: " ++ ends r) ∷ []) in
        elim source.0 [
          | none ↦ some dropped
          | some s ↦ elim target.0 [
            | none ↦ some dropped
            | some t ↦ date_relation r s t (spans, target.1)
          ]
        ]

    unfoldable pub take_relations :
        List Known → List ExtractedRelation → List Span × List Text → Option (List Span × List Text)
    unfolding take_relation
    take_relations lookup [] state = some state
    take_relations lookup (r ∷ relations) state = elim (take_relation lookup r state) [
      | none ↦ none
      | some next ↦ take_relations lookup relations next
    ]

    abbrev pub relation_of : Span → Interval → GraphRelation
    relation_of s i = record {
      id =
          relation_id u uuid_text calendar uuid5 isoformat workspace_id s.source s.target s.kind
            i.valid_from;
      workspace_id = workspace_id;
      source_entity_id = s.source;
      target_entity_id = s.target;
      kind = s.kind;
      evidence = record { source_id = source_id; chunk_id = chunk_id; timestamp = timestamp };
      valid_from = i.valid_from;
      valid_to = i.valid_to;
    }

    pub relations_of : List Span → List GraphRelation
    relations_of [] = []
    relations_of (s ∷ spans) = map (relation_of s) (normalize s.intervals) ++ relations_of spans

    -- The entities and the warnings, once the groups are linked.
    abbrev pub linked_of : ExtractionResult → List Group × List Text → Linking
    linked_of result grouped =
        link_supersessions u
          (lookup_of u uuid_text calendar uuid5 isoformat workspace_id source_id chunk_id timestamp
            grouped.0)
          result.events
          (record {
            entities =
                map
                  (entity_of u uuid_text calendar uuid5 isoformat workspace_id source_id chunk_id
                    timestamp)
                  grouped.0;
            warnings = grouped.1;
            pending = [];
          })

    -- None is the OverflowError of a date.
    unfoldable pub resolve_extraction : List Text → ExtractionResult → Option ResolvedGraph
    unfolding take_relations relations_of
    resolve_extraction trusted result = elim (groups_of u uuid_text calendar trusted result) [
      | none ↦ none
      | some grouped ↦
          let linked = linked_of result grouped in
          elim (take_relations
            (lookup_of u uuid_text calendar uuid5 isoformat workspace_id source_id chunk_id
              timestamp grouped.0)
            result.relations ([], linked.warnings)) [
              | none ↦ none
              | some spans ↦ some (record {
                entities = linked.entities;
                relations = relations_of spans.0;
                warnings = spans.1;
                supersessions = linked.pending;
              })
            ]
    ]

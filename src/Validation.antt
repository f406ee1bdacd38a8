-- ===== src/Validation.antt =====
-- The validation of an extraction that an external agent proposes:
-- backend/app/modules/agent_workflows/validation.py. Its decoding is a parameter: `decoded` is none
-- if it does not validate, and `size` is the length of its JSON.
pub mod Accepted
mod Tests
use maeglagi.Base.{
  ℕ, ◌+◌, Bool, true, false, not, ◌&&◌, ◌||◌, Option, none, some, List, [], ◌∷◌, ◌++◌, map, ◌==◌,
  nat_eq, pair_eq, list_eq, leb, ltb, length, if◌then◌else◌, any, all, contains, count_if, select,
}
use maeglagi.Base.Text.{Text, codes, is_empty, strip}
use maeglagi.Extraction.{
  EntityKind, ContextKind, ExtractedEntity, ExtractedEvent, ExtractedRelation, ExtractedContext,
  ExtractionResult, Unicode, normalize_name, entity_eq,
}
use maeglagi.Store.{given}
use maeglagi.Store.Closing.{squash, starts_with, occurs_in}

-- The codes of a WorkflowError: those of the validation, those of the service and its repository, and
-- an exception of another class that nothing catches.
pub data WorkflowError : Type 0 where
  analysis_too_large invalid_analysis ungrounded_analysis invalid_relation : WorkflowError
  invalid_supersession workspace_not_found source_not_found invalid_name : WorkflowError
  invalid_kind invalid_source invalid_project invalid_text invalid_transcript : WorkflowError
  invalid_participant already_analyzed stale_revision stale_context review_closed : WorkflowError
  review_required text_required analysis_conflict recovery_unavailable : WorkflowError
  recording_missing processing_active invalid_person uncaught : WorkflowError

pub data Verdict : Type 0 where
  rejected : WorkflowError → Verdict
  accepted : ExtractionResult → Verdict

-- _CONTEXT_EVENT_KIND.get
pub context_event_kind : ContextKind → Option EntityKind
context_event_kind ContextKind.decision = some EntityKind.decision
context_event_kind ContextKind.issue = some EntityKind.issue
context_event_kind ContextKind.task = some EntityKind.task
context_event_kind ContextKind.event = some EntityKind.event
context_event_kind _ = none

-- The refs of an item, and its text fields.
pub record Item : Type 0 where
  pub source_refs : List Text
  pub fields : List Text

abbrev pub text_list : Option Text → List Text
text_list none = []
text_list (some t) = t ∷ []

-- `[*result.entities, *result.events, *result.relations, *result.contexts]`
unfoldable pub items_of : ExtractionResult → List Item
items_of result =
    map (λ e. record { source_refs = e.source_refs; fields = e.name ∷ [] }) result.entities
    ++ map
        (λ e. record {
          source_refs = e.source_refs;
          fields =
              e.name
              ∷ e.description
              ∷ (text_list e.occurred_at ++ text_list e.due_at ++ text_list e.supersedes);
        })
        result.events
    ++ map
        (λ r. record {
          source_refs = r.source_refs;
          fields = r.source ∷ r.target ∷ (text_list r.valid_from ++ text_list r.valid_to);
        })
        result.relations
    ++ map
        (λ c. record {
          source_refs = c.source_refs;
          fields = c.title ∷ c.body ∷ text_list c.occurred_at;
        })
        result.contexts

module _ (u : Unicode) where
  abbrev pub event_key : ExtractedEvent → EntityKind × Text
  event_key e = (e.kind, normalize_name u e.name e.kind)

  abbrev pub event_of : EntityKind → ExtractedContext → ExtractedEvent
  event_of kind c = record {
    name = c.title;
    kind = kind;
    description = c.body;
    occurred_at = c.occurred_at;
    due_at = none;
    supersedes = none;
    source_refs = c.source_refs;
  }

  -- The body of the loop of `_promote_structured_contexts`; `existing` are the keys of the events.
  pub promote_one : List ExtractedEvent → ExtractedContext → List ExtractedEvent
  unfolding context_event_kind
  promote_one events c = elim (context_event_kind c.kind) [
    | none ↦ events
    | some kind ↦
        let key = normalize_name u c.title kind in
        if is_empty key || contains (kind, key) (map event_key events)
        then events
        else events ++ event_of kind c ∷ []
  ]

  pub promote_all : List ExtractedEvent → List ExtractedContext → List ExtractedEvent
  unfolding promote_one
  promote_all events [] = events
  promote_all events (c ∷ contexts) = promote_all (promote_one events c) contexts

  unfoldable pub promote_structured_contexts : ExtractionResult → ExtractionResult
  unfolding promote_all
  promote_structured_contexts result = record result {
    events = promote_all result.events result.contexts;
  }

  abbrev pub folded : Text → Text
  folded text = u.casefold (squash text)

  pub ref_is_grounded : Text → Text → Bool
  ref_is_grounded text ref =
      not (is_empty (strip ref)) && leb (length ref) 1200 && occurs_in (folded ref) (folded text)

  pub is_grounded : Text → Item → Bool
  unfolding ref_is_grounded
  is_grounded text item = elim item.source_refs [
    | [] ↦ false
    | ref ∷ refs ↦ ref_is_grounded text ref && all (ref_is_grounded text) refs
  ]

  pub fits : Item → Bool
  fits item = all (λ field. leb (length field) 10000) item.fields

  -- The loop over the items: the first fault of the first faulty item.
  pub item_fault : Text → List Item → Option WorkflowError
  unfolding is_grounded fits
  item_fault text [] = none
  item_fault text (item ∷ items) =
      let rest = item_fault text items in
      if not (is_grounded text item)
      then some ungrounded_analysis
      else if not (fits item)
      then some analysis_too_large
      else rest

  pub identifier_is_grounded : Text → Text → Bool
  identifier_is_grounded text identifier =
      not (starts_with (codes "directory:") (u.casefold identifier))
      && occurs_in (folded identifier) (folded text)

  -- An entity or event that has the name, under its own kind.
  pub is_named : Text → EntityKind × List Text → Bool
  is_named name (kind, names) =
      any (λ n. normalize_name u n kind == normalize_name u name kind) names

  pub named_items : ExtractionResult → List (EntityKind × List Text)
  named_items result =
      map (λ e. (e.kind, e.name ∷ e.aliases)) result.entities
      ++ map (λ e. (e.kind, e.name ∷ [])) result.events

  pub endpoint_is_unique : ExtractionResult → Text → Bool
  unfolding is_named named_items
  endpoint_is_unique result name = count_if (is_named name) (named_items result) == 1

  pub known_names : List Text → ExtractionResult → List Text
  known_names known_decisions result =
      map (λ n. normalize_name u n EntityKind.decision)
        (known_decisions
          ++ map (λ e. e.name) (select (λ e. e.kind == EntityKind.decision) result.events))

  pub supersession_is_known : List Text → ExtractedEvent → Bool
  supersession_is_known known e = elim (given e.supersedes) [
    | none ↦ true
    | some old ↦ contains (normalize_name u old EntityKind.decision) known
  ]

  abbrev pub oversized : ExtractionResult → Bool
  oversized r =
      ltb 100 (length r.entities)
      || ltb 100 (length r.events)
      || ltb 100 (length r.relations)
      || ltb 100 (length r.contexts)

  -- The checks after the classification's, in their order.
  pub fault : Text → List Text → ExtractionResult → Option WorkflowError
  unfolding item_fault identifier_is_grounded endpoint_is_unique known_names supersession_is_known
  fault text known_decisions r =
      let items = item_fault text (items_of r) in
      if oversized r then some analysis_too_large else elim items [
        | some e ↦ some e
        | none ↦
            if not (all (λ e. all (identifier_is_grounded text) e.identifiers) r.entities)
            then some ungrounded_analysis
            else if not (
                all (λ rel. endpoint_is_unique r rel.source && endpoint_is_unique r rel.target)
                  r.relations)
            then some invalid_relation
            else if not (all (supersession_is_known (known_names known_decisions r)) r.events)
            then some invalid_supersession
            else none
      ]

  -- `wants_meeting`: the source is a meeting, and `is_meeting`: it is classified as one.
  unfoldable pub validate_extraction :
      ℕ → Option ExtractionResult → Bool → Bool → Text → List Text → Verdict
  unfolding fault promote_structured_contexts
  validate_extraction size none wants_meeting is_meeting text known_decisions =
      rejected (if ltb 256000 size then analysis_too_large else invalid_analysis)
  validate_extraction size (some raw) wants_meeting is_meeting text known_decisions =
      let result = promote_structured_contexts raw in
      if ltb 256000 size
      then rejected analysis_too_large
      else if wants_meeting && not is_meeting
      then rejected invalid_analysis
      else elim (fault text known_decisions result) [ none ↦ accepted result | some e ↦ rejected e ]

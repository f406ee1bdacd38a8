-- ===== src/Store/Timeline.antt =====
-- `timeline_records` of context_store.py: the rows of the table `contexts`
-- (backend/app/modules/context_engine/infrastructure/models.py) that one source adds. None
-- is the OverflowError that `parse_instant` lets through.
pub mod Rows
use maeglagi.Base.{
  ℕ, ◌≤◌, ◌≡◌, ◌≢◌, refl, sym, subst, Bool, true, false, not, ◌&&◌, ◌||◌, Option, none, some, List,
  [], ◌∷◌, ◌++◌, map, arith, ◌==◌, list_eq, nat_eq, pair_eq, option_eq, if◌then◌else◌, if_ind, any,
  contains, contains-append, Distinct, Distinct-append_new, All, All-append, map-append, take,
  length, length-take-le, inl, inr, Bool-cases, Option-cases, ==-refl,
}
use maeglagi.Base.Text.{Text, is_empty, strip}
use maeglagi.Extraction.{
  EntityKind, ContextKind, ExtractedEvent, ExtractionResult, Unicode, entity_eq, context_eq,
}
use maeglagi.Temporal.{Calendar, parse_instant, overflows}
use maeglagi.Store.{item_key, assignee_of, given}

pub record Metadata : Type 0 where
  pub key : Text
  pub supersedes : Option Text
  pub due_at : Option Text
  pub assignee : Option Text
  pub source_refs : List Text

pub record ContextRecord : Type 0 where
  pub workspace_id : ℕ
  pub source_id : ℕ
  pub owner_id : ℕ
  pub kind : ContextKind
  pub title : Text
  pub body : Text
  pub occurred_at : Option ℕ
  pub metadata : Metadata

-- `_TIMELINE_KIND.get`
pub timeline_kind : EntityKind → Option ContextKind
timeline_kind EntityKind.decision = some ContextKind.decision
timeline_kind EntityKind.issue = some ContextKind.issue
timeline_kind EntityKind.task = some ContextKind.task
timeline_kind EntityKind.meeting = some ContextKind.event
timeline_kind EntityKind.event = some ContextKind.event
timeline_kind _ = none

-- `a or b`
abbrev pub or_text : Text → Text → Text
or_text a b = if is_empty a then b else a

-- A date of an event overflows.
abbrev pub events_overflow : Calendar → List ExtractedEvent → Bool
events_overflow calendar events = any (λ e. overflows calendar e.occurred_at) events

-- The key of a row in the dictionary.
abbrev pub slot : ContextRecord → ContextKind × Text
slot row = (row.kind, row.metadata.key)

module _ (u : Unicode) (calendar : Calendar) (result : ExtractionResult)
    (workspace_id owner_id source_id : ℕ) where
  -- `replaces`, and null where it is the key itself.
  pub supersedes_of : ExtractedEvent → Text → Option Text
  supersedes_of e key = elim (given e.supersedes) [
    | none ↦ none
    | some old ↦
        let replaces = item_key u old EntityKind.decision in
        if e.kind == EntityKind.decision && not (replaces == key) then some replaces else none
  ]

  pub row_at : ExtractedEvent → ContextKind → Text → Option ℕ → ContextRecord
  unfolding supersedes_of
  row_at e kind key occurred_at = record {
    workspace_id = workspace_id;
    source_id = source_id;
    owner_id = owner_id;
    kind = kind;
    title = take 255 (strip e.name);
    body = or_text (strip e.description) (strip e.name);
    occurred_at = occurred_at;
    metadata = record {
      key = key;
      supersedes = supersedes_of e key;
      due_at = e.due_at;
      assignee = if e.kind == EntityKind.task then assignee_of result e.name else none;
      source_refs = e.source_refs;
    };
  }

  pub timeline_record : ExtractedEvent → ContextKind → Text → Option ContextRecord
  unfolding row_at
  timeline_record e kind key = elim (parse_instant calendar e.occurred_at) [
    | none ↦ none
    | some occurred_at ↦ some (row_at e kind key occurred_at)
  ]

  -- The body of the loop: the first event of a kind and key makes the row.
  pub add_record : List ContextRecord → ExtractedEvent → Option (List ContextRecord)
  unfolding timeline_kind timeline_record
  add_record records e = elim (timeline_kind e.kind) [
    | none ↦ some records
    | some kind ↦
        let key = item_key u e.name e.kind in
        if contains (kind, key) (map slot records)
        then some records
        else elim (timeline_record e kind key) [
          | none ↦ none
          | some row ↦ some (records ++ row ∷ [])
        ]
  ]

  pub add_records : List ContextRecord → List ExtractedEvent → Option (List ContextRecord)
  unfolding add_record
  add_records records [] = some records
  add_records records (e ∷ events) = elim (add_record records e) [
    | none ↦ none
    | some next ↦ add_records next events
  ]

  unfoldable pub timeline_records : Option (List ContextRecord)
  unfolding add_records
  timeline_records = add_records [] result.events

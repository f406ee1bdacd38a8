-- ===== src/Store.antt =====
-- The context store of a workspace, its current decisions, issues and tasks:
-- backend/app/modules/context_engine/domain/context_store.py and
-- application/context_store.py. `str(source_id)` is the text `sid`.
pub mod Items
pub mod Merged
pub mod Keyed
pub mod Again
pub mod Timeline
pub mod Closing
pub mod Update
pub mod Updated
pub mod Service
mod Tests
use maeglagi.Base.{
  ℕ, Bool, true, false, not, ◌&&◌, ◌||◌, Option, none, some, List, [], ◌∷◌, ◌++◌, ◌==◌, list_eq,
  nat_eq, if◌then◌else◌, select, contains,
}
use maeglagi.Base.Text.{Text, is_empty}
use maeglagi.Extraction.{
  EntityKind, RelationKind, ExtractedEntity, ExtractedEvent, ExtractedRelation, ExtractionResult,
  Unicode, normalize_name, entity_eq,
}

pub record StoreItem : Type 0 where
  pub title : Text
  pub description : Text
  pub source_refs : List Text
  pub source_id : Option Text

pub record StoreDecision : Type 0 where
  pub title : Text
  pub description : Text
  pub source_refs : List Text
  pub source_id : Option Text
  pub decided_at : Option Text

pub record StoreAction : Type 0 where
  pub title : Text
  pub description : Text
  pub source_refs : List Text
  pub source_id : Option Text
  pub assignee : Option Text
  pub due_at : Option Text

pub record ContextStoreState : Type 0 where
  pub subject : Text
  pub summary : Text
  pub current_state : Text
  pub open_issues : List StoreItem
  pub decisions : List StoreDecision
  pub next_actions : List StoreAction
  pub source_ids : List Text
  pub updated_at : Option ℕ

abbrev pub is_person : EntityKind → Bool
is_person k = k == EntityKind.person

abbrev pub is_assignment : RelationKind → Bool
is_assignment RelationKind.assigned_to = true
is_assignment _ = false

-- `{item.name for item in entities if item.kind is EntityKind.PERSON}`
pub people : List ExtractedEntity → List Text
people [] = []
people (e ∷ entities) =
    let rest = people entities in if is_person e.kind then e.name ∷ rest else rest

-- The loop of `assignee_of` over the relations.
pub assignee_among : List Text → Text → List ExtractedRelation → Option Text
assignee_among persons task [] = none
assignee_among persons task (r ∷ relations) =
    let rest = assignee_among persons task relations in
    if not (is_assignment r.kind)
    then rest
    else if r.source == task && contains r.target persons
    then some r.target
    else if r.target == task && contains r.source persons
    then some r.source
    else rest

pub assignee_of : ExtractionResult → Text → Option Text
unfolding people assignee_among
assignee_of result task = assignee_among (people result.entities) task result.relations

-- `if event.supersedes`: neither null nor empty.
abbrev pub given : Option Text → Option Text
given none = none
given (some s) = if is_empty s then none else some s

module _ {A : Type 0} (key : A → Text) where
  -- The item with the key of `new` is replaced where it stands.
  unfoldable pub upsert : List A → A → List A
  upsert [] new = new ∷ []
  upsert (item ∷ items) new = if key item == key new then new ∷ items else item ∷ upsert items new

module _ (u : Unicode) where
  abbrev pub item_key : Text → EntityKind → Text
  item_key title kind = normalize_name u title kind

  abbrev pub issue_key : StoreItem → Text
  issue_key i = item_key i.title EntityKind.issue

  abbrev pub decision_key : StoreDecision → Text
  decision_key d = item_key d.title EntityKind.decision

  abbrev pub action_key : StoreAction → Text
  action_key a = item_key a.title EntityKind.task

  abbrev pub decision_of : Text → ExtractedEvent → StoreDecision
  decision_of sid e = record {
    title = e.name;
    description = e.description;
    source_refs = e.source_refs;
    source_id = some sid;
    decided_at = e.occurred_at;
  }

  abbrev pub issue_of : Text → ExtractedEvent → StoreItem
  issue_of sid e = record {
    title = e.name;
    description = e.description;
    source_refs = e.source_refs;
    source_id = some sid;
  }

  abbrev pub action_of : ExtractionResult → Text → ExtractedEvent → StoreAction
  action_of result sid e = record {
    title = e.name;
    description = e.description;
    source_refs = e.source_refs;
    source_id = some sid;
    assignee = assignee_of result e.name;
    due_at = e.due_at;
  }

  -- The body of the first loop of `merge_extraction`.
  pub merge_event : ExtractionResult → Text → ContextStoreState → ExtractedEvent → ContextStoreState
  unfolding upsert
  merge_event result sid merged e =
      if e.kind == EntityKind.decision
      then record merged { decisions = upsert decision_key merged.decisions (decision_of sid e) }
      else if e.kind == EntityKind.issue
      then record merged { open_issues = upsert issue_key merged.open_issues (issue_of sid e) }
      else if e.kind == EntityKind.task
      then record merged {
        next_actions = upsert action_key merged.next_actions (action_of result sid e);
      }
      else merged

  pub merge_events :
      ExtractionResult → Text → List ExtractedEvent → ContextStoreState → ContextStoreState
  unfolding merge_event
  merge_events result sid [] merged = merged
  merge_events result sid (e ∷ events) merged =
      merge_events result sid events (merge_event result sid merged e)

  -- The key of the decision that an event replaces, if that is another one.
  pub replaced_by : ExtractedEvent → Option Text
  replaced_by e = elim (given e.supersedes) [
    | none ↦ none
    | some old ↦
        let replaced = item_key old EntityKind.decision in
        if e.kind == EntityKind.decision && not (replaced == item_key e.name EntityKind.decision)
        then some replaced
        else none
  ]

  -- The second loop.
  pub drop_replaced : List ExtractedEvent → List StoreDecision → List StoreDecision
  unfolding replaced_by
  drop_replaced [] decisions = decisions
  drop_replaced (e ∷ events) decisions = drop_replaced events (elim (replaced_by e) [
    | none ↦ decisions
    | some replaced ↦ select (λ d. not (decision_key d == replaced)) decisions
  ])

  pub add_source : Text → List Text → List Text
  add_source sid source_ids = if contains sid source_ids then source_ids else source_ids ++ sid ∷ []

  unfoldable pub merge_extraction : ContextStoreState → ExtractionResult → Text → ContextStoreState
  unfolding merge_events drop_replaced add_source
  merge_extraction state result sid =
      let merged = merge_events result sid result.events state in
      record merged {
        decisions = drop_replaced result.events merged.decisions;
        source_ids = add_source sid merged.source_ids;
      }

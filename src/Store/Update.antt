-- ===== src/Store/Update.antt =====
-- `ContextStoreUpdater.update` of context_store.py. The language model's answer, `run_stage`, is a
-- parameter: it is none when the stage raises, and then so does `update`.
use maeglagi.Base.{
  ℕ, ◌≡◌, ◌↔◌, Equality, Bool, true, not, ◌&&◌, Option, none, some, List, [], ◌∷◌, ◌++◌, map, arith,
  ◌==◌, list_eq, list_beq_iff, nat_eq, option_eq, option_beq_iff, if◌then◌else◌, select,
}
use maeglagi.Base.Text.{Text, codes, is_empty, strip}
use maeglagi.Extraction.{
  EntityKind, ContextKind, ExtractedContext, ExtractionResult, Unicode, context_eq,
}
use maeglagi.Store.{StoreItem, StoreAction, ContextStoreState, merge_extraction}
use maeglagi.Store.Timeline.{or_text}
use maeglagi.Store.Closing.{Resolution, squash, occurs_in, close}

abbrev pub item_beq : StoreItem → StoreItem → Bool
item_beq a b =
    a.title == b.title
    && a.description == b.description
    && a.source_refs == b.source_refs
    && a.source_id == b.source_id

pub item_beq_iff : (a b : StoreItem) → (item_beq a b ≡ true) ↔ (a ≡ b)
item_beq_iff a b = ground (
  arith,
  list_beq_iff a.title b.title,
  list_beq_iff a.description b.description,
  list_beq_iff a.source_refs b.source_refs,
  option_beq_iff a.source_id b.source_id,
)

instance abbrev pub item_eq : Equality StoreItem
item_eq = record { same = item_beq; same_iff = item_beq_iff }

abbrev pub action_beq : StoreAction → StoreAction → Bool
action_beq a b =
    a.title == b.title
    && a.description == b.description
    && a.source_refs == b.source_refs
    && a.source_id == b.source_id
    && a.assignee == b.assignee
    && a.due_at == b.due_at

pub action_beq_iff : (a b : StoreAction) → (action_beq a b ≡ true) ↔ (a ≡ b)
action_beq_iff a b = ground (
  arith,
  list_beq_iff a.title b.title,
  list_beq_iff a.description b.description,
  list_beq_iff a.source_refs b.source_refs,
  option_beq_iff a.source_id b.source_id,
  option_beq_iff a.assignee b.assignee,
  option_beq_iff a.due_at b.due_at,
)

instance abbrev pub action_eq : Equality StoreAction
action_eq = record { same = action_beq; same_iff = action_beq_iff }

pub record ContextUpdateOutput : Type 0 where
  pub summary : Text
  pub current_state : Text
  pub resolved_issues : List Resolution
  pub completed_actions : List Resolution

-- What the model is shown: an item as its title and description.
pub record Payload : Type 0 where
  pub subject : Text
  pub previous_summary : Text
  pub previous_state : Text
  pub open_issues : List (Text × Text)
  pub decisions : List (Text × Text)
  pub next_actions : List (Text × Text)
  pub source_title : Text
  pub source_summary : Text
  pub source_text : Text

-- The refs of one item that are not in the text: the inner loop of `unverified_refs`.
pub unverified_of : Text → Text → List Text → List Text
unverified_of text label [] = []
unverified_of text label (ref ∷ refs) =
    let rest = unverified_of text label refs in
    if not (is_empty (squash ref)) && not (occurs_in (squash ref) (squash text))
    then (codes "원문에서 찾지 못한 근거: " ++ label) ∷ rest
    else rest

unfoldable pub unverified_refs : Text → List (Text × List Text) → List Text
unfolding unverified_of
unverified_refs text [] = []
unverified_refs text ((label, refs) ∷ groups) =
    unverified_of text label refs ++ unverified_refs text groups

-- The body of the first summary among the contexts, or the empty text.
pub summary_of : List ExtractedContext → Text
summary_of [] = []
summary_of (c ∷ contexts) =
    let rest = summary_of contexts in if c.kind == ContextKind.summary then c.body else rest

-- The title and refs of the items that this source brought.
pub own_groups :
    {A : Type 0}
    → (A → Option Text)
    → (A → Text × List Text)
    → Text
    → List A
    → List (Text × List Text)
own_groups source_of group sid items = map group (select (λ i. source_of i == some sid) items)

module _ (u : Unicode) (run_stage : Payload → Option ContextUpdateOutput) where
  pub payload : ContextStoreState → ContextStoreState → ExtractionResult → Text → Text → Payload
  unfolding summary_of
  payload state merged result source_title text = record {
    subject = merged.subject;
    previous_summary = state.summary;
    previous_state = state.current_state;
    open_issues = map (λ i. (i.title, i.description)) merged.open_issues;
    decisions = map (λ d. (d.title, d.description)) merged.decisions;
    next_actions = map (λ a. (a.title, a.description)) merged.next_actions;
    source_title = source_title;
    source_summary = summary_of result.contexts;
    source_text = text;
  }

  -- The state after the answer, and its warnings.
  unfoldable pub finish_update :
      ContextStoreState
      → ContextStoreState
      → ContextUpdateOutput
      → Text
      → Text
      → ℕ
      → ContextStoreState × List Text
  unfolding unverified_refs own_groups
  finish_update state merged output sid text now =
      let issues =
        close u (λ (i : StoreItem). i.title) EntityKind.issue text (codes "이슈 해결")
          merged.open_issues output.resolved_issues in
      let actions =
        close u (λ (a : StoreAction). a.title) EntityKind.task text (codes "할 일 완료")
          merged.next_actions output.completed_actions in
      (
        record merged {
          open_issues = issues.0;
          next_actions = actions.0;
          summary = or_text (strip output.summary) state.summary;
          current_state = or_text (strip output.current_state) state.current_state;
          updated_at = some now;
        },
        unverified_refs text (
              own_groups (λ i. i.source_id) (λ i. (i.title, i.source_refs)) sid issues.0
              ++ own_groups (λ d. d.source_id) (λ d. (d.title, d.source_refs)) sid merged.decisions
              ++ own_groups (λ a. a.source_id) (λ a. (a.title, a.source_refs)) sid actions.0)
            ++ issues.1
            ++ actions.1,
      )

  unfoldable pub update_state :
      ContextStoreState
      → ExtractionResult
      → Text
      → Text
      → Text
      → ℕ
      → Option (ContextStoreState × List Text)
  unfolding payload finish_update
  update_state state result sid source_title text now =
      let merged = merge_extraction u state result sid in
      elim (run_stage (payload state merged result source_title text)) [
        | none ↦ none
        | some output ↦ some (finish_update state merged output sid text now)
      ]

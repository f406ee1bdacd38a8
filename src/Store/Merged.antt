-- ===== src/Store/Merged.antt =====
-- `merge_extraction` as an update of three maps by key: the last event of a key counts, and a
-- decision that an event replaces is gone.
use maeglagi.Base.{
  ◌≡◌, refl, ap, Bool, true, false, not, ◌&&◌, ◌||◌, Option, none, some, List, [], ◌∷◌, arith, ◌==◌,
  list_eq, nat_eq, option_eq, if◌then◌else◌, select, contains, inl, inr, Bool-cases, Option-cases,
  contains-append, ==-refl,
}
use maeglagi.Base.Text.{Text}
use maeglagi.Extraction.{EntityKind, ExtractedEvent, ExtractionResult, Unicode, entity_eq}
use maeglagi.Store.{
  ContextStoreState, StoreDecision, item_key, issue_key, decision_key, action_key, issue_of,
  decision_of, action_of, merge_event, merge_events, replaced_by, drop_replaced, add_source,
  merge_extraction,
}
use maeglagi.Store.Items.{item_at, item_at-upsert, item_at-select}

-- The item that an event makes, if there is one, and the old one otherwise.
abbrev pub latest :
    {A : Type 0} → (ExtractedEvent → A) → Option ExtractedEvent → Option A → Option A
latest make none old = old
latest make (some e) old = some (make e)

module _ (u : Unicode) where
  -- The last of the events of a kind whose name has the key.
  pub last_event : EntityKind → Text → List ExtractedEvent → Option ExtractedEvent
  last_event kind k [] = none
  last_event kind k (e ∷ events) = elim (last_event kind k events) [
    | some later ↦ some later
    | none ↦ if e.kind == kind && item_key u e.name kind == k then some e else none
  ]

  -- Whether an event replaces the decision with the key.
  abbrev pub is_replaced : Text → List ExtractedEvent → Bool
  is_replaced k [] = false
  is_replaced k (e ∷ events) = replaced_by u e == some k || is_replaced k events

  module _ (result : ExtractionResult) (sid : Text) where
    decisions-merge_event :
        (k : Text) (s : ContextStoreState) (e : ExtractedEvent)
        → item_at (decision_key u) k (merge_event u result sid s e).decisions ≡ (
            if e.kind == EntityKind.decision && item_key u e.name EntityKind.decision == k
            then some (decision_of u sid e)
            else item_at (decision_key u) k s.decisions)
    unfolding merge_event
    decisions-merge_event k s e =
        ground (arith, item_at-upsert (decision_key u) k s.decisions (decision_of u sid e))

    issues-merge_event :
        (k : Text) (s : ContextStoreState) (e : ExtractedEvent)
        → item_at (issue_key u) k (merge_event u result sid s e).open_issues ≡ (
            if e.kind == EntityKind.issue && item_key u e.name EntityKind.issue == k
            then some (issue_of u sid e)
            else item_at (issue_key u) k s.open_issues)
    unfolding merge_event
    issues-merge_event k s e =
        ground (arith, item_at-upsert (issue_key u) k s.open_issues (issue_of u sid e))

    actions-merge_event :
        (k : Text) (s : ContextStoreState) (e : ExtractedEvent)
        → item_at (action_key u) k (merge_event u result sid s e).next_actions ≡ (
            if e.kind == EntityKind.task && item_key u e.name EntityKind.task == k
            then some (action_of u result sid e)
            else item_at (action_key u) k s.next_actions)
    unfolding merge_event
    actions-merge_event k s e =
        ground (arith, item_at-upsert (action_key u) k s.next_actions (action_of u result sid e))

    decisions-merge_events :
        (k : Text) (events : List ExtractedEvent) (s : ContextStoreState)
        → item_at (decision_key u) k (merge_events u result sid events s).decisions
          ≡ latest
              (decision_of u sid)
              (last_event EntityKind.decision k events)
              (item_at (decision_key u) k s.decisions)
    unfolding merge_events last_event
    decisions-merge_events k [] s = refl
    decisions-merge_events k (e ∷ events) s = ground (
      arith,
      decisions-merge_events k events (merge_event u result sid s e),
      decisions-merge_event k s e,
    )

    issues-merge_events :
        (k : Text) (events : List ExtractedEvent) (s : ContextStoreState)
        → item_at (issue_key u) k (merge_events u result sid events s).open_issues
          ≡ latest
              (issue_of u sid)
              (last_event EntityKind.issue k events)
              (item_at (issue_key u) k s.open_issues)
    unfolding merge_events last_event
    issues-merge_events k [] s = refl
    issues-merge_events k (e ∷ events) s = ground (
      arith,
      issues-merge_events k events (merge_event u result sid s e),
      issues-merge_event k s e,
    )

    actions-merge_events :
        (k : Text) (events : List ExtractedEvent) (s : ContextStoreState)
        → item_at (action_key u) k (merge_events u result sid events s).next_actions
          ≡ latest
              (action_of u result sid)
              (last_event EntityKind.task k events)
              (item_at (action_key u) k s.next_actions)
    unfolding merge_events last_event
    actions-merge_events k [] s = refl
    actions-merge_events k (e ∷ events) s = ground (
      arith,
      actions-merge_events k events (merge_event u result sid s e),
      actions-merge_event k s e,
    )

    -- The fields that no event touches.
    pub record Untouched (old new : ContextStoreState) : Type 0 where
      pub subject : new.subject ≡ old.subject
      pub summary : new.summary ≡ old.summary
      pub current_state : new.current_state ≡ old.current_state
      pub updated_at : new.updated_at ≡ old.updated_at

    merge_events-Untouched :
        (events : List ExtractedEvent) (s : ContextStoreState)
        → Untouched s (merge_events u result sid events s)
    unfolding merge_events merge_event
    merge_events-Untouched [] s = record {
      subject = refl;
      summary = refl;
      current_state = refl;
      updated_at = refl;
    }
    merge_events-Untouched (e ∷ events) s =
        let rest = merge_events-Untouched events (merge_event u result sid s e) in
        record {
          subject = ground (arith, rest.subject);
          summary = ground (arith, rest.summary);
          current_state = ground (arith, rest.current_state);
          updated_at = ground (arith, rest.updated_at);
        }

    source_ids-merge_events :
        (events : List ExtractedEvent) (s : ContextStoreState)
        → (merge_events u result sid events s).source_ids ≡ s.source_ids
    unfolding merge_events merge_event
    source_ids-merge_events [] s = refl
    source_ids-merge_events (e ∷ events) s =
        ground (arith, source_ids-merge_events events (merge_event u result sid s e))

  item_at-drop_replaced :
      (k : Text) (events : List ExtractedEvent) (decisions : List StoreDecision)
      → item_at (decision_key u) k (drop_replaced u events decisions)
        ≡ (if is_replaced k events then none else item_at (decision_key u) k decisions)
  unfolding drop_replaced
  item_at-drop_replaced k [] decisions = refl
  item_at-drop_replaced k (e ∷ events) decisions = elim (Option-cases (replaced_by u e)) [
    | inl same ↦ rw (same, drop_replaced) (item_at-drop_replaced k events decisions)
    | inr (r, other) ↦
        rw (other, drop_replaced)
          (ground (
            arith,
            item_at-drop_replaced k events (select (λ d. not (decision_key u d == r)) decisions),
            item_at-select (decision_key u) k r decisions,
          ))
  ]

  contains-add_source :
      (sid : Text) (source_ids : List Text) → contains sid (add_source u sid source_ids) ≡ true
  unfolding add_source
  contains-add_source sid source_ids = elim (Bool-cases (contains sid source_ids)) [
    | inl e ↦ rw e e
    | inr e ↦ rw (e, contains-append sid source_ids (sid ∷ []), e, ==-refl sid) refl
  ]

  pub add_source_known :
      (sid : Text) (source_ids : List Text)
      → contains sid source_ids ≡ true
      → add_source u sid source_ids ≡ source_ids
  unfolding add_source
  add_source_known sid source_ids e = rw e refl

  -- What a merge did: for each key, the last event of the kind made the item, or else it is the old
  -- one, and no decision has the key of a replaced one; the source is listed, the subject, the
  -- narrative and the time of the update are as they were.
  pub record Merges (result : ExtractionResult) (sid : Text) (old new : ContextStoreState)
      : Type 0 where
    pub decisions :
        (k : Text)
        → item_at (decision_key u) k new.decisions ≡ (
            if is_replaced k result.events
            then none
            else latest
                (decision_of u sid)
                (last_event EntityKind.decision k result.events)
                (item_at (decision_key u) k old.decisions))
    pub issues :
        (k : Text)
        → item_at (issue_key u) k new.open_issues
          ≡ latest
              (issue_of u sid)
              (last_event EntityKind.issue k result.events)
              (item_at (issue_key u) k old.open_issues)
    pub actions :
        (k : Text)
        → item_at (action_key u) k new.next_actions
          ≡ latest
              (action_of u result sid)
              (last_event EntityKind.task k result.events)
              (item_at (action_key u) k old.next_actions)
    pub listed : contains sid new.source_ids ≡ true
    pub sources : new.source_ids ≡ add_source u sid old.source_ids
    pub untouched : Untouched result sid old new

  -- Merging a source's extraction changes the store by key only: the last event of each key makes the
  -- item, replaced decisions are gone, every other key keeps its item, the source is listed, and the
  -- subject, the summary, the current state and the time of the update stay.
  pub merge_extraction_lem :
      (state : ContextStoreState) (result : ExtractionResult) (sid : Text)
      → Merges result sid state (merge_extraction u state result sid)
  unfolding merge_extraction
  merge_extraction_lem state result sid = record {
    decisions = λ k.
        rw
          (
            item_at-drop_replaced k result.events
                (merge_events u result sid result.events state).decisions,
            decisions-merge_events result sid k result.events state,
          )
          refl;
    issues = λ k. issues-merge_events result sid k result.events state;
    actions = λ k. actions-merge_events result sid k result.events state;
    listed = contains-add_source sid (merge_events u result sid result.events state).source_ids;
    sources = ap (add_source u sid) (source_ids-merge_events result sid result.events state);
    untouched =
        let kept = merge_events-Untouched result sid result.events state in
        record {
          subject = kept.subject;
          summary = kept.summary;
          current_state = kept.current_state;
          updated_at = kept.updated_at;
        };
  }

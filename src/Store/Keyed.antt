-- ===== src/Store/Keyed.antt =====
-- Every key stands once in the store: the invariant that a merge keeps.
use maeglagi.Base.{
  not, List, [], ◌∷◌, map, ◌==◌, list_eq, nat_eq, if_ind, select, contains, Distinct, inl, inr,
  Bool-cases, Option-cases, Distinct-append_new,
}
use maeglagi.Base.Text.{Text}
use maeglagi.Extraction.{EntityKind, ExtractedEvent, ExtractionResult, Unicode, entity_eq}
use maeglagi.Store.{
  ContextStoreState, StoreDecision, issue_key, decision_key, action_key, issue_of, decision_of,
  action_of, merge_event, merge_events, replaced_by, drop_replaced, add_source, merge_extraction,
}
use maeglagi.Store.Items.{upsert-Distinct, select-Distinct}

module _ (u : Unicode) where
  -- One item for each key, and each source once.
  pub record IsKeyed (s : ContextStoreState) : Type 0 where
    pub decisions : Distinct (map (decision_key u) s.decisions)
    pub issues : Distinct (map (issue_key u) s.open_issues)
    pub actions : Distinct (map (action_key u) s.next_actions)
    pub sources : Distinct s.source_ids

  merge_event-IsKeyed :
      (result : ExtractionResult) (sid : Text) (s : ContextStoreState) (e : ExtractedEvent)
      → IsKeyed s
      → IsKeyed (merge_event u result sid s e)
  unfolding merge_event
  merge_event-IsKeyed result sid s e v =
      if_ind IsKeyed (e.kind == EntityKind.decision)
        (record {
          decisions =
              upsert-Distinct (decision_key u) s.decisions (decision_of u sid e) v.decisions;
          issues = v.issues;
          actions = v.actions;
          sources = v.sources;
        })
        (if_ind IsKeyed (e.kind == EntityKind.issue)
          (record {
            decisions = v.decisions;
            issues = upsert-Distinct (issue_key u) s.open_issues (issue_of u sid e) v.issues;
            actions = v.actions;
            sources = v.sources;
          })
          (if_ind IsKeyed (e.kind == EntityKind.task)
            (record {
              decisions = v.decisions;
              issues = v.issues;
              actions =
                  upsert-Distinct (action_key u) s.next_actions (action_of u result sid e)
                    v.actions;
              sources = v.sources;
            })
            v))

  merge_events-IsKeyed :
      (result : ExtractionResult) (sid : Text) (events : List ExtractedEvent)
      (s : ContextStoreState)
      → IsKeyed s
      → IsKeyed (merge_events u result sid events s)
  unfolding merge_events
  merge_events-IsKeyed result sid [] s v = v
  merge_events-IsKeyed result sid (e ∷ events) s v =
      merge_events-IsKeyed result sid events (merge_event u result sid s e)
        (merge_event-IsKeyed result sid s e v)

  drop_replaced-Distinct :
      (events : List ExtractedEvent) (decisions : List StoreDecision)
      → Distinct (map (decision_key u) decisions)
      → Distinct (map (decision_key u) (drop_replaced u events decisions))
  unfolding drop_replaced
  drop_replaced-Distinct [] decisions d = d
  drop_replaced-Distinct (e ∷ events) decisions d = elim (Option-cases (replaced_by u e)) [
    | inl same ↦ rw (same, drop_replaced) (drop_replaced-Distinct events decisions d)
    | inr (r, other) ↦
        rw (other, drop_replaced)
          (drop_replaced-Distinct events (select (λ x. not (decision_key u x == r)) decisions)
            (select-Distinct (decision_key u) _ decisions d))
  ]

  add_source-Distinct :
      (sid : Text) (source_ids : List Text)
      → Distinct source_ids
      → Distinct (add_source u sid source_ids)
  unfolding add_source
  add_source-Distinct sid source_ids d = elim (Bool-cases (contains sid source_ids)) [
    | inl e ↦ rw e d
    | inr e ↦ rw e (Distinct-append_new sid source_ids e d)
  ]

  -- Merging a source keeps one item for each key in each of the three lists, and lists each source
  -- once.
  pub merge_extraction-IsKeyed :
      (state : ContextStoreState) (result : ExtractionResult) (sid : Text)
      → IsKeyed state
      → IsKeyed (merge_extraction u state result sid)
  unfolding merge_extraction
  merge_extraction-IsKeyed state result sid v =
      let m = merge_events-IsKeyed result sid result.events state v in
      record {
        decisions = drop_replaced-Distinct result.events _ m.decisions;
        issues = m.issues;
        actions = m.actions;
        sources = add_source-Distinct sid _ m.sources;
      }

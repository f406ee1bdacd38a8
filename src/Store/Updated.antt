-- ===== src/Store/Updated.antt =====
-- What an update of the store keeps: the model that writes the narrative can only close issues and
-- actions, and only with a quote from the source.
use maeglagi.Base.{ℕ, ◌≡◌, refl, Option, some, List, [], list_eq, nat_eq}
use maeglagi.Base.Text.{Text, codes, strip}
use maeglagi.Extraction.{EntityKind, ExtractionResult, Unicode}
use maeglagi.Store.{StoreItem, StoreAction, ContextStoreState, merge_extraction}
use maeglagi.Store.Timeline.{or_text}
use maeglagi.Store.Keyed.{IsKeyed, merge_extraction-IsKeyed}
use maeglagi.Store.Closing.Exact.{Closes, close_lem}
use maeglagi.Store.Update.{
  Payload, ContextUpdateOutput, payload, finish_update, update_state, item_eq, action_eq,
}

module _ (u : Unicode) (run_stage : Payload → Option ContextUpdateOutput)
    (state : ContextStoreState) (result : ExtractionResult) (sid source_title text : Text)
    (now : ℕ) where
  abbrev pub merged : ContextStoreState
  merged = merge_extraction u state result sid

  -- The state after an answer, beside the merged one.
  pub record Updates (output : ContextUpdateOutput) (after : ContextStoreState) : Type 0 where
    pub keyed : IsKeyed u after
    pub decisions : after.decisions ≡ merged.decisions
    pub source_ids : after.source_ids ≡ merged.source_ids
    pub issue_warnings : List Text
    pub issues :
        Closes u
          (λ (i : StoreItem). i.title)
          EntityKind.issue
          text
          (codes "이슈 해결")
          merged.open_issues
          []
          output.resolved_issues
          (after.open_issues, issue_warnings)
    pub action_warnings : List Text
    pub actions :
        Closes u
          (λ (a : StoreAction). a.title)
          EntityKind.task
          text
          (codes "할 일 완료")
          merged.next_actions
          []
          output.completed_actions
          (after.next_actions, action_warnings)
    pub summary : after.summary ≡ or_text (strip output.summary) state.summary

  -- An update of a store with distinct keys that the model answers gives a state with distinct keys, in
  -- which every merged decision and source is kept, and of the merged issues and actions exactly those
  -- are gone that the answer closes with a quote from the text.
  pub update_state_lem :
      {output : ContextUpdateOutput}
      → IsKeyed u state
      → run_stage (payload u run_stage state merged result source_title text) ≡ some output
      → (r : ContextStoreState × List Text) × (update_state u run_stage state result sid
            source_title text now
          ≡ some r)
        × Updates output r.0
  unfolding update_state finish_update
  update_state_lem {output} v answer =
      let m = merge_extraction-IsKeyed u state result sid v in
      let issues =
        close_lem u (λ (i : StoreItem). i.title) EntityKind.issue text (codes "이슈 해결")
          merged.open_issues output.resolved_issues m.issues in
      let actions =
        close_lem u (λ (a : StoreAction). a.title) EntityKind.task text (codes "할 일 완료")
          merged.next_actions output.completed_actions m.actions in
      (
        finish_update u run_stage state merged output sid text now,
        rw (answer, update_state) refl,
        record {
          keyed = record {
            decisions = m.decisions;
            issues = issues.once;
            actions = actions.once;
            sources = m.sources;
          };
          decisions = refl;
          source_ids = refl;
          issue_warnings = _;
          issues = issues;
          action_warnings = _;
          actions = actions;
          summary = refl;
        },
      )

-- ===== src/Store/Again.antt =====
-- Reprocessing a source: a second merge of the same extraction.
use maeglagi.Base.{◌≡◌, ◌∙◌, arith}
use maeglagi.Base.Text.{Text}
use maeglagi.Extraction.{ExtractionResult, Unicode}
use maeglagi.Store.{ContextStoreState, issue_key, decision_key, action_key, merge_extraction}
use maeglagi.Store.Items.{item_at}
use maeglagi.Store.Merged.{merge_extraction_lem, add_source_known}

module _ (u : Unicode) where
  pub record SameItems (a b : ContextStoreState) : Type 0 where
    pub decisions :
        (k : Text) → item_at (decision_key u) k a.decisions ≡ item_at (decision_key u) k b.decisions
    pub issues :
        (k : Text) → item_at (issue_key u) k a.open_issues ≡ item_at (issue_key u) k b.open_issues
    pub actions :
        (k : Text)
        → item_at (action_key u) k a.next_actions ≡ item_at (action_key u) k b.next_actions
    pub sources : a.source_ids ≡ b.source_ids

  -- Reprocessing a source changes nothing: each key has the same item as after the first merge, and
  -- the sources are the same.
  pub merge_extraction_idem :
      (state : ContextStoreState) (result : ExtractionResult) (sid : Text)
      → let once = merge_extraction u state result sid in
        SameItems (merge_extraction u once result sid) once
  merge_extraction_idem state result sid =
      let first = merge_extraction_lem u state result sid in
      let second = merge_extraction_lem u (merge_extraction u state result sid) result sid in
      record {
        decisions = λ k. ground (arith, first.decisions k, second.decisions k);
        issues = λ k. ground (arith, first.issues k, second.issues k);
        actions = λ k. ground (arith, first.actions k, second.actions k);
        sources = second.sources ∙ add_source_known u sid _ first.listed;
      }

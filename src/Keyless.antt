-- ===== src/Keyless.antt =====
-- The context update without a model: `KeylessContextUpdater.update` of
-- backend/app/modules/agent_workflows/context_updater.py inside `ContextStoreService.apply`, and
-- `current_decisions` of context_store.py.
use maeglagi.Base.{
  ℕ, ◌≡◌, inl, inr, false, not, ◌&&◌, Option, none, some, List, [], ◌∷◌, ◌++◌, map, ◌==◌, leb,
  length, if◌then◌else◌, Option-cases,
}
use maeglagi.Base.Rows.{find}
use maeglagi.Base.Text.{Text, codes, is_empty, strip}
use maeglagi.Extraction.{ContextKind, ExtractedContext, ExtractionResult, Unicode, context_eq}
use maeglagi.Temporal.{Calendar}
use maeglagi.Store.{ContextStoreState, StoreDecision, merge_extraction}
use maeglagi.Store.Closing.{occurs_in}
use maeglagi.Store.Timeline.{events_overflow, timeline_records}
use maeglagi.Store.Timeline.Rows.{timeline-source}
use maeglagi.Store.Service.{
  ContextStoreRecord, Tables, store_key, save, replace_timeline, new_state,
}

-- `[context.body.strip() for context in contexts if it is a summary with a body]`
pub summaries_of : List ExtractedContext → List Text
summaries_of [] = []
summaries_of (c ∷ contexts) =
    let rest = summaries_of contexts in
    if c.kind == ContextKind.summary && not (is_empty (strip c.body))
    then strip c.body ∷ rest
    else rest

abbrev pub combined : Text → Text → Text
combined summary addition =
    if is_empty summary then addition else summary ++ (10 ∷ 10 ∷ []) ++ addition

-- The two conditional assignments to the merged state; `old` is the field of the state before.
pub add_summary : ContextStoreState → Text → Text → List Text → ContextStoreState × List Text
add_summary merged old source_title [] = (merged, [])
add_summary merged old source_title (s ∷ summaries) =
    let longer = combined old (source_title ++ codes ": " ++ s) in
    if occurs_in s old
    then (merged, [])
    else if leb (length longer) 20000
    then (record merged { summary = longer }, [])
    else (merged, codes "Workspace summary is full; source facts were saved" ∷ [])

pub add_current_state : ContextStoreState → Text → List Text → ContextStoreState
add_current_state merged old [] = merged
add_current_state merged old (s ∷ summaries) =
    if is_empty old then record merged { current_state = s } else merged

module _ (u : Unicode) where
  unfoldable pub keyless_update :
      ContextStoreState → ExtractionResult → Text → Text → ℕ → ContextStoreState × List Text
  unfolding summaries_of add_summary add_current_state
  keyless_update state result sid source_title now =
      let merged = merge_extraction u state result sid in
      let summaries = summaries_of result.contexts in
      let grown = add_summary merged state.summary source_title summaries in
      (
        record (add_current_state grown.0 state.current_state summaries) { updated_at = some now },
        grown.1,
      )

-- The row of a workspace under the new subject, and its owner; a new one if there is none.
pub loaded_row : ℕ → ℕ → Text → List ContextStoreRecord → ContextStoreState × ℕ
loaded_row workspace_id owner_id subject stores = elim (find store_key workspace_id stores) [
  | none ↦ (new_state subject, owner_id)
  | some r ↦ (record r.state { subject = subject }, r.owner_id)
]

-- The titles of the decisions that nobody has replaced.
unfoldable pub current_decisions : ℕ → List ContextStoreRecord → List Text
current_decisions workspace_id stores = elim (find store_key workspace_id stores) [
  | none ↦ []
  | some r ↦ map (λ (d : StoreDecision). d.title) r.state.decisions
]

module _ (u : Unicode) (calendar : Calendar) (uuid_text : ℕ → Text)
    (workspace_id owner_id source_id : ℕ) (source_title subject : Text) where
  -- None is an exception, after which nothing is written.
  unfoldable pub keyless_apply : ExtractionResult → ℕ → Tables → Option (Tables × List Text)
  unfolding keyless_update loaded_row
  keyless_apply result now tables =
      let before = loaded_row workspace_id owner_id subject tables.stores in
      let after = keyless_update u before.0 result (uuid_text source_id) source_title now in
      elim (timeline_records u calendar result workspace_id owner_id source_id) [
        | none ↦ none
        | some rows ↦ some (
          record {
            stores =
                save (record { workspace_id = workspace_id; owner_id = before.1; state = after.0 })
                  tables.stores;
            contexts = replace_timeline source_id rows tables.contexts;
          },
          after.1,
        )
      ]

  -- It returns where no date of an event overflows.
  pub keyless_apply-returns :
      (result : ExtractionResult) (now : ℕ) (tables : Tables)
      → events_overflow calendar result.events ≡ false
      → (after : Tables × List Text) × (keyless_apply result now tables ≡ some after)
  unfolding keyless_apply
  keyless_apply-returns result now tables fine =
      let (rows, made, own) =
        timeline-source u calendar result workspace_id owner_id source_id fine in
      elim (Option-cases (keyless_apply result now tables)) [
        | inr found ↦ found
        | inl absent ↦ cc (rw (made, keyless_apply) at absent)
      ]

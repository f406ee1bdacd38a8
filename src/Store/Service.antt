-- ===== src/Store/Service.antt =====
-- `ContextStoreService.apply` of context_store.py, over the tables of
-- backend/app/modules/context_engine/infrastructure/context_store_repository.py. Where it raises,
-- its transaction is rolled back.
pub mod Applied
use maeglagi.Base.{ℕ, Bool, not, Option, none, some, List, [], ◌∷◌, ◌++◌, ◌==◌, nat_eq, select}
use maeglagi.Base.Rows.{find, update}
use maeglagi.Base.Text.{Text}
use maeglagi.Extraction.{ExtractionResult, Unicode}
use maeglagi.Temporal.{Calendar}
use maeglagi.Store.{ContextStoreState}
use maeglagi.Store.Timeline.{ContextRecord, timeline_records}
use maeglagi.Store.Update.{Payload, ContextUpdateOutput, update_state}

pub record ContextStoreRecord : Type 0 where
  pub workspace_id : ℕ
  pub owner_id : ℕ
  pub state : ContextStoreState

abbrev pub store_key : ContextStoreRecord → ℕ
store_key r = r.workspace_id

pub record Tables : Type 0 where
  pub stores : List ContextStoreRecord
  pub contexts : List ContextRecord

-- `save`: the row of the workspace is written, or added if there is none.
pub save : ContextStoreRecord → List ContextStoreRecord → List ContextStoreRecord
save r stores = elim (find store_key r.workspace_id stores) [
  | none ↦ stores ++ r ∷ []
  | some _ ↦ update store_key r.workspace_id (λ _. r) stores
]

unfoldable pub replace_timeline : ℕ → List ContextRecord → List ContextRecord → List ContextRecord
replace_timeline source_id rows contexts =
    select (λ c. not (c.source_id == source_id)) contexts ++ rows

abbrev pub new_state : Text → ContextStoreState
new_state subject = record {
  subject = subject;
  summary = [];
  current_state = [];
  open_issues = [];
  decisions = [];
  next_actions = [];
  source_ids = [];
  updated_at = none;
}

module _ (u : Unicode) (run_stage : Payload → Option ContextUpdateOutput) (calendar : Calendar)
    (uuid_text : ℕ → Text) (workspace_id owner_id source_id : ℕ) (source_title subject text : Text)
    (result : ExtractionResult) where
  -- The stored state under the new subject, and the owner of the row.
  pub loaded : List ContextStoreRecord → ContextStoreState × ℕ
  loaded stores = elim (find store_key workspace_id stores) [
    | none ↦ (new_state subject, owner_id)
    | some r ↦ (record r.state { subject = subject }, r.owner_id)
  ]

  unfoldable pub apply : ℕ → Tables → Option (List Text × Tables)
  unfolding loaded save
  apply now tables =
      let before = loaded tables.stores in
      elim (update_state u run_stage before.0 result (uuid_text source_id) source_title text now) [
        | none ↦ none
        | some (after, warnings) ↦
            elim (timeline_records u calendar result workspace_id owner_id source_id) [
              | none ↦ none
              | some rows ↦ some (
                warnings,
                record {
                  stores =
                      save
                        (record { workspace_id = workspace_id; owner_id = before.1; state = after })
                        tables.stores;
                  contexts = replace_timeline source_id rows tables.contexts;
                },
              )
            ]
      ]

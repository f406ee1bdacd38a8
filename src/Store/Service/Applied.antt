-- ===== src/Store/Service/Applied.antt =====
-- What applying a source changes in the two tables, and what it leaves alone.
use mathlib.Core.List.{append-nil}
use maeglagi.Base.{
  ℕ, ◌≡◌, refl, false, not, Option, some, List, [], ◌∷◌, ◌++◌, map, arith, ◌==◌, nat_eq, list_eq,
  if◌then◌else◌, select, All, All-append, Distinct, Distinct-append_new, map-append, inl, inr,
  Bool-cases, Option-cases, ==-refl, nat_beq_iff,
}
use maeglagi.Base.Rows.{
  find, find-overwrite, keys-overwrite, find-append_new, All-update, All-find,
  contains-keys_of_none,
}
use maeglagi.Base.Text.{Text}
use maeglagi.Extraction.{ExtractionResult, Unicode}
use maeglagi.Temporal.{Calendar}
use maeglagi.Store.{ContextStoreState}
use maeglagi.Store.Keyed.{IsKeyed}
use maeglagi.Store.Timeline.{ContextRecord, events_overflow, timeline_records}
use maeglagi.Store.Timeline.Rows.{timeline-source}
use maeglagi.Store.Update.{Payload, ContextUpdateOutput, payload}
use maeglagi.Store.Updated.{update_state_lem, merged, Updates}
use maeglagi.Store.Service.{
  ContextStoreRecord, Tables, store_key, save, replace_timeline, loaded, apply,
}

find-save :
    (w : ℕ) (r : ContextStoreRecord) (stores : List ContextStoreRecord)
    → find store_key w (save r stores)
      ≡ (if r.workspace_id == w then some r else find store_key w stores)
unfolding save
find-save w r stores = elim (Option-cases (find store_key r.workspace_id stores)) [
  | inl absent ↦
      rw (absent, save)
        (ground (arith, find-append_new store_key w stores r, nat_beq_iff r.workspace_id w, absent))
  | inr (old, found) ↦ rw (found, save) (find-overwrite store_key r w stores found)
]

save-Distinct :
    (r : ContextStoreRecord) (stores : List ContextStoreRecord)
    → Distinct (map store_key stores)
    → Distinct (map store_key (save r stores))
unfolding save
save-Distinct r stores d = elim (Option-cases (find store_key r.workspace_id stores)) [
  | inl absent ↦
      rw (absent, save, map-append store_key stores (r ∷ []))
        (Distinct-append_new r.workspace_id (map store_key stores)
          (contains-keys_of_none store_key r.workspace_id stores absent) d)
  | inr (old, found) ↦ rw (found, save, keys-overwrite store_key r stores) d
]

save-All :
    (P : ContextStoreRecord → Type 0) (r : ContextStoreRecord) (stores : List ContextStoreRecord)
    → P r
    → All P stores
    → All P (save r stores)
unfolding save
save-All P r stores h a = elim (Option-cases (find store_key r.workspace_id stores)) [
  | inl absent ↦ rw (absent, save) (All-append P stores (r ∷ []) a (h, tt))
  | inr (old, found) ↦
      rw (found, save) (All-update store_key P r.workspace_id (λ _. r) stores (λ _ _. h) a)
]

-- The rows of a source.
abbrev pub rows_of : ℕ → List ContextRecord → List ContextRecord
rows_of s contexts = select (λ c. c.source_id == s) contexts

rows_of-append :
    (s : ℕ) (a b : List ContextRecord) → rows_of s (a ++ b) ≡ rows_of s a ++ rows_of s b
rows_of-append s [] b = refl
rows_of-append s (c ∷ a) b = ground (arith, rows_of-append s a b)

rows_of-rest :
    (s t : ℕ) (contexts : List ContextRecord)
    → rows_of s (select (λ c. not (c.source_id == t)) contexts)
      ≡ (if s == t then [] else rows_of s contexts)
rows_of-rest s t [] = ground arith
rows_of-rest s t (c ∷ contexts) = ground (arith, rows_of-rest s t contexts)

rows_of-own :
    (s t : ℕ) (rows : List ContextRecord)
    → All (λ c. c.source_id ≡ t) rows
    → rows_of s rows ≡ (if s == t then rows else [])
rows_of-own s t [] h = ground arith
rows_of-own s t (c ∷ rows) h = ground (arith, h.0, rows_of-own s t rows h.1)

-- After a replacement a source has its new rows only, and every other source the rows it had.
rows_of-replace_timeline :
    (s t : ℕ) (rows contexts : List ContextRecord)
    → All (λ c. c.source_id ≡ t) rows
    → rows_of s (replace_timeline t rows contexts) ≡ (if s == t then rows else rows_of s contexts)
unfolding replace_timeline
rows_of-replace_timeline s t rows contexts h =
    rw
      (
        rows_of-append s (select (λ c. not (c.source_id == t)) contexts) rows,
        rows_of-rest s t contexts,
        rows_of-own s t rows h,
      )
      (elim (Bool-cases (s == t)) [
        | inl same ↦ rw same refl
        | inr other ↦ rw other (append-nil (rows_of s contexts))
      ])

-- One row for each workspace, and in each one item for each key.
pub record IsValid (u : Unicode) (tables : Tables) : Type 0 where
  pub keyed : Distinct (map store_key tables.stores)
  pub states : All (λ r. IsKeyed u r.state) tables.stores

module _ (u : Unicode) (run_stage : Payload → Option ContextUpdateOutput) (calendar : Calendar)
    (uuid_text : ℕ → Text) (workspace_id owner_id source_id : ℕ) (source_title subject text : Text)
    (result : ExtractionResult) (now : ℕ) where
  abbrev pub before : List ContextStoreRecord → ContextStoreState × ℕ
  before stores =
      loaded u run_stage calendar uuid_text workspace_id owner_id source_id source_title subject
        text result stores

  -- What applying a source did to the tables.
  pub record Applies (output : ContextUpdateOutput) (tables after : Tables) : Type 0 where
    pub valid : IsValid u after
    pub row : ContextStoreRecord
    pub found : find store_key workspace_id after.stores ≡ some row
    pub owner : row.owner_id ≡ (before tables.stores).1
    pub updated :
        Updates u run_stage
          (before tables.stores).0
          result
          (uuid_text source_id)
          source_title
          text
          now
          output
          row.state
    pub others :
        (w : ℕ)
        → (workspace_id == w) ≡ false
        → find store_key w after.stores ≡ find store_key w tables.stores
    pub timeline : List ContextRecord
    pub made : timeline_records u calendar result workspace_id owner_id source_id ≡ some timeline
    pub rows :
        (s : ℕ)
        → rows_of s after.contexts
          ≡ (if s == source_id then timeline else rows_of s tables.contexts)

  before-IsKeyed :
      (stores : List ContextStoreRecord)
      → All (λ r. IsKeyed u r.state) stores
      → IsKeyed u (before stores).0
  unfolding loaded
  before-IsKeyed stores a = elim (Option-cases (find store_key workspace_id stores)) [
    | inl absent ↦
        rw (absent, loaded) (record { decisions = tt; issues = tt; actions = tt; sources = tt })
    | inr (r, found) ↦
        let v = All-find store_key (λ r. IsKeyed u r.state) workspace_id stores a found in
        rw (found, loaded)
          (record {
            decisions = v.decisions;
            issues = v.issues;
            actions = v.actions;
            sources = v.sources;
          })
  ]

  -- If no date of an event overflows and the model answers, applying a source to valid tables succeeds
  -- and gives valid tables, in which the row of its workspace is updated and no other, the source has
  -- exactly the rows of its timeline, and every other source the rows it had.
  pub apply_lem :
      (tables : Tables) {output : ContextUpdateOutput}
      → IsValid u tables
      → events_overflow calendar result.events ≡ false
      → run_stage (
          payload u run_stage
            (before tables.stores).0
            (merged u run_stage
              (before tables.stores).0
              result
              (uuid_text source_id)
              source_title
              text
              now)
            result
            source_title
            text)
        ≡ some output
      → (r : List Text × Tables) × (apply u run_stage calendar uuid_text workspace_id owner_id
            source_id source_title subject text result now tables
          ≡ some r)
        × Applies output tables r.1
  unfolding apply
  apply_lem tables {output} v fine answer =
      let state = (before tables.stores).0 in
      let (made, computed, updates) =
        update_state_lem u run_stage state result (uuid_text source_id) source_title text now
          (before-IsKeyed tables.stores v.states) answer in
      let (timeline, drawn, own) =
        timeline-source u calendar result workspace_id owner_id source_id fine in
      let row : ContextStoreRecord = record {
        workspace_id = workspace_id;
        owner_id = (before tables.stores).1;
        state = made.0;
      } in
      (
        (
          made.1,
          record {
            stores = save row tables.stores;
            contexts = replace_timeline source_id timeline tables.contexts;
          },
        ),
        rw (computed, drawn, apply) refl,
        record {
          valid = record {
            keyed = save-Distinct row tables.stores v.keyed;
            states = save-All (λ r. IsKeyed u r.state) row tables.stores updates.keyed v.states;
          };
          row = row;
          found = rw (find-save workspace_id row tables.stores, ==-refl workspace_id) refl;
          owner = refl;
          updated = updates;
          others = λ w other. rw (find-save w row tables.stores, other) refl;
          timeline = timeline;
          made = drawn;
          rows = λ s. rows_of-replace_timeline s source_id timeline tables.contexts own;
        },
      )

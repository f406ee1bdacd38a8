-- ===== src/Store/Timeline/Rows.antt =====
-- The rows that `timeline_records` makes: which there are, and which there are not.
use maeglagi.Base.{
  ℕ, ◌≤◌, ◌≡◌, ◌≢◌, refl, ◌⊎◌, true, false, none, Option, some, List, [], ◌∷◌, ◌++◌, map, sym,
  arith, list_eq, nat_eq, pair_eq, contains, list_beq_iff, contains-append, Distinct,
  Distinct-append_new, All, All-append, All-imp, map-append, length, length-take-le, inl, inr,
  Bool-cases, Option-cases, ==-refl,
}
use maeglagi.Base.Text.{Text, strip}
use maeglagi.Extraction.{
  EntityKind, ContextKind, ExtractedEvent, ExtractionResult, Unicode, entity_eq, context_eq,
}
use maeglagi.Temporal.{Calendar, overflows, parse_instant-cases}
use maeglagi.Store.{item_key, given}
use maeglagi.Store.Timeline.{
  ContextRecord, slot, events_overflow, timeline_kind, supersedes_of, row_at, timeline_record,
  add_record, add_records, timeline_records,
}

module _ (u : Unicode) (calendar : Calendar) (result : ExtractionResult)
    (workspace_id owner_id source_id : ℕ) where
  abbrev row : List ContextRecord → ExtractedEvent → Option (List ContextRecord)
  row records e = add_record u calendar result workspace_id owner_id source_id records e

  abbrev rows : List ContextRecord → List ExtractedEvent → Option (List ContextRecord)
  rows records events = add_records u calendar result workspace_id owner_id source_id records events

  abbrev made : ExtractedEvent → ContextKind → Text → Option ℕ → ContextRecord
  made e kind key = row_at u calendar result workspace_id owner_id source_id e kind key

  -- A row of this source, with a title that fits its column, that does not supersede itself.
  pub record IsRow (row : ContextRecord) : Type 0 where
    pub source : row.source_id ≡ source_id
    pub workspace : row.workspace_id ≡ workspace_id
    pub title_fits : length row.title ≤ 255
    pub not_itself : row.metadata.supersedes ≢ some row.metadata.key

  supersedes_of-ne :
      (e : ExtractedEvent) (key : Text)
      → supersedes_of u calendar result workspace_id owner_id source_id e key ≢ some key
  unfolding supersedes_of
  supersedes_of-ne e key h = elim (Option-cases (given e.supersedes)) [
    | inl n ↦ ground arith
    | inr (old, g) ↦ ground (arith, list_beq_iff (item_key u old EntityKind.decision) key)
  ]

  row_at-IsRow :
      (e : ExtractedEvent) (kind : ContextKind) (key : Text) (t : Option ℕ)
      → IsRow (made e kind key t)
  unfolding row_at
  row_at-IsRow e kind key t = record {
    source = refl;
    workspace = refl;
    title_fits = length-take-le 255 (strip e.name);
    not_itself = supersedes_of-ne e key;
  }

  -- The event has a row, unless the timeline leaves its kind out.
  abbrev pub HasRow : List ContextRecord → ExtractedEvent → Type 0
  HasRow records e =
      (kind : ContextKind)
      → timeline_kind e.kind ≡ some kind
      → contains (kind, item_key u e.name e.kind) (map slot records) ≡ true

  pub record IsTimeline (records : List ContextRecord) : Type 0 where
    pub once : Distinct (map slot records)
    pub rows : All IsRow records

  -- What one round of the loop adds for its event.
  record Adds (records : List ContextRecord) (e : ExtractedEvent) (next : List ContextRecord)
      : Type 0 where
    valid : IsTimeline records → IsTimeline next
    has : HasRow next e
    keeps :
        (k : ContextKind × Text)
        → contains k (map slot records) ≡ true
        → contains k (map slot next) ≡ true

  added_row-Adds :
      (records : List ContextRecord) (e : ExtractedEvent) {kind : ContextKind} (t : Option ℕ)
      → timeline_kind e.kind ≡ some kind
      → contains (kind, item_key u e.name e.kind) (map slot records) ≡ false
      → Adds records e (records ++ made e kind (item_key u e.name e.kind) t ∷ [])
  unfolding row_at
  added_row-Adds records e {kind} t known new =
      let key = item_key u e.name e.kind in
      let appended = map-append slot records (made e kind key t ∷ []) in
      record {
        valid = λ v. record {
          once = rw appended (Distinct-append_new (kind, key) (map slot records) new v.once);
          rows =
              All-append IsRow records (made e kind key t ∷ []) v.rows
                (row_at-IsRow e kind key t, tt);
        };
        has = λ other same.
            let agree : kind ≡ other = cc (known, same) in
            rw
              (
                sym agree,
                appended,
                contains-append (kind, key) (map slot records) ((kind, key) ∷ []),
                new,
                ==-refl {A = ContextKind × Text} (kind, key),
              )
              refl;
        keeps =
            λ k h. rw (appended, contains-append k (map slot records) ((kind, key) ∷ []), h) refl;
      }

  add_record_cases :
      (records : List ContextRecord) (e : ExtractedEvent)
      → ((row records e ≡ none) × (overflows calendar e.occurred_at ≡ true))
        ⊎ ((next : List ContextRecord) × (row records e ≡ some next) × Adds records e next)
  unfolding add_record timeline_record
  add_record_cases records e = elim (Option-cases (timeline_kind e.kind)) [
    | inl out ↦ inr (
      records,
      rw (out, add_record) refl,
      record { valid = λ v. v; has = λ kind known. cc (out, known); keeps = λ k h. h },
    )
    | inr (kind, known) ↦
        let key = item_key u e.name e.kind in
        elim (Bool-cases (contains (kind, key) (map slot records))) [
          | inl old ↦ inr (
            records,
            rw (known, old, add_record) refl,
            record {
              valid = λ v. v;
              has =
                  λ other same. (let agree : kind ≡ other = cc (known, same) in rw (sym agree) old);
              keeps = λ k h. h;
            },
          )
          | inr new ↦ elim (parse_instant-cases calendar e.occurred_at) [
            | inl (raised, late) ↦ inl (rw (known, new, raised, add_record) refl, late)
            | inr (t, read, fine) ↦ inr (
              records ++ made e kind key t ∷ [],
              rw (known, new, read, add_record) refl,
              added_row-Adds records e t known new,
            )
          ]
        ]
  ]

  -- What the whole loop adds.
  record AddsAll (records : List ContextRecord) (events : List ExtractedEvent)
      (made : List ContextRecord) : Type 0 where
    valid : IsTimeline records → IsTimeline made
    has : All (HasRow made) events
    keeps :
        (k : ContextKind × Text)
        → contains k (map slot records) ≡ true
        → contains k (map slot made) ≡ true

  add_records_cases :
      (records : List ContextRecord) (events : List ExtractedEvent)
      → ((rows records events ≡ none) × (events_overflow calendar events ≡ true))
        ⊎ ((made : List ContextRecord) × (rows records events ≡ some made)
            × AddsAll records events made)
  unfolding add_records
  add_records_cases records [] =
      inr (records, refl, record { valid = λ v. v; has = tt; keeps = λ k h. h })
  add_records_cases records (e ∷ events) = elim (add_record_cases records e) [
    | inl (raised, late) ↦ inl (rw (raised, add_records) refl, rw late refl)
    | inr (next, added, one) ↦ elim (add_records_cases next events) [
      | inl (raised, late) ↦ inl (rw (added, add_records) raised, ground (arith, late))
      | inr (made, done, all) ↦ inr (
        made,
        rw (added, add_records) done,
        record {
          valid = λ v. all.valid (one.valid v);
          has = (
            λ kind known. all.keeps (kind, item_key u e.name e.kind) (one.has kind known),
            all.has,
          );
          keeps = λ k h. all.keeps k (one.keeps k h);
        },
      )
    ]
  ]

  -- The timeline of a source raises only where the date of an event overflows. It has at most one row
  -- for each kind and key, one for each event whose kind is kept, and only rows of that source and
  -- workspace, with titles of at most 255 characters, none of which supersedes its own key.
  pub timeline_records-IsTimeline :
      ((timeline_records u calendar result workspace_id owner_id source_id ≡ none)
        × (events_overflow calendar result.events ≡ true))
      ⊎ ((records : List ContextRecord) × (timeline_records u calendar result workspace_id owner_id
              source_id
            ≡ some records)
          × IsTimeline records
          × All (HasRow records) result.events)
  unfolding timeline_records
  timeline_records-IsTimeline = elim (add_records_cases [] result.events) [
    | inl raised ↦ inl raised
    | inr (records, made, all) ↦
        inr (records, made, all.valid (record { once = tt; rows = tt }), all.has)
  ]

  -- Where no date overflows, the rows of the source.
  pub timeline-source :
      events_overflow calendar result.events ≡ false
      → (records : List ContextRecord) × (timeline_records u calendar result workspace_id owner_id
            source_id
          ≡ some records)
        × All (λ c. c.source_id ≡ source_id) records
  timeline-source fine = elim timeline_records-IsTimeline [
    | inl (raised, late) ↦ cc (fine, late)
    | inr (records, made, valid, has) ↦ (
      records,
      made,
      All-imp IsRow (λ c. c.source_id ≡ source_id) (λ c v. v.source) records valid.rows,
    )
  ]

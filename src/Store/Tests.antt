-- ===== src/Store/Tests.antt =====
-- A store with a decision that a new source replaces.
use maeglagi.Base.{
  ℕ, ◌≡◌, refl, ◌⊎◌, true, Option, none, some, List, [], ◌∷◌, map, list_eq, nat_eq, All, Distinct,
  length,
}
use maeglagi.Base.Text.{Text, codes, is_space, strip}
use maeglagi.Extraction.{
  EntityKind, RelationKind, ContextKind, ExtractedEvent, ExtractionResult, Unicode, normalize_name,
}
use maeglagi.Store.{ContextStoreState, StoreItem, decision_key, item_key, merge_extraction}
use maeglagi.Store.Items.{item_at}
use maeglagi.Store.Merged.{Merges, merge_extraction_lem}
use maeglagi.Store.Keyed.{IsKeyed, merge_extraction-IsKeyed}
use maeglagi.Temporal.{Calendar, aware, parse_instant}
use maeglagi.Store.Timeline.{ContextRecord, slot, events_overflow, timeline_records}
use maeglagi.Store.Timeline.Rows.{IsTimeline, HasRow, timeline_records-IsTimeline}
use maeglagi.Store.Closing.{Resolution, close, grounded}
use maeglagi.Store.Closing.Exact.{Closes, close_lem}
use maeglagi.Store.Update.{Payload, ContextUpdateOutput, update_state, item_eq}
use maeglagi.Store.Updated.{Updates, update_state_lem}
use maeglagi.Store.Service.{Tables, apply}
use maeglagi.Store.Service.Applied.{Applies, apply_lem}
use maeglagi.Store.Again.{SameItems, merge_extraction_idem}

abbrev plain : Unicode
plain = record { nfkc = λ s. s; casefold = λ s. s }

abbrev event_named : Text → EntityKind → ExtractedEvent
event_named name kind = record {
  name = name;
  kind = kind;
  description = [];
  occurred_at = none;
  due_at = none;
  supersedes = none;
  source_refs = [];
}

abbrev extraction : ExtractionResult
extraction = record {
  entities =
      record {
        name = codes "kim";
        kind = EntityKind.person;
        aliases = [];
        identifiers = [];
        source_refs = [];
      }
      ∷ [];
  events =
      record (event_named (codes "use B") EntityKind.decision) { supersedes = some (codes "use-A") }
      ∷ event_named (codes "slow build") EntityKind.issue
      ∷ event_named (codes "buy") EntityKind.task
      ∷ event_named (codes "slow.build") EntityKind.issue
      ∷ [];
  relations =
      record {
        source = codes "buy";
        target = codes "kim";
        kind = RelationKind.assigned_to;
        valid_from = none;
        valid_to = none;
        source_refs = [];
      }
      ∷ [];
  contexts = [];
}

abbrev before : ContextStoreState
before = record {
  subject = [];
  summary = [];
  current_state = [];
  open_issues = [];
  decisions =
      record {
        title = codes "use A";
        description = [];
        source_refs = [];
        source_id = none;
        decided_at = none;
      }
      ∷ [];
  next_actions = [];
  source_ids = codes "s1" ∷ [];
  updated_at = none;
}

abbrev after : ContextStoreState
after = merge_extraction plain before extraction (codes "s2")

decision_is_replaced : item_at (decision_key plain) (codes "useA") after.decisions ≡ none
unfolding merge_extraction normalize_name is_space
decision_is_replaced = refl

merge_extraction_lem_example : Merges plain extraction (codes "s2") before after
merge_extraction_lem_example = merge_extraction_lem plain before extraction (codes "s2")

before-IsKeyed : IsKeyed plain before
before-IsKeyed = record { decisions = (refl, tt); issues = tt; actions = tt; sources = (refl, tt) }

merge_extraction-IsKeyed_example : IsKeyed plain after
merge_extraction-IsKeyed_example =
    merge_extraction-IsKeyed plain before extraction (codes "s2") before-IsKeyed

merge_extraction_idem_example :
    SameItems plain (merge_extraction plain after extraction (codes "s2")) after
merge_extraction_idem_example = merge_extraction_idem plain before extraction (codes "s2")

-- Every date has a zone, in which it is before the first instant of UTC.
abbrev early : Calendar
early = record { fromisoformat = λ value. some (aware 0 9); astimezone = λ time zone. none }

abbrev slots_of : Option (List ContextRecord) → Option (List (ContextKind × Text))
slots_of none = none
slots_of (some rows) = some (map slot rows)

timeline_of_extraction :
    slots_of (timeline_records plain early extraction 1 2 3)
    ≡ some (
        (ContextKind.decision, codes "useB")
        ∷ (ContextKind.issue, codes "slowbuild")
        ∷ (ContextKind.task, codes "buy")
        ∷ [])
unfolding timeline_records normalize_name is_space parse_instant
timeline_of_extraction = refl

-- 0001-01-01T00:00:00+09:00 is before the first instant of UTC.
early_date_raises :
    timeline_records plain early
      (record extraction {
        events =
            record (event_named (codes "slow build") EntityKind.issue) {
              occurred_at = some (codes "0001-01-01T00:00:00+09:00");
            }
            ∷ [];
      })
      1
      2
      3
    ≡ none
unfolding timeline_records normalize_name is_space parse_instant strip
early_date_raises = refl

timeline_records-IsTimeline_example :
    ((timeline_records plain early extraction 1 2 3 ≡ none)
      × (events_overflow early extraction.events ≡ true))
    ⊎ ((records : List ContextRecord) × (timeline_records plain early extraction 1 2 3
          ≡ some records)
        × IsTimeline plain early extraction 1 2 3 records
        × All (HasRow plain early extraction 1 2 3 records) extraction.events)
timeline_records-IsTimeline_example = timeline_records-IsTimeline plain early extraction 1 2 3

-- The text has the quote, so that the issue is closed.
abbrev source_text : Text
source_text = codes "The build is fast now."

abbrev resolved : Resolution
resolved = record { title = codes "Slow build"; source_refs = codes "build is  fast" ∷ [] }

abbrev open_issues : List StoreItem
open_issues =
    record { title = codes "Slow build"; description = []; source_refs = []; source_id = none }
    ∷ record { title = codes "Leak"; description = []; source_refs = []; source_id = none }
    ∷ []

issues-Distinct :
    Distinct (map (λ (i : StoreItem). item_key plain i.title EntityKind.issue) open_issues)
unfolding normalize_name is_space
issues-Distinct = (refl, (refl, tt))

closed_one :
    length
      (close plain
        (λ (i : StoreItem). i.title)
        EntityKind.issue
        source_text
        []
        open_issues
        (resolved ∷ [])).0
    ≡ 1
unfolding close normalize_name is_space grounded strip
closed_one = refl

close_lem_example :
    Closes plain
      (λ (i : StoreItem). i.title)
      EntityKind.issue
      source_text
      []
      open_issues
      []
      (resolved ∷ [])
      (close plain
        (λ (i : StoreItem). i.title)
        EntityKind.issue
        source_text
        []
        open_issues
        (resolved ∷ []))
close_lem_example =
    close_lem plain (λ (i : StoreItem). i.title) EntityKind.issue source_text [] open_issues
      (resolved ∷ []) issues-Distinct

abbrev answer : ContextUpdateOutput
answer = record {
  summary = codes "B is used.";
  current_state = [];
  resolved_issues = resolved ∷ [];
  completed_actions = [];
}

abbrev model : Payload → Option ContextUpdateOutput
model _ = some answer

update_state_lem_example :
    (r : ContextStoreState × List Text) × (update_state plain model before extraction
        (codes "s2")
        []
        source_text
        7
      ≡ some r)
    × Updates plain model before extraction (codes "s2") [] source_text 7 answer r.0
update_state_lem_example =
    update_state_lem plain model before extraction (codes "s2") [] source_text 7 before-IsKeyed refl

abbrev tables : Tables
tables = record {
  stores = record { workspace_id = 4; owner_id = 2; state = before } ∷ [];
  contexts = [];
}

abbrev uuid_text : ℕ → Text
uuid_text n = n ∷ []

apply_lem_example :
    (r : List Text × Tables) × (apply plain model early uuid_text 4 2 3 []
        (codes "Build")
        source_text
        extraction
        7
        tables
      ≡ some r)
    × Applies plain model early uuid_text 4 2 3 []
        (codes "Build")
        source_text
        extraction
        7
        answer
        tables
        r.1
unfolding parse_instant
apply_lem_example =
    apply_lem plain model early uuid_text 4 2 3 [] (codes "Build") source_text extraction 7 tables
      (record { keyed = (refl, tt); states = (before-IsKeyed, tt) }) refl refl

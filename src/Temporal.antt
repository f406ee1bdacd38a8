-- ===== src/Temporal.antt =====
-- Validity intervals of relations: backend/app/modules/context_engine/application/temporal.py.
-- An instant is the number of microseconds since `datetime.min` in UTC, which is `_EARLIEST`.
pub mod Disjoint
pub mod Known
mod Tests
use maeglagi.Base.{
  ℕ, ◌≡◌, refl, ◌⊎◌, inl, inr, min, max, Bool, true, false, not, ◌&&◌, Option, none, some, List, [],
  ◌∷◌, leb, if◌then◌else◌, Bool-cases, Option-cases,
}
use maeglagi.Base.Sort.{sort}
use maeglagi.Base.Text.{Text, is_empty, strip}

-- A date as it is written: a time without a zone, or a time and its zone.
pub data Parsed : Type 0 where
  naive : ℕ → Parsed
  aware : ℕ → ℕ → Parsed

-- What the file takes from Python: `datetime.fromisoformat`, where none is its ValueError, and
-- `astimezone(UTC)` of a time and a zone, where none is its OverflowError.
pub record Calendar : Type 0 where
  pub fromisoformat : Text → Option Parsed
  pub astimezone : ℕ → ℕ → Option ℕ

-- The last line of `parse_instant`.
abbrev pub in_utc : Calendar → Option Parsed → Option (Option ℕ)
in_utc calendar none = some none
in_utc calendar (some (naive time)) = some (some time)
in_utc calendar (some (aware time zone)) = elim (calendar.astimezone time zone) [
  | none ↦ none
  | some t ↦ some (some t)
]

-- The outer none is the OverflowError that is not caught, the inner one the None that is returned.
unfoldable pub parse_instant : Calendar → Option Text → Option (Option ℕ)
parse_instant calendar none = some none
parse_instant calendar (some value) =
    if is_empty (strip value)
    then some none
    else in_utc calendar (calendar.fromisoformat (strip value))

-- The date has a zone, and is out of the range of UTC.
abbrev pub is_late : Calendar → Option Parsed → Bool
is_late calendar none = false
is_late calendar (some (naive time)) = false
is_late calendar (some (aware time zone)) = elim (calendar.astimezone time zone) [
  | none ↦ true
  | some t ↦ false
]

abbrev pub overflows : Calendar → Option Text → Bool
overflows calendar none = false
overflows calendar (some value) =
    not (is_empty (strip value)) && is_late calendar (calendar.fromisoformat (strip value))

in_utc_cases :
    (calendar : Calendar) (parsed : Option Parsed)
    → ((in_utc calendar parsed ≡ none) × (is_late calendar parsed ≡ true))
      ⊎ ((t : Option ℕ) × (in_utc calendar parsed ≡ some t) × (is_late calendar parsed ≡ false))
in_utc_cases calendar none = inr (none, refl, refl)
in_utc_cases calendar (some (naive time)) = inr (some time, refl, refl)
in_utc_cases calendar (some (aware time zone)) =
    elim (Option-cases (calendar.astimezone time zone)) [
      | inl raised ↦ inl (rw (raised, in_utc) refl, rw (raised, is_late) refl)
      | inr (t, shifted) ↦ inr (some t, rw (shifted, in_utc) refl, rw (shifted, is_late) refl)
    ]

-- It raises exactly on the dates that overflow.
pub parse_instant-cases :
    (calendar : Calendar) (value : Option Text)
    → ((parse_instant calendar value ≡ none) × (overflows calendar value ≡ true))
      ⊎ ((t : Option ℕ) × (parse_instant calendar value ≡ some t)
          × (overflows calendar value ≡ false))
unfolding parse_instant
parse_instant-cases calendar none = inr (none, refl, refl)
parse_instant-cases calendar (some value) = elim (Bool-cases (is_empty (strip value))) [
  | inl blank ↦ inr (none, rw (blank, parse_instant) refl, rw (blank, overflows) refl)
  | inr written ↦ elim (in_utc_cases calendar (calendar.fromisoformat (strip value))) [
    | inl (raised, late) ↦ inl (rw (written, parse_instant) raised, rw (written, overflows) late)
    | inr (t, read, fine) ↦ inr (t, rw (written, parse_instant) read, rw (written, overflows) fine)
  ]
]

pub record Interval : Type 0 where
  pub valid_from : Option ℕ
  pub valid_to : Option ℕ

abbrev pub earliest : ℕ
earliest = 0

-- `a is None or b is None or a <= b`
abbrev pub not_after : Option ℕ → Option ℕ → Bool
not_after none _ = true
not_after (some a) none = true
not_after (some a) (some b) = leb a b

pub overlaps : Interval → Interval → Bool
overlaps self other =
    let starts_before_other_ends = not_after self.valid_from other.valid_to in
    let other_starts_before_end = not_after other.valid_from self.valid_to in
    starts_before_other_ends && other_starts_before_end

-- `min` and `max` of the known values, if there is one.
abbrev pub known_min : Option ℕ → Option ℕ → Option ℕ
known_min none b = b
known_min (some a) none = some a
known_min (some a) (some b) = some (min a b)

abbrev pub known_max : Option ℕ → Option ℕ → Option ℕ
known_max none b = b
known_max (some a) none = some a
known_max (some a) (some b) = some (max a b)

pub merge : Interval → Interval → Interval
merge self other = record {
  valid_from = known_min self.valid_from other.valid_from;
  valid_to = known_max self.valid_to other.valid_to;
}

-- `item.valid_from or _EARLIEST`
abbrev pub start_key : Interval → ℕ
start_key i = elim i.valid_from [ none ↦ earliest | some a ↦ a ]

abbrev pub starts_before : Interval → Interval → Bool
starts_before a b = leb (start_key a) (start_key b)

-- One round of the loop: the last interval of the result takes an overlapping one in.
pub fold_in : List Interval → Interval → List Interval
fold_in [] interval = interval ∷ []
fold_in (last ∷ []) interval =
    if overlaps last interval then merge last interval ∷ [] else last ∷ interval ∷ []
fold_in (first ∷ second ∷ result) interval = first ∷ fold_in (second ∷ result) interval

pub fold_all : List Interval → List Interval → List Interval
unfolding fold_in
fold_all result [] = result
fold_all result (interval ∷ intervals) = fold_all (fold_in result interval) intervals

pub normalize : List Interval → List Interval
unfolding fold_all
normalize intervals = fold_all [] (sort starts_before intervals)

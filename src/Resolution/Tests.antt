-- ===== src/Resolution/Tests.antt =====
-- A person who is mentioned twice with one email, under two names.
use maeglagi.Base.{ℕ, ◌≡◌, refl, ◌⊎◌, true, none, some, Option, List, [], ◌∷◌, map}
use maeglagi.Base.Text.{Text, codes, is_space, strip}
use maeglagi.Extraction.{EntityKind, ExtractedEntity, ExtractionResult, Unicode, normalize_name}
use maeglagi.Temporal.{Calendar}
use maeglagi.Store.Timeline.{events_overflow}
use maeglagi.Store.Closing.{starts_with}
use maeglagi.Directory.{normalize_identifier}
use maeglagi.Resolution.{
  Group, add_all, groups_of, take_mentions, take_mention, match_of, place_matched, place,
  absorb_all, join_mention,
}
use maeglagi.Resolution.Apart.{AreApart}
use maeglagi.Resolution.Grouped.{groups_of-AreApart}

abbrev plain : Unicode
plain = record { nfkc = λ s. s; casefold = λ s. s }

abbrev digits : ℕ → Text
digits n = n ∷ []

abbrev no_dates : Calendar
no_dates = record { fromisoformat = λ value. none; astimezone = λ time zone. none }

abbrev person : Text → Text → ExtractedEntity
person name email = record {
  name = name;
  kind = EntityKind.person;
  aliases = [];
  identifiers = email ∷ [];
  source_refs = [];
}

abbrev result : ExtractionResult
result = record {
  entities =
      person (codes "Jin") (codes "mailto:j@x")
      ∷ person (codes "Kim") (codes "k@x")
      ∷ person (codes "Kim Jin") (codes "j@x")
      ∷ [];
  events = [];
  relations = [];
  contexts = [];
}

abbrev names_of : Option (List Group × List Text) → Option (List (List Text))
names_of none = none
names_of (some (groups, warnings)) = some (map (λ (g : Group). g.names) groups)

two_people :
    names_of (groups_of plain digits no_dates [] result)
    ≡ some ((codes "Jin" ∷ codes "Kim Jin" ∷ []) ∷ (codes "Kim" ∷ []) ∷ [])
unfolding groups_of take_mentions take_mention match_of place_matched place absorb_all join_mention
    add_all normalize_identifier normalize_name starts_with strip is_space
two_people = refl

groups_of-AreApart_example :
    ((groups_of plain digits no_dates [] result ≡ none)
      × (events_overflow no_dates result.events ≡ true))
    ⊎ ((grouped : List Group × List Text) × (groups_of plain digits no_dates [] result
          ≡ some grouped)
        × AreApart grouped.0)
groups_of-AreApart_example = groups_of-AreApart plain digits no_dates [] result

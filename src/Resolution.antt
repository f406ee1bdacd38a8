-- ===== src/Resolution.antt =====
-- The groups of mentions of one entity: the first half of `resolve_extraction` of
-- backend/app/modules/context_engine/application/entity_resolution.py. A set is the list of its
-- elements in the order of their insertion. Which groups match is a test of a group's fields, so a
-- group's identity as an object is not needed.
pub mod Apart
pub mod Grouped
pub mod Entities
pub mod Linking
pub mod Graph
pub mod Returns
mod Tests
use maeglagi.Base.{
  ℕ, Bool, true, false, not, ◌&&◌, ◌||◌, Option, none, some, List, [], ◌∷◌, ◌++◌, map, ◌==◌, nat_eq,
  list_eq, option_eq, ltb, length, any, contains, select, count_if, if◌then◌else◌,
}
use maeglagi.Base.Text.{Text, codes, is_empty}
use maeglagi.Extraction.{
  EntityKind, ExtractedEntity, ExtractedEvent, ExtractionResult, Unicode, normalize_name, entity_eq,
}
use maeglagi.Temporal.{Calendar, parse_instant}
use maeglagi.Store.Closing.{starts_with}
use maeglagi.Directory.{normalize_identifier}

pub record Mention : Type 0 where
  pub name : Text
  pub kind : EntityKind
  pub aliases : List Text
  pub identifiers : List Text
  pub occurred_at : Option ℕ

pub record Group : Type 0 where
  pub kind : EntityKind
  pub names : List Text
  pub keys : List Text
  pub identifiers : List Text
  pub timestamp : Option ℕ

-- `xs |= ys`
unfoldable pub add_all : List Text → List Text → List Text
add_all xs [] = xs
add_all xs (y ∷ ys) = add_all (if contains y xs then xs else xs ++ y ∷ []) ys

-- `bool(xs & ys)`
abbrev pub shares : List Text → List Text → Bool
shares xs ys = any (λ x. contains x ys) xs

abbrev pub first_known : Option ℕ → Option ℕ → Option ℕ
first_known none b = b
first_known (some a) b = some a

pub absorb : Group → Group → Group
absorb self other = record self {
  names = self.names ++ other.names;
  keys = add_all self.keys other.keys;
  identifiers = add_all self.identifiers other.identifiers;
  timestamp = first_known self.timestamp other.timestamp;
}

unfoldable pub absorb_all : Group → List Group → Group
unfolding absorb
absorb_all g [] = g
absorb_all g (other ∷ others) = absorb_all (absorb g other) others

abbrev pub empty_group : EntityKind → Group
empty_group kind = record { kind = kind; names = []; keys = []; identifiers = []; timestamp = none }

abbrev pub is_nil : List Text → Bool
is_nil [] = true
is_nil (x ∷ xs) = false

abbrev pub has_group : List Group → Bool
has_group [] = false
has_group (g ∷ groups) = true

-- Same kind and a shared identifier.
abbrev pub by_identifier : Mention → Group → Bool
by_identifier m g = g.kind == m.kind && shares g.identifiers m.identifiers

-- Same kind and a shared key, and not both sides identified.
abbrev pub by_name : Mention → List Text → Group → Bool
by_name m keys g =
    g.kind == m.kind
    && shares g.keys keys
    && not (by_identifier m g)
    && (is_nil m.identifiers || is_nil g.identifiers)

-- Which groups a mention joins: those that come first among the matched ones, and the others.
pub record Match : Type 0 where
  pub leads : Group → Bool
  pub follows : Group → Bool
  pub ambiguous : Bool

-- By an identifier: those that share one, and then the ones of the name without any.
abbrev pub identified : Mention → List Text → Match
identified m keys = record {
  leads = by_identifier m;
  follows = λ g. by_name m keys g && is_nil g.identifiers;
  ambiguous = false;
}

-- Several identified entities have the name of a mention that has no identifier.
abbrev pub unclear : Match
unclear = record { leads = λ _. false; follows = λ _. false; ambiguous = true }

abbrev pub named : Mention → List Text → Match
named m keys = record { leads = by_name m keys; follows = λ _. false; ambiguous = false }

abbrev pub is_unclear : Mention → List Text → List Group → Bool
is_unclear m keys groups =
    is_nil m.identifiers
    && ltb 1 (count_if (λ g. by_name m keys g && not (is_nil g.identifiers)) groups)

unfoldable pub match_of : Mention → List Text → List Group → Match
match_of m keys groups =
    if any (by_identifier m) groups
    then identified m keys
    else if is_unclear m keys groups
    then unclear
    else named m keys

abbrev pub hit : Match → Group → Bool
hit t g = t.leads g || t.follows g

-- The merged group stands where the first of the matched ones stood; the others are removed.
unfoldable pub place : Match → Group → List Group → List Group
place t merged [] = []
place t merged (g ∷ groups) =
    let rest = place t merged groups in
    if t.leads g
    then merged ∷ select (λ h. not (hit t h)) groups
    else if t.follows g
    then rest
    else g ∷ rest

unfoldable pub join_mention : Group → Mention → List Text → Group
join_mention g m keys = record {
  kind = g.kind;
  names = g.names ++ m.name ∷ m.aliases;
  keys = add_all g.keys keys;
  identifiers = add_all g.identifiers m.identifiers;
  timestamp = first_known g.timestamp m.occurred_at;
}

-- The groups after a mention that matches the ones given.
unfoldable pub place_matched : Mention → List Text → Match → List Group → List Group → List Group
unfolding place absorb_all join_mention
place_matched m keys t groups [] = groups ++ join_mention (empty_group m.kind) m keys ∷ []
place_matched m keys t groups (g ∷ others) =
    place t (join_mention (absorb_all g others) m keys) groups

abbrev pub no_name : Text → Text
no_name name = codes "이름이 비어 있는 개체를 버렸습니다: " ++ name

abbrev pub homonyms : Text → Text
homonyms name = codes "이름이 같은 개체가 여러 명이라 하나로 합치지 않았습니다: " ++ name ++ codes " (이메일 등 식별 정보가 필요합니다)"

module _ (u : Unicode) (uuid_text : ℕ → Text) (calendar : Calendar) where
  -- The identifiers of an entity: the empty ones and the untrusted ones of the directory are dropped.
  abbrev pub is_usable : List Text → Text → Bool
  is_usable trusted v =
      not (is_empty v) && (not (starts_with (codes "directory:") v) || contains v trusted)

  abbrev pub entity_mention : List Text → ExtractedEntity → Mention
  entity_mention trusted e = record {
    name = e.name;
    kind = e.kind;
    aliases = e.aliases;
    identifiers =
        add_all []
          (select (is_usable trusted) (map (normalize_identifier u uuid_text) e.identifiers));
    occurred_at = none;
  }

  abbrev pub event_mention : ExtractedEvent → Option ℕ → Mention
  event_mention e occurred_at = record {
    name = e.name;
    kind = e.kind;
    aliases = [];
    identifiers = [];
    occurred_at = occurred_at;
  }

  -- None is the OverflowError of a date.
  pub event_mentions : List ExtractedEvent → Option (List Mention)
  event_mentions [] = some []
  event_mentions (e ∷ events) =
      let rest = event_mentions events in
      elim (parse_instant calendar e.occurred_at) [
        | none ↦ none
        | some occurred_at ↦ elim rest [
          | none ↦ none
          | some mentions ↦ some (event_mention e occurred_at ∷ mentions)
        ]
      ]

  pub mentions_of : List Text → ExtractionResult → Option (List Mention)
  unfolding event_mentions
  mentions_of trusted result = elim (event_mentions result.events) [
    | none ↦ none
    | some mentions ↦ some (map (entity_mention trusted) result.entities ++ mentions)
  ]

  -- The names of the mention in their normalized forms, without the empty one.
  abbrev pub keys_of : Mention → List Text
  keys_of m =
      add_all []
        (select (λ k. not (is_empty k)) (map (λ n. normalize_name u n m.kind) (m.name ∷ m.aliases)))

  -- The body of the loop: the groups and the warnings. The name in the first warning is the name itself
  -- where the source takes its `repr`.
  unfoldable pub take_mention : Mention → List Group × List Text → List Group × List Text
  unfolding place_matched
  take_mention m (groups, warnings) =
      let keys = keys_of m in
      let t = match_of m keys groups in
      let matched = select t.leads groups ++ select t.follows groups in
      if is_nil keys then (groups, warnings ++ no_name m.name ∷ []) else (
        place_matched m keys t groups matched,
        if t.ambiguous then warnings ++ homonyms m.name ∷ [] else warnings,
      )

  unfoldable pub take_mentions : List Mention → List Group × List Text → List Group × List Text
  take_mentions [] state = state
  take_mentions (m ∷ mentions) state = take_mentions mentions (take_mention m state)

  unfoldable pub groups_of : List Text → ExtractionResult → Option (List Group × List Text)
  unfolding mentions_of take_mentions
  groups_of trusted result = elim (mentions_of trusted result) [
    | none ↦ none
    | some mentions ↦ some (take_mentions mentions ([], []))
  ]

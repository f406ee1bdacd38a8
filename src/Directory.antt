-- ===== src/Directory.antt =====
-- `canonicalize_directory_entities` of
-- backend/app/modules/context_engine/application/directory_resolution.py. The ids of a snapshot are
-- UUIDs here, so `UUID(directory_id)` does not raise; `str` of one is the parameter `uuid_text`.
pub mod Trusted
mod Tests
use maeglagi.Base.{
  ℕ, Bool, true, false, not, ◌&&◌, ◌||◌, Option, none, some, List, [], ◌∷◌, ◌++◌, map, ◌==◌, nat_eq,
  pair_eq, list_eq, length, any, contains, select, if◌then◌else◌,
}
use maeglagi.Base.Text.{Text, codes, is_empty, strip}
use maeglagi.Extraction.{
  EntityKind, ExtractedEntity, ExtractedEvent, ExtractedRelation, ExtractionResult, Unicode,
  normalize_name, entity_eq,
}
use maeglagi.Sources.{Snapshot, PersonRow, ProjectRow}
use maeglagi.Store.Closing.{starts_with, occurs_in}

-- `s.removeprefix(prefix)`
pub remove_prefix : Text → Text → Text
remove_prefix [] s = s
remove_prefix (p ∷ prefix) [] = []
remove_prefix (p ∷ prefix) (c ∷ s) =
    let rest = remove_prefix prefix s in if starts_with (p ∷ prefix) (c ∷ s) then rest else c ∷ s

-- What is read of a person or a project of the snapshot; a project has neither an email nor aliases.
pub record Entry : Type 0 where
  pub id : ℕ
  pub name : Text
  pub email : Option Text
  pub aliases : List Text

abbrev pub of_person : PersonRow → Entry
of_person p = record { id = p.id; name = p.name; email = p.email; aliases = p.aliases }

abbrev pub of_project : ProjectRow → Entry
of_project p = record { id = p.id; name = p.name; email = none; aliases = [] }

abbrev pub people_of : Snapshot → List Entry
people_of snapshot = map of_person (snapshot.people ++ snapshot.roster)

-- `snapshot.get("projects") or [snapshot["project"]]`
abbrev pub projects_of : Snapshot → List Entry
projects_of snapshot = elim snapshot.projects [
  | p ∷ projects ↦ map of_project (p ∷ projects)
  | [] ↦ elim snapshot.project [ none ↦ [] | some p ↦ of_project p ∷ [] ]
]

-- A dictionary keyed by the ids, in the order of their first insertion.
pub put_entry : Entry → List Entry → List Entry
put_entry e [] = e ∷ []
put_entry e (x ∷ xs) = if x.id == e.id then e ∷ xs else x ∷ put_entry e xs

pub by_ids : List Entry → List Entry → List Entry
unfolding put_entry
by_ids [] found = found
by_ids (e ∷ entries) found = by_ids entries (put_entry e found)

-- `renamed.get(name, name)`; the last renaming of a name counts.
pub renamed_to : List (Text × Text) → Text → Text
renamed_to [] name = name
renamed_to ((old, new) ∷ renamed) name =
    let rest = renamed_to renamed name in
    if contains name (map (λ (r : Text × Text). r.0) renamed)
    then rest
    else if old == name
    then new
    else name

-- What the loop does to one entity: the entity, and the identifier and the renaming of a match.
pub record Attached : Type 0 where
  pub entity : ExtractedEntity
  pub identifier : Option Text
  pub renaming : Option (Text × Text)

abbrev pub untouched : ExtractedEntity → Attached
untouched e = record { entity = e; identifier = none; renaming = none }

pub identifiers_of : List Attached → List Text
identifiers_of [] = []
identifiers_of (a ∷ rows) = elim a.identifier [
  | none ↦ identifiers_of rows
  | some i ↦ i ∷ identifiers_of rows
]

pub renamings_of : List Attached → List (Text × Text)
renamings_of [] = []
renamings_of (a ∷ rows) = elim a.renaming [
  | none ↦ renamings_of rows
  | some r ↦ r ∷ renamings_of rows
]

-- `f"directory:{kind.value.lower()}:{id}"` for a person and for another kind, which is a project here.
abbrev pub kind_prefix : EntityKind → Text
kind_prefix EntityKind.person = codes "directory:person:"
kind_prefix _ = codes "directory:project:"

abbrev pub is_directory_kind : EntityKind → Bool
is_directory_kind EntityKind.person = true
is_directory_kind EntityKind.project = true
is_directory_kind _ = false

abbrev pub is_person_kind : EntityKind → Bool
is_person_kind EntityKind.person = true
is_person_kind _ = false

abbrev pub at_most_one : List Entry → List Entry
at_most_one [] = []
at_most_one (c ∷ []) = c ∷ []
at_most_one (c ∷ d ∷ cs) = []

-- The candidates for an entity, by whether it is a person, the people that an email finds and the
-- entries of its name; and whether the email chose.
abbrev pub choose : Bool → List Entry → List Entry → List Entry × Bool
choose false by_email named = (named, false)
choose true (c ∷ []) named = (c ∷ [], true)
choose true [] named = (at_most_one named, false)
choose true (c ∷ d ∷ cs) named = (at_most_one named, false)

module _ (u : Unicode) (uuid_text : ℕ → Text) where
  unfoldable pub normalize_identifier : Text → Text
  unfolding remove_prefix
  normalize_identifier value =
      strip (remove_prefix (codes "mailto:") (u.casefold (strip (u.nfkc value))))

  abbrev pub is_reserved : Text → Bool
  is_reserved value = starts_with (codes "directory:") (normalize_identifier value)

  abbrev pub without_reserved : ExtractedEntity → ExtractedEntity
  without_reserved e = record e { identifiers = select (λ v. not (is_reserved v)) e.identifiers }

  abbrev pub directory_id : EntityKind → ℕ → Text
  directory_id kind id = kind_prefix kind ++ uuid_text id

  -- `names.get((kind, normalize_name(name)), [])`
  pub people_named : List Entry → Text → List Entry
  people_named people name =
      select
        (λ p.
          any
            (λ n.
              not (is_empty (strip n))
              && normalize_name u n EntityKind.person == normalize_name u name EntityKind.person)
            (p.name ∷ p.aliases))
        people

  pub projects_named : List Entry → Text → List Entry
  projects_named projects name =
      select
        (λ p.
          normalize_name u p.name EntityKind.project == normalize_name u name EntityKind.project)
        projects

  abbrev pub entries_named : List Entry → List Entry → EntityKind → Text → List Entry
  entries_named people projects kind name =
      if is_person_kind kind then people_named people name else projects_named projects name

  -- The email is an identifier of the entity and stands in one of its refs.
  pub email_matches : ExtractedEntity → Entry → Bool
  email_matches e p = elim p.email [
    | none ↦ false
    | some email ↦
        contains (normalize_identifier email) (map normalize_identifier e.identifiers)
        && any (λ ref. occurs_in (u.casefold email) (u.casefold ref)) e.source_refs
  ]

  pub candidates : List Entry → List Entry → ExtractedEntity → List Entry × Bool
  unfolding people_named projects_named email_matches by_ids
  candidates people projects e =
      choose (is_person_kind e.kind) (by_ids (select (email_matches e) people) [])
        (by_ids (entries_named people projects e.kind e.name) [])

  abbrev pub quoted : Text → Text → Bool
  quoted source_text ref = not (is_empty (strip ref)) && occurs_in (strip ref) source_text

  -- One of the labels stands in a ref that the source has.
  pub labelled : Text → List Text → Entry → Bool
  labelled source_text refs c =
      any
        (λ label.
          any
            (λ ref.
              not (is_empty label) && occurs_in label ref && occurs_in (strip ref) source_text)
            refs)
        (c.name ∷ c.aliases)

  abbrev pub with_identifier : Text → List Text → List Text
  with_identifier i identifiers =
      if contains i identifiers then identifiers else identifiers ++ i ∷ []

  abbrev pub attach_to : ExtractedEntity → Entry → Attached
  attach_to e c =
      let i = directory_id e.kind c.id in
      record {
        entity = record e { name = c.name; identifiers = with_identifier i e.identifiers };
        identifier = some i;
        renaming = some (e.name, c.name);
      }

  -- The match is a single candidate, which an email chose or one of whose labels is quoted.
  pub settle : Text → ExtractedEntity → List Entry → Bool → Attached
  unfolding labelled
  settle source_text e [] by_email = untouched e
  settle source_text e (c ∷ []) by_email =
      if by_email || labelled source_text e.source_refs c then attach_to e c else untouched e
  settle source_text e (c ∷ d ∷ cs) by_email = untouched e

  -- The body of the loop.
  unfoldable pub attach : List Entry → List Entry → List Text → Text → ExtractedEntity → Attached
  unfolding candidates settle
  attach people projects event_names source_text e =
      let found = candidates people projects e in
      if not (is_directory_kind e.kind)
        || contains e.name event_names
        || not (any (quoted source_text) e.source_refs)
      then untouched e
      else settle source_text e found.0 found.1

  abbrev pub rename_ends : List (Text × Text) → ExtractedRelation → ExtractedRelation
  rename_ends renamed r = record r {
    source = renamed_to renamed r.source;
    target = renamed_to renamed r.target;
  }

  -- The result, and the trusted identifiers.
  unfoldable pub canonicalize :
      ExtractionResult → Option Snapshot → Text → ExtractionResult × List Text
  unfolding attach identifiers_of renamings_of renamed_to
  canonicalize result none source_text =
      (record result { entities = map without_reserved result.entities }, [])
  canonicalize result (some snapshot) source_text =
      let rows =
        map
          (attach (people_of snapshot) (projects_of snapshot)
            (map (λ (e : ExtractedEvent). e.name) result.events) source_text)
          (map without_reserved result.entities) in
      (
        record result {
          entities = map (λ (a : Attached). a.entity) rows;
          relations = map (rename_ends (renamings_of rows)) result.relations;
        },
        identifiers_of rows,
      )

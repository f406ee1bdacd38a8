-- ===== src/Resolution/Entities.antt =====
-- The records of the graph (backend/app/modules/retrieval/domain/models.py), the ids and the entities
-- that `resolve_extraction` makes of the groups. `uuid5` in the namespace of URLs and
-- `datetime.isoformat` are parameters.
use maeglagi.Base.{
  ℕ, Bool, not, ◌&&◌, ◌||◌, Option, none, some, List, [], ◌∷◌, ◌++◌, map, ◌==◌, nat_eq, list_eq,
  option_eq, ltb, length, contains, select, if◌then◌else◌,
}
use maeglagi.Base.Sort.{sort}
use maeglagi.Base.Text.{Text, codes, text_leb}
use maeglagi.Extraction.{EntityKind, RelationKind, Unicode, normalize_name, entity_eq}
use maeglagi.Temporal.{Calendar}
use maeglagi.Store.Closing.{starts_with}
use maeglagi.Resolution.{Group, add_all, first_known}

pub record GraphEvidence : Type 0 where
  pub source_id : ℕ
  pub chunk_id : Option ℕ
  pub timestamp : Option ℕ

pub record GraphEntity : Type 0 where
  pub id : ℕ
  pub workspace_id : ℕ
  pub kind : EntityKind
  pub name : Text
  pub evidence : GraphEvidence
  pub aliases : List Text
  pub keys : List Text
  pub identifiers : List Text
  pub superseded_by : Option ℕ

pub record GraphRelation : Type 0 where
  pub id : ℕ
  pub workspace_id : ℕ
  pub source_entity_id : ℕ
  pub target_entity_id : ℕ
  pub kind : RelationKind
  pub evidence : GraphEvidence
  pub valid_from : Option ℕ
  pub valid_to : Option ℕ

pub record Supersession : Type 0 where
  pub new_id : ℕ
  pub old_name : Text
  pub old_keys : List Text

pub record ResolvedGraph : Type 0 where
  pub entities : List GraphEntity
  pub relations : List GraphRelation
  pub warnings : List Text
  pub supersessions : List Supersession

abbrev pub kind_value : EntityKind → Text
kind_value EntityKind.person = codes "Person"
kind_value EntityKind.project = codes "Project"
kind_value EntityKind.organization = codes "Organization"
kind_value EntityKind.meeting = codes "Meeting"
kind_value EntityKind.document = codes "Document"
kind_value EntityKind.issue = codes "Issue"
kind_value EntityKind.task = codes "Task"
kind_value EntityKind.decision = codes "Decision"
kind_value EntityKind.event = codes "Event"
kind_value EntityKind.technology = codes "Technology"

abbrev pub all_kinds : List EntityKind
all_kinds =
    EntityKind.person ∷ EntityKind.project ∷ EntityKind.organization ∷ EntityKind.meeting
    ∷ EntityKind.document ∷ EntityKind.issue ∷ EntityKind.task ∷ EntityKind.decision
    ∷ EntityKind.event ∷ EntityKind.technology ∷ []

abbrev pub relation_value : RelationKind → Text
relation_value RelationKind.works_on = codes "WORKS_ON"
relation_value RelationKind.participated_in = codes "PARTICIPATED_IN"
relation_value RelationKind.mentioned_in = codes "MENTIONED_IN"
relation_value RelationKind.created = codes "CREATED"
relation_value RelationKind.assigned_to = codes "ASSIGNED_TO"
relation_value RelationKind.related_to = codes "RELATED_TO"
relation_value RelationKind.decided_in = codes "DECIDED_IN"
relation_value RelationKind.resulted_in = codes "RESULTED_IN"
relation_value RelationKind.blocked_by = codes "BLOCKED_BY"
relation_value RelationKind.due_on = codes "DUE_ON"

-- A set of ids.
abbrev pub add_id : ℕ → List ℕ → List ℕ
add_id id ids = if contains id ids then ids else ids ++ id ∷ []

-- A row of `lookup`: a kind and a key with an id; `lookup.get` gathers the ids.
pub record Known : Type 0 where
  pub kind : EntityKind
  pub key : Text
  pub id : ℕ

pub found_ids : EntityKind → Text → List Known → List ℕ → List ℕ
found_ids kind key [] ids = ids
found_ids kind key (k ∷ lookup) ids =
    found_ids kind key lookup (if k.kind == kind && k.key == key then add_id k.id ids else ids)

module _ (u : Unicode) (uuid_text : ℕ → Text) (calendar : Calendar) (uuid5 : Text → ℕ)
    (isoformat : ℕ → Text) where
  -- More complete, and of those the shortest; the first of equals stays.
  abbrev pub is_better : EntityKind → Text → Text → Bool
  is_better kind a b =
      let la = length (normalize_name u a kind) in
      let lb = length (normalize_name u b kind) in
      ltb lb la || (la == lb && ltb (length a) (length b))

  pub pick_from : EntityKind → Text → List Text → Text
  pick_from kind best [] = best
  pick_from kind best (n ∷ names) = pick_from kind (if is_better kind n best then n else best) names

  -- Of no names it raises in the source; a group has one.
  pub pick_canonical : List Text → EntityKind → Text
  unfolding pick_from
  pick_canonical [] kind = []
  pick_canonical (n ∷ names) kind = pick_from kind n names

  pub entity_id : ℕ → EntityKind → Text → ℕ
  entity_id workspace_id kind key = uuid5 (
      codes "maeglagi:"
      ++ uuid_text workspace_id
      ++ codes ":"
      ++ kind_value kind
      ++ codes ":"
      ++ key)

  pub relation_id : ℕ → ℕ → ℕ → RelationKind → Option ℕ → ℕ
  relation_id workspace_id source target kind valid_from = uuid5 (
      codes "maeglagi:"
      ++ uuid_text workspace_id
      ++ codes ":"
      ++ uuid_text source
      ++ codes ":"
      ++ relation_value kind
      ++ codes ":"
      ++ uuid_text target
      ++ codes ":"
      ++ elim valid_from [ none ↦ [] | some t ↦ isoformat t ])

  pub stable_key : EntityKind → Text → List Text → Text
  stable_key kind canonical identifiers =
      elim (sort text_leb (select (starts_with (codes "directory:")) identifiers)) [
        | d ∷ ds ↦ codes "id:" ++ d
        | [] ↦ elim (sort text_leb identifiers) [
          | i ∷ is ↦ codes "id:" ++ i
          | [] ↦ normalize_name u canonical kind
        ]
      ]

  module _ (workspace_id source_id : ℕ) (chunk_id timestamp : Option ℕ) where
    pub entity_of : Group → GraphEntity
    unfolding pick_canonical entity_id stable_key
    entity_of g =
        let canonical = pick_canonical g.names g.kind in
        record {
          id = entity_id workspace_id g.kind (stable_key g.kind canonical g.identifiers);
          workspace_id = workspace_id;
          kind = g.kind;
          name = canonical;
          evidence = record {
            source_id = source_id;
            chunk_id = chunk_id;
            timestamp = first_known g.timestamp timestamp;
          };
          aliases = select (λ n. not (n == canonical)) (add_all [] g.names);
          keys = sort text_leb g.keys;
          identifiers = sort text_leb g.identifiers;
          superseded_by = none;
        }

    pub lookup_of : List Group → List Known
    unfolding entity_of
    lookup_of [] = []
    lookup_of (g ∷ groups) =
        map (λ k. record { kind = g.kind; key = k; id = (entity_of g).id }) g.keys
        ++ lookup_of groups

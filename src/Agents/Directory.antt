-- ===== src/Agents/Directory.antt =====
-- `WorkflowRepository.directory_snapshot` and `replace_participants` of repositories.py.
use maeglagi.Base.{
  ℕ, Bool, false, not, ◌&&◌, ◌||◌, Option, none, some, List, [], ◌∷◌, ◌++◌, map, ◌==◌, nat_eq,
  list_eq, leb, length, select, contains, if◌then◌else◌,
}
use maeglagi.Base.Results.{returns, ◌>>◌, check}
use maeglagi.Base.Rows.{find}
use maeglagi.Base.Sort.{sort}
use maeglagi.Sources.{
  Source, Utterance, Database, Snapshot, PersonRow, ProjectRow, WorkspacePerson, WorkspaceProject,
  ProjectMember, SourceProject, SourcePerson,
}
use maeglagi.Validation.{invalid_participant, invalid_project}
use maeglagi.Agents.{Raising}

-- A set of ids, as the list of those met first.
abbrev pub add_id : ℕ → List ℕ → List ℕ
add_id id ids = if contains id ids then ids else ids ++ id ∷ []

-- The ids that the utterances name.
pub utterance_people : List Utterance → List ℕ → List ℕ
utterance_people [] ids = ids
utterance_people (item ∷ items) ids =
    utterance_people items (elim item.person_id [ none ↦ ids | some id ↦ add_id id ids ])

pub linked_people : Source → List SourcePerson → List ℕ → List ℕ
linked_people s [] ids = ids
linked_people s (row ∷ rows) ids = linked_people s rows (
    if row.source_id == s.id && row.workspace_id == s.workspace_id
    then add_id row.person_id ids
    else ids)

abbrev pub comes_before : SourceProject → SourceProject → Bool
comes_before a b =
    if a.position == b.position then leb a.project_id b.project_id else leb a.position b.position

-- The projects of the source in their order, its first project in front if it is not among them.
pub project_ids_of : Source → List SourceProject → List ℕ
project_ids_of s rows =
    let linked =
      map (λ (r : SourceProject). r.project_id)
        (sort comes_before
          (select (λ r. r.source_id == s.id && r.workspace_id == s.workspace_id) rows)) in
    elim s.project_id [
      | none ↦ linked
      | some id ↦ if contains id linked then linked else id ∷ linked
    ]

-- The WHERE clauses: the rows of the source's workspace and owner that are not archived.
pub in_scope : Source → WorkspacePerson → Bool
in_scope s p = p.workspace_id == s.workspace_id && p.owner_id == s.owner_id && not p.archived

pub project_in_scope : Source → WorkspaceProject → Bool
project_in_scope s p =
    p.workspace_id == s.workspace_id && p.owner_id == s.owner_id && not p.archived

pub people_of : Source → List ℕ → List WorkspacePerson → List WorkspacePerson
unfolding in_scope
people_of s ids people = select (λ p. contains p.id ids && in_scope s p) people

pub projects_of : Source → List ℕ → List WorkspaceProject → List WorkspaceProject
unfolding project_in_scope
projects_of s ids projects = select (λ p. contains p.id ids && project_in_scope s p) projects

-- `{project.owner_person_id for project in projects if project.owner_person_id}`
pub owner_ids_of : List WorkspaceProject → List ℕ → List ℕ
owner_ids_of [] ids = ids
owner_ids_of (p ∷ projects) ids =
    owner_ids_of projects (elim p.owner_person_id [ none ↦ ids | some id ↦ add_id id ids ])

abbrev pub person_row : WorkspacePerson → PersonRow
person_row p = record {
  id = p.id;
  name = p.name;
  role = p.role;
  email = p.email;
  aliases = p.aliases;
}

abbrev pub person_key : WorkspacePerson → ℕ
person_key p = p.id

abbrev pub project_key : WorkspaceProject → ℕ
project_key p = p.id

-- The owner of a project among the owners found.
abbrev pub owner_in : List WorkspacePerson → Option ℕ → Option WorkspacePerson
owner_in owners none = none
owner_in owners (some id) = find person_key id owners

pub project_row : List WorkspacePerson → WorkspaceProject → ProjectRow
project_row owners p = record {
  id = p.id;
  name = p.name;
  goal = p.goal;
  description = p.description;
  owner_person_id = p.owner_person_id;
  owner_name = elim (owner_in owners p.owner_person_id) [ none ↦ none | some o ↦ some o.name ];
  owner_role = elim (owner_in owners p.owner_person_id) [ none ↦ none | some o ↦ o.role ];
  starts_on = p.starts_on;
  ends_on = p.ends_on;
}

-- The rows of the projects, in the order of their ids.
pub project_rows : List WorkspacePerson → List WorkspaceProject → List ℕ → List ProjectRow
unfolding project_row
project_rows owners projects [] = []
project_rows owners projects (id ∷ ids) =
    let rest = project_rows owners projects ids in
    elim (find project_key id projects) [ none ↦ rest | some p ↦ project_row owners p ∷ rest ]

abbrev pub has_member : List ℕ → List ProjectMember → WorkspacePerson → Bool
has_member ids [] p = false
has_member ids (m ∷ members) p =
    (m.person_id == p.id && contains m.project_id ids) || has_member ids members p

abbrev pub by_id : WorkspacePerson → WorkspacePerson → Bool
by_id a b = leb a.id b.id

abbrev pub first_row : List ProjectRow → Option ProjectRow
first_row [] = none
first_row (r ∷ rows) = some r

unfoldable pub directory_snapshot : Database → Source → Raising Snapshot
unfolding utterance_people linked_people project_ids_of people_of projects_of owner_ids_of
    project_rows
directory_snapshot db s =
    let person_ids = linked_people s db.source_people (utterance_people s.review_utterances []) in
    let project_ids = project_ids_of s db.source_projects in
    let people = people_of s person_ids db.people in
    let projects = projects_of s project_ids db.projects in
    let owner_ids = owner_ids_of projects [] in
    let owners = people_of s owner_ids db.people in
    let rows = project_rows owners projects project_ids in
    let members =
      select (λ p. has_member project_ids db.project_members p && in_scope s p) db.people in
    do
      check (length people == length person_ids) invalid_participant
      check (length projects == length project_ids) invalid_project
      check (length owners == length owner_ids) invalid_project
      returns (record {
        project = first_row rows;
        projects = rows;
        people = map person_row (sort by_id people);
        roster = map person_row (sort by_id members);
      })

abbrev pub participant : Source → ℕ → SourcePerson
participant s id = record {
  workspace_id = s.workspace_id;
  source_id = s.id;
  person_id = id;
  author = false;
}

-- The participants of the source are those of its utterances.
unfoldable pub replace_participants : Source → List SourcePerson → List SourcePerson
unfolding utterance_people
replace_participants s rows =
    select (λ r. not (r.source_id == s.id && not r.author)) rows
    ++ map (participant s) (utterance_people s.review_utterances [])

-- ===== src/Agents.antt =====
-- The workflow service behind the tools of an external agent: which workspace and source an actor may
-- reach, `WorkflowRepository.workspace` and `.source` of
-- backend/app/modules/agent_workflows/repositories.py. A call that raises is rolled back.
pub mod Directory
pub mod Editing
pub mod Creation
pub mod Rights
pub mod Edits
pub mod Rows
pub mod Once
pub mod Refusals
pub mod Reading
pub mod Recovering
pub mod Tests
use maeglagi.Base.{
  ℕ, Bool, true, false, not, ◌&&◌, ◌||◌, Option, none, some, List, [], ◌∷◌, ◌++◌, ◌==◌, nat_eq,
  option_eq, list_eq, leb, if◌then◌else◌,
}
use maeglagi.Base.Results.{Outcome, returns, raises, ◌>>=◌, ◌>>◌, check, required}
use maeglagi.Base.Rows.{find, update}
use maeglagi.Base.Text.{Text, codes, is_empty, strip}
use maeglagi.Access.{Role, viewer, editor, admin, owner, Workspace, WorkspaceMember, workspace_key}
use maeglagi.Sources.{Source, Database, AuditEvent, source_key}
use maeglagi.Validation.{WorkflowError, workspace_not_found, source_not_found}

-- What an operation of the service comes to.
abbrev pub Raising : Type 0 → Type 0
Raising A = Outcome WorkflowError A

-- ROLE_LEVEL
abbrev pub role_level : Role → ℕ
role_level viewer = 0
role_level editor = 1
role_level admin = 2
role_level owner = 3

-- The role of the actor's row of a workspace.
unfoldable pub member_role : ℕ → ℕ → List WorkspaceMember → Option Role
member_role workspace_id actor_id [] = none
member_role workspace_id actor_id (m ∷ members) =
    let rest = member_role workspace_id actor_id members in
    if m.workspace_id == workspace_id && m.user_id == some actor_id then some m.role else rest

unfoldable pub role_of : Workspace → ℕ → List WorkspaceMember → Option Role
unfolding member_role
role_of w actor_id members =
    if w.owner_id == actor_id then some owner else member_role w.id actor_id members

abbrev pub has_level : Role → Option Role → Bool
has_level minimum none = false
has_level minimum (some r) = leb (role_level minimum) (role_level r)

unfoldable pub workspace_for : Database → ℕ → ℕ → Role → Raising Workspace
unfolding role_of
workspace_for db actor_id workspace_id minimum_role = do
  w ← required (find workspace_key workspace_id db.workspaces) workspace_not_found
  check (has_level minimum_role (role_of w actor_id db.members)) workspace_not_found
  returns w

unfoldable pub source_for : Database → ℕ → ℕ → ℕ → Role → Raising Source
unfolding workspace_for
source_for db actor_id workspace_id source_id minimum_role = do
  w ← workspace_for db actor_id workspace_id minimum_role
  s ← required (find source_key source_id db.sources) source_not_found
  check (s.owner_id == w.owner_id && s.workspace_id == workspace_id) source_not_found
  returns s

-- `session.add(source)` of a row that is stored, and `_audit`.
abbrev pub put_source : Source → Database → Database
put_source s db = record db { sources = update source_key s.id (λ _. s) db.sources }

abbrev pub audited : ℕ → ℕ → Text → ℕ → Database → Database
audited actor_id workspace_id action target_id db = record db {
  audit =
      db.audit
      ++ record {
        workspace_id = workspace_id;
        actor_id = actor_id;
        action = action;
        target_id = target_id;
      }
        ∷ [];
}

abbrev pub agent_mode : Text
agent_mode = codes "agent"

abbrev pub meeting_kind : Text
meeting_kind = codes "meeting"

abbrev pub document_kind : Text
document_kind = codes "document"

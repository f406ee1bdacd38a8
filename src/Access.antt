-- ===== src/Access.antt =====
-- Who may use a workspace: backend/app/modules/workspaces/application/access.py, over the rows of
-- `workspaces` and `workspace_members` (modules/workspaces/infrastructure/models.py), whose check
-- constraint admits the four roles only. `str.casefold` is a parameter.
pub mod Granted
pub mod Claims
mod Tests
use maeglagi.Base.{
  ℕ, Bool, true, false, not, ◌&&◌, ◌||◌, Option, none, some, List, [], ◌∷◌, map, any, ◌==◌, nat_eq,
  option_eq, list_eq, leb, if◌then◌else◌,
}
use maeglagi.Base.Results.{Outcome, returns, raises, required}
use maeglagi.Base.Rows.{find}
use maeglagi.Base.Text.{Text, is_empty, strip}

pub data Role : Type 0 where
  viewer editor admin owner : Role

-- ROLE_LEVEL
abbrev pub level : Role → ℕ
level viewer = 10
level editor = 20
level admin = 30
level owner = 40

pub record AuthUser : Type 0 where
  pub id : ℕ
  pub email : Option Text

pub record Workspace : Type 0 where
  pub id : ℕ
  pub owner_id : ℕ
  pub name : Text

pub record WorkspaceMember : Type 0 where
  pub workspace_id : ℕ
  pub user_id : Option ℕ
  pub email : Text
  pub email_normalized : Text
  pub role : Role
  pub invited_by : ℕ
  pub joined_at : Option ℕ

pub record WorkspaceAccess : Type 0 where
  pub workspace : Workspace
  pub member : WorkspaceMember

abbrev pub workspace_key : Workspace → ℕ
workspace_key w = w.id

-- `user.email`, where it is neither null nor empty
abbrev pub email_of : AuthUser → Option Text
email_of user = elim user.email [ none ↦ none | some e ↦ if is_empty e then none else some e ]

abbrev pub text_of : Option Text → Text
text_of none = []
text_of (some e) = e

-- What a request may raise: the answer 404, or the violation of a unique constraint.
pub data AccessError : Type 0 where
  not_found integrity_error : AccessError

-- The two rows break the unique constraint on the workspace and the user, to which two nulls differ.
abbrev pub clashes : WorkspaceMember → WorkspaceMember → Bool
clashes a b = a.workspace_id == b.workspace_id && not (a.user_id == none) && a.user_id == b.user_id

pub violates_unique : List WorkspaceMember → Bool
violates_unique [] = false
violates_unique (m ∷ members) = any (clashes m) members || violates_unique members

module _ (casefold : Text → Text) where
  abbrev pub normalize_email : Text → Text
  normalize_email email = casefold (strip email)

  -- A row that waits for a user with the email.
  pub is_pending : Text → WorkspaceMember → Bool
  is_pending normalized m = m.user_id == none && m.email_normalized == normalized

  pub claim_row : AuthUser → Text → ℕ → WorkspaceMember → WorkspaceMember
  unfolding is_pending
  claim_row user email now m =
      if is_pending (normalize_email email) m
      then record m { user_id = some user.id; email = email; joined_at = some now }
      else m

  -- The rows as the commit is to write them. None is the IntegrityError of the commit, where a row was
  -- claimed and the user then has two rows of one workspace.
  abbrev pub commit_claims : Bool → List WorkspaceMember → Option (List WorkspaceMember)
  unfolding violates_unique
  commit_claims any_claimed rows = if any_claimed && violates_unique rows then none else some rows

  unfoldable pub claim_pending_memberships :
      AuthUser → ℕ → List WorkspaceMember → Option (List WorkspaceMember)
  unfolding claim_row commit_claims
  claim_pending_memberships user now members = elim (email_of user) [
    | none ↦ some members
    | some email ↦
        commit_claims (any (is_pending (normalize_email email)) members)
          (map (claim_row user email now) members)
  ]

  -- The WHERE clause: the workspace, and one of the user's identities.
  pub identifies : AuthUser → ℕ → WorkspaceMember → Bool
  identifies user workspace_id m =
      m.workspace_id == workspace_id
      && (m.user_id == some user.id || elim (email_of user) [
        | none ↦ false
        | some email ↦ m.email_normalized == normalize_email email
      ])

  -- The first row, in the order in which the database returns them.
  pub first_member : AuthUser → ℕ → List WorkspaceMember → Option WorkspaceMember
  unfolding identifies
  first_member user workspace_id [] = none
  first_member user workspace_id (m ∷ members) =
      let rest = first_member user workspace_id members in
      if identifies user workspace_id m then some m else rest

  pub owner_member : AuthUser → Workspace → ℕ → WorkspaceMember
  owner_member user workspace now = record {
    workspace_id = workspace.id;
    user_id = some user.id;
    email = text_of user.email;
    email_normalized = normalize_email (text_of user.email);
    role = owner;
    invited_by = user.id;
    joined_at = some now;
  }

  -- None is the answer 404, which is also given for a workspace that is not there.
  pub grant : AuthUser → Role → ℕ → Workspace → List WorkspaceMember → Option WorkspaceAccess
  unfolding first_member owner_member
  grant user minimum_role now workspace members =
      if workspace.owner_id == user.id
      then some (record { workspace = workspace; member = owner_member user workspace now })
      else elim (first_member user workspace.id members) [
        | none ↦ none
        | some m ↦
            if leb (level minimum_role) (level m.role)
            then some (record { workspace = workspace; member = m })
            else none
      ]

  -- What follows the claim of pending memberships, with the rows before and after it.
  abbrev pub answered :
      ℕ
      → AuthUser
      → Role
      → ℕ
      → List Workspace
      → List WorkspaceMember
      → Option (List WorkspaceMember)
      → Outcome AccessError WorkspaceAccess × List WorkspaceMember
  answered workspace_id user minimum_role now workspaces members none =
      (raises integrity_error, members)
  answered workspace_id user minimum_role now workspaces members (some claimed) = (
    required
        (elim (find workspace_key workspace_id workspaces) [
          | none ↦ none
          | some workspace ↦ grant user minimum_role now workspace claimed
        ])
        not_found,
    claimed,
  )

  -- The answer, and the rows after the claim of pending memberships.
  unfoldable pub workspace_access :
      ℕ
      → AuthUser
      → Role
      → ℕ
      → List Workspace
      → List WorkspaceMember
      → Outcome AccessError WorkspaceAccess × List WorkspaceMember
  unfolding claim_pending_memberships grant
  workspace_access workspace_id user minimum_role now workspaces members =
      answered workspace_id user minimum_role now workspaces members
        (claim_pending_memberships user now members)

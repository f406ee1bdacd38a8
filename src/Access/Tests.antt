-- ===== src/Access/Tests.antt =====
-- A workspace of user 1 with an invited editor, and an invited user whose email has changed.
use maeglagi.Base.{◌≡◌, refl, arith, ◌⊎◌, none, some, List, [], ◌∷◌}
use maeglagi.Base.Results.{returns, raises}
use maeglagi.Base.Text.{Text, codes, strip}
use maeglagi.Access.{
  Role, viewer, editor, admin, AuthUser, Workspace, WorkspaceMember, WorkspaceAccess, not_found,
  integrity_error, claim_pending_memberships, workspace_access,
}
use maeglagi.Access.Granted.{
  Allows, Denies, answer, workspace_access_lem, workspace_access_monotone,
}
use maeglagi.Access.Claims.{Conflicts, claim_pending_memberships_idem}

abbrev fold : Text → Text
fold s = s

abbrev bob : AuthUser
bob = record { id = 2; email = some (codes "b@x") }

abbrev row : Text → Role → WorkspaceMember
row email role = record {
  workspace_id = 5;
  user_id = none;
  email = email;
  email_normalized = email;
  role = role;
  invited_by = 1;
  joined_at = none;
}

abbrev members : List WorkspaceMember
members = row (codes "b@x") editor ∷ row (codes "c@x") viewer ∷ []

abbrev workspaces : List Workspace
workspaces = record { id = 5; owner_id = 1; name = [] } ∷ []

workspace_access_lem_example :
    ((a : WorkspaceAccess) × (answer fold bob 9 workspaces members 5 admin ≡ returns a)
      × Allows fold bob 9 workspaces members 5 admin a)
    ⊎ ((answer fold bob 9 workspaces members 5 admin ≡ raises not_found)
        × Denies fold bob 9 workspaces members 5 admin)
    ⊎ ((answer fold bob 9 workspaces members 5 admin ≡ raises integrity_error)
        × Conflicts fold bob 9 members)
workspace_access_lem_example = workspace_access_lem fold bob 9 workspaces members 5 admin

abbrev joined : WorkspaceMember
joined = record (row (codes "b@x") editor) { user_id = some 2; joined_at = some 9 }

bob_edits :
    answer fold bob 9 workspaces members 5 editor
    ≡ returns (record { workspace = record { id = 5; owner_id = 1; name = [] }; member = joined })
unfolding workspace_access strip
bob_edits = refl

workspace_access_monotone_example :
    answer fold bob 9 workspaces members 5 viewer
    ≡ returns (record { workspace = record { id = 5; owner_id = 1; name = [] }; member = joined })
workspace_access_monotone_example =
    workspace_access_monotone fold bob 9 workspaces members 5 viewer editor (omega arith) bob_edits

claim_pending_memberships_idem_example :
    ((claim_pending_memberships fold bob 9 members ≡ none) × Conflicts fold bob 9 members)
    ⊎ ((once : List WorkspaceMember) × (claim_pending_memberships fold bob 9 members ≡ some once)
        × (claim_pending_memberships fold bob 20 once ≡ some once))
claim_pending_memberships_idem_example = claim_pending_memberships_idem fold bob 9 20 members

-- A row of bob under an earlier email beside one for the new email: the claim of the second raises.
abbrev renamed : List WorkspaceMember
renamed = record (row (codes "old@x") viewer) { user_id = some 2 } ∷ row (codes "b@x") editor ∷ []

second_row_raises : answer fold bob 9 workspaces renamed 5 viewer ≡ raises integrity_error
unfolding workspace_access claim_pending_memberships strip
second_row_raises = refl

-- ===== src/Agents/Rights.antt =====
-- What a call that returns has found: the actor's right, the source and the edited row.
use maeglagi.Base.{
  ℕ, ◌≡◌, refl, ap, ◌∙◌, true, ◌&&◌, some, arith, ◌==◌, nat_eq, nat_beq_iff, option_eq, list_eq,
  nat_beq_iff,
}
use maeglagi.Base.Results.{returns, ◌>>=◌, ◌>>◌, check, required, bind_inv, check_inv, required_inv}
use maeglagi.Base.Rows.{find, find-key}
use maeglagi.Access.{Role, Workspace, workspace_key}
use maeglagi.Sources.{Source, Database, source_key}
use maeglagi.Validation.{workspace_not_found, source_not_found}
use maeglagi.Agents.{role_of, has_level, workspace_for, source_for}

-- The actor has the role in the workspace, and the source is the owner's in that workspace.
pub record Reaches (db : Database) (actor_id workspace_id source_id : ℕ) (minimum : Role)
    (s : Source) : Type 0 where
  pub workspace : Workspace
  pub stored : find workspace_key workspace_id db.workspaces ≡ some workspace
  pub right : has_level minimum (role_of workspace actor_id db.members) ≡ true
  pub found : find source_key source_id db.sources ≡ some s
  pub owned : s.owner_id ≡ workspace.owner_id
  pub placed : s.workspace_id ≡ workspace_id
  pub named : s.id ≡ source_id

pub workspace_for_inv :
    (db : Database) (actor_id workspace_id : ℕ) (minimum : Role) {w : Workspace}
    → workspace_for db actor_id workspace_id minimum ≡ returns w
    → (find workspace_key workspace_id db.workspaces ≡ some w)
      × (has_level minimum (role_of w actor_id db.members) ≡ true)
unfolding workspace_for
workspace_for_inv db actor_id workspace_id minimum {w} h =
    let (w', stored, h₁) =
      required_inv (find workspace_key workspace_id db.workspaces) workspace_not_found
        (λ w.
          check (has_level minimum (role_of w actor_id db.members)) workspace_not_found
          >> returns w)
        h in
    let (right, h₂) =
      check_inv (has_level minimum (role_of w' actor_id db.members)) workspace_not_found
        (returns w') h₁ in
    ground arith

pub source_for_inv :
    (db : Database) (actor_id workspace_id source_id : ℕ) (minimum : Role) {s : Source}
    → source_for db actor_id workspace_id source_id minimum ≡ returns s
    → Reaches db actor_id workspace_id source_id minimum s
unfolding source_for
source_for_inv db actor_id workspace_id source_id minimum {s} h =
    let (w, reached, h₁) =
      bind_inv (workspace_for db actor_id workspace_id minimum)
        (λ w. required (find source_key source_id db.sources) source_not_found >>= λ s.
          check (s.owner_id == w.owner_id && s.workspace_id == workspace_id) source_not_found
          >> returns s)
        h in
    let (stored, right) = workspace_for_inv db actor_id workspace_id minimum reached in
    let (s', found, h₂) =
      required_inv (find source_key source_id db.sources) source_not_found
        (λ s.
          check (s.owner_id == w.owner_id && s.workspace_id == workspace_id) source_not_found
          >> returns s)
        h₁ in
    let (in_scope, h₃) =
      check_inv (s'.owner_id == w.owner_id && s'.workspace_id == workspace_id) source_not_found
        (returns s') h₂ in
    let same : s' ≡ s = cc in
    record {
      workspace = w;
      stored = stored;
      right = right;
      found = found ∙ ap some same;
      owned = ground arith;
      placed = ground arith;
      named = find-key source_key source_id db.sources (found ∙ ap some same);
    }

-- The workspace that a reached source stands in is given to the same actor.
pub workspace_for_of :
    {db : Database} {actor_id workspace_id source_id : ℕ} {minimum : Role} {s : Source}
    (reached : Reaches db actor_id workspace_id source_id minimum s)
    → workspace_for db actor_id workspace_id minimum ≡ returns reached.workspace
unfolding workspace_for
workspace_for_of reached = rw (reached.stored, reached.right) refl

pub workspace_for_same :
    (db after : Database) (actor_id workspace_id : ℕ) (minimum : Role) {w : Workspace}
    → after.workspaces ≡ db.workspaces
    → after.members ≡ db.members
    → workspace_for db actor_id workspace_id minimum ≡ returns w
    → workspace_for after actor_id workspace_id minimum ≡ returns w
unfolding workspace_for
workspace_for_same db after actor_id workspace_id minimum h g same = rw (h, g) same

-- A source that one actor reaches is given to every actor with a role in its workspace.
pub source_for_of :
    {db : Database} {reader_id workspace_id source_id : ℕ} {low : Role} {s : Source} (actor_id : ℕ)
    (minimum : Role) (reached : Reaches db reader_id workspace_id source_id low s)
    → has_level minimum (role_of reached.workspace actor_id db.members) ≡ true
    → source_for db actor_id workspace_id source_id minimum ≡ returns s
unfolding source_for workspace_for
source_for_of {db} {reader_id} {workspace_id} {source_id} {low} {s} actor_id minimum reached right =
    let owned = (nat_beq_iff s.owner_id reached.workspace.owner_id).1 reached.owned in
    let placed = (nat_beq_iff s.workspace_id workspace_id).1 reached.placed in
    rw (reached.stored, right, reached.found, owned, placed) refl

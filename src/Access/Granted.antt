-- ===== src/Access/Granted.antt =====
-- Who is let in, and that a lower role is never harder to have.
use maeglagi.Base.{
  ℕ, ◌≤◌, ◌≡◌, ◌≢◌, refl, sym, ap, ◌∙◌, subst, ◌⊎◌, inl, inr, true, false, Option, none, some, List,
  [], ◌∷◌, arith, ◌==◌, nat_eq, option_eq, list_eq, leb, Bool-cases, Option-cases,
}
use maeglagi.Base.Results.{Outcome, returns, raises, required, required-some}
use maeglagi.Base.Rows.{find, find-key}
use maeglagi.Base.Text.{Text}
use maeglagi.Access.{
  Role, level, AuthUser, Workspace, WorkspaceMember, WorkspaceAccess, workspace_key, AccessError,
  not_found, integrity_error, email_of, claim_pending_memberships, identifies, first_member,
  owner_member, grant, workspace_access,
}
use maeglagi.Access.Claims.{Conflicts, claimed_rows, claim_pending_memberships_cases}

module _ (casefold : Text → Text) (user : AuthUser) where
  -- The member is one of the rows of the workspace that are the user's.
  abbrev pub IsMember : ℕ → WorkspaceMember → List WorkspaceMember → Type 0
  IsMember w m members =
      (first_member casefold user w members ≡ some m) × (identifies casefold user w m ≡ true)

  first_member-identifies :
      (w : ℕ) (members : List WorkspaceMember) {m : WorkspaceMember}
      → first_member casefold user w members ≡ some m
      → identifies casefold user w m ≡ true
  unfolding first_member
  first_member-identifies w [] e = cc
  first_member-identifies w (x ∷ members) {m} e = elim (Bool-cases (identifies casefold user w x)) [
    | inl here ↦
        let p : x ≡ m = ground arith in subst (λ y. identifies casefold user w y ≡ true) p here
    | inr there ↦ first_member-identifies w members {m = m} (ground arith)
  ]

  module _ (now : ℕ) (workspaces : List Workspace) (members : List WorkspaceMember) where
    abbrev claimed : List WorkspaceMember
    claimed = claimed_rows casefold user now members (email_of user)

    -- Access: to the workspace asked for, as its owner, or as a member by the user's id or email whose
    -- role is at least the one asked for.
    pub record Allows (workspace_id : ℕ) (minimum_role : Role) (a : WorkspaceAccess) : Type 0 where
      pub asked : a.workspace.id ≡ workspace_id
      pub enough : level minimum_role ≤ level a.member.role
      pub right :
          (a.workspace.owner_id ≡ user.id)
          ⊎ (identifies casefold user a.workspace.id a.member ≡ true)

    -- No access: there is no such workspace, or the user does not own it and the first of the rows that
    -- identify the user, if there is one, has a lower role.
    abbrev pub Denies : ℕ → Role → Type 0
    Denies workspace_id minimum_role =
        (find workspace_key workspace_id workspaces ≡ none)
        ⊎ ((w : Workspace) × (find workspace_key workspace_id workspaces ≡ some w)
            × (w.owner_id ≢ user.id)
            × ((m : WorkspaceMember)
                → first_member casefold user w.id claimed ≡ some m
                → leb (level minimum_role) (level m.role) ≡ false))

    abbrev pub answer : ℕ → Role → Outcome AccessError WorkspaceAccess
    answer workspace_id minimum_role =
        (workspace_access casefold workspace_id user minimum_role now workspaces members).0

    owner_is_highest : (r : Role) → level r ≤ 40
    owner_is_highest r = ground arith

    granted_lem :
        (r : Role) (w : Workspace)
        → ((a : WorkspaceAccess) × (grant casefold user r now w claimed ≡ some a)
            × (a.workspace ≡ w)
            × (level r ≤ level a.member.role)
            × ((w.owner_id ≡ user.id) ⊎ (identifies casefold user w.id a.member ≡ true)))
          ⊎ ((grant casefold user r now w claimed ≡ none)
              × (w.owner_id ≢ user.id)
              × ((m : WorkspaceMember)
                  → first_member casefold user w.id claimed ≡ some m
                  → leb (level r) (level m.role) ≡ false))
    unfolding grant owner_member
    granted_lem r w = elim (Bool-cases (w.owner_id == user.id)) [
      | inl own ↦ inl (
        record { workspace = w; member = owner_member casefold user w now },
        rw (own, grant) refl,
        refl,
        owner_is_highest r,
        inl (ground arith),
      )
      | inr other ↦ elim (Option-cases (first_member casefold user w.id claimed)) [
        | inl absent ↦ inr (rw (other, absent, grant) refl, ground arith, λ m e. ground arith)
        | inr (m, e) ↦ elim (Bool-cases (leb (level r) (level m.role))) [
          | inl high ↦ inl (
            record { workspace = w; member = m },
            rw (other, e, high, grant) refl,
            refl,
            ground arith,
            inr (first_member-identifies w.id claimed e),
          )
          | inr low ↦ inr (rw (other, e, low, grant) refl, ground arith, λ n f. ground arith)
        ]
      ]
    ]

    abbrev looked_up : ℕ → Role → Option WorkspaceAccess
    looked_up workspace_id r = elim (find workspace_key workspace_id workspaces) [
      | none ↦ none
      | some w ↦ grant casefold user r now w claimed
    ]

    answer_committed :
        (workspace_id : ℕ) (r : Role)
        → claim_pending_memberships casefold user now members ≡ some claimed
        → answer workspace_id r ≡ required (looked_up workspace_id r) not_found
    unfolding workspace_access
    answer_committed workspace_id r done = rw (done, answer, workspace_access) refl

    answer_conflict :
        (workspace_id : ℕ) (r : Role)
        → claim_pending_memberships casefold user now members ≡ none
        → answer workspace_id r ≡ raises integrity_error
    unfolding workspace_access
    answer_conflict workspace_id r conflict = rw (conflict, answer, workspace_access) refl

    looked_up_lem :
        (workspace_id : ℕ) (r : Role)
        → ((a : WorkspaceAccess) × (looked_up workspace_id r ≡ some a) × Allows workspace_id r a)
          ⊎ ((looked_up workspace_id r ≡ none) × Denies workspace_id r)
    looked_up_lem workspace_id r =
        elim (Option-cases (find workspace_key workspace_id workspaces)) [
          | inl absent ↦ inr (rw (absent, looked_up) refl, inl absent)
          | inr (w, found) ↦ elim (granted_lem r w) [
            | inl (a, e, same, high, right) ↦ inl (
              a,
              rw (found, looked_up) e,
              record {
                asked =
                    ap (λ (x : Workspace). x.id) same
                    ∙ find-key workspace_key workspace_id workspaces found;
                enough = high;
                right =
                    subst
                      (λ (x : Workspace).
                        (x.owner_id ≡ user.id) ⊎ (identifies casefold user x.id a.member ≡ true))
                      (sym same) right;
              },
            )
            | inr (e, other, low) ↦ inr (rw (found, looked_up) e, inr (w, found, other, low))
          ]
        ]

    -- A request is answered by access that the user has a right to; or by 404, and only where there is
    -- no such workspace, or the user is not its owner and the first row that identifies the user, in
    -- the order of the rows, is missing or has too low a role; or it raises, and only where the claim of
    -- a waiting row would have given the user two rows of one workspace.
    pub workspace_access_lem :
        (workspace_id : ℕ) (r : Role)
        → ((a : WorkspaceAccess) × (answer workspace_id r ≡ returns a) × Allows workspace_id r a)
          ⊎ ((answer workspace_id r ≡ raises not_found) × Denies workspace_id r)
          ⊎ ((answer workspace_id r ≡ raises integrity_error) × Conflicts casefold user now members)
    workspace_access_lem workspace_id r =
        elim (claim_pending_memberships_cases casefold user now members) [
          | inl (conflict, why) ↦ inr (inr (answer_conflict workspace_id r conflict, why))
          | inr done ↦ elim (looked_up_lem workspace_id r) [
            | inl (a, e, allows) ↦
                inl (
                  a,
                  answer_committed workspace_id r done ∙ ap (λ o. required o not_found) e,
                  allows,
                )
            | inr (e, denies) ↦ inr (
                inl
                  (answer_committed workspace_id r done ∙ ap (λ o. required o not_found) e, denies))
          ]
        ]

    grant_monotone :
        (low high : Role) (w : Workspace) {a : WorkspaceAccess}
        → level low ≤ level high
        → grant casefold user high now w claimed ≡ some a
        → grant casefold user low now w claimed ≡ some a
    unfolding grant
    grant_monotone low high w {a} le e = elim (Bool-cases (w.owner_id == user.id)) [
      | inl own ↦ rw (own, grant) (rw (own, grant) at e)
      | inr other ↦ elim (Option-cases (first_member casefold user w.id claimed)) [
        | inl absent ↦ rw (other, absent, grant) (rw (other, absent, grant) at e)
        | inr (m, f) ↦ let g = rw (other, f, grant) at e in rw (other, f, grant) (ground (arith, g))
      ]
    ]

    looked_up_monotone :
        (workspace_id : ℕ) (low high : Role) {a : WorkspaceAccess}
        → level low ≤ level high
        → looked_up workspace_id high ≡ some a
        → looked_up workspace_id low ≡ some a
    looked_up_monotone workspace_id low high {a} le e =
        elim (Option-cases (find workspace_key workspace_id workspaces)) [
          | inl absent ↦ rw (absent, looked_up) (rw (absent, looked_up) at e)
          | inr (w, found) ↦
              rw (found, looked_up) (grant_monotone low high w le (rw (found, looked_up) at e))
        ]

    -- Who has access with a role has the same access where a lower role is asked for.
    pub workspace_access_monotone :
        (workspace_id : ℕ) (low high : Role) {a : WorkspaceAccess}
        → level low ≤ level high
        → answer workspace_id high ≡ returns a
        → answer workspace_id low ≡ returns a
    workspace_access_monotone workspace_id low high {a} le e =
        elim (claim_pending_memberships_cases casefold user now members) [
          | inl (conflict, why) ↦ cc (answer_conflict workspace_id high conflict, e)
          | inr done ↦
              let h =
                required-some _ not_found (sym (answer_committed workspace_id high done) ∙ e) in
              answer_committed workspace_id low done
              ∙ ap (λ o. required o not_found) (looked_up_monotone workspace_id low high le h)
        ]

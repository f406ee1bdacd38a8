-- ===== src/Access/Claims.antt =====
-- What the claim of pending memberships writes.
use maeglagi.Base.{
  ℕ, ◌≡◌, refl, ◌∙◌, ◌⊎◌, inl, inr, true, false, Option, none, some, any, Bool-cases, List, [], ◌∷◌,
  map, arith, ap, nat_eq, option_eq, list_eq, All, Option-cases,
}
use maeglagi.Base.Text.{Text}
use maeglagi.Access.{
  clashes, AuthUser, WorkspaceMember, email_of, normalize_email, is_pending, claim_row,
  violates_unique, commit_claims, claim_pending_memberships,
}

module _ (casefold : Text → Text) (user : AuthUser) (email : Text) where
  claimed_is_not_pending :
      (now : ℕ) (m : WorkspaceMember)
      → is_pending casefold (normalize_email casefold email) (claim_row casefold user email now m)
        ≡ false
  unfolding is_pending claim_row
  claimed_is_not_pending now m = ground arith

  none_pending :
      (now : ℕ) (members : List WorkspaceMember)
      → All
          (λ m. is_pending casefold (normalize_email casefold email) m ≡ false)
          (map (claim_row casefold user email now) members)
  none_pending now [] = tt
  none_pending now (m ∷ members) = (claimed_is_not_pending now m, none_pending now members)

  claim_nothing :
      (later : ℕ) (members : List WorkspaceMember)
      → All (λ m. is_pending casefold (normalize_email casefold email) m ≡ false) members
      → map (claim_row casefold user email later) members ≡ members
  unfolding claim_row
  claim_nothing later [] h = refl
  claim_nothing later (m ∷ members) h =
      rw (h.0, claim_row) (ap (◌∷◌ m) (claim_nothing later members h.1))

  none_pending_any :
      (members : List WorkspaceMember)
      → All (λ m. is_pending casefold (normalize_email casefold email) m ≡ false) members
      → any (is_pending casefold (normalize_email casefold email)) members ≡ false
  none_pending_any [] h = refl
  none_pending_any (m ∷ members) h = ground (arith, h.0, none_pending_any members h.1)

-- The rows with the user's id and email in those that wait for the email.
abbrev pub claimed_rows :
    (Text → Text) → AuthUser → ℕ → List WorkspaceMember → Option Text → List WorkspaceMember
claimed_rows casefold user now members none = members
claimed_rows casefold user now members (some email) =
    map (claim_row casefold user email now) members

-- Two rows of one workspace and one user.
abbrev pub SameMember : WorkspaceMember → WorkspaceMember → Type 0
SameMember a b =
    (a.workspace_id ≡ b.workspace_id)
    × ((user_id : ℕ) × (a.user_id ≡ some user_id) × (b.user_id ≡ some user_id))

abbrev pub Later : WorkspaceMember → List WorkspaceMember → Type 0
Later m [] = ⊥
Later m (b ∷ members) = SameMember m b ⊎ Later m members

abbrev pub HasTwo : List WorkspaceMember → Type 0
HasTwo [] = ⊥
HasTwo (m ∷ members) = Later m members ⊎ HasTwo members

clashes-SameMember : (a b : WorkspaceMember) → clashes a b ≡ true → SameMember a b
clashes-SameMember a b h = elim (Option-cases a.user_id) [
  | inl absent ↦ absurd (ground (arith, h, absent))
  | inr (user_id, known) ↦ (ground (arith, h), (user_id, known, ground (arith, h, known)))
]

clashes-Later :
    (m : WorkspaceMember) (members : List WorkspaceMember)
    → any (clashes m) members ≡ true
    → Later m members
clashes-Later m [] h = cc
clashes-Later m (b ∷ members) h = elim (Bool-cases (clashes m b)) [
  | inl same ↦ inl (clashes-SameMember m b same)
  | inr other ↦ inr (clashes-Later m members (rw other at h))
]

violates_unique-HasTwo :
    (members : List WorkspaceMember) → violates_unique members ≡ true → HasTwo members
unfolding violates_unique
violates_unique-HasTwo [] h = cc
violates_unique-HasTwo (m ∷ members) h = elim (Bool-cases (any (clashes m) members)) [
  | inl here ↦ inl (clashes-Later m members here)
  | inr there ↦ inr (violates_unique-HasTwo members (rw there at h))
]

-- A row was to be claimed, and there would have been two rows of one workspace and one user.
abbrev pub Conflicts : (Text → Text) → AuthUser → ℕ → List WorkspaceMember → Type 0
Conflicts casefold user now members =
    (email : Text) × (email_of user ≡ some email)
    × (any (is_pending casefold (normalize_email casefold email)) members ≡ true)
    × HasTwo (map (claim_row casefold user email now) members)

module _ (casefold : Text → Text) (user : AuthUser) where
  pub claim_pending_memberships_cases :
      (now : ℕ) (members : List WorkspaceMember)
      → ((claim_pending_memberships casefold user now members ≡ none)
          × Conflicts casefold user now members)
        ⊎ (claim_pending_memberships casefold user now members
            ≡ some (claimed_rows casefold user now members (email_of user)))
  unfolding claim_pending_memberships commit_claims
  claim_pending_memberships_cases now members = elim (Option-cases (email_of user)) [
    | inl nothing ↦ inr (rw (nothing, claim_pending_memberships, claimed_rows) refl)
    | inr (email, e) ↦
        let waits = any (is_pending casefold (normalize_email casefold email)) members in
        let rows = map (claim_row casefold user email now) members in
        elim (Bool-cases waits) [
          | inr idle ↦ inr (rw (e, idle, claim_pending_memberships, claimed_rows) refl)
          | inl some_wait ↦ elim (Bool-cases (violates_unique rows)) [
            | inl twice ↦ inl (
              rw (e, some_wait, twice, claim_pending_memberships) refl,
              (email, e, some_wait, violates_unique-HasTwo rows twice),
            )
            | inr once ↦ inr (rw (e, some_wait, once, claim_pending_memberships, claimed_rows) refl)
          ]
        ]
  ]

  claimed_again :
      (later : ℕ) (members : List WorkspaceMember) {email : Text}
      → email_of user ≡ some email
      → All (λ m. is_pending casefold (normalize_email casefold email) m ≡ false) members
      → claim_pending_memberships casefold user later members ≡ some members
  unfolding claim_pending_memberships commit_claims
  claimed_again later members {email} e h =
      rw (e, none_pending_any casefold user email members h, claim_pending_memberships)
        (ap some (claim_nothing casefold user email later members h))

  -- A claim either violates the unique constraint on the workspace and the user, and raises, or is
  -- committed, and claiming again, at any later request of the user, then changes nothing.
  pub claim_pending_memberships_idem :
      (now later : ℕ) (members : List WorkspaceMember)
      → ((claim_pending_memberships casefold user now members ≡ none)
          × Conflicts casefold user now members)
        ⊎ ((once : List WorkspaceMember) × (claim_pending_memberships casefold user now members
              ≡ some once)
            × (claim_pending_memberships casefold user later once ≡ some once))
  unfolding claim_pending_memberships
  claim_pending_memberships_idem now later members =
      elim (claim_pending_memberships_cases now members) [
        | inl conflict ↦ inl conflict
        | inr done ↦ elim (Option-cases (email_of user)) [
          | inl nothing ↦ inr (
            members,
            rw (nothing, claim_pending_memberships) refl,
            rw (nothing, claim_pending_memberships) refl,
          )
          | inr (email, e) ↦ inr (
            map (claim_row casefold user email now) members,
            done ∙ rw (e, claimed_rows) refl,
            claimed_again later (map (claim_row casefold user email now) members) e
                (none_pending casefold user email now members),
          )
        ]
      ]

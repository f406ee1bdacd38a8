-- ===== src/Base/Rows.antt =====
-- A table of rows with a numeric primary key.
use maeglagi.Base.Tests.{nat_beq, nat_beq_iff, if◌then◌else◌, if_ind, Bool-cases, nat_eq}
use maeglagi.Base.Lists.{All, All-zip, All-imp, contains, Distinct, count_if}
use Prim.Native.Nat.{ℕ, ◌+◌}
use mathlib.Core.Path.{◌≡◌, subst, refl, sym}
use mathlib.Core.Logic.{inl, inr}
use mathlib.Core.Bool.{Bool, true, false}
use mathlib.Core.Option.{Option, none, some}
use mathlib.Core.List.{List, [], ◌∷◌, ◌++◌, map}
use native.Mathlib.Omega.{arith}

module _ {ℓ} {A : Type ℓ} (key : A → ℕ) where
  -- `SELECT ... WHERE key = k`, of a primary key
  abbrev pub find : ℕ → List A → Option A
  find k [] = none
  find k (r ∷ rows) = if nat_beq (key r) k then some r else find k rows

  -- `UPDATE ... SET f WHERE key = k`
  abbrev pub update : ℕ → (A → A) → List A → List A
  update k f [] = []
  update k f (r ∷ rows) = (if nat_beq (key r) k then f r else r) ∷ update k f rows

  pub find-key : (k : ℕ) (rows : List A) {r : A} → find k rows ≡ some r → key r ≡ k
  find-key k [] h = cc
  find-key k (x ∷ rows) {r} h = ground (arith, find-key k rows {r = r})

  pub find_same :
      {i j : ℕ} (rows : List A) {r s : A}
      → i ≡ j
      → find i rows ≡ some r
      → find j rows ≡ some s
      → r ≡ s
  find_same rows p e f = cc (p, e, f)

  pub find-append_new :
      (k : ℕ) (rows : List A) (r : A)
      → find k (rows ++ r ∷ []) ≡ (elim (find k rows) [ some x ↦ some x | none ↦ find k (r ∷ []) ])
  find-append_new k [] r = ground arith
  find-append_new k (x ∷ rows) r = ground (arith, find-append_new k rows r)

module _ {ℓ} {A : Type ℓ} (key : A → ℕ) (f : A → A) (keeps : (r : A) → key (f r) ≡ key r) where
  pub find-update :
      (k j : ℕ) (rows : List A)
      → find key j (update key k f rows) ≡ (
          if nat_beq k j
          then elim (find key j rows) [ none ↦ none | some r ↦ some (f r) ]
          else find key j rows)
  find-update k j [] = ground arith
  find-update k j (x ∷ rows) = ground (arith, keeps x, find-update k j rows)

module _ {ℓ κ} {A : Type ℓ} (key : A → ℕ) (P : A → Type κ) where
  pub All-update :
      (k : ℕ) (f : A → A) (rows : List A)
      → ((r : A) → P r → P (f r))
      → All P rows
      → All P (update key k f rows)
  All-update k f [] h a = tt
  All-update k f (r ∷ rows) h a =
      (if_ind P (nat_beq (key r) k) (h r a.0) a.0, All-update k f rows h a.1)

  pub All-find : (k : ℕ) (rows : List A) {r : A} → All P rows → find key k rows ≡ some r → P r
  All-find k [] a h = cc
  All-find k (x ∷ rows) {r} a h = elim (Bool-cases (nat_beq (key x) k)) [
    | inl e ↦ subst P (ground arith) a.0
    | inr e ↦ All-find k rows a.1 (ground arith)
  ]

module _ {ℓ} {A : Type ℓ} (key : A → ℕ) where
  pub contains-keys_of_none :
      (k : ℕ) (rows : List A) → find key k rows ≡ none → contains k (map key rows) ≡ false
  contains-keys_of_none k [] h = refl
  contains-keys_of_none k (r ∷ rows) h = ground (arith, contains-keys_of_none k rows)

  pub keys-update :
      (k : ℕ) (f : A → A) (rows : List A)
      → ((r : A) → key (f r) ≡ key r)
      → map key (update key k f rows) ≡ map key rows
  keys-update k f [] keeps = refl
  keys-update k f (r ∷ rows) keeps = ground (arith, keeps r, keys-update k f rows keeps)

  other_keys :
      (k : ℕ) (rows : List A)
      → contains k (map key rows) ≡ false
      → All (λ r. nat_beq k (key r) ≡ false) rows
  other_keys k [] h = tt
  other_keys k (r ∷ rows) h = (ground arith, other_keys k rows (ground arith))

  -- With distinct keys each row is the one that its key finds.
  pub find_self :
      (rows : List A) → Distinct (map key rows) → All (λ r. find key (key r) rows ≡ some r) rows
  find_self [] d = tt
  find_self (x ∷ rows) d = (
    ground arith,
    All-zip (λ r. nat_beq (key x) (key r) ≡ false) (λ r. find key (key r) rows ≡ some r)
        (λ r. find key (key r) (x ∷ rows) ≡ some r) (λ r ne e. ground arith) rows
        (other_keys (key x) rows d.0) (find_self rows d.1),
  )

module _ {ℓ κ} {A : Type ℓ} (key : A → ℕ) (P : A → Type κ) where
  All-update_at :
      (k : ℕ) (f : A → A) (rows : List A)
      → All (λ r. P r × (key r ≡ k → P (f r))) rows
      → All P (update key k f rows)
  All-update_at k f [] h = tt
  All-update_at k f (r ∷ rows) h = (
    elim (Bool-cases (nat_beq (key r) k)) [
      | inl e ↦ subst P (ground arith) (h.0.1 (ground arith))
      | inr e ↦ subst P (ground arith) h.0.0
    ],
    All-update_at k f rows h.1,
  )

  -- With distinct keys the write is made to the row that the key finds, and to no other.
  pub All-update_found :
      (k : ℕ) (f : A → A) (rows : List A)
      → Distinct (map key rows)
      → ((r : A) → find key k rows ≡ some r → P r → P (f r))
      → All P rows
      → All P (update key k f rows)
  All-update_found k f rows d h a = All-update_at k f rows (
      All-zip (λ r. find key (key r) rows ≡ some r) P (λ r. P r × (key r ≡ k → P (f r)))
        (λ r e p. (p, λ same. h r (subst (λ j. find key j rows ≡ some r) same e) p)) rows
        (find_self key rows d) a)

module _ {ℓ} {A : Type ℓ} (key : A → ℕ) where
  update_same_at :
      (k : ℕ) (f : A → A) (rows : List A)
      → All (λ r. key r ≡ k → f r ≡ r) rows
      → update key k f rows ≡ rows
  update_same_at k f [] h = refl
  update_same_at k f (r ∷ rows) h = elim (Bool-cases (nat_beq (key r) k)) [
    | inl e ↦ cc (e, h.0 (ground arith), update_same_at k f rows h.1)
    | inr e ↦ cc (e, update_same_at k f rows h.1)
  ]

  -- A write that leaves the found row as it is leaves the table as it is.
  pub update_same :
      (k : ℕ) (f : A → A) (rows : List A)
      → Distinct (map key rows)
      → ((r : A) → find key k rows ≡ some r → f r ≡ r)
      → update key k f rows ≡ rows
  update_same k f rows d h = update_same_at k f rows (
      All-imp (λ r. find key (key r) rows ≡ some r) (λ r. key r ≡ k → f r ≡ r)
        (λ r e same. h r (subst (λ j. find key j rows ≡ some r) same e)) rows
        (find_self key rows d))

module _ {ℓ} {A : Type ℓ} (key : A → ℕ) (p : A → Bool) where
  count_if-update_absent :
      (k : ℕ) (f : A → A) (rows : List A)
      → contains k (map key rows) ≡ false
      → count_if p (update key k f rows) ≡ count_if p rows
  count_if-update_absent k f [] h = refl
  count_if-update_absent k f (r ∷ rows) h = ground (arith, count_if-update_absent k f rows)

  -- A write to the row of a key takes that row off the count of a test that it fails from then on.
  pub count_if-update :
      (k : ℕ) (f : A → A) (rows : List A) {r : A}
      → Distinct (map key rows)
      → find key k rows ≡ some r
      → p r ≡ true
      → p (f r) ≡ false
      → count_if p rows ≡ count_if p (update key k f rows) + 1
  count_if-update k f [] d e t u = cc
  count_if-update k f (x ∷ rows) {r} d e t u = elim (Bool-cases (nat_beq (key x) k)) [
    | inl same ↦
        let eq : x ≡ r = ground arith in
        rw
          (
            same,
            subst (λ y. p y ≡ true) (sym eq) t,
            subst (λ y. p (f y) ≡ false) (sym eq) u,
            count_if-update_absent k f rows
                (subst (λ j. contains j (map key rows) ≡ false) ((nat_beq_iff _ _).0 same) d.0),
          )
          (omega arith)
    | inr other ↦ rw other (omega (arith, count_if-update k f rows d.1 (ground arith) t u))
  ]

-- The row of a key is replaced by a row with that key.
module _ {ℓ} {A : Type ℓ} (key : A → ℕ) (r : A) where
  find-overwrite_other :
      (w : ℕ) (rows : List A)
      → nat_beq (key r) w ≡ false
      → find key w (update key (key r) (λ _. r) rows) ≡ find key w rows
  find-overwrite_other w [] h = refl
  find-overwrite_other w (x ∷ rows) h = ground (arith, find-overwrite_other w rows h)

  find-overwrite_self :
      (rows : List A) {old : A}
      → find key (key r) rows ≡ some old
      → find key (key r) (update key (key r) (λ _. r) rows) ≡ some r
  find-overwrite_self [] h = cc
  find-overwrite_self (x ∷ rows) {old} h = ground (arith, find-overwrite_self rows {old = old})

  pub find-overwrite :
      (w : ℕ) (rows : List A) {old : A}
      → find key (key r) rows ≡ some old
      → find key w (update key (key r) (λ _. r) rows)
        ≡ (if nat_beq (key r) w then some r else find key w rows)
  find-overwrite w rows h = elim (Bool-cases (nat_beq (key r) w)) [
    | inl same ↦ rw same (
        subst (λ v. find key v (update key (key r) (λ _. r) rows) ≡ some r)
          ((nat_beq_iff (key r) w).0 same) (find-overwrite_self rows h))
    | inr other ↦ rw other (find-overwrite_other w rows other)
  ]

  pub keys-overwrite : (rows : List A) → map key (update key (key r) (λ _. r) rows) ≡ map key rows
  keys-overwrite [] = refl
  keys-overwrite (x ∷ rows) = ground (arith, keys-overwrite rows)

-- ===== src/Base/Sort.antt =====
-- `sorted(xs, key=...)`: a stable sort by a Boolean order.
use mathlib.Core.Path.{◌≡◌}
use mathlib.Core.Logic.{inl, inr}
use mathlib.Core.Bool.{Bool, true, false}
use mathlib.Core.List.{List, [], ◌∷◌, Perm}
use mathlib.Core.List.Perm
use maeglagi.Base.Tests.{if◌then◌else◌, if_ind, Bool-cases}
use maeglagi.Base.Lists.{All, All-imp}

module _ {ℓ} {A : Type ℓ} (le : A → A → Bool) where
  -- Before the first element that comes strictly after or together with `x`.
  abbrev pub insert_sorted : A → List A → List A
  insert_sorted x [] = x ∷ []
  insert_sorted x (y ∷ ys) = if le x y then x ∷ y ∷ ys else y ∷ insert_sorted x ys

  abbrev pub sort : List A → List A
  sort [] = []
  sort (x ∷ xs) = insert_sorted x (sort xs)

  pub insert_sorted-All {κ} :
      (P : A → Type κ) (x : A) (l : List A) → P x → All P l → All P (insert_sorted x l)
  insert_sorted-All P x [] h a = (h, tt)
  insert_sorted-All P x (y ∷ l) h a =
      if_ind (All P) (le x y) (h, a) (a.0, insert_sorted-All P x l h a.1)

  pub sort-All {κ} : (P : A → Type κ) (l : List A) → All P l → All P (sort l)
  sort-All P [] a = tt
  sort-All P (x ∷ l) a = insert_sorted-All P x (sort l) a.0 (sort-All P l a.1)

  -- Each element comes before all that follow it.
  abbrev pub IsSorted : List A → Type 0
  IsSorted [] = Unit
  IsSorted (x ∷ l) = All (λ y. le x y ≡ true) l × IsSorted l

  module _ (trans : (x y z : A) → le x y ≡ true → le y z ≡ true → le x z ≡ true)
      (total : (x y : A) → le x y ≡ false → le y x ≡ true) where
    insert_sorted-IsSorted : (x : A) (l : List A) → IsSorted l → IsSorted (insert_sorted x l)
    insert_sorted-IsSorted x [] s = (tt, tt)
    insert_sorted-IsSorted x (y ∷ l) s = elim (Bool-cases (le x y)) [
      | inl e ↦ rw e ((e, All-imp _ _ (λ z h. trans x y z e h) l s.0), s)
      | inr e ↦ rw e (
        insert_sorted-All (λ z. le y z ≡ true) x l (total x y e) s.0,
        insert_sorted-IsSorted x l s.1,
      )
    ]

    pub sort-IsSorted : (l : List A) → IsSorted (sort l)
    sort-IsSorted [] = tt
    sort-IsSorted (x ∷ l) = insert_sorted-IsSorted x (sort l) (sort-IsSorted l)

  All-insert_sorted {κ} :
      (P : A → Type κ) (x : A) (l : List A) → All P (insert_sorted x l) → P x × All P l
  All-insert_sorted P x [] a = a
  All-insert_sorted P x (y ∷ l) a = elim (Bool-cases (le x y)) [
    | inl e ↦ rw e at a
    | inr e ↦
        let b : All P (y ∷ insert_sorted x l) = rw e at a in
        let (h, t) = All-insert_sorted P x l b.1 in (h, (b.0, t))
  ]

  -- What holds of every element of the sorted list holds of every element of the list.
  pub All-sort {κ} : (P : A → Type κ) (l : List A) → All P (sort l) → All P l
  All-sort P [] a = tt
  All-sort P (x ∷ l) a = let (h, t) = All-insert_sorted P x (sort l) a in (h, All-sort P l t)

  insert_sorted-perm : (x : A) (l : List A) → Perm (insert_sorted x l) (x ∷ l)
  insert_sorted-perm x [] = Perm.refl (x ∷ [])
  insert_sorted-perm x (y ∷ l) =
      if_ind (λ m. Perm m (x ∷ y ∷ l)) (le x y) (Perm.refl (x ∷ y ∷ l))
        (Perm.trans (Perm.cons y (insert_sorted-perm x l)) (Perm.swap x y l))

  -- Sorting keeps the elements.
  pub sort-perm : (l : List A) → Perm (sort l) l
  sort-perm [] = Perm.refl []
  sort-perm (x ∷ l) = Perm.trans (insert_sorted-perm x (sort l)) (Perm.cons x (sort-perm l))

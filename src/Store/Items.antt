-- ===== src/Store/Items.antt =====
-- Lists of items that are told apart by a key: what `upsert` and a filter by the key do to the
-- item of each key, and that they keep the keys distinct.
use maeglagi.Base.{
  ◌≡◌, refl, subst, Bool, false, not, ◌||◌, Option, none, some, List, [], ◌∷◌, map, arith, ◌==◌,
  list_eq, nat_eq, if◌then◌else◌, select, contains, Distinct, inl, inr, Bool-cases, list_beq_iff,
}
use maeglagi.Base.Text.{Text}
use maeglagi.Store.{upsert}

module _ {A : Type 0} (key : A → Text) where
  -- The item of a key, the first one if there are several.
  abbrev pub item_at : Text → List A → Option A
  item_at k [] = none
  item_at k (item ∷ items) = if key item == k then some item else item_at k items

  pub item_at-upsert :
      (k : Text) (items : List A) (new : A)
      → item_at k (upsert key items new) ≡ (if key new == k then some new else item_at k items)
  unfolding upsert
  item_at-upsert k [] new = refl
  item_at-upsert k (item ∷ items) new = ground (
    arith,
    item_at-upsert k items new,
    list_beq_iff (key item) (key new),
    list_beq_iff (key new) k,
    list_beq_iff (key item) k,
  )

  pub contains-keys-upsert :
      (k : Text) (items : List A) (new : A)
      → contains k (map key (upsert key items new)) ≡ (key new == k || contains k (map key items))
  unfolding upsert
  contains-keys-upsert k [] new = refl
  contains-keys-upsert k (item ∷ items) new =
      ground (arith, contains-keys-upsert k items new, list_beq_iff (key item) (key new))

  pub upsert-Distinct :
      (items : List A) (new : A)
      → Distinct (map key items)
      → Distinct (map key (upsert key items new))
  unfolding upsert
  upsert-Distinct [] new d = (refl, tt)
  upsert-Distinct (item ∷ items) new d = elim (Bool-cases (key item == key new)) [
    | inl e ↦
        rw e (subst (λ x. contains x (map key items) ≡ false) ((list_beq_iff _ _).0 e) d.0, d.1)
    | inr e ↦ rw e (
      ground (
        arith,
        contains-keys-upsert (key item) items new,
        d.0,
        list_beq_iff (key item) (key new),
        list_beq_iff (key new) (key item),
      ),
      upsert-Distinct items new d.1,
    )
  ]

  pub item_at-select :
      (k r : Text) (items : List A)
      → item_at k (select (λ d. not (key d == r)) items)
        ≡ (if r == k then none else item_at k items)
  item_at-select k r [] = ground arith
  item_at-select k r (item ∷ items) = ground (
    arith,
    item_at-select k r items,
    list_beq_iff (key item) r,
    list_beq_iff r k,
    list_beq_iff (key item) k,
  )

  pub contains-keys-select :
      (k : Text) (p : A → Bool) (items : List A)
      → contains k (map key items) ≡ false
      → contains k (map key (select p items)) ≡ false
  contains-keys-select k p [] h = refl
  contains-keys-select k p (item ∷ items) h = ground (arith, contains-keys-select k p items)

  pub select-Distinct :
      (p : A → Bool) (items : List A)
      → Distinct (map key items)
      → Distinct (map key (select p items))
  select-Distinct p [] d = tt
  select-Distinct p (item ∷ items) d = elim (Bool-cases (p item)) [
    | inl e ↦ rw e (contains-keys-select (key item) p items d.0, select-Distinct p items d.1)
    | inr e ↦ rw e (select-Distinct p items d.1)
  ]

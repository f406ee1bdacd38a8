-- ===== src/Store/Closing/Exact.antt =====
-- What `_close` closes: exactly the items that a grounded resolution names.
use maeglagi.Base.{
  ◌+◌, suc, ◌≡◌, refl, Equality, Bool, false, ◌&&◌, ◌||◌, none, some, List, [], ◌∷◌, map, arith,
  ◌==◌, list_eq, list_beq_iff, nat_eq, if◌then◌else◌, length, length-append, contains, Distinct,
  inl, inr, Bool-cases, Option-cases,
}
use maeglagi.Base.Text.{Text}
use maeglagi.Extraction.{EntityKind, Unicode}
use maeglagi.Store.{item_key}
use maeglagi.Store.Items.{item_at}
use maeglagi.Store.Closing.{
  Resolution, grounded, remove, close_one, close_all, close, not_found, not_grounded,
}

module _ {A : Type 0} ⦃e : Equality A⦄ (key : A → Text) where
  item_at-key : (k : Text) (items : List A) {x : A} → item_at key k items ≡ some x → key x ≡ k
  item_at-key k [] h = cc
  item_at-key k (item ∷ items) {x} h =
      ground (arith, item_at-key k items {x = x}, list_beq_iff (key item) k)

  item_at_of_absent :
      (k : Text) (items : List A) → contains k (map key items) ≡ false → item_at key k items ≡ none
  item_at_of_absent k [] h = refl
  item_at_of_absent k (item ∷ items) h = ground (arith, item_at_of_absent k items)

  length-remove :
      (k : Text) (items : List A) {x : A}
      → item_at key k items ≡ some x
      → suc (length (remove x items)) ≡ length items
  unfolding remove
  length-remove k [] h = cc
  length-remove k (item ∷ items) {x} h =
      ground (arith, length-remove k items {x = x}, e.same_iff item x)

  contains-keys-remove :
      (k : Text) (x : A) (items : List A)
      → contains k (map key items) ≡ false
      → contains k (map key (remove x items)) ≡ false
  unfolding remove
  contains-keys-remove k x [] h = refl
  contains-keys-remove k x (item ∷ items) h = ground (arith, contains-keys-remove k x items)

  remove-Distinct :
      (x : A) (items : List A) → Distinct (map key items) → Distinct (map key (remove x items))
  unfolding remove
  remove-Distinct x [] d = tt
  remove-Distinct x (item ∷ items) d = elim (Bool-cases (item == x)) [
    | inl same ↦ rw same d.1
    | inr other ↦
        rw other (contains-keys-remove (key item) x items d.0, remove-Distinct x items d.1)
  ]

  item_at-remove :
      (k j : Text) (items : List A) {x : A}
      → Distinct (map key items)
      → item_at key k items ≡ some x
      → item_at key j (remove x items) ≡ (if k == j then none else item_at key j items)
  unfolding remove
  item_at-remove k j [] d h = cc
  item_at-remove k j (item ∷ items) {x} d h = elim (Bool-cases (key item == k)) [
    | inl first ↦ ground (
      arith,
      e.same_iff item x,
      d.0,
      item_at_of_absent (key item) items,
      item_at_of_absent j items,
      list_beq_iff (key item) k,
      list_beq_iff (key item) j,
      list_beq_iff k j,
    )
    | inr later ↦ ground (
      arith,
      e.same_iff item x,
      item_at-remove k j items {x = x} d.1,
      item_at-key k items {x = x},
      list_beq_iff (key item) k,
      list_beq_iff (key item) j,
      list_beq_iff k j,
    )
  ]

module _ (u : Unicode) {A : Type 0} ⦃e : Equality A⦄ (title : A → Text) (kind : EntityKind)
    (text label : Text) where
  abbrev key : A → Text
  key item = item_key u (title item) kind

  abbrev step : List A × List Text → Resolution → List A × List Text
  step state r = close_one u title kind text label state r

  -- A grounded resolution names the key.
  abbrev pub is_closed : Text → List Resolution → Bool
  is_closed k [] = false
  is_closed k (r ∷ resolutions) =
      (item_key u r.title kind == k && grounded r text) || is_closed k resolutions

  close_one-Distinct :
      (items : List A) (warnings : List Text) (r : Resolution)
      → Distinct (map key items)
      → Distinct (map key (step (items, warnings) r).0)
  unfolding close_one
  close_one-Distinct items warnings r d =
      elim (Option-cases (item_at key (item_key u r.title kind) items)) [
        | inl absent ↦ rw (absent, close_one) d
        | inr (x, found) ↦ elim (Bool-cases (grounded r text)) [
          | inl proved ↦ rw (found, proved, close_one) (remove-Distinct key x items d)
          | inr unproved ↦ rw (found, unproved, close_one) d
        ]
      ]

  item_at-close_one :
      (k : Text) (items : List A) (warnings : List Text) (r : Resolution)
      → Distinct (map key items)
      → item_at key k (step (items, warnings) r).0
        ≡ (if item_key u r.title kind == k && grounded r text then none else item_at key k items)
  unfolding close_one
  item_at-close_one k items warnings r d =
      elim (Option-cases (item_at key (item_key u r.title kind) items)) [
        | inl absent ↦
            rw (absent, close_one) (ground (arith, list_beq_iff (item_key u r.title kind) k))
        | inr (x, found) ↦ elim (Bool-cases (grounded r text)) [
          | inl proved ↦
              rw (found, proved, close_one)
                (ground
                  (arith, item_at-remove key (item_key u r.title kind) k items {x = x} d found))
          | inr unproved ↦ rw (found, unproved, close_one) (ground arith)
        ]
      ]

  length-close_one :
      (items : List A) (warnings : List Text) (r : Resolution)
      → let after = step (items, warnings) r in
        suc (length after.0 + length warnings) ≡ length items + length after.1
  unfolding close_one
  length-close_one items warnings r =
      elim (Option-cases (item_at key (item_key u r.title kind) items)) [
        | inl absent ↦
            rw (absent, close_one)
              (omega (arith, length-append warnings (not_found label r.title ∷ [])))
        | inr (x, found) ↦ elim (Bool-cases (grounded r text)) [
          | inl proved ↦
              rw (found, proved, close_one)
                (omega (arith, length-remove key (item_key u r.title kind) items {x = x} found))
          | inr unproved ↦
              rw (found, unproved, close_one)
                (omega (arith, length-append warnings (not_grounded label r.title ∷ [])))
        ]
      ]

  -- What closing did: the items of the keys that a grounded resolution names are gone, all others
  -- stay, and each resolution closed one item or left one warning.
  pub record Closes (items : List A) (warnings : List Text) (resolutions : List Resolution)
      (after : List A × List Text) : Type 0 where
    pub kept :
        (k : Text)
        → item_at key k after.0 ≡ (if is_closed k resolutions then none else item_at key k items)
    pub counted :
        length after.0 + length warnings + length resolutions ≡ length items + length after.1
    pub once : Distinct (map key after.0)

  close_all_lem :
      (items : List A) (warnings : List Text) (resolutions : List Resolution)
      → Distinct (map key items)
      → Closes items warnings resolutions
          (close_all u title kind text label (items, warnings) resolutions)
  unfolding close_all
  close_all_lem items warnings [] d = record { kept = λ k. refl; counted = omega arith; once = d }
  close_all_lem items warnings (r ∷ resolutions) d =
      let after = step (items, warnings) r in
      let rest =
        close_all_lem after.0 after.1 resolutions (close_one-Distinct items warnings r d) in
      record {
        kept = λ k. ground (arith, rest.kept k, item_at-close_one k items warnings r d);
        counted = omega (arith, rest.counted, length-close_one items warnings r);
        once = rest.once;
      }

  -- In a list with distinct keys, `_close` removes exactly the items that a grounded resolution names,
  -- and each resolution either closes one item or leaves one warning.
  pub close_lem :
      (items : List A) (resolutions : List Resolution)
      → Distinct (map key items)
      → Closes items [] resolutions (close u title kind text label items resolutions)
  unfolding close
  close_lem items resolutions d = close_all_lem items [] resolutions d

-- ===== src/Resolution/Apart.antt =====
-- Two groups of one kind never share an identifier.
use maeglagi.Base.{
  ◌≡◌, refl, ◌∙◌, sym, subst, ◌⊎◌, inl, inr, Bool, true, false, not, ◌||◌, List, [], ◌∷◌, ◌++◌,
  arith, ◌==◌, nat_eq, list_eq, if◌then◌else◌, if_ind, contains, select, All, All-select,
  All-append, All-zip, Bool-cases, list_beq_iff, ==-refl, Equality,
}
use maeglagi.Base.Text.{Text}
use maeglagi.Extraction.{entity_eq}
use maeglagi.Resolution.{
  Mention, Group, add_all, shares, absorb, absorb_all, empty_group, by_identifier, Match, hit,
  place, join_mention,
}

shares-append : (xs ys zs : List Text) → shares (xs ++ ys) zs ≡ (shares xs zs || shares ys zs)
shares-append [] ys zs = refl
shares-append (x ∷ xs) ys zs = ground (arith, shares-append xs ys zs)

add_all-apart :
    (xs ys zs : List Text)
    → shares xs zs ≡ false
    → shares ys zs ≡ false
    → shares (add_all xs ys) zs ≡ false
unfolding add_all
add_all-apart xs [] zs h g = h
add_all-apart xs (y ∷ ys) zs h g =
    add_all-apart (if contains y xs then xs else xs ++ y ∷ []) ys zs
      (if_ind (λ l. shares l zs ≡ false) (contains y xs) h
        (shares-append xs (y ∷ []) zs ∙ ground arith))
      (ground arith)

contains-shares :
    (x : Text) (xs ys : List Text)
    → contains x xs ≡ true
    → contains x ys ≡ true
    → shares ys xs ≡ true
contains-shares x xs [] h g = cc
contains-shares x xs (y ∷ ys) h g = elim (Bool-cases (y == x)) [
  | inl same ↦ rw (subst (λ z. contains z xs ≡ true) (sym ((list_beq_iff y x).0 same)) h) refl
  | inr other ↦ rw (contains-shares x xs ys h (rw other at g)) (ground arith)
]

shares_more : (y : Text) (xs ys : List Text) → shares xs ys ≡ true → shares xs (y ∷ ys) ≡ true
shares_more y [] ys h = cc
shares_more y (x ∷ xs) ys h = elim (Bool-cases (contains x ys)) [
  | inl known ↦ rw known (ground arith)
  | inr new ↦ rw (shares_more y xs ys (rw new at h)) (ground arith)
]

shares_sym : (xs ys : List Text) → shares ys xs ≡ true → shares xs ys ≡ true
shares_sym xs [] h = cc
shares_sym xs (y ∷ ys) h = elim (Bool-cases (contains y xs)) [
  | inl known ↦ contains-shares y (y ∷ ys) xs (rw (==-refl y) refl) known
  | inr new ↦ shares_more y xs ys (shares_sym xs ys (rw new at h))
]

pub not_shares_sym : (xs ys : List Text) → shares xs ys ≡ false → shares ys xs ≡ false
not_shares_sym xs ys h = elim (Bool-cases (shares ys xs)) [
  | inl shared ↦ cc (h, shares_sym xs ys shared)
  | inr none_shared ↦ none_shared
]

-- The two groups may stand beside each other.
abbrev pub Differ : Group → Group → Type 0
Differ g h = ((g.kind == h.kind) ≡ false) ⊎ (shares g.identifiers h.identifiers ≡ false)

-- Of different positions in the list.
abbrev pub AreApart : List Group → Type 0
AreApart [] = Unit
AreApart (g ∷ groups) = All (Differ g) groups × AreApart groups

absorb_all-apart :
    (g : Group) (others : List Group) (zs : List Text)
    → shares g.identifiers zs ≡ false
    → All (λ (o : Group). shares o.identifiers zs ≡ false) others
    → shares (absorb_all g others).identifiers zs ≡ false
unfolding absorb_all absorb
absorb_all-apart g [] zs h a = h
absorb_all-apart g (o ∷ others) zs h a =
    absorb_all-apart (absorb g o) others zs (add_all-apart g.identifiers o.identifiers zs h a.0) a.1

absorb_all-kind : (g : Group) (others : List Group) → (absorb_all g others).kind ≡ g.kind
unfolding absorb_all absorb
absorb_all-kind g [] = refl
absorb_all-kind g (o ∷ others) = absorb_all-kind (absorb g o) others

AreApart-select :
    (p : Group → Bool) (groups : List Group) → AreApart groups → AreApart (select p groups)
AreApart-select p [] h = tt
AreApart-select p (g ∷ groups) h =
    if_ind AreApart (p g) (All-select (Differ g) p groups h.0, AreApart-select p groups h.1)
      (AreApart-select p groups h.1)

module _ (t : Match) (merged : Group) where
  -- What `merged` differs from, where it need not differ from what it takes in.
  abbrev pub DiffersOutside : Group → Type 0
  DiffersOutside h = (hit t h ≡ true) ⊎ (Differ merged h × Differ h merged)

  place-All :
      (P : Group → Type 0) (groups : List Group)
      → P merged
      → All P groups
      → All P (place t merged groups)
  unfolding place
  place-All P [] m a = tt
  place-All P (g ∷ groups) m a =
      if_ind (All P) (t.leads g) (m, All-select P (λ h. not (hit t h)) groups a.1)
        (if_ind (All P) (t.follows g) (place-All P groups m a.1) (a.0, place-All P groups m a.1))

  outside :
      (groups : List Group)
      → All DiffersOutside groups
      → All (Differ merged) (select (λ h. not (hit t h)) groups)
  outside [] a = tt
  outside (g ∷ groups) a = elim (Bool-cases (hit t g)) [
    | inl taken ↦ rw taken (outside groups a.1)
    | inr left_alone ↦
        rw left_alone
          (elim a.0 [ inl taken ↦ cc (taken, left_alone) | inr d ↦ d.0 ], outside groups a.1)
  ]

  pub place-AreApart :
      (groups : List Group)
      → All DiffersOutside groups
      → AreApart groups
      → AreApart (place t merged groups)
  unfolding place
  place-AreApart [] a h = tt
  place-AreApart (g ∷ groups) a h = elim (Bool-cases (t.leads g)) [
    | inl first ↦ rw first (outside groups a.1, AreApart-select (λ k. not (hit t k)) groups h.1)
    | inr later ↦ rw later (elim (Bool-cases (t.follows g)) [
      | inl taken ↦ rw taken (place-AreApart groups a.1 h.1)
      | inr free ↦ rw free (
        place-All (Differ g) groups (elim a.0 [ inl taken ↦ cc (taken, later, free) | inr d ↦ d.1 ])
            h.0,
        place-AreApart groups a.1 h.1,
      )
    ])
  ]

module _ {T : Type 0} ⦃k : Equality T⦄ where
  distinct_sym : (a b : T) → (a == b) ≡ false → (b == a) ≡ false
  distinct_sym a b h = elim (Bool-cases (b == a)) [
    | inl same ↦ cc (h, subst (λ z. (z == b) ≡ true) ((k.same_iff b a).0 same) (==-refl b))
    | inr other ↦ other
  ]

  same_both : (a b c : T) → (a == c) ≡ true → (b == c) ≡ true → (a == b) ≡ true
  same_both a b c h g =
      subst (λ z. (a == z) ≡ true) (sym ((k.same_iff b c).0 g ∙ sym ((k.same_iff a c).0 h)))
        (==-refl a)

  distinct_as : (a b c : T) → (a == c) ≡ true → (b == c) ≡ false → (a == b) ≡ false
  distinct_as a b c h g =
      distinct_sym b a (subst (λ z. (b == z) ≡ false) (sym ((k.same_iff a c).0 h)) g)

-- What a mention must differ from, and what it takes in.
module _ (m : Mention) (keys : List Text) where
  abbrev pub IsOfKind : Group → Type 0
  IsOfKind g = (g.kind == m.kind) ≡ true

  -- The same kind and no shared identifier with what is merged.
  apart_within :
      (h x : Group)
      → IsOfKind h
      → IsOfKind x
      → Differ x h
      → shares x.identifiers h.identifiers ≡ false
  apart_within h x of_kind of_kind' d = elim d [
    | inl kinds ↦ cc (kinds, same_both x.kind h.kind m.kind of_kind' of_kind)
    | inr apart ↦ apart
  ]

  pub merged-Differ :
      (g : Group) (others : List Group) (h : Group)
      → by_identifier m h ≡ false
      → All IsOfKind (g ∷ others)
      → All (λ x. Differ x h) (g ∷ others)
      → Differ (join_mention (absorb_all g others) m keys) h
        × Differ h (join_mention (absorb_all g others) m keys)
  unfolding join_mention
  merged-Differ g others h unshared kinds apart =
      let kind = absorb_all-kind g others in
      elim (Bool-cases (h.kind == m.kind)) [
        | inr other ↦
            let d : (g.kind == h.kind) ≡ false = distinct_as g.kind h.kind m.kind kinds.0 other in
            (
              inl (subst (λ z. (z == h.kind) ≡ false) (sym kind) d),
              inl (subst (λ z. (h.kind == z) ≡ false) (sym kind) (distinct_sym g.kind h.kind d)),
            )
        | inl of_kind ↦
            let each =
              All-zip IsOfKind (λ x. Differ x h) (λ x. shares x.identifiers h.identifiers ≡ false)
                (λ x a b. apart_within h x of_kind a b) (g ∷ others) kinds apart in
            let shared : shares h.identifiers m.identifiers ≡ false = rw of_kind at unshared in
            let all_apart =
              add_all-apart (absorb_all g others).identifiers m.identifiers h.identifiers
                (absorb_all-apart g others h.identifiers each.0 each.1)
                (not_shares_sym h.identifiers m.identifiers shared) in
            (inr all_apart, inr (not_shares_sym _ h.identifiers all_apart))
      ]

  pub new-Differ :
      (h : Group) → by_identifier m h ≡ false → Differ h (join_mention (empty_group m.kind) m keys)
  unfolding join_mention
  new-Differ h unshared = elim (Bool-cases (h.kind == m.kind)) [
    | inr other ↦ inl other
    | inl of_kind ↦
        let shared : shares h.identifiers m.identifiers ≡ false = rw of_kind at unshared in
        inr (
          not_shares_sym (add_all [] m.identifiers) h.identifiers (
            add_all-apart [] m.identifiers h.identifiers refl
              (not_shares_sym h.identifiers m.identifiers shared)))
  ]

pub AreApart-append_new :
    (groups : List Group) (new : Group)
    → AreApart groups
    → All (λ g. Differ g new) groups
    → AreApart (groups ++ new ∷ [])
AreApart-append_new [] new h a = (tt, tt)
AreApart-append_new (g ∷ groups) new h a =
    (All-append (Differ g) groups (new ∷ []) h.0 (a.0, tt), AreApart-append_new groups new h.1 a.1)

pub Differ-sym : (g h : Group) → Differ g h → Differ h g
Differ-sym g h d = elim d [
  | inl kinds ↦ inl (distinct_sym g.kind h.kind kinds)
  | inr apart ↦ inr (not_shares_sym g.identifiers h.identifiers apart)
]

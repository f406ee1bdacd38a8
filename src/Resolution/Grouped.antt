-- ===== src/Resolution/Grouped.antt =====
-- Every mention leaves the groups apart.
use maeglagi.Base.{
  ℕ, ◌≡◌, refl, ◌⊎◌, inl, inr, Bool, true, false, none, some, map, List, [], ◌∷◌, ◌++◌, arith, ◌==◌,
  nat_eq, list_eq, if_ind, any, select, All, All-select_test, All-imp, All-append, All-zip,
  Bool-cases,
}
use maeglagi.Base.Text.{Text}
use maeglagi.Extraction.{ExtractedEvent, ExtractionResult, Unicode, entity_eq}
use maeglagi.Temporal.{Calendar, parse_instant-cases}
use maeglagi.Store.Timeline.{events_overflow}
use maeglagi.Resolution.{
  Mention, Group, empty_group, by_identifier, Match, identified, unclear, named, is_unclear,
  match_of, hit, absorb_all, join_mention, place_matched, take_mention, take_mentions, groups_of,
  mentions_of, event_mentions, event_mention, entity_mention, keys_of, is_nil,
}
use maeglagi.Resolution.Apart.{
  Differ, AreApart, IsOfKind, DiffersOutside, merged-Differ, new-Differ, AreApart-append_new,
  place-AreApart, Differ-sym,
}

any-false : {A : Type 0} (p : A → Bool) (xs : List A) → any p xs ≡ false → All (λ x. p x ≡ false) xs
any-false p [] h = tt
any-false p (x ∷ xs) h = (ground arith, any-false p xs (ground arith))

select-nil :
    {A : Type 0} (p : A → Bool) (xs : List A) → select p xs ≡ [] → All (λ x. p x ≡ false) xs
select-nil p [] h = tt
select-nil p (x ∷ xs) h = elim (Bool-cases (p x)) [
  | inl taken ↦ cc (h, taken)
  | inr left_out ↦ (left_out, select-nil p xs (rw left_out at h))
]

append-nil_left : {A : Type 0} (xs ys : List A) → xs ++ ys ≡ [] → xs ≡ []
append-nil_left [] ys h = refl
append-nil_left (x ∷ xs) ys h = cc

append-nil_right : {A : Type 0} (xs ys : List A) → xs ++ ys ≡ [] → ys ≡ []
append-nil_right [] ys h = h
append-nil_right (x ∷ xs) ys h = cc

-- What the groups that a mention does not join, and those that it joins, are.
pub record IsSound (m : Mention) (groups : List Group) (t : Match) : Type 0 where
  pub unhit : All (λ h. (hit t h ≡ true) ⊎ (by_identifier m h ≡ false)) groups
  pub kinds : (g : Group) → hit t g ≡ true → (g.kind == m.kind) ≡ true

all_of : {A : Type 0} (P : A → Type 0) → ((x : A) → P x) → (xs : List A) → All P xs
all_of P f [] = tt
all_of P f (x ∷ xs) = (f x, all_of P f xs)

identified-IsSound :
    (m : Mention) (keys : List Text) (groups : List Group) → IsSound m groups (identified m keys)
identified-IsSound m keys groups = record {
  unhit =
      all_of (λ h. (hit (identified m keys) h ≡ true) ⊎ (by_identifier m h ≡ false))
        (λ h. elim (Bool-cases (by_identifier m h)) [
          | inl shared ↦ inl (rw shared refl)
          | inr unshared ↦ inr unshared
        ])
        groups;
  kinds = λ g h. ground arith;
}

apart-IsSound :
    (m : Mention) (keys : List Text) (groups : List Group) (t : Match)
    → any (by_identifier m) groups ≡ false
    → ((g : Group) → hit t g ≡ true → (g.kind == m.kind) ≡ true)
    → IsSound m groups t
apart-IsSound m keys groups t h kinds = record {
  unhit =
      All-imp (λ x. by_identifier m x ≡ false) (λ x. (hit t x ≡ true) ⊎ (by_identifier m x ≡ false))
        (λ x unshared. inr unshared) groups (any-false (by_identifier m) groups h);
  kinds = kinds;
}

match_of-IsSound :
    (m : Mention) (keys : List Text) (groups : List Group)
    → IsSound m groups (match_of m keys groups)
unfolding match_of
match_of-IsSound m keys groups = elim (Bool-cases (any (by_identifier m) groups)) [
  | inl shared ↦ rw shared (identified-IsSound m keys groups)
  | inr unshared ↦ rw unshared (
      if_ind (IsSound m groups) (is_unclear m keys groups)
        (apart-IsSound m keys groups unclear unshared (λ g h. cc))
        (apart-IsSound m keys groups (named m keys) unshared (λ g h. ground arith)))
]

-- A group that is not joined beside all that are.
pairs :
    (t : Match) (groups : List Group)
    → AreApart groups
    → All (λ h. All (λ x. hit t x ≡ true → hit t h ≡ false → Differ x h) groups) groups
pairs t [] a = tt
pairs t (g ∷ groups) a = (
  (
    λ joined left_out. cc (joined, left_out),
    All-imp (Differ g) (λ x. hit t x ≡ true → hit t g ≡ false → Differ x g)
        (λ x d joined left_out. Differ-sym g x d) groups a.0,
  ),
  All-zip (Differ g) (λ h. All (λ x. hit t x ≡ true → hit t h ≡ false → Differ x h) groups)
      (λ h. All (λ x. hit t x ≡ true → hit t h ≡ false → Differ x h) (g ∷ groups))
      (λ h d rest. (λ joined left_out. d, rest)) groups a.0 (pairs t groups a.1),
)

module _ (m : Mention) (keys : List Text) (groups : List Group) (t : Match)
    (sound : IsSound m groups t) (apart : AreApart groups) where
  abbrev matched : List Group
  matched = select t.leads groups ++ select t.follows groups

  matched-All : (P : Group → Type 0) → All (λ x. hit t x ≡ true → P x) groups → All P matched
  matched-All P a =
      All-append P (select t.leads groups) (select t.follows groups)
        (All-imp (λ x. (hit t x ≡ true → P x) × (t.leads x ≡ true)) P (λ x h. h.0 (rw h.1 refl))
          (select t.leads groups) (All-select_test (λ x. hit t x ≡ true → P x) t.leads groups a))
        (All-imp (λ x. (hit t x ≡ true → P x) × (t.follows x ≡ true)) P (λ x h. h.0 (ground arith))
          (select t.follows groups)
          (All-select_test (λ x. hit t x ≡ true → P x) t.follows groups a))

  -- Each group is joined, or differs from all that are.
  beside :
      All
        (λ h. (hit t h ≡ true) ⊎ ((by_identifier m h ≡ false) × All (λ x. Differ x h) matched))
        groups
  beside =
      All-zip (λ h. All (λ x. hit t x ≡ true → hit t h ≡ false → Differ x h) groups)
        (λ h. (hit t h ≡ true) ⊎ (by_identifier m h ≡ false))
        (λ h. (hit t h ≡ true) ⊎ ((by_identifier m h ≡ false) × All (λ x. Differ x h) matched))
        (λ h each unhit. elim (Bool-cases (hit t h)) [
          | inl joined ↦ inl joined
          | inr left_out ↦ inr (
            elim unhit [ inl joined ↦ cc (joined, left_out) | inr u ↦ u ],
            matched-All (λ x. Differ x h)
                (All-imp (λ x. hit t x ≡ true → hit t h ≡ false → Differ x h)
                  (λ x. hit t x ≡ true → Differ x h) (λ x f joined. f joined left_out) groups each),
          )
        ])
        groups (pairs t groups apart) sound.unhit

  none_joined : matched ≡ [] → All (λ h. hit t h ≡ false) groups
  none_joined h =
      All-zip (λ x. t.leads x ≡ false) (λ x. t.follows x ≡ false) (λ x. hit t x ≡ false)
        (λ x a b. rw (a, b) refl) groups
        (select-nil t.leads groups (append-nil_left (select t.leads groups) _ h))
        (select-nil t.follows groups (append-nil_right (select t.leads groups) _ h))

  placed :
      (joined : List Group)
      → (joined ≡ [] → All (λ h. hit t h ≡ false) groups)
      → All (IsOfKind m keys) joined
      → All
          (λ h. (hit t h ≡ true) ⊎ ((by_identifier m h ≡ false) × All (λ x. Differ x h) joined))
          groups
      → AreApart (place_matched m keys t groups joined)
  unfolding place_matched
  placed [] nothing kinds b =
      let new = join_mention (empty_group m.kind) m keys in
      AreApart-append_new groups new apart (
        All-zip (λ h. hit t h ≡ false)
          (λ h. (hit t h ≡ true) ⊎ ((by_identifier m h ≡ false) × All (λ x. Differ x h) []))
          (λ h. Differ h new)
          (λ h left_out e. elim e [
            | inl joined ↦ cc (joined, left_out)
            | inr (u, _) ↦ new-Differ m keys h u
          ])
          groups (nothing refl) b)
  placed (g ∷ others) nothing kinds b =
      let merged = join_mention (absorb_all g others) m keys in
      place-AreApart t merged groups
        (All-imp
          (λ h.
            (hit t h ≡ true) ⊎ ((by_identifier m h ≡ false) × All (λ x. Differ x h) (g ∷ others)))
          (DiffersOutside t merged)
          (λ h e. elim e [
            | inl joined ↦ inl joined
            | inr (u, each) ↦ inr (merged-Differ m keys g others h u kinds each)
          ])
          groups b)
        apart

  place_matched-AreApart : AreApart (place_matched m keys t groups matched)
  place_matched-AreApart =
      placed matched none_joined
        (matched-All (IsOfKind m keys)
          (all_of (λ x. hit t x ≡ true → IsOfKind m keys x) (λ x. sound.kinds x) groups))
        beside

module _ (u : Unicode) (uuid_text : ℕ → Text) (calendar : Calendar) where
  take_mention-AreApart :
      (m : Mention) (groups : List Group) (warnings : List Text)
      → AreApart groups
      → AreApart (take_mention u uuid_text calendar m (groups, warnings)).0
  unfolding take_mention
  take_mention-AreApart m groups warnings apart =
      let keys = keys_of u uuid_text calendar m in
      elim (Bool-cases (is_nil keys)) [
        | inl nameless ↦ rw nameless apart
        | inr has_name ↦ rw has_name (
            place_matched-AreApart m keys groups (match_of m keys groups)
              (match_of-IsSound m keys groups) apart)
      ]

  take_mentions-AreApart :
      (mentions : List Mention) (state : List Group × List Text)
      → AreApart state.0
      → AreApart (take_mentions u uuid_text calendar mentions state).0
  unfolding take_mentions
  take_mentions-AreApart [] state apart = apart
  take_mentions-AreApart (m ∷ mentions) state apart =
      take_mentions-AreApart mentions (take_mention u uuid_text calendar m state)
        (take_mention-AreApart m state.0 state.1 apart)

  event_mentions_cases :
      (events : List ExtractedEvent)
      → ((event_mentions u uuid_text calendar events ≡ none)
          × (events_overflow calendar events ≡ true))
        ⊎ ((mentions : List Mention) × (event_mentions u uuid_text calendar events ≡ some mentions))
  unfolding event_mentions
  event_mentions_cases [] = inr ([], refl)
  event_mentions_cases (e ∷ events) = elim (parse_instant-cases calendar e.occurred_at) [
    | inl (raised, late) ↦ inl (rw (raised, event_mentions) refl, rw late refl)
    | inr (t, read, fine) ↦ elim (event_mentions_cases events) [
      | inl (raised, late) ↦ inl (rw (read, raised, event_mentions) refl, ground (arith, late))
      | inr (mentions, done) ↦
          inr (
            event_mention u uuid_text calendar e t ∷ mentions,
            rw (read, done, event_mentions) refl,
          )
    ]
  ]

  -- The grouping of an extraction's mentions raises only where the date of an event overflows. In the
  -- groups that it makes, whatever the extraction mentions, two groups of one kind share no identifier,
  -- so an identifier names one entity of a kind.
  pub groups_of-AreApart :
      (trusted : List Text) (result : ExtractionResult)
      → ((groups_of u uuid_text calendar trusted result ≡ none)
          × (events_overflow calendar result.events ≡ true))
        ⊎ ((grouped : List Group × List Text) × (groups_of u uuid_text calendar trusted result
              ≡ some grouped)
            × AreApart grouped.0)
  unfolding groups_of mentions_of
  groups_of-AreApart trusted result = elim (event_mentions_cases result.events) [
    | inl (raised, late) ↦ inl (rw (raised, groups_of, mentions_of) refl, late)
    | inr (mentions, done) ↦
        let all = map (entity_mention u uuid_text calendar trusted) result.entities ++ mentions in
        inr (
          take_mentions u uuid_text calendar all ([], []),
          rw (done, groups_of, mentions_of) refl,
          take_mentions-AreApart all ([], []) tt,
        )
  ]

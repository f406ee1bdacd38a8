-- ===== src/Directory/Trusted.antt =====
-- Which identifiers of the directory's namespace an entity has after the canonicalization.
use maeglagi.Base.{
  ℕ, ◌≡◌, refl, ap, ◌∙◌, sym, subst, map-append, if_ind, ◌⊎◌, inl, inr, Bool, true, false, not,
  ◌||◌, Option, none, some, List, [], ◌∷◌, ◌++◌, map, arith, ◌==◌, nat_eq, pair_eq, list_eq, any,
  contains, select, All, All-select, All-imp, All-append, All-selected, contains-append, Bool-cases,
  ==-refl,
}
use maeglagi.Base.Text.{Text}
use maeglagi.Extraction.{EntityKind, ExtractedEntity, ExtractedEvent, ExtractionResult, Unicode}
use maeglagi.Sources.{Snapshot}
use maeglagi.Directory.{
  Entry, people_of, projects_of, put_entry, by_ids, Attached, untouched, identifiers_of,
  is_reserved, without_reserved, directory_id, people_named, projects_named, entries_named,
  email_matches, at_most_one, choose, candidates, attach_to, attach, canonicalize,
  is_directory_kind, is_person_kind, quoted, labelled, settle,
}

module _ (P : Entry → Type 0) where
  put_entry-All : (c : Entry) (found : List Entry) → P c → All P found → All P (put_entry c found)
  unfolding put_entry
  put_entry-All c [] h a = (h, tt)
  put_entry-All c (x ∷ found) h a = elim (Bool-cases (x.id == c.id)) [
    | inl same ↦ rw (same, put_entry) (h, a.1)
    | inr other ↦ rw (other, put_entry) (a.0, put_entry-All c found h a.1)
  ]

  by_ids-All :
      (entries found : List Entry) → All P entries → All P found → All P (by_ids entries found)
  unfolding by_ids
  by_ids-All [] found a b = b
  by_ids-All (c ∷ entries) found a b =
      by_ids-All entries (put_entry c found) a.1 (put_entry-All c found a.0 b)

  at_most_one-All : (found : List Entry) → All P found → All P (at_most_one found)
  at_most_one-All [] a = tt
  at_most_one-All (c ∷ []) a = a
  at_most_one-All (c ∷ d ∷ found) a = tt

  choose-All :
      (person : Bool) (by_email named : List Entry)
      → All P by_email
      → All P named
      → All P (choose person by_email named).0
  choose-All false by_email named a b = b
  choose-All true (c ∷ []) named a b = a
  choose-All true [] named a b = at_most_one-All named b
  choose-All true (c ∷ d ∷ cs) named a b = at_most_one-All named b

  candidates-All :
      (u : Unicode) (uuid_text : ℕ → Text) (people projects : List Entry) (e : ExtractedEntity)
      → All P people
      → All P projects
      → All P (candidates u uuid_text people projects e).0
  unfolding candidates people_named projects_named
  candidates-All u uuid_text people projects e a b =
      choose-All (is_person_kind e.kind) (by_ids (select (email_matches u uuid_text e) people) [])
        (by_ids (entries_named u uuid_text people projects e.kind e.name) [])
        (by_ids-All (select (email_matches u uuid_text e) people) [] (All-select P _ people a) tt)
        (by_ids-All (entries_named u uuid_text people projects e.kind e.name) []
          (if_ind (All P) (is_person_kind e.kind) (All-select P _ people a)
            (All-select P _ projects b))
          tt)

abbrev pub Listed : List Entry → Entry → Type 0
Listed entries c = contains c.id (map (λ (x : Entry). x.id) entries) ≡ true

abbrev pub ids : List Entry → List ℕ
ids entries = map (λ (x : Entry). x.id) entries

Listed-of :
    (entries xs : List Entry)
    → ((k : ℕ) → contains k (ids xs) ≡ true → contains k (ids entries) ≡ true)
    → All (Listed entries) xs
Listed-of entries [] wider = tt
Listed-of entries (x ∷ xs) wider = (
  wider x.id (rw (==-refl x.id) refl),
  Listed-of entries xs (λ k known. wider k (rw known (ground arith))),
)

Listed-left : (people projects : List Entry) → All (Listed (people ++ projects)) people
Listed-left people projects = Listed-of (people ++ projects) people (λ k known.
    rw
      (
        map-append (λ (x : Entry). x.id) people projects,
        contains-append k (ids people) (ids projects),
        known,
      )
      refl)

Listed-right : (people projects : List Entry) → All (Listed (people ++ projects)) projects
Listed-right people projects = Listed-of (people ++ projects) projects (λ k known.
    rw
      (
        map-append (λ (x : Entry). x.id) people projects,
        contains-append k (ids people) (ids projects),
        known,
      )
      (ground arith))

identifiers_of-cons :
    (a : Attached) (rows : List Attached)
    → identifiers_of (a ∷ rows) ≡ identifiers_of (a ∷ []) ++ identifiers_of rows
unfolding identifiers_of
identifiers_of-cons a rows = ground arith

contains-identifiers_of :
    (a : Attached) (rows : List Attached) (v : Text)
    → contains v (identifiers_of (a ∷ rows))
      ≡ (contains v (identifiers_of (a ∷ [])) || contains v (identifiers_of rows))
contains-identifiers_of a rows v =
    ap (contains v) (identifiers_of-cons a rows)
    ∙ contains-append v (identifiers_of (a ∷ [])) (identifiers_of rows)

module _ (u : Unicode) (uuid_text : ℕ → Text) where
  -- A reserved identifier is one of `trusted`.
  abbrev pub Trusts : List Text → ExtractedEntity → Type 0
  Trusts trusted e =
      All (λ v. (is_reserved u uuid_text v ≡ false) ⊎ (contains v trusted ≡ true)) e.identifiers

  without_reserved-Trusts : (e : ExtractedEntity) → Trusts [] (without_reserved u uuid_text e)
  without_reserved-Trusts e =
      All-imp (λ v. not (is_reserved u uuid_text v) ≡ true)
        (λ v. (is_reserved u uuid_text v ≡ false) ⊎ (contains v [] ≡ true))
        (λ v h. inl (ground arith)) (select (λ v. not (is_reserved u uuid_text v)) e.identifiers)
        (All-selected (λ v. not (is_reserved u uuid_text v)) e.identifiers)

  Trusts-mono :
      (trusted more : List Text) (e : ExtractedEntity)
      → ((v : Text) → contains v trusted ≡ true → contains v more ≡ true)
      → Trusts trusted e
      → Trusts more e
  Trusts-mono trusted more e wider a =
      All-imp (λ v. (is_reserved u uuid_text v ≡ false) ⊎ (contains v trusted ≡ true))
        (λ v. (is_reserved u uuid_text v ≡ false) ⊎ (contains v more ≡ true))
        (λ v h. elim h [ inl free ↦ inl free | inr known ↦ inr (wider v known) ]) e.identifiers a

  -- The identifier of a listed person or project.
  abbrev pub IsDirectoryId : List Entry → Text → Type 0
  IsDirectoryId entries i =
      (kind : EntityKind) × (c : Entry) × Listed entries c
      × (i ≡ directory_id u uuid_text kind c.id)

  -- What the loop leaves of one entity.
  pub record Attaches (entries : List Entry) (a : Attached) : Type 0 where
    pub trusts : Trusts (identifiers_of (a ∷ [])) a.entity
    pub known : All (IsDirectoryId entries) (identifiers_of (a ∷ []))

  untouched-Attaches :
      (entries : List Entry) (e : ExtractedEntity) → Trusts [] e → Attaches entries (untouched e)
  unfolding identifiers_of
  untouched-Attaches entries e h = record { trusts = h; known = tt }

  attach_to-Attaches :
      (entries : List Entry) (e : ExtractedEntity) (c : Entry)
      → Listed entries c
      → Trusts [] e
      → Attaches entries (attach_to u uuid_text e c)
  unfolding identifiers_of
  attach_to-Attaches entries e c listed h =
      let i = directory_id u uuid_text e.kind c.id in
      let kept = Trusts-mono [] (i ∷ []) e (λ v none_known. cc) h in
      let P : Text → Type 0 =
        λ v. (is_reserved u uuid_text v ≡ false) ⊎ (contains v (i ∷ []) ≡ true) in
      let own : contains i (i ∷ []) ≡ true = rw (==-refl i) refl in
      record {
        trusts =
            if_ind (All P) (contains i e.identifiers) kept
              (All-append P e.identifiers (i ∷ []) kept (inr own, tt));
        known = ((e.kind, c, listed, refl), tt);
      }

  settle-Attaches :
      (entries : List Entry) (source_text : Text) (e : ExtractedEntity) (found : List Entry)
      (by_email : Bool)
      → All (Listed entries) found
      → Trusts [] e
      → Attaches entries (settle u uuid_text source_text e found by_email)
  unfolding settle
  settle-Attaches entries source_text e [] by_email a h = untouched-Attaches entries e h
  settle-Attaches entries source_text e (c ∷ []) by_email a h =
      if_ind (Attaches entries) (by_email || labelled u uuid_text source_text e.source_refs c)
        (attach_to-Attaches entries e c a.0 h) (untouched-Attaches entries e h)
  settle-Attaches entries source_text e (c ∷ d ∷ cs) by_email a h = untouched-Attaches entries e h

  attach-Attaches :
      (people projects : List Entry) (event_names : List Text) (source_text : Text)
      (e : ExtractedEntity)
      → Trusts [] e
      → Attaches (people ++ projects) (attach u uuid_text people projects event_names source_text e)
  unfolding attach
  attach-Attaches people projects event_names source_text e h =
      let entries = people ++ projects in
      if_ind (Attaches entries)
        (not (is_directory_kind e.kind)
          || contains e.name event_names
          || not (any (quoted u uuid_text source_text) e.source_refs))
        (untouched-Attaches entries e h)
        (settle-Attaches entries source_text e (candidates u uuid_text people projects e).0
          (candidates u uuid_text people projects e).1
          (candidates-All (Listed entries) u uuid_text people projects e
            (Listed-left people projects) (Listed-right people projects))
          h)

  -- The rows of the loop, and what a wider list of identifiers makes of them.
  rows-Trusts :
      (entries : List Entry) (rows : List Attached) (trusted : List Text)
      → ((v : Text) → contains v (identifiers_of rows) ≡ true → contains v trusted ≡ true)
      → All (Attaches entries) rows
      → All (Trusts trusted) (map (λ (a : Attached). a.entity) rows)
  rows-Trusts entries [] trusted wider h = tt
  rows-Trusts entries (a ∷ rows) trusted wider h = (
    Trusts-mono (identifiers_of (a ∷ [])) trusted a.entity
        (λ v own. wider v (contains-identifiers_of a rows v ∙ rw own refl)) h.0.trusts,
    rows-Trusts entries rows trusted
        (λ v known. wider v (contains-identifiers_of a rows v ∙ rw known (ground arith))) h.1,
  )

  rows-IsDirectoryId :
      (entries : List Entry) (rows : List Attached)
      → All (Attaches entries) rows
      → All (IsDirectoryId entries) (identifiers_of rows)
  unfolding identifiers_of
  rows-IsDirectoryId entries [] h = tt
  rows-IsDirectoryId entries (a ∷ rows) h =
      subst (All (IsDirectoryId entries)) (sym (identifiers_of-cons a rows)) (
        All-append (IsDirectoryId entries) (identifiers_of (a ∷ [])) (identifiers_of rows) h.0.known
          (rows-IsDirectoryId entries rows h.1))

  attach-All :
      (people projects : List Entry) (event_names : List Text) (source_text : Text)
      (entities : List ExtractedEntity)
      → All (Attaches (people ++ projects)) (
          map
            (attach u uuid_text people projects event_names source_text)
            (map (without_reserved u uuid_text) entities))
  attach-All people projects event_names source_text [] = tt
  attach-All people projects event_names source_text (e ∷ entities) = (
    attach-Attaches people projects event_names source_text (without_reserved u uuid_text e)
        (without_reserved-Trusts e),
    attach-All people projects event_names source_text entities,
  )

  without_reserved-All :
      (entities : List ExtractedEntity)
      → All (Trusts []) (map (without_reserved u uuid_text) entities)
  without_reserved-All [] = tt
  without_reserved-All (e ∷ entities) = (without_reserved-Trusts e, without_reserved-All entities)

  abbrev pub entries_of : Option Snapshot → List Entry
  entries_of none = []
  entries_of (some snapshot) = people_of snapshot ++ projects_of snapshot

  -- After the canonicalization every identifier in the namespace of the directory is a trusted one,
  -- whatever the extraction claimed, and every trusted one is the id of a person or a project of the
  -- snapshot.
  pub canonicalize-trusted :
      (result : ExtractionResult) (snapshot : Option Snapshot) (source_text : Text)
      → All
          (Trusts (canonicalize u uuid_text result snapshot source_text).1)
          (canonicalize u uuid_text result snapshot source_text).0.entities
        × All
            (IsDirectoryId (entries_of snapshot))
            (canonicalize u uuid_text result snapshot source_text).1
  unfolding canonicalize
  canonicalize-trusted result none source_text = (without_reserved-All result.entities, tt)
  canonicalize-trusted result (some snapshot) source_text =
      let entries = people_of snapshot ++ projects_of snapshot in
      let attached =
        attach-All (people_of snapshot) (projects_of snapshot)
          (map (λ (e : ExtractedEvent). e.name) result.events) source_text result.entities in
      (rows-Trusts entries _ _ (λ v known. known) attached, rows-IsDirectoryId entries _ attached)

-- ===== src/Validation/Accepted.antt =====
-- What an accepted extraction has: a quote from the text behind each item, names that resolve, and
-- an event for each structured context.
use mathlib.Core.List.{append-nil, append_assoc}
use maeglagi.Base.{
  ℕ, ◌≤◌, ◌≡◌, ◌↔◌, refl, sym, ap, subst, ◌∙◌, inl, inr, Bool, true, false, not, ◌&&◌, ◌||◌, none,
  some, List, [], ◌∷◌, ◌++◌, map, arith, nat_eq, pair_eq, list_eq, contains, contains-append,
  map-append, All, all, Bool-cases, Option-cases, ==-refl,
}
use maeglagi.Base.Text.{Text, is_empty}
use maeglagi.Extraction.{
  EntityKind, ExtractedEvent, ExtractedContext, ExtractionResult, Unicode, normalize_name,
  entity_eq,
}
use maeglagi.Validation.{
  accepted, Item, context_event_kind, items_of, event_key, event_of, promote_one, promote_all,
  promote_structured_contexts, is_grounded, fits, item_fault, identifier_is_grounded,
  endpoint_is_unique, known_names, supersession_is_known, oversized, fault, validate_extraction,
}

module _ (u : Unicode) where
  -- The context has an event of its kind and key, unless its kind has none or its key is empty.
  abbrev pub HasEvent : List ExtractedEvent → ExtractedContext → Type 0
  HasEvent events c =
      (kind : EntityKind)
      → context_event_kind c.kind ≡ some kind
      → is_empty (normalize_name u c.title kind) ≡ false
      → contains (kind, normalize_name u c.title kind) (map (event_key u) events) ≡ true

  pub record Promotes (before after : List ExtractedEvent) (contexts : List ExtractedContext)
      : Type 0 where
    pub covered : All (HasEvent after) contexts
    pub added : List ExtractedEvent
    pub kept : after ≡ before ++ added

  promote_one-HasEvent :
      (events : List ExtractedEvent) (c : ExtractedContext) → HasEvent (promote_one u events c) c
  unfolding promote_one
  promote_one-HasEvent events c kind known full =
      let key : EntityKind × Text = (kind, normalize_name u c.title kind) in
      elim (Bool-cases (contains key (map (event_key u) events))) [
        | inl old ↦ rw (known, full, old, promote_one) old
        | inr new ↦
            rw
              (
                known,
                full,
                new,
                promote_one,
                map-append (event_key u) events (event_of u kind c ∷ []),
                contains-append key (map (event_key u) events) (key ∷ []),
                new,
                ==-refl key,
              )
              refl
      ]

  promote_one-appends :
      (events : List ExtractedEvent) (c : ExtractedContext)
      → (added : List ExtractedEvent) × (promote_one u events c ≡ events ++ added)
  unfolding promote_one
  promote_one-appends events c = elim (Option-cases (context_event_kind c.kind)) [
    | inl out ↦ ([], rw (out, promote_one) (sym (append-nil events)))
    | inr (kind, known) ↦
        let key : EntityKind × Text = (kind, normalize_name u c.title kind) in
        elim (Bool-cases (is_empty key.1 || contains key (map (event_key u) events))) [
          | inl old ↦ ([], rw (known, old, promote_one) (sym (append-nil events)))
          | inr new ↦ (event_of u kind c ∷ [], rw (known, new, promote_one) refl)
        ]
  ]

  promote_all-appends :
      (events : List ExtractedEvent) (contexts : List ExtractedContext)
      → (added : List ExtractedEvent) × (promote_all u events contexts ≡ events ++ added)
  unfolding promote_all
  promote_all-appends events [] = ([], sym (append-nil events))
  promote_all-appends events (c ∷ contexts) =
      let (one, p) = promote_one-appends events c in
      let (rest, q) = promote_all-appends (promote_one u events c) contexts in
      (one ++ rest, q ∙ ap (λ l. l ++ rest) p ∙ append_assoc events one rest)

  All-promote_all-HasEvent :
      (events : List ExtractedEvent) (contexts : List ExtractedContext)
      → All (HasEvent (promote_all u events contexts)) contexts
  unfolding promote_all
  All-promote_all-HasEvent events [] = tt
  All-promote_all-HasEvent events (c ∷ contexts) = (
    λ kind known full.
        let key : EntityKind × Text = (kind, normalize_name u c.title kind) in
        let (rest, q) = promote_all-appends (promote_one u events c) contexts in
        rw
          (
            q,
            map-append (event_key u) (promote_one u events c) rest,
            contains-append key (map (event_key u) (promote_one u events c))
                (map (event_key u) rest),
            promote_one-HasEvent events c kind known full,
          )
          refl,
    All-promote_all-HasEvent (promote_one u events c) contexts,
  )

  -- Promotion keeps the events, in their order, and gives each structured context with a key an event
  -- of its kind and key.
  pub promote_structured_contexts-Promotes :
      (result : ExtractionResult)
      → Promotes result.events (promote_structured_contexts u result).events result.contexts
  unfolding promote_structured_contexts
  promote_structured_contexts-Promotes result =
      let (added, e) = promote_all-appends result.events result.contexts in
      record {
        covered = All-promote_all-HasEvent result.events result.contexts;
        added = added;
        kept = e;
      }

  module _ (text : Text) (known_decisions : List Text) where
    -- Each item quotes the text, its fields are short enough, and the names resolve.
    pub record IsSound (r : ExtractionResult) : Type 0 where
      pub items : All (λ item. (is_grounded u text item ≡ true) × (fits u item ≡ true)) (items_of r)
      pub size : oversized u r ≡ false
      pub identifiers :
          all (λ e. all (identifier_is_grounded u text) e.identifiers) r.entities ≡ true
      pub endpoints :
          all
            (λ rel. endpoint_is_unique u r rel.source && endpoint_is_unique u r rel.target)
            r.relations
          ≡ true
      pub supersessions :
          all (supersession_is_known u (known_names u known_decisions r)) r.events ≡ true

    sound_items :
        (items : List Item)
        → item_fault u text items ≡ none
        → All (λ item. (is_grounded u text item ≡ true) × (fits u item ≡ true)) items
    unfolding item_fault
    sound_items [] h = tt
    sound_items (item ∷ items) h = ((ground arith, ground arith), sound_items items (ground arith))

    IsSound-without_fault :
        (r : ExtractionResult) → fault u text known_decisions r ≡ none → IsSound r
    unfolding fault
    IsSound-without_fault r h = record {
      items = sound_items (items_of r) (ground arith);
      size = ground arith;
      identifiers = ground arith;
      endpoints = ground arith;
      supersessions = ground arith;
    }

    -- An extraction is accepted only with its contexts promoted, and if it is sound.
    pub validate_extraction-IsSound :
        (size : ℕ) (raw : ExtractionResult) (wants_meeting is_meeting : Bool) {r : ExtractionResult}
        → validate_extraction u size (some raw) wants_meeting is_meeting text known_decisions
          ≡ accepted r
        → (r ≡ promote_structured_contexts u raw) × IsSound r
    unfolding validate_extraction
    validate_extraction-IsSound size raw wants_meeting is_meeting {r} h =
        elim (Option-cases (fault u text known_decisions (promote_structured_contexts u raw))) [
          | inr (e, faulty) ↦ absurd (ground arith)
          | inl sound ↦
              let same : r ≡ promote_structured_contexts u raw = ground arith in
              (same, subst IsSound (sym same) (IsSound-without_fault _ sound))
        ]

    faultless_items :
        (items : List Item)
        → All (λ item. (is_grounded u text item ≡ true) × (fits u item ≡ true)) items
        → item_fault u text items ≡ none
    unfolding item_fault
    faultless_items [] h = refl
    faultless_items (item ∷ items) h = ground (arith, h.0.0, h.0.1, faultless_items items h.1)

    faultless : (r : ExtractionResult) → IsSound r → fault u text known_decisions r ≡ none
    unfolding fault
    faultless r v = ground (
      arith,
      faultless_items (items_of r) v.items,
      v.size,
      v.identifiers,
      v.endpoints,
      v.supersessions,
    )

    -- An extraction that is not too large, has the classification of its source and is sound once its
    -- contexts are promoted is accepted, and no other one is.
    pub validate_extraction_lem :
        (size : ℕ) (raw : ExtractionResult) (wants_meeting is_meeting : Bool)
        → size ≤ 256000
        → (wants_meeting && not is_meeting) ≡ false
        → (validate_extraction u size (some raw) wants_meeting is_meeting text known_decisions
            ≡ accepted (promote_structured_contexts u raw))
          ↔ IsSound (promote_structured_contexts u raw)
    unfolding validate_extraction
    validate_extraction_lem size raw wants_meeting is_meeting small meeting = (
      λ h. (validate_extraction-IsSound size raw wants_meeting is_meeting h).1,
      λ v.
          rw (faultless (promote_structured_contexts u raw) v, meeting, validate_extraction)
            (ground arith),
    )

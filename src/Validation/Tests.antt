-- ===== src/Validation/Tests.antt =====
-- A decision that an agent gives as a context only.
use maeglagi.Base.{◌≡◌, ◌↔◌, refl, arith, none, some, true, [], ◌∷◌, length}
use maeglagi.Base.Text.{Text, codes, is_space, strip}
use maeglagi.Extraction.{ContextKind, ExtractionResult, Unicode, normalize_name}
use maeglagi.Store.Closing.{squash, starts_with, occurs_in}
use maeglagi.Validation.{accepted, items_of, promote_structured_contexts, validate_extraction}
use maeglagi.Validation.Accepted.{
  Promotes, promote_structured_contexts-Promotes, IsSound, validate_extraction_lem,
}

abbrev plain : Unicode
plain = record { nfkc = λ s. s; casefold = λ s. s }

abbrev proposed : ExtractionResult
proposed = record {
  entities = [];
  events = [];
  relations = [];
  contexts =
      record {
        kind = ContextKind.decision;
        title = codes "use B";
        body = codes "B it is";
        occurred_at = none;
        source_refs = codes "we use B" ∷ [];
      }
      ∷ [];
}

abbrev text : Text
text = codes "Today we use B."

one_event : length (promote_structured_contexts plain proposed).events ≡ 1
unfolding promote_structured_contexts normalize_name is_space
one_event = refl

promote_structured_contexts-Promotes_example :
    Promotes plain [] (promote_structured_contexts plain proposed).events proposed.contexts
promote_structured_contexts-Promotes_example = promote_structured_contexts-Promotes plain proposed

validate_extraction_lem_example :
    (validate_extraction plain 400 (some proposed) true true text []
      ≡ accepted (promote_structured_contexts plain proposed))
    ↔ IsSound plain text [] (promote_structured_contexts plain proposed)
validate_extraction_lem_example =
    validate_extraction_lem plain text [] 400 proposed true true (omega arith) refl

proposed_is_accepted :
    validate_extraction plain 400 (some proposed) true true text []
    ≡ accepted (promote_structured_contexts plain proposed)
unfolding validate_extraction promote_structured_contexts normalize_name is_space strip items_of
    occurs_in starts_with squash
proposed_is_accepted = refl

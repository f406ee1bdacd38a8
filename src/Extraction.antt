-- ===== src/Extraction.antt =====
-- What is read out of a source: the kinds of
-- backend/app/modules/context_engine/domain/ontology.py and the records of domain/extraction.py,
-- and `normalize_name` of application/entity_resolution.py, by which names are compared. The
-- Unicode tables behind `unicodedata.normalize` and `str.casefold` are a parameter.
pub mod Names
mod Tests
use maeglagi.Base.{
  ℕ, suc, ◌+◌, ◌-◌, ◌≡◌, ◌↔◌, Equality, Bool, true, false, not, ◌&&◌, ◌||◌, Option, none, some,
  List, [], ◌∷◌, nat_beq, nat_eq, ◌==◌, list_eq, ltb, length, take, drop, select, if◌then◌else◌,
  arith,
}
use maeglagi.Base.Text.{Text, codes, is_space}

pub data EntityKind : Type 0 where
  person project organization meeting document issue task decision event technology : EntityKind

pub data RelationKind : Type 0 where
  works_on participated_in mentioned_in created assigned_to related_to decided_in resulted_in
        blocked_by due_on :
      RelationKind

pub data ContextKind : Type 0 where
  event decision task issue fact summary : ContextKind

pub record ExtractedEntity : Type 0 where
  pub name : Text
  pub kind : EntityKind
  pub aliases : List Text
  pub identifiers : List Text
  pub source_refs : List Text

pub record ExtractedEvent : Type 0 where
  pub name : Text
  pub kind : EntityKind
  pub description : Text
  pub occurred_at : Option Text
  pub due_at : Option Text
  pub supersedes : Option Text
  pub source_refs : List Text

pub record ExtractedRelation : Type 0 where
  pub source : Text
  pub target : Text
  pub kind : RelationKind
  pub valid_from : Option Text
  pub valid_to : Option Text
  pub source_refs : List Text

pub record ExtractedContext : Type 0 where
  pub kind : ContextKind
  pub title : Text
  pub body : Text
  pub occurred_at : Option Text
  pub source_refs : List Text

-- The classification, the warnings and the usage are not read by what is modelled.
pub record ExtractionResult : Type 0 where
  pub entities : List ExtractedEntity
  pub events : List ExtractedEvent
  pub relations : List ExtractedRelation
  pub contexts : List ExtractedContext

abbrev pub entity_rank : EntityKind → ℕ
entity_rank EntityKind.person = 0
entity_rank EntityKind.project = 1
entity_rank EntityKind.organization = 2
entity_rank EntityKind.meeting = 3
entity_rank EntityKind.document = 4
entity_rank EntityKind.issue = 5
entity_rank EntityKind.task = 6
entity_rank EntityKind.decision = 7
entity_rank EntityKind.event = 8
entity_rank EntityKind.technology = 9

pub entity_rank_iff :
    (a b : EntityKind) → (nat_beq (entity_rank a) (entity_rank b) ≡ true) ↔ (a ≡ b)
entity_rank_iff a b = ground arith

instance abbrev pub entity_eq : Equality EntityKind
entity_eq = record {
  same = λ a b. nat_beq (entity_rank a) (entity_rank b);
  same_iff = entity_rank_iff;
}

abbrev pub context_rank : ContextKind → ℕ
context_rank ContextKind.event = 0
context_rank ContextKind.decision = 1
context_rank ContextKind.task = 2
context_rank ContextKind.issue = 3
context_rank ContextKind.fact = 4
context_rank ContextKind.summary = 5

pub context_rank_iff :
    (a b : ContextKind) → (nat_beq (context_rank a) (context_rank b) ≡ true) ↔ (a ≡ b)
context_rank_iff a b = ground arith

instance abbrev pub context_eq : Equality ContextKind
context_eq = record {
  same = λ a b. nat_beq (context_rank a) (context_rank b);
  same_iff = context_rank_iff;
}

-- `unicodedata.normalize("NFKC", s)` and `s.casefold()`
pub record Unicode : Type 0 where
  pub nfkc : Text → Text
  pub casefold : Text → Text

-- `[\s·.,_\-]`
abbrev pub is_separator : ℕ → Bool
is_separator c = is_space c || c == 183 || c == 46 || c == 44 || c == 95 || c == 45

-- `_SEPARATORS.sub("", s)`
pub without_separators : Text → Text
without_separators s = select (λ c. not (is_separator c)) s

pub ends_with : Text → Text → Bool
ends_with suffix s = drop (length s - length suffix) s == suffix

abbrev pub person_honorifics : List Text
person_honorifics = codes "님" ∷ codes "씨" ∷ []

-- The first honorific that ends the name and leaves more than one character is dropped.
pub without_honorific : List Text → Text → Text
unfolding ends_with
without_honorific [] s = s
without_honorific (h ∷ honorifics) s =
    let rest = without_honorific honorifics s in
    if ends_with h s && ltb (length h + 1) (length s) then take (length s - length h) s else rest

unfoldable pub normalize_name : Unicode → Text → EntityKind → Text
unfolding without_separators without_honorific
normalize_name u name kind =
    let text = without_separators (u.casefold (u.nfkc name)) in
    if kind == EntityKind.person then without_honorific person_honorifics text else text

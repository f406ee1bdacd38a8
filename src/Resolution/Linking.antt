-- ===== src/Resolution/Linking.antt =====
-- `_link_supersessions` of backend/app/modules/context_engine/application/entity_resolution.py.
use maeglagi.Base.{
  ℕ, not, ◌||◌, Option, none, some, List, [], ◌∷◌, ◌++◌, ◌==◌, nat_eq, list_eq, option_eq, any,
  contains, if◌then◌else◌,
}
use maeglagi.Base.Text.{Text, codes}
use maeglagi.Extraction.{EntityKind, ExtractedEvent, Unicode, normalize_name, entity_eq}
use maeglagi.Store.{given}
use maeglagi.Resolution.Entities.{GraphEntity, Supersession, Known, found_ids}

-- The row of an id that `by_id` has, which is the last one, is changed.
pub change_last : ℕ → (GraphEntity → GraphEntity) → List GraphEntity → List GraphEntity
change_last id f [] = []
change_last id f (e ∷ entities) =
    let rest = change_last id f entities in
    if any (λ (x : GraphEntity). x.id == id) entities
    then e ∷ rest
    else if e.id == id
    then f e ∷ entities
    else e ∷ entities

pub last_with : ℕ → List GraphEntity → Option GraphEntity
last_with id [] = none
last_with id (e ∷ entities) = elim (last_with id entities) [
  | some x ↦ some x
  | none ↦ if e.id == id then some e else none
]

-- The state of the loop over the events.
pub record Linking : Type 0 where
  pub entities : List GraphEntity
  pub warnings : List Text
  pub pending : List Supersession

abbrev pub warned : Text → Text → Linking → Linking
warned text name l = record l { warnings = l.warnings ++ (text ++ name) ∷ [] }

module _ (u : Unicode) where
  -- The entities of a decision's name.
  pub decisions : List Known → Text → List ℕ
  decisions lookup name =
      found_ids EntityKind.decision (normalize_name u name EntityKind.decision) lookup []

  -- The one earlier decision is marked, unless another one has replaced it.
  pub mark : ℕ → ℕ → Text → Linking → Linking
  unfolding change_last last_with
  mark new_id old_id old_name l = elim (last_with old_id l.entities) [
    | none ↦ l
    | some e ↦
        if e.superseded_by == none || e.superseded_by == some new_id
        then record l {
          entities = change_last old_id (λ x. record x { superseded_by = some new_id }) l.entities;
        }
        else warned (codes "이미 다른 결정으로 대체된 결정입니다: ") old_name l
  ]

  pub link_to : ℕ → Text → Text → List ℕ → Linking → Linking
  unfolding mark
  link_to new_id name old_name olds l =
      if contains new_id olds then warned (codes "결정이 자기 자신을 대체할 수 없습니다: ") name l else elim olds [
        | [] ↦ record l {
          pending =
              l.pending
              ++ record {
                new_id = new_id;
                old_name = old_name;
                old_keys = normalize_name u old_name EntityKind.decision ∷ [];
              }
                ∷ [];
        }
        | old ∷ [] ↦ mark new_id old old_name l
        | old ∷ older ∷ oldest ↦ warned (codes "대체되는 결정이 모호해 연결하지 않았습니다: ") old_name l
      ]

  pub link_event : List Known → ExtractedEvent → Linking → Linking
  unfolding link_to decisions
  link_event lookup e l = elim (given e.supersedes) [
    | none ↦ l
    | some old_name ↦
        if not (e.kind == EntityKind.decision) then l else elim (decisions lookup e.name) [
          | new ∷ [] ↦ link_to new e.name old_name (decisions lookup old_name) l
          | [] ↦ warned (codes "대체하는 결정을 특정할 수 없어 연결하지 않았습니다: ") e.name l
          | new ∷ newer ∷ newest ↦ warned (codes "대체하는 결정을 특정할 수 없어 연결하지 않았습니다: ") e.name l
        ]
  ]

  unfoldable pub link_supersessions : List Known → List ExtractedEvent → Linking → Linking
  unfolding link_event
  link_supersessions lookup [] l = l
  link_supersessions lookup (e ∷ events) l =
      link_supersessions lookup events (link_event lookup e l)

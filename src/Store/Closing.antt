-- ===== src/Store/Closing.antt =====
-- Closing issues and actions with proof: `_grounded` and `_close` of context_store.py and `squash` of
-- backend/app/modules/context_engine/application/analysis.py.
pub mod Exact
use maeglagi.Base.{
  ℕ, ◌≡◌, ◌↔◌, refl, Equality, Bool, true, false, not, ◌&&◌, ◌||◌, Option, none, some, List, [],
  ◌∷◌, ◌++◌, arith, ◌==◌, list_eq, list_beq_iff, nat_eq, option_eq, option_beq_iff, if◌then◌else◌,
  select, all,
}
use maeglagi.Base.Text.{Text, codes, is_space, is_empty, strip}
use maeglagi.Extraction.{EntityKind, Unicode}
use maeglagi.Store.{StoreItem, StoreAction, item_key}
use maeglagi.Store.Items.{item_at}

-- `re.sub(r"\s+", "", text)`
unfoldable pub squash : Text → Text
squash text = select (λ c. not (is_space c)) text

-- `text.startswith(part)` and `part in text`
unfoldable pub starts_with : Text → Text → Bool
starts_with [] text = true
starts_with (c ∷ part) [] = false
starts_with (c ∷ part) (d ∷ text) = c == d && starts_with part text

unfoldable pub occurs_in : Text → Text → Bool
unfolding starts_with
occurs_in part [] = starts_with part []
occurs_in part (d ∷ text) = starts_with part (d ∷ text) || occurs_in part text

pub record Resolution : Type 0 where
  pub title : Text
  pub source_refs : List Text

abbrev pub is_nil : List Text → Bool
is_nil [] = true
is_nil (r ∷ refs) = false

unfoldable pub grounded : Resolution → Text → Bool
unfolding squash occurs_in
grounded resolution text =
    let refs = select (λ ref. not (is_empty (strip ref))) resolution.source_refs in
    not (is_nil refs) && all (λ ref. occurs_in (squash ref) (squash text)) refs

-- The warnings of `_close`, with the name of what was to be done.
pub not_found : Text → Text → Text
not_found label title = label ++ codes " 처리할 항목을 찾지 못했습니다: " ++ title

pub not_grounded : Text → Text → Text
not_grounded label title = codes "근거가 원문에 없어 " ++ label ++ codes " 처리를 무시했습니다: " ++ title

module _ {A : Type 0} ⦃e : Equality A⦄ where
  -- `items.remove(target)`, of an item that is there
  pub remove : A → List A → List A
  remove target [] = []
  remove target (item ∷ items) = if item == target then items else item ∷ remove target items

module _ (u : Unicode) {A : Type 0} ⦃e : Equality A⦄ (title : A → Text) (kind : EntityKind)
    (text label : Text) where
  abbrev pub title_key : A → Text
  title_key item = item_key u (title item) kind

  -- The body of the loop of `_close`: what remains, and the warnings so far.
  pub close_one : List A × List Text → Resolution → List A × List Text
  unfolding remove not_found not_grounded
  close_one (remaining, warnings) resolution =
      elim (item_at title_key (item_key u resolution.title kind) remaining) [
        | none ↦ (remaining, warnings ++ not_found label resolution.title ∷ [])
        | some target ↦
            if not (grounded resolution text)
            then (remaining, warnings ++ not_grounded label resolution.title ∷ [])
            else (remove target remaining, warnings)
      ]

  pub close_all : List A × List Text → List Resolution → List A × List Text
  unfolding close_one
  close_all state [] = state
  close_all state (resolution ∷ resolutions) = close_all (close_one state resolution) resolutions

  unfoldable pub close : List A → List Resolution → List A × List Text
  unfolding close_all
  close items resolutions = close_all (items, []) resolutions

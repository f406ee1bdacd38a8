-- ===== src/Extraction/Names.antt =====
-- The keys that `normalize_name` makes.
use maeglagi.Base.{
  ℕ, ◌+◌, ◌≡◌, false, true, not, List, [], ◌∷◌, arith, length, All, All-take, All-imp,
  All-select_test, ltb, if_ind, ◌==◌, ◌&&◌,
}
use maeglagi.Base.Text.{Text}
use maeglagi.Extraction.{
  EntityKind, Unicode, is_separator, without_separators, without_honorific, ends_with,
  person_honorifics, normalize_name, entity_eq,
}

all_of : {P : ℕ → Type 0} → ((c : ℕ) → P c) → (s : Text) → All P s
all_of f [] = tt
all_of f (c ∷ s) = (f c, all_of f s)

no_separator_kept : (s : Text) → All (λ c. is_separator c ≡ false) (without_separators s)
unfolding without_separators
no_separator_kept s =
    All-imp (λ c. Unit × (not (is_separator c) ≡ true)) (λ c. is_separator c ≡ false)
      (λ c h. ground arith) _
      (All-select_test (λ c. Unit) (λ c. not (is_separator c)) s (all_of (λ c. tt) s))

All-without_honorific :
    (P : ℕ → Type 0) (honorifics : List Text) (s : Text)
    → All P s
    → All P (without_honorific honorifics s)
unfolding without_honorific
All-without_honorific P [] s a = a
All-without_honorific P (h ∷ honorifics) s a =
    if_ind (All P) (ends_with h s && ltb (length h + 1) (length s)) (All-take P _ s a)
      (All-without_honorific P honorifics s a)

-- No separator is left in a key.
no_separator :
    (u : Unicode) (name : Text) (kind : EntityKind)
    → All (λ c. is_separator c ≡ false) (normalize_name u name kind)
unfolding normalize_name
no_separator u name kind =
    let kept = no_separator_kept (u.casefold (u.nfkc name)) in
    if_ind (All (λ c. is_separator c ≡ false)) (kind == EntityKind.person)
      (All-without_honorific _ person_honorifics _ kept) kept

-- ===== src/Temporal/Known.antt =====
-- What the sources say of a relation is kept: a known start or end is neither lost nor
-- invented.
use maeglagi.Base.{
  ℕ, ◌≤◌, ◌≡◌, refl, sym, subst, ◌⊎◌, inl, inr, min, max, leb, Option, none, some, List, [], ◌∷◌,
  map, arith, if_ind, All, All-imp, All-zip, Bool-cases,
}
use maeglagi.Base.Sort.{sort, sort-All, All-sort}
use maeglagi.Temporal.{
  Interval, overlaps, known_min, known_max, merge, starts_before, fold_in, fold_all, normalize,
}

-- A known start of `i` is not before the start of `r`, and a known end not after its end; both are
-- then known of `r` too.
abbrev pub ReachesBack : Option ℕ → Option ℕ → Type 0
ReachesBack none _ = Unit
ReachesBack (some a) none = ⊥
ReachesBack (some a) (some b) = b ≤ a

abbrev pub ReachesOn : Option ℕ → Option ℕ → Type 0
ReachesOn none _ = Unit
ReachesOn (some a) none = ⊥
ReachesOn (some a) (some b) = a ≤ b

abbrev pub Covers : Interval → Interval → Type 0
Covers r i = ReachesBack i.valid_from r.valid_from × ReachesOn i.valid_to r.valid_to

-- One of the intervals of the result covers `i`.
abbrev pub Covered : List Interval → Interval → Type 0
Covered [] i = ⊥
Covered (r ∷ result) i = Covers r i ⊎ Covered result i

Covers-refl : (i : Interval) → Covers i i
Covers-refl i = ground arith

merge-Covers_left : (a b i : Interval) → Covers a i → Covers (merge a b) i
unfolding merge
merge-Covers_left a b i h = ground arith

merge-Covers_right : (a b : Interval) → Covers (merge a b) b
unfolding merge
merge-Covers_right a b = ground arith

fold_in-Covered_old :
    (result : List Interval) (j i : Interval) → Covered result i → Covered (fold_in result j) i
unfolding fold_in
fold_in-Covered_old [] j i h = absurd h
fold_in-Covered_old (a ∷ []) j i (inl h) =
    if_ind (λ r. Covered r i) (overlaps a j) (inl (merge-Covers_left a j i h)) (inl h)
fold_in-Covered_old (a ∷ []) j i (inr h) = absurd h
fold_in-Covered_old (a ∷ b ∷ l) j i (inl h) = inl h
fold_in-Covered_old (a ∷ b ∷ l) j i (inr h) = inr (fold_in-Covered_old (b ∷ l) j i h)

fold_in-Covered_new : (result : List Interval) (j : Interval) → Covered (fold_in result j) j
unfolding fold_in
fold_in-Covered_new [] j = inl (Covers-refl j)
fold_in-Covered_new (a ∷ []) j =
    if_ind (λ r. Covered r j) (overlaps a j) (inl (merge-Covers_right a j))
      (inr (inl (Covers-refl j)))
fold_in-Covered_new (a ∷ b ∷ l) j = inr (fold_in-Covered_new (b ∷ l) j)

fold_all-Covered_old :
    (result l : List Interval) (i : Interval) → Covered result i → Covered (fold_all result l) i
unfolding fold_all
fold_all-Covered_old result [] i h = h
fold_all-Covered_old result (j ∷ l) i h =
    fold_all-Covered_old (fold_in result j) l i (fold_in-Covered_old result j i h)

fold_all-Covered : (result l : List Interval) → All (Covered (fold_all result l)) l
unfolding fold_all
fold_all-Covered result [] = tt
fold_all-Covered result (j ∷ l) = (
  fold_all-Covered_old (fold_in result j) l j (fold_in-Covered_new result j),
  fold_all-Covered (fold_in result j) l,
)

-- One of the values of the list.
abbrev pub Among : ℕ → List (Option ℕ) → Type 0
Among a [] = ⊥
Among a (v ∷ values) = (v ≡ some a) ⊎ Among a values

-- A known value is one of the list.
abbrev pub Stated : List (Option ℕ) → Option ℕ → Type 0
Stated values none = Unit
Stated values (some a) = Among a values

abbrev pub starts : List Interval → List (Option ℕ)
starts intervals = map (λ (i : Interval). i.valid_from) intervals

abbrev pub ends : List Interval → List (Option ℕ)
ends intervals = map (λ (i : Interval). i.valid_to) intervals

-- The known start and the known end of `r` are a start and an end of the intervals.
abbrev pub Stems : List Interval → Interval → Type 0
Stems intervals r = Stated (starts intervals) r.valid_from × Stated (ends intervals) r.valid_to

Stated-all : (values : List (Option ℕ)) → All (Stated values) values
Stated-all [] = tt
Stated-all (v ∷ values) = (
  first v,
  All-imp (Stated values) (Stated (v ∷ values)) (λ w s. later w s) values (Stated-all values),
)
  where
    first : (w : Option ℕ) → Stated (w ∷ values) w
    first none = tt
    first (some a) = inl refl

    later : (w : Option ℕ) → Stated values w → Stated (v ∷ values) w
    later none s = tt
    later (some a) s = inr s

All-of_map :
    (P : Option ℕ → Type 0) (f : Interval → Option ℕ) (l : List Interval)
    → All P (map f l)
    → All (λ i. P (f i)) l
All-of_map P f [] a = tt
All-of_map P f (i ∷ l) a = (a.0, All-of_map P f l a.1)

Stems-all : (intervals : List Interval) → All (Stems intervals) intervals
Stems-all intervals =
    All-zip _ _ (Stems intervals) (λ i s e. (s, e)) intervals
      (All-of_map (Stated (starts intervals)) (λ i. i.valid_from) intervals
        (Stated-all (starts intervals)))
      (All-of_map (Stated (ends intervals)) (λ i. i.valid_to) intervals
        (Stated-all (ends intervals)))

min-either : (a b : ℕ) → (min a b ≡ a) ⊎ (min a b ≡ b)
min-either a b = elim (Bool-cases (leb a b)) [
  | inl le ↦ inl (ground (arith, le))
  | inr gt ↦ inr (ground (arith, gt))
]

max-either : (a b : ℕ) → (max a b ≡ a) ⊎ (max a b ≡ b)
max-either a b = elim (Bool-cases (leb a b)) [
  | inl le ↦ inr (ground (arith, le))
  | inr gt ↦ inl (ground (arith, gt))
]

module _ (intervals : List Interval) where
  min-Stated :
      (values : List (Option ℕ)) (a b : Option ℕ)
      → Stated values a
      → Stated values b
      → Stated values (known_min a b)
  min-Stated values none b s t = t
  min-Stated values (some a) none s t = s
  min-Stated values (some a) (some b) s t = elim (min-either a b) [
    | inl e ↦ subst (λ m. Among m values) (sym e) s
    | inr e ↦ subst (λ m. Among m values) (sym e) t
  ]

  max-Stated :
      (values : List (Option ℕ)) (a b : Option ℕ)
      → Stated values a
      → Stated values b
      → Stated values (known_max a b)
  max-Stated values none b s t = t
  max-Stated values (some a) none s t = s
  max-Stated values (some a) (some b) s t = elim (max-either a b) [
    | inl e ↦ subst (λ m. Among m values) (sym e) s
    | inr e ↦ subst (λ m. Among m values) (sym e) t
  ]

  merge-Stems :
      (a b : Interval) → Stems intervals a → Stems intervals b → Stems intervals (merge a b)
  unfolding merge
  merge-Stems a b s t = (
    min-Stated (starts intervals) a.valid_from b.valid_from s.0 t.0,
    max-Stated (ends intervals) a.valid_to b.valid_to s.1 t.1,
  )

  fold_in-Stems :
      (result : List Interval) (j : Interval)
      → All (Stems intervals) result
      → Stems intervals j
      → All (Stems intervals) (fold_in result j)
  unfolding fold_in
  fold_in-Stems [] j a s = (s, tt)
  fold_in-Stems (r ∷ []) j a s =
      if_ind (All (Stems intervals)) (overlaps r j) (merge-Stems r j a.0 s, tt) (a.0, (s, tt))
  fold_in-Stems (r ∷ q ∷ l) j a s = (a.0, fold_in-Stems (q ∷ l) j a.1 s)

  fold_all-Stems :
      (result l : List Interval)
      → All (Stems intervals) result
      → All (Stems intervals) l
      → All (Stems intervals) (fold_all result l)
  unfolding fold_all
  fold_all-Stems result [] a b = a
  fold_all-Stems result (j ∷ l) a b =
      fold_all-Stems (fold_in result j) l (fold_in-Stems result j a b.0) b.1

-- Every interval is covered by one of the normalized ones: its known start and its known end lie
-- within that one's, which then are known. A known start or end of a normalized interval is a start or
-- an end of one of the intervals.
pub normalize-Covered :
    (intervals : List Interval)
    → All (Covered (normalize intervals)) intervals × All (Stems intervals) (normalize intervals)
unfolding normalize
normalize-Covered intervals = (
  All-sort starts_before (Covered (normalize intervals)) intervals
      (fold_all-Covered [] (sort starts_before intervals)),
  fold_all-Stems intervals [] (sort starts_before intervals) tt
      (sort-All starts_before (Stems intervals) intervals (Stems-all intervals)),
)

-- ===== src/Temporal/Disjoint.antt =====
-- The intervals of one relation never overlap.
use maeglagi.Base.{
  ℕ, ◌≤◌, ◌<◌, ◌≡◌, inl, inr, true, false, Option, none, some, List, [], ◌∷◌, arith, All, All-imp,
  leb→le, Bool-cases,
}
use maeglagi.Base.Sort.{sort, sort-All, sort-IsSorted, IsSorted}
use maeglagi.Temporal.{
  Interval, overlaps, merge, start_key, starts_before, fold_in, fold_all, normalize, not_after,
}

-- An interval does not end before it starts.
abbrev pub IsOrdered : Interval → Type 0
IsOrdered i = not_after i.valid_from i.valid_to ≡ true

-- `a` ends before `b` starts, both at known instants.
abbrev pub EndpointsApart : Option ℕ → Option ℕ → Type 0
EndpointsApart none _ = ⊥
EndpointsApart (some t) none = ⊥
EndpointsApart (some t) (some f) = t < f

abbrev pub EndsBefore : Interval → Interval → Type 0
EndsBefore a b = EndpointsApart a.valid_to b.valid_from

-- No two intervals of the list overlap.
abbrev pub AreDisjoint : List Interval → Type 0
AreDisjoint [] = Unit
AreDisjoint (a ∷ l) = All (λ b. (overlaps a b ≡ false) × (overlaps b a ≡ false)) l × AreDisjoint l

-- The shape of the result while it grows: ordered intervals, each ending before the next starts.
abbrev IsChain : List Interval → Type 0
IsChain [] = Unit
IsChain (a ∷ []) = IsOrdered a
IsChain (a ∷ b ∷ l) = IsOrdered a × EndsBefore a b × IsChain (b ∷ l)

-- Nothing in the result starts after `k`, by the last interval.
abbrev LastStarts : ℕ → List Interval → Type 0
LastStarts k [] = Unit
LastStarts k (a ∷ []) = start_key a ≤ k
LastStarts k (a ∷ b ∷ l) = LastStarts k (b ∷ l)

merge-IsOrdered :
    (a b : Interval) → IsOrdered a → IsOrdered b → overlaps a b ≡ true → IsOrdered (merge a b)
unfolding overlaps merge
merge-IsOrdered a b ha hb o = ground arith

-- Intervals that arrive by their starts and do not overlap lie one behind the other.
apart_of_sorted :
    (a b : Interval)
    → IsOrdered a
    → IsOrdered b
    → start_key a ≤ start_key b
    → overlaps a b ≡ false
    → EndsBefore a b
unfolding overlaps
apart_of_sorted a b ha hb le o = ground arith

-- The start does not move back when a later interval is taken in.
merge-EndsBefore :
    (e a b : Interval) → EndsBefore e a → start_key a ≤ start_key b → EndsBefore e (merge a b)
unfolding merge
merge-EndsBefore e a b h le = ground arith

merge-start_key : (a b : Interval) → start_key a ≤ start_key b → start_key (merge a b) ≤ start_key b
unfolding merge
merge-start_key a b le = ground arith

fold_in-IsChain :
    (result : List Interval) (i : Interval)
    → IsChain result
    → LastStarts (start_key i) result
    → IsOrdered i
    → IsChain (fold_in result i)
unfolding fold_in
fold_in-IsChain [] i c s o = o
fold_in-IsChain (a ∷ []) i c s o = elim (Bool-cases (overlaps a i)) [
  | inl e ↦ rw e (merge-IsOrdered a i c o e)
  | inr e ↦ rw e (c, apart_of_sorted a i c o s e, o)
]
fold_in-IsChain (a ∷ b ∷ []) i c s o = elim (Bool-cases (overlaps b i)) [
  | inl e ↦ rw e (c.0, merge-EndsBefore a b i c.1 s, merge-IsOrdered b i c.2 o e)
  | inr e ↦ rw e (c.0, c.1, (c.2, apart_of_sorted b i c.2 o s e, o))
]
fold_in-IsChain (a ∷ b ∷ d ∷ l) i c s o = (c.0, c.1, fold_in-IsChain (b ∷ d ∷ l) i c.2 s o)

fold_in-LastStarts :
    (result : List Interval) (i : Interval)
    → LastStarts (start_key i) result
    → LastStarts (start_key i) (fold_in result i)
unfolding fold_in
fold_in-LastStarts [] i s = omega arith
fold_in-LastStarts (a ∷ []) i s = elim (Bool-cases (overlaps a i)) [
  | inl e ↦ rw e (merge-start_key a i s)
  | inr e ↦ rw e (omega arith)
]
fold_in-LastStarts (a ∷ b ∷ []) i s = elim (Bool-cases (overlaps b i)) [
  | inl e ↦ rw e (merge-start_key b i s)
  | inr e ↦ rw e (omega arith)
]
fold_in-LastStarts (a ∷ b ∷ d ∷ l) i s = fold_in-LastStarts (b ∷ d ∷ l) i s

LastStarts-mono :
    (j k : ℕ) (result : List Interval) → j ≤ k → LastStarts j result → LastStarts k result
LastStarts-mono j k [] le s = tt
LastStarts-mono j k (a ∷ []) le s = omega arith
LastStarts-mono j k (a ∷ b ∷ l) le s = LastStarts-mono j k (b ∷ l) le s

fold_all-IsChain :
    (result intervals : List Interval)
    → IsChain result
    → All (λ i. LastStarts (start_key i) result) intervals
    → IsSorted starts_before intervals
    → All IsOrdered intervals
    → IsChain (fold_all result intervals)
unfolding fold_all
fold_all-IsChain result [] c s sorted o = c
fold_all-IsChain result (i ∷ l) c s sorted o =
    fold_all-IsChain (fold_in result i) l (fold_in-IsChain result i c s.0 o.0)
      (All-imp (λ j. starts_before i j ≡ true) (λ j. LastStarts (start_key j) (fold_in result i))
        (λ j h.
          LastStarts-mono (start_key i) (start_key j) (fold_in result i) (leb→le _ _ h)
            (fold_in-LastStarts result i s.0))
        l sorted.0)
      sorted.1 o.1

EndsBefore-trans :
    (a b c : Interval) → EndsBefore a b → IsOrdered b → EndsBefore b c → EndsBefore a c
EndsBefore-trans a b c h o k = ground arith

EndsBefore-overlaps :
    (a b : Interval) → EndsBefore a b → (overlaps a b ≡ false) × (overlaps b a ≡ false)
unfolding overlaps
EndsBefore-overlaps a b h = ground arith

IsChain-EndsBefore :
    (a b : Interval) (l : List Interval)
    → EndsBefore a b
    → IsChain (b ∷ l)
    → All (EndsBefore a) (b ∷ l)
IsChain-EndsBefore a b [] h c = (h, tt)
IsChain-EndsBefore a b (d ∷ l) h c =
    (h, IsChain-EndsBefore a d l (EndsBefore-trans a b d h c.0 c.1) c.2)

IsChain-AreDisjoint : (l : List Interval) → IsChain l → AreDisjoint l
IsChain-AreDisjoint [] c = tt
IsChain-AreDisjoint (a ∷ []) c = (tt, tt)
IsChain-AreDisjoint (a ∷ b ∷ l) c = (
  All-imp (EndsBefore a) (λ d. (overlaps a d ≡ false) × (overlaps d a ≡ false))
      (EndsBefore-overlaps a) (b ∷ l) (IsChain-EndsBefore a b l c.1 c.2),
  IsChain-AreDisjoint (b ∷ l) c.2,
)

IsChain-IsOrdered : (l : List Interval) → IsChain l → All IsOrdered l
IsChain-IsOrdered [] c = tt
IsChain-IsOrdered (a ∷ []) c = (c, tt)
IsChain-IsOrdered (a ∷ b ∷ l) c = (c.0, IsChain-IsOrdered (b ∷ l) c.2)

starts_before_trans :
    (a b c : Interval)
    → starts_before a b ≡ true
    → starts_before b c ≡ true
    → starts_before a c ≡ true
starts_before_trans a b c h k = ground arith

starts_before_total : (a b : Interval) → starts_before a b ≡ false → starts_before b a ≡ true
starts_before_total a b h = ground arith

All-trivial {κ} : (P : Interval → Type κ) → ((i : Interval) → P i) → (l : List Interval) → All P l
All-trivial P h [] = tt
All-trivial P h (i ∷ l) = (h i, All-trivial P h l)

-- Normalizing intervals none of which ends before it starts gives intervals of which no two overlap,
-- and none of which ends before it starts.
pub normalize-AreDisjoint :
    (intervals : List Interval)
    → All IsOrdered intervals
    → AreDisjoint (normalize intervals) × All IsOrdered (normalize intervals)
unfolding normalize
normalize-AreDisjoint intervals o =
    let c =
      fold_all-IsChain [] (sort starts_before intervals) tt
        (All-trivial _ (λ i. tt) (sort starts_before intervals))
        (sort-IsSorted starts_before starts_before_trans starts_before_total intervals)
        (sort-All starts_before IsOrdered intervals o) in
    (IsChain-AreDisjoint _ c, IsChain-IsOrdered _ c)

-- ===== src/Temporal/Tests.antt =====
-- Intervals of one relation that three sources stated.
use maeglagi.Base.{ℕ, ◌≡◌, refl, Option, none, some, List, [], ◌∷◌, All}
use maeglagi.Temporal.{Interval, normalize, overlaps, merge}
use maeglagi.Temporal.Disjoint.{IsOrdered, AreDisjoint, normalize-AreDisjoint}
use maeglagi.Temporal.Known.{Covered, Stems, normalize-Covered}

abbrev span : Option ℕ → Option ℕ → Interval
span a b = record { valid_from = a; valid_to = b }

abbrev stated : List Interval
stated =
    span (some 20) none
    ∷ span none (some 5)
    ∷ span (some 3) (some 9)
    ∷ span (some 25) (some 30)
    ∷ []

-- The later source closes the open interval, and the unknown start takes the known one.
normalize-stated : normalize stated ≡ span (some 3) (some 9) ∷ span (some 20) (some 30) ∷ []
unfolding normalize overlaps merge
normalize-stated = refl

normalize-AreDisjoint_example : AreDisjoint (normalize stated) × All IsOrdered (normalize stated)
normalize-AreDisjoint_example = normalize-AreDisjoint stated (refl, (refl, (refl, (refl, tt))))

normalize-Covered_example :
    All (Covered (normalize stated)) stated × All (Stems stated) (normalize stated)
normalize-Covered_example = normalize-Covered stated

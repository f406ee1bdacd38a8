-- ===== src/Ingestion/Chunking/Windows.antt =====
-- The parts of a text: the loop ends, each part fits, and together they leave out no character.
use maeglagi.Base.{
  ℕ, zero, suc, ◌+◌, ◌-◌, ◌/◌, ◌≤◌, ◌<◌, min, ◌≡◌, refl, ap, ◌⊎◌, inl, inr, Option, none, some,
  List, [], ◌∷◌, arith, ltb, leb, ltb→lt, lt→ltb, leb→le, if◌then◌else◌, length, length-take-le,
  drop, All, Bool-cases, Option-cases,
}
use maeglagi.Base.Text.{Text, strip, is_empty}
use maeglagi.Ingestion.Chunking.{
  Chunker, make_chunker, slice, last_space, rfind_space, part_end, next_start, keep_part,
  split_from, split,
}

-- A chunker that the constructor accepts.
abbrev pub IsChunker : Chunker → Type 0
IsChunker c = (1 ≤ c.size) × (c.overlap < c.size)

last_space-lt :
    (at : ℕ) (s : Text) {i : ℕ} → last_space at s ≡ some i → (at ≤ i) × (i < at + length s)
last_space-lt at [] h = absurd (ground arith)
last_space-lt at (c ∷ s) {i} h = ground (arith, last_space-lt (suc at) s {i = i})

module _ (c : Chunker) (ok : IsChunker c) (content : Text) (start : ℕ)
    (inside : start < length content) where
  -- A part is not empty, is no longer than `size`, and ends within the text.
  part_end_bounds :
      (start < part_end c content start)
      × (part_end c content start ≤ start + c.size)
      × (part_end c content start ≤ length content)
  unfolding part_end rfind_space
  part_end_bounds = elim (Option-cases (last_space lo (slice lo end content))) [
    | inl no_space ↦ ground (arith, no_space)
    | inr (b, space) ↦
        let (from, to) = last_space-lt lo (slice lo end content) space in
        let short = length-take-le (end - lo) (drop lo content) in ground (arith, space)
  ]
    where
      lo : ℕ
      lo = start + c.size / 2

      end : ℕ
      end = min (start + c.size) (length content)

-- The first and the last but one position of a part, before it is stripped.
abbrev pub Window : Type 0
Window = ℕ × ℕ

abbrev pub parts_of : Text → List Window → List Text
parts_of content [] = []
parts_of content ((a, b) ∷ ws) = keep_part (strip (slice a b content)) (parts_of content ws)

-- The windows follow one another from `at` to the end of the text, none longer than `size`, and each
-- starts within or just behind what the ones before it have covered.
abbrev pub Tiles : Chunker → Text → ℕ → List Window → Type 0
Tiles c content at [] = length content ≤ at
Tiles c content at ((a, b) ∷ ws) =
    (a ≤ at) × (a < b) × (b ≤ a + c.size) × (b ≤ length content) × Tiles c content b ws

module _ (c : Chunker) (ok : IsChunker c) (content : Text) where
  next_start_bounds :
      (start end : ℕ)
      → start < end
      → (start < next_start c start end) × (next_start c start end ≤ end)
  unfolding next_start
  next_start_bounds start end h = omega arith

  -- The parts of windows that tile the text from `at` on.
  abbrev Splits : ℕ → Option (List Text) → Type 0
  Splits at none = ⊥
  Splits at (some parts) =
      (ws : List Window) × (parts ≡ parts_of content ws) × Tiles c content at ws

  Splits-cons :
      (start at : ℕ) (later : Option (List Text))
      → start ≤ at
      → start < length content
      → Splits (part_end c content start) later
      → Splits at (elim later [
        | none ↦ none
        | some parts ↦
            some (keep_part (strip (slice start (part_end c content start) content)) parts)
      ])
  Splits-cons start at none le h s = s
  Splits-cons start at (some parts) le h (ws, e, t) =
      let (x, y, z) = part_end_bounds c ok content start h in
      (
        (start, part_end c content start) ∷ ws,
        ap (keep_part (strip (slice start (part_end c content start) content))) e,
        (le, x, y, z, t),
      )

  split_from-Splits :
      (fuel start at : ℕ)
      → start ≤ at
      → start < length content
      → length content < start + fuel
      → Splits at (split_from c content fuel start)
  unfolding split_from
  split_from-Splits zero start at le h f = absurd (omega arith)
  split_from-Splits (suc fuel) start at le h f =
      let bounds = part_end_bounds c ok content start h in
      let step = next_start_bounds start (part_end c content start) bounds.0 in
      rw (lt→ltb start (length content) h)
        (elim (Bool-cases (leb (length content) (part_end c content start))) [
          | inl last ↦ rw last (
            (start, part_end c content start) ∷ [],
            refl,
            (le, bounds.0, bounds.1, bounds.2, leb→le _ _ last),
          )
          | inr more ↦ rw more (
              Splits-cons start at _ le h (
                split_from-Splits fuel (next_start c start (part_end c content start))
                  (part_end c content start) step.1 (ground (arith, step.1))
                  (ground (arith, step.0))))
        ])

-- A position lies in one of the windows.
abbrev pub Within : ℕ → List Window → Type 0
Within i [] = ⊥
Within i ((a, b) ∷ ws) = ((a ≤ i) × (i < b)) ⊎ Within i ws

Tiles-Within :
    (c : Chunker) (content : Text) (at i : ℕ) (ws : List Window)
    → Tiles c content at ws
    → at ≤ i
    → i < length content
    → Within i ws
Tiles-Within c content at i [] t le h = absurd (omega arith)
Tiles-Within c content at i ((a, b) ∷ ws) t le h = elim (Bool-cases (ltb i b)) [
  | inl e ↦ inl (omega arith, ltb→lt i b e)
  | inr e ↦ inr (Tiles-Within c content b i ws t.4 (ground arith) h)
]

Tiles-short :
    (c : Chunker) (content : Text) (at : ℕ) (ws : List Window)
    → Tiles c content at ws
    → All (λ w. w.1 ≤ w.0 + c.size) ws
Tiles-short c content at [] t = tt
Tiles-short c content at ((a, b) ∷ ws) t = (t.2, Tiles-short c content b ws t.4)

-- What a split of `content` (stripped already) yields: the stripped and non-blank texts of windows, none
-- of them longer than `size`, in which every position of the text lies.
abbrev pub IsSplit : Chunker → Text → Option (List Text) → Type 0
IsSplit c content none = ⊥
IsSplit c content (some parts) =
    (ws : List Window) × (parts ≡ parts_of content ws)
    × All (λ w. w.1 ≤ w.0 + c.size) ws
    × ((i : ℕ) → i < length content → Within i ws)

Splits-IsSplit :
    (c : Chunker) (ok : IsChunker c) (content : Text) (r : Option (List Text))
    → Splits c ok content 0 r
    → IsSplit c content r
Splits-IsSplit c ok content none s = s
Splits-IsSplit c ok content (some parts) (ws, e, t) =
    (ws, e, Tiles-short c content 0 ws t, λ i h. Tiles-Within c content 0 i ws t (omega arith) h)

-- For a chunker that its constructor accepts, the loop of `_split` ends on every text, and its parts are
-- the stripped, non-blank texts of windows of at most `size` characters that leave out no position of
-- the stripped text.
pub split-IsSplit :
    (c : Chunker) (content : Text) → IsChunker c → IsSplit c (strip content) (split c content)
unfolding split
split-IsSplit c content ok = go (strip content)
  where
    go :
        (t : Text) → IsSplit c t (if is_empty t then some [] else split_from c t (suc (length t)) 0)
    go [] = ([], refl, tt, λ i h. elim h [ ])
    go (x ∷ t) = Splits-IsSplit c ok (x ∷ t) _ (
        split_from-Splits c ok (x ∷ t) (suc (length (x ∷ t))) 0 0 (omega arith) (omega arith)
          (omega arith))

-- The constructor's checks are what the loop needs.
pub make_chunker-IsChunker :
    (size overlap : ℕ) {c : Chunker} → make_chunker size overlap ≡ some c → IsChunker c
unfolding make_chunker
make_chunker-IsChunker size overlap h = ground arith

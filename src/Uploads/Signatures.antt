-- ===== src/Uploads/Signatures.antt =====
-- The formats of recordings, described by what their files begin with, independently of the tests of
-- upload_validation.py, and that `_audio_container` finds the first of them.
use maeglagi.Base.{
  ℕ, zero, suc, ◌≡◌, ◌≤◌, ◌↔◌, refl, sym, ◌∙◌, ap, subst, ◌⊎◌, inl, inr, Bool, true, ◌&&◌, ◌||◌,
  Option, none, some, List, [], ◌∷◌, ◌++◌, arith, nat_eq, list_eq, list_beq_iff, leb, length,
  length-append, take, drop, take-append-drop, Bool-cases, if◌then◌else◌,
}
use maeglagi.Base.Text.{Text, codes}
use maeglagi.Uploads.{begins, has_at, is_frame_sync, audio_container}

pub data Format : Type 0 where
  webm mp4 wav mp3 ogg flac : Format

abbrev pub extension : Format → Text
extension webm = codes ".webm"
extension mp4 = codes ".mp4"
extension wav = codes ".wav"
extension mp3 = codes ".mp3"
extension ogg = codes ".ogg"
extension flac = codes ".flac"

-- The content is made of these parts.
abbrev pub Signed : Format → Text → Type 0
Signed webm c = (rest : Text) × (c ≡ 26 ∷ 69 ∷ 223 ∷ 163 ∷ rest)
Signed mp4 c =
    (size rest : Text) × (c ≡ size ++ (codes "ftyp" ++ rest))
    × (length size ≡ 4)
    × (4 ≤ length rest)
Signed wav c =
    (size rest : Text) × (c ≡ codes "RIFF" ++ (size ++ (codes "WAVE" ++ rest))) × (length size ≡ 4)
Signed mp3 c =
    ((rest : Text) × (c ≡ codes "ID3" ++ rest))
    ⊎ ((b : ℕ) × (rest : Text) × (c ≡ 255 ∷ b ∷ rest) × (224 ≤ b))
Signed ogg c = (rest : Text) × (c ≡ codes "OggS" ++ rest)
Signed flac c = (rest : Text) × (c ≡ codes "fLaC" ++ rest)

abbrev pub formats : List Format
formats = webm ∷ mp4 ∷ wav ∷ mp3 ∷ ogg ∷ flac ∷ []

-- The content has the signature of the format, and that of none before it in the list.
abbrev pub IsFirst : List Format → Format → Text → Type 0
IsFirst [] f c = ⊥
IsFirst (g ∷ gs) f c = ((g ≡ f) × Signed g c) ⊎ ((Signed g c → ⊥) × IsFirst gs f c)

take-prefix : (p rest : Text) → take (length p) (p ++ rest) ≡ p
take-prefix [] rest = refl
take-prefix (x ∷ p) rest = ap (◌∷◌ x) (take-prefix p rest)

drop-prefix : (p rest : Text) → drop (length p) (p ++ rest) ≡ rest
drop-prefix [] rest = refl
drop-prefix (x ∷ p) rest = drop-prefix p rest

begins_iff : (p c : Text) → (begins p c ≡ true) ↔ ((rest : Text) × (c ≡ p ++ rest))
begins_iff p c = (
  λ h. (
    drop (length p) c,
    sym (take-append-drop (length p) c)
        ∙ ap (λ q. q ++ drop (length p) c) ((list_beq_iff (take (length p) c) p).0 h),
  ),
  λ (rest, e).
      subst (λ q. begins p q ≡ true) (sym e)
        ((list_beq_iff (take (length p) (p ++ rest)) p).1 (take-prefix p rest)),
)

-- A part that is not empty, at a position.
has_at_forth :
    (i : ℕ) (x : ℕ) (part c : Text)
    → has_at i (x ∷ part) c ≡ true
    → (before rest : Text) × (c ≡ before ++ ((x ∷ part) ++ rest)) × (length before ≡ i)
has_at_forth zero x part c h = let (rest, e) = (begins_iff (x ∷ part) c).0 h in ([], rest, e, refl)
has_at_forth (suc i) x part [] h = cc
has_at_forth (suc i) x part (y ∷ c) h =
    let (before, rest, e, n) = has_at_forth i x part c h in
    (y ∷ before, rest, ap (◌∷◌ y) e, ap suc n)

has_at_back :
    (before part rest : Text) → has_at (length before) part (before ++ (part ++ rest)) ≡ true
has_at_back before part rest =
    subst (λ q. begins part q ≡ true) (sym (drop-prefix before (part ++ rest)))
      ((begins_iff part (part ++ rest)).1 (rest, refl))

frame_sync_iff :
    (c : Text)
    → (is_frame_sync c ≡ true) ↔ ((b : ℕ) × (rest : Text) × (c ≡ 255 ∷ b ∷ rest) × (224 ≤ b))
frame_sync_iff [] = (λ h. absurd (ground arith), λ (b, rest, e, n). cc)
frame_sync_iff (a ∷ []) = (λ h. absurd (ground arith), λ (b, rest, e, n). cc)
frame_sync_iff (a ∷ b ∷ c) =
    (λ h. (b, c, ground arith, ground arith), λ (d, rest, e, n). ground arith)

-- The tests of `_audio_container`, one by one.
abbrev test : Format → Text → Bool
test webm c = begins (26 ∷ 69 ∷ 223 ∷ 163 ∷ []) c
test mp4 c = leb 12 (length c) && has_at 4 (codes "ftyp") c
test wav c = begins (codes "RIFF") c && has_at 8 (codes "WAVE") c
test mp3 c = begins (codes "ID3") c || is_frame_sync c
test ogg c = begins (codes "OggS") c
test flac c = begins (codes "fLaC") c

riff_forth : (c r : Text) → c ≡ codes "RIFF" ++ r → has_at 8 (codes "WAVE") c ≡ true → Signed wav c
riff_forth c r e there =
    let (size, rest, e', n) =
      has_at_forth 4 87 (65 ∷ 86 ∷ 69 ∷ []) r
        (subst (λ q. has_at 8 (codes "WAVE") q ≡ true) e there) in
    (
      size,
      rest,
      e ∙ ap (λ q. codes "RIFF" ++ q) {x = r} {y = size ++ ((87 ∷ 65 ∷ 86 ∷ 69 ∷ []) ++ rest)} e',
      n,
    )

test_forth : (f : Format) (c : Text) → test f c ≡ true → Signed f c
test_forth webm c h = (begins_iff (26 ∷ 69 ∷ 223 ∷ 163 ∷ []) c).0 h
test_forth mp4 c h =
    let (size, rest, e, n) = has_at_forth 4 102 (116 ∷ 121 ∷ 112 ∷ []) c (ground (arith, h)) in
    let long : 12 ≤ length c = ground (arith, h) in
    let parts = length-append size (codes "ftyp" ++ rest) in
    (size, rest, e, n, omega (arith, long, ap length e, parts, n))
test_forth wav c h =
    let (r, e) = (begins_iff (codes "RIFF") c).0 (ground (arith, h)) in
    riff_forth c r e (ground (arith, h))
test_forth mp3 c h = elim (Bool-cases (begins (codes "ID3") c)) [
  | inl tagged ↦ inl ((begins_iff (codes "ID3") c).0 tagged)
  | inr bare ↦ inr ((frame_sync_iff c).0 (ground (arith, h, bare)))
]
test_forth ogg c h = (begins_iff (codes "OggS") c).0 h
test_forth flac c h = (begins_iff (codes "fLaC") c).0 h

test_back : (f : Format) (c : Text) → Signed f c → test f c ≡ true
test_back webm c s = (begins_iff (26 ∷ 69 ∷ 223 ∷ 163 ∷ []) c).1 s
test_back mp4 c (size, rest, e, n, long) =
    let there =
      subst (λ i. has_at i (codes "ftyp") (size ++ (codes "ftyp" ++ rest)) ≡ true) n
        (has_at_back size (codes "ftyp") rest) in
    let parts = length-append size (codes "ftyp" ++ rest) in
    let enough : 12 ≤ length (size ++ (codes "ftyp" ++ rest)) = omega (arith, long, parts, n) in
    subst (λ q. test mp4 q ≡ true) (sym e) (ground (arith, there, enough))
test_back wav c (size, rest, e, n) =
    let there : has_at 8 (codes "WAVE") (codes "RIFF" ++ (size ++ (codes "WAVE" ++ rest))) ≡ true =
      subst (λ i. has_at i (codes "WAVE") (size ++ (codes "WAVE" ++ rest)) ≡ true) n
        (has_at_back size (codes "WAVE") rest) in
    subst (λ q. test wav q ≡ true) (sym e) there
test_back mp3 c (inl s) = let h = (begins_iff (codes "ID3") c).1 s in rw h refl
test_back mp3 c (inr s) = let h = (frame_sync_iff c).1 s in ground (arith, h)
test_back ogg c s = (begins_iff (codes "OggS") c).1 s
test_back flac c s = (begins_iff (codes "fLaC") c).1 s

first_container : List Format → Text → Option Text
first_container [] c = none
first_container (f ∷ fs) c =
    let rest = first_container fs c in if test f c then some (extension f) else rest

first_container_iff :
    (fs : List Format) (c actual : Text)
    → (first_container fs c ≡ some actual)
      ↔ ((f : Format) × (actual ≡ extension f) × IsFirst fs f c)
unfolding first_container
first_container_iff [] c actual = (λ h. cc, λ (f, e, h). absurd h)
first_container_iff (g ∷ gs) c actual = elim (Bool-cases (test g c)) [
  | inl signed ↦ (
    λ h. (g, ground (arith, signed, h), inl (refl, test_forth g c signed)),
    λ (f, e, k). elim k [
      | inl (same, s) ↦ rw (signed, first_container) (ap some (ap extension same ∙ sym e))
      | inr (unsigned, k) ↦ absurd (unsigned (test_forth g c signed))
    ],
  )
  | inr other ↦ (
    λ h.
        let (f, e, k) = (first_container_iff gs c actual).0 (rw (other, first_container) at h) in
        (f, e, inr (λ s. cc (other, test_back g c s), k)),
    λ (f, e, k). elim k [
      | inl (same, s) ↦ cc (other, test_back g c s)
      | inr (unsigned, k) ↦
          rw (other, first_container) ((first_container_iff gs c actual).1 (f, e, k))
    ],
  )
]

-- The container of a content is the first of the six formats whose signature it has.
pub audio_container_lem :
    (c actual : Text)
    → (audio_container c ≡ some actual)
      ↔ ((f : Format) × (actual ≡ extension f) × IsFirst formats f c)
unfolding audio_container first_container
audio_container_lem c actual = first_container_iff formats c actual

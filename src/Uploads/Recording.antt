-- ===== src/Uploads/Recording.antt =====
-- When a recording is verified, and as what, against a description of the formats by themselves.
use maeglagi.Base.{
  ◌≡◌, ◌↔◌, refl, sym, ◌∙◌, ap, subst, ◌⊎◌, inl, inr, true, false, Option, none, some, List, [],
  ◌∷◌, map, arith, ◌==◌, nat_eq, list_eq, list_beq_iff, contains, Distinct, Bool-cases,
  if◌then◌else◌,
}
use maeglagi.Base.Text.{Text, codes, is_empty}
use maeglagi.Uploads.{
  verified, lookup, audio_mimes, audio_container, mime, extension_fits, text_or_empty, compared,
  validate_recording,
}
use maeglagi.Uploads.Signatures.{
  Format, webm, mp4, wav, mp3, ogg, flac, extension, formats, IsFirst, audio_container_lem,
}

-- The types that a browser may declare for a format.
abbrev pub types_of : Format → List Text
types_of webm = codes "audio/webm" ∷ codes "video/webm" ∷ []
types_of mp4 = codes "audio/mp4" ∷ codes "video/mp4" ∷ codes "audio/x-m4a" ∷ codes "audio/m4a" ∷ []
types_of wav = codes "audio/wav" ∷ codes "audio/x-wav" ∷ []
types_of mp3 = codes "audio/mpeg" ∷ codes "audio/mp3" ∷ []
types_of ogg = codes "audio/ogg" ∷ []
types_of flac = codes "audio/flac" ∷ codes "audio/x-flac" ∷ []

-- The names that a table has for a value.
abbrev names_with : Text → List (Text × Text) → List Text
names_with v [] = []
names_with v ((name, value) ∷ table) =
    let rest = names_with v table in if value == v then name ∷ rest else rest

abbrev name_of : Text × Text → Text
name_of (name, value) = name

names_with-contains :
    (v k : Text) (table : List (Text × Text))
    → contains k (map name_of table) ≡ false
    → contains k (names_with v table) ≡ false
names_with-contains v k [] h = refl
names_with-contains v k ((name, value) ∷ table) h = ground (arith, h, names_with-contains v k table)

lookup-names_with :
    (v k : Text) (table : List (Text × Text))
    → Distinct (map name_of table)
    → (lookup table k ≡ some v) ↔ (contains k (names_with v table) ≡ true)
lookup-names_with v k [] d = (λ h. cc, λ h. cc)
lookup-names_with v k ((name, value) ∷ table) d = elim (Bool-cases (name == k)) [
  | inl here ↦
      let same = (list_beq_iff name k).0 here in
      let other =
        names_with-contains v k table
          (subst (λ q. contains q (map name_of table) ≡ false) same d.0) in
      (
        λ h. ground (arith, h, here, list_beq_iff value v, list_beq_iff k name, same),
        λ h. ground (arith, h, here, other, list_beq_iff value v),
      )
  | inr there ↦
      let (forth, back) = lookup-names_with v k table d.1 in
      (
        λ h. ground (arith, h, there, forth, list_beq_iff k name, list_beq_iff name k),
        λ h. ground (arith, h, there, back, list_beq_iff k name, list_beq_iff name k),
      )
]

audio_mimes-Distinct : Distinct (map name_of audio_mimes)
audio_mimes-Distinct = (
  refl,
  (
    refl,
    (refl, (refl, (refl, (refl, (refl, (refl, (refl, (refl, (refl, (refl, (refl, tt))))))))))),
  ),
)

lookup-types_of :
    (f : Format) (m : Text)
    → (lookup audio_mimes m ≡ some (extension f)) ↔ (contains m (types_of f) ≡ true)
lookup-types_of webm m = lookup-names_with (codes ".webm") m audio_mimes audio_mimes-Distinct
lookup-types_of mp4 m = lookup-names_with (codes ".mp4") m audio_mimes audio_mimes-Distinct
lookup-types_of wav m = lookup-names_with (codes ".wav") m audio_mimes audio_mimes-Distinct
lookup-types_of mp3 m = lookup-names_with (codes ".mp3") m audio_mimes audio_mimes-Distinct
lookup-types_of ogg m = lookup-names_with (codes ".ogg") m audio_mimes audio_mimes-Distinct
lookup-types_of flac m = lookup-names_with (codes ".flac") m audio_mimes audio_mimes-Distinct

is_empty_iff : (e : Text) → (is_empty e ≡ true) ↔ (e ≡ [])
is_empty_iff [] = (λ h. refl, λ h. refl)
is_empty_iff (x ∷ e) = (λ h. absurd (ground arith), λ h. absurd (ground arith))

module _ (lower : Text → Text) (suffix : Text → Text) where
  compared_lem :
      (expected found : Option Text) (extension actual : Text)
      → (compared lower suffix expected found extension ≡ verified actual) ↔ (
          (expected ≡ some actual)
          × (found ≡ some actual)
          × (extension_fits lower suffix extension actual ≡ true))
  unfolding compared
  compared_lem none found extension actual =
      (λ h. absurd (ground arith), λ k. absurd (ground (arith, k.0)))
  compared_lem (some expected) none extension actual =
      (λ h. absurd (ground arith), λ k. absurd (ground (arith, k.1)))
  compared_lem (some expected) (some found) extension actual = (
    λ h. ground (arith, list_beq_iff found expected),
    λ k. ground (arith, list_beq_iff found expected, k.0, k.1, k.2),
  )

  -- The name of a recording of the format may have no extension, that of the format, or, for MP4, one
  -- of the two that browsers give to it.
  abbrev pub FitsName : Format → Text → Type 0
  FitsName mp4 e = (e ≡ []) ⊎ (e ≡ codes ".mp4") ⊎ (e ≡ codes ".webm") ⊎ (e ≡ codes ".m4a")
  FitsName f e = (e ≡ []) ⊎ (e ≡ extension f)

  own_extension :
      (e own : Text)
      → (own == codes ".mp4") ≡ false
      → (extension_fits lower suffix e own ≡ true) ↔ ((e ≡ []) ⊎ (e ≡ own))
  unfolding extension_fits
  own_extension e own other = (
    λ h. ground (arith, h, other, is_empty_iff e, list_beq_iff e own),
    λ k. ground (arith, k, other, is_empty_iff e, list_beq_iff e own),
  )

  mp4_extension :
      (e : Text) → (extension_fits lower suffix e (codes ".mp4") ≡ true) ↔ FitsName mp4 e
  unfolding extension_fits
  mp4_extension e = (
    λ h. ground (
      arith,
      h,
      is_empty_iff e,
      list_beq_iff e (codes ".mp4"),
      list_beq_iff e (codes ".webm"),
      list_beq_iff e (codes ".m4a"),
    ),
    λ k. ground (
      arith,
      k,
      is_empty_iff e,
      list_beq_iff e (codes ".mp4"),
      list_beq_iff e (codes ".webm"),
      list_beq_iff e (codes ".m4a"),
    ),
  )

  extension_fits_iff :
      (f : Format) (e : Text) → (extension_fits lower suffix e (extension f) ≡ true) ↔ FitsName f e
  extension_fits_iff webm e = own_extension e (codes ".webm") refl
  extension_fits_iff mp4 e = mp4_extension e
  extension_fits_iff wav e = own_extension e (codes ".wav") refl
  extension_fits_iff mp3 e = own_extension e (codes ".mp3") refl
  extension_fits_iff ogg e = own_extension e (codes ".ogg") refl
  extension_fits_iff flac e = own_extension e (codes ".flac") refl

  -- A recording is verified, as the extension of a format, exactly if its declared type is one of those
  -- of the format, the format is the first of the six whose signature its content has, and the
  -- extension of its name is none or one that fits the format.
  pub validate_recording_lem :
      (filename content_type : Option Text) (content actual : Text)
      → (validate_recording lower suffix filename content_type content ≡ verified actual) ↔ (
          (f : Format) × (actual ≡ extension f)
          × (contains (mime lower suffix content_type) (types_of f) ≡ true)
          × IsFirst formats f content
          × FitsName f (lower (suffix (text_or_empty filename))))
  unfolding validate_recording
  validate_recording_lem filename content_type content actual =
      let m = mime lower suffix content_type in
      let e = lower (suffix (text_or_empty filename)) in
      let steps = compared_lem (lookup audio_mimes m) (audio_container content) e actual in
      (
        λ h.
            let (declared, found, fits) = steps.0 h in
            let (f, same, first) = (audio_container_lem content actual).0 found in
            (
              f,
              same,
              (lookup-types_of f m).0 (declared ∙ ap some same),
              first,
              (extension_fits_iff f e).0
                  (subst (λ q. extension_fits lower suffix e q ≡ true) same fits),
            ),
        λ (f, same, declared, first, fits). steps.1 (
          (lookup-types_of f m).1 declared ∙ ap some (sym same),
          (audio_container_lem content actual).1 (f, same, first),
          subst (λ q. extension_fits lower suffix e q ≡ true) (sym same)
              ((extension_fits_iff f e).1 fits),
        ),
      )

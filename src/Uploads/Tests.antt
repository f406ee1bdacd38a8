-- ===== src/Uploads/Tests.antt =====
-- A FLAC file, sent with its type and its name.
use maeglagi.Base.{◌≡◌, ◌↔◌, refl, some, true, [], ◌∷◌, list_eq, nat_eq, contains}
use maeglagi.Base.Text.{Text, codes, strip, is_space}
use maeglagi.Uploads.{verified, refused, invalid_upload, mime, text_or_empty, validate_recording}
use maeglagi.Uploads.Signatures.{Format, extension, formats, IsFirst}
use maeglagi.Uploads.Recording.{types_of, FitsName, validate_recording_lem}

-- The part of a name from its fifth character on, enough for the names here.
abbrev suffix : Text → Text
suffix (a ∷ b ∷ c ∷ d ∷ rest) = rest
suffix s = []

abbrev lower : Text → Text
lower s = s

abbrev content : Text
content = codes "fLaC rest"

take_is_verified :
    validate_recording lower suffix
      (some (codes "take.flac"))
      (some (codes "audio/flac; x=1"))
      content
    ≡ verified (codes ".flac")
unfolding validate_recording strip is_space
take_is_verified = refl

-- An MP4 file under the name that browsers give it, and an Ogg file under a wrong one.
mp4_as_webm :
    validate_recording lower suffix
      (some (codes "take.webm"))
      (some (codes "audio/mp4"))
      (codes "1234ftypM4A rest")
    ≡ verified (codes ".mp4")
unfolding validate_recording strip is_space
mp4_as_webm = refl

ogg_as_mp3 :
    validate_recording lower suffix
      (some (codes "take.mp3"))
      (some (codes "audio/ogg"))
      (codes "OggS rest")
    ≡ refused invalid_upload
unfolding validate_recording strip is_space
ogg_as_mp3 = refl

validate_recording_lem_example :
    (validate_recording lower suffix (some (codes "take.flac")) (some (codes "audio/flac")) content
      ≡ verified (codes ".flac"))
    ↔ ((f : Format) × (codes ".flac" ≡ extension f)
        × (contains (mime lower suffix (some (codes "audio/flac"))) (types_of f) ≡ true)
        × IsFirst formats f content
        × FitsName lower suffix f (lower (suffix (text_or_empty (some (codes "take.flac"))))))
validate_recording_lem_example =
    validate_recording_lem lower suffix (some (codes "take.flac")) (some (codes "audio/flac"))
      content (codes ".flac")

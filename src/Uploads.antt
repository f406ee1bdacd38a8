-- ===== src/Uploads.antt =====
-- The content check of an uploaded recording:
-- backend/app/modules/ingestion/application/upload_validation.py. `str.lower` and the suffix of a
-- path are parameters.
pub mod Recording
pub mod Signatures
mod Tests
use maeglagi.Base.{
  ℕ, ◌≡◌, ◌/◌, Bool, true, false, not, ◌&&◌, ◌||◌, Option, none, some, List, [], ◌∷◌, ◌==◌, nat_eq,
  list_eq, leb, length, take, drop, if◌then◌else◌,
}
use maeglagi.Base.Text.{Text, codes, is_empty, strip}

-- The two exceptions.
pub data UploadError : Type 0 where
  unsupported_upload invalid_upload : UploadError

pub data Upload : Type 0 where
  refused : UploadError → Upload
  verified : Text → Upload

-- `name == literal` for the literals of a table.
abbrev pub lookup : List (Text × Text) → Text → Option Text
lookup [] k = none
lookup ((name, value) ∷ table) k =
    let rest = lookup table k in if name == k then some value else rest

-- AUDIO_MIMES
abbrev pub audio_mimes : List (Text × Text)
audio_mimes =
    (codes "audio/webm", codes ".webm")
    ∷ (codes "video/webm", codes ".webm")
    ∷ (codes "audio/mp4", codes ".mp4")
    ∷ (codes "video/mp4", codes ".mp4")
    ∷ (codes "audio/x-m4a", codes ".mp4")
    ∷ (codes "audio/m4a", codes ".mp4")
    ∷ (codes "audio/wav", codes ".wav")
    ∷ (codes "audio/x-wav", codes ".wav")
    ∷ (codes "audio/mpeg", codes ".mp3")
    ∷ (codes "audio/mp3", codes ".mp3")
    ∷ (codes "audio/ogg", codes ".ogg")
    ∷ (codes "audio/flac", codes ".flac")
    ∷ (codes "audio/x-flac", codes ".flac")
    ∷ []

-- `s.split(";", 1)[0]`
pub before_semicolon : Text → Text
before_semicolon [] = []
before_semicolon (c ∷ s) = let rest = before_semicolon s in if c == 59 then [] else c ∷ rest

-- `content.startswith(prefix)`, of bytes
abbrev pub begins : Text → Text → Bool
begins prefix content = take (length prefix) content == prefix

-- `content[i:j] == part`
abbrev pub has_at : ℕ → Text → Text → Bool
has_at i part content = take (length part) (drop i content) == part

-- `content[0] == 0xFF and content[1] & 0xE0 == 0xE0`: the three high bits of the second byte
abbrev pub is_frame_sync : Text → Bool
is_frame_sync [] = false
is_frame_sync (a ∷ []) = false
is_frame_sync (a ∷ b ∷ content) = a == 255 && leb 224 b

-- The bytes of a file are numbers below 256.
pub audio_container : Text → Option Text
audio_container content =
    if begins (26 ∷ 69 ∷ 223 ∷ 163 ∷ []) content
    then some (codes ".webm")
    else if leb 12 (length content) && has_at 4 (codes "ftyp") content
    then some (codes ".mp4")
    else if begins (codes "RIFF") content && has_at 8 (codes "WAVE") content
    then some (codes ".wav")
    else if begins (codes "ID3") content || is_frame_sync content
    then some (codes ".mp3")
    else if begins (codes "OggS") content
    then some (codes ".ogg")
    else if begins (codes "fLaC") content
    then some (codes ".flac")
    else none

abbrev pub text_or_empty : Option Text → Text
text_or_empty none = []
text_or_empty (some s) = s

module _ (lower : Text → Text) (suffix : Text → Text) where
  pub mime : Option Text → Text
  unfolding before_semicolon
  mime content_type = lower (strip (before_semicolon (text_or_empty content_type)))

  -- The name may have no extension, that of the content, or one that browsers give to MP4.
  pub extension_fits : Text → Text → Bool
  extension_fits extension actual =
      is_empty extension
      || extension == actual
      || (actual == codes ".mp4" && (extension == codes ".webm" || extension == codes ".m4a"))

  -- After the lookups: the declared format, that of the content, and the extension.
  pub compared : Option Text → Option Text → Text → Upload
  unfolding extension_fits
  compared none actual extension = refused unsupported_upload
  compared (some expected) none extension = refused invalid_upload
  compared (some expected) (some actual) extension =
      if not (actual == expected)
      then refused invalid_upload
      else if not (extension_fits extension actual)
      then refused invalid_upload
      else verified actual

  unfoldable pub validate_recording : Option Text → Option Text → Text → Upload
  unfolding mime compared audio_container
  validate_recording filename content_type content =
      compared (lookup audio_mimes (mime content_type)) (audio_container content)
        (lower (suffix (text_or_empty filename)))

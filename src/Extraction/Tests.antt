-- ===== src/Extraction/Tests.antt =====
-- Names that compare as one.
use maeglagi.Base.{◌≡◌, refl}
use maeglagi.Base.Text.{codes, is_space}
use maeglagi.Extraction.{EntityKind, Unicode, normalize_name}

abbrev plain : Unicode
plain = record { nfkc = λ s. s; casefold = λ s. s }

spaced_key : normalize_name plain (codes "api v-2") EntityKind.issue ≡ codes "apiv2"
unfolding normalize_name is_space
spaced_key = refl

honorific_key : normalize_name plain (codes "김철수 님") EntityKind.person ≡ codes "김철수"
unfolding normalize_name is_space
honorific_key = refl

short_name_key : normalize_name plain (codes "김님") EntityKind.person ≡ codes "김님"
unfolding normalize_name is_space
short_name_key = refl

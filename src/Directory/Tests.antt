-- ===== src/Directory/Tests.antt =====
-- A person of the snapshot whom the extraction quotes by an alias, and a claimed identifier.
use maeglagi.Base.{ℕ, ◌≡◌, refl, none, some, [], ◌∷◌, All}
use maeglagi.Base.Text.{Text, codes, is_space, strip}
use maeglagi.Extraction.{EntityKind, ExtractionResult, Unicode, normalize_name}
use maeglagi.Sources.{Snapshot}
use maeglagi.Store.Closing.{starts_with, occurs_in}
use maeglagi.Directory.{canonicalize, normalize_identifier, attach}
use maeglagi.Directory.Trusted.{Trusts, IsDirectoryId, entries_of, canonicalize-trusted}

abbrev plain : Unicode
plain = record { nfkc = λ s. s; casefold = λ s. s }

abbrev digits : ℕ → Text
digits n = n ∷ []

abbrev snapshot : Snapshot
snapshot = record {
  project = none;
  projects = [];
  people =
      record {
        id = 65;
        name = codes "Kim Jin";
        role = none;
        email = none;
        aliases = codes "Jin" ∷ [];
      }
      ∷ [];
  roster = [];
}

abbrev claimed : ExtractionResult
claimed = record {
  entities =
      record {
        name = codes "Jin";
        kind = EntityKind.person;
        aliases = [];
        identifiers = codes "directory:person:B" ∷ [];
        source_refs = codes "Jin said" ∷ [];
      }
      ∷ [];
  events = [];
  relations = [];
  contexts = [];
}

jin_is_attached :
    (canonicalize plain digits claimed (some snapshot) (codes "Jin said yes.")).0.entities
    ≡ record {
      name = codes "Kim Jin";
      kind = EntityKind.person;
      aliases = [];
      identifiers = codes "directory:person:A" ∷ [];
      source_refs = codes "Jin said" ∷ [];
    }
      ∷ []
unfolding canonicalize attach normalize_identifier normalize_name starts_with occurs_in strip
    is_space
jin_is_attached = refl

canonicalize-trusted_example :
    All
      (Trusts plain digits
        (canonicalize plain digits claimed (some snapshot) (codes "Jin said yes.")).1)
      (canonicalize plain digits claimed (some snapshot) (codes "Jin said yes.")).0.entities
    × All
        (IsDirectoryId plain digits (entries_of plain digits (some snapshot)))
        (canonicalize plain digits claimed (some snapshot) (codes "Jin said yes.")).1
canonicalize-trusted_example =
    canonicalize-trusted plain digits claimed (some snapshot) (codes "Jin said yes.")

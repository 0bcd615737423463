-- ===== src/Samples.antt =====
-- Data for the tests. The hash of a sample is the identity, and a text is what it was written from.
use rxiu.Base.{ℕ, Bytes, codes, true, false, List, [], ◌∷◌, none, some}
use rxiu.External.{Json, Sha256}
use rxiu.Rs.Types.{RsBlockEntry, RsFileEntry, RsMetadata, RsDisk}
use rxiu.Storage.Local.{FileMetadata, ZoneDisk}
use rxiu.Storage.Zones.{ZoneRegistry, Home}
use rxiu.Download.Chunked.{ResumeMeta}

abbrev pub identity_sha : Sha256
identity_sha = record { digest = λ b. b; lower_hex = λ b. b }

pub data SampleText : Type 0 where
  of_metadata : RsMetadata → SampleText
  of_files : List FileMetadata → SampleText
  of_registry : ZoneRegistry → SampleText
  of_resume : ResumeMeta → SampleText

abbrev pub rs_json : Json SampleText RsMetadata
rs_json = record {
  to_text = of_metadata;
  from_text = λ t. elim t [ of_metadata m ↦ some m | _ ↦ none ];
}

abbrev pub files_json : Json SampleText (List FileMetadata)
files_json = record {
  to_text = of_files;
  from_text = λ t. elim t [ of_files m ↦ some m | _ ↦ none ];
}

abbrev pub registry_json : Json SampleText ZoneRegistry
registry_json = record {
  to_text = of_registry;
  from_text = λ t. elim t [ of_registry m ↦ some m | _ ↦ none ];
}

abbrev pub resume_json : Json SampleText ResumeMeta
resume_json = record {
  to_text = of_resume;
  from_text = λ t. elim t [ of_resume m ↦ some m | _ ↦ none ];
}

abbrev pub block : Bytes → ℕ → RsBlockEntry
block content offset = record { hash = content; size = 2; offset = offset }

-- A file of the blocks 1 2 and 3 4.
abbrev pub file_a : RsFileEntry
file_a = record {
  name = codes "a";
  size = 4;
  hash = 1 ∷ 2 ∷ 3 ∷ 4 ∷ [];
  blocks = block (1 ∷ 2 ∷ []) 0 ∷ block (3 ∷ 4 ∷ []) 2 ∷ [];
  members = codes "n1" ∷ codes "n2" ∷ [];
  algo = codes "sha256";
  complete = true;
  syncing = false;
  deletable = true;
}

-- A file that shares the block 1 2 with `file_a`.
abbrev pub file_b : RsFileEntry
file_b = record {
  name = codes "b";
  size = 2;
  hash = 1 ∷ 2 ∷ [];
  blocks = block (1 ∷ 2 ∷ []) 0 ∷ [];
  members = [];
  algo = codes "sha256";
  complete = true;
  syncing = false;
  deletable = true;
}

abbrev pub both_files : RsMetadata
both_files = record { files = file_a ∷ file_b ∷ [] }

-- Both files, with their blocks.
abbrev pub full_disk : RsDisk SampleText
full_disk = record {
  metadata = some (of_metadata both_files);
  files = (1 ∷ 2 ∷ [], 1 ∷ 2 ∷ []) ∷ (3 ∷ 4 ∷ [], 3 ∷ 4 ∷ []) ∷ [];
}

-- Both files, with none of their blocks.
abbrev pub bare_disk : RsDisk SampleText
bare_disk = record { metadata = some (of_metadata both_files); files = [] }

-- A zone with the file x of the bytes 5 6 7.
abbrev pub zone_x : ZoneDisk SampleText
zone_x = record {
  metadata = some (
      of_files (
        record {
          name = codes "x";
          size = 3;
          content_hash = codes "050607";
          created_at = none;
          imported_at = 0;
        }
        ∷ []));
  files = (codes "x", 5 ∷ 6 ∷ 7 ∷ []) ∷ [];
}

abbrev pub empty_home : Home SampleText
empty_home = record { registry = none; directories = [] }

-- ===== src/Publish/Types.antt =====
-- src/storage.rs: the objects below the prefix of a stable layout, and what a publication counts.
use sirius_asset_updater.Base.{ℕ, Text, utf8, Option, List}
use sirius_asset_updater.Fault.{Error}
use sirius_asset_updater.Layout.Types.{Entry}

-- `StableCounts`.
pub record StableCounts : Type 0 where
  pub files : ℕ
  pub uploaded : ℕ
  pub unchanged : ℕ
  pub pruned : ℕ
  pub deduplicated : ℕ
  pub renamed : ℕ
  pub failed_resources : ℕ
  pub carried_forward : ℕ

-- `StableVersion`, of which the counts are `StableCounts`.
pub record StableVersion : Type 0 where
  pub publication_id : Text
  pub files : ℕ
  pub bytes : ℕ
  pub counts : StableCounts

-- An object: a file with its bytes, digest and content type, or what a publication writes of itself;
-- `other` is anything else.
pub data Object : Type 0 where
  file : ℕ → Text → Text → Object
  manifest : List Entry → Object
  summary : Object
  version : StableVersion → Object
  other : Text → Object

-- The objects by their key below the prefix.
abbrev pub Remote : Type 0
Remote = List (Text × Object)

-- How a write or a deletion ends, after its attempts: done, or with an error and the object that it left
-- under the key. `none` is no other object than there was for a write, and no object for a deletion.
pub data Outcome : Type 0 where
  finished : Outcome
  broken : Error → Option Object → Outcome

-- What a publication meets: the reading of the manifest, the uploads and deletions by their path, the
-- orders in which they end, the writes of its own files, and the reading of `summary.json`.
pub record Outside : Type 0 where
  pub read_manifest : Option Error
  pub upload : Text → Outcome
  pub upload_order : List Entry → List Entry
  pub delete : Text → Outcome
  pub delete_order : List Text → List Text
  pub write : Text → Outcome
  pub read_summary : Option Error

abbrev pub files_key : Text
files_key = utf8 "_sirius/files.jsonl"

abbrev pub summary_key : Text
summary_key = utf8 "_sirius/summary.json"

abbrev pub version_key : Text
version_key = utf8 "_sirius/version.json"

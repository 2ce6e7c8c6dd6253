-- ===== src/Jobs/Types.antt =====
-- src/jobs.rs: errors, statuses, requests, jobs, completion notices, the ledger and the store.
use sirius_asset_updater.Base.{
  ℕ, Text, Bool, true, false, not, ◌&&◌, ◌||◌, Option, List, ◌==◌, ◌≡◌, leb, ltb, length, all,
}
use sirius_asset_updater.Base.Strings.{is_alphanumeric, is_lower_hex}
use sirius_asset_updater.Region.{Region, cn, region_eq}
use sirius_asset_updater.Verify.{Verification}

pub data JobError : Type 0 where
  locked invalid full not_found conflict storage : JobError

pub data JobResult {ℓ} (A : Type ℓ) : Type ℓ where
  ok : A → JobResult A
  err : JobError → JobResult A

pub ok-injective {ℓ} : {A : Type ℓ} {a b : A} → ok a ≡ ok b → a ≡ b
ok-injective h = cc

pub err-injective {ℓ} :
    {A : Type ℓ} {e f : JobError} → ◌≡◌ {A = JobResult A} (err e) (err f) → e ≡ f
err-injective h = cc

pub data Status : Type 0 where
  queued running cancelling completed failed cancelled : Status

abbrev pub terminal : Status → Bool
terminal completed = true
terminal failed = true
terminal cancelled = true
terminal _ = false

abbrev pub occupies_slot : Status → Bool
occupies_slot running = true
occupies_slot cancelling = true
occupies_slot _ = false

-- `== Status::Queued` and `== Status::Completed`.
abbrev pub is_queued : Status → Bool
is_queued queued = true
is_queued _ = false

abbrev pub is_completed : Status → Bool
is_completed completed = true
is_completed _ = false

pub data Operation : Type 0 where
  update export verify : Operation

pub record Request : Type 0 where
  pub region : Region
  pub profile : Text
  pub operation : Operation

pub record Progress : Type 0 where
  pub phase : Text
  pub completed : ℕ
  pub failed : ℕ
  pub total : Option ℕ
  pub bytes : ℕ

pub record ExportOutcome : Type 0 where
  pub full_export : Bool
  pub retained : Bool
  pub files : ℕ
  pub bytes : ℕ
  pub failed : ℕ

pub record Outcome : Type 0 where
  pub verification : Verification
  pub export : Option ExportOutcome
  pub publication_id : Option Text

-- Times are `DateTime<Utc>` values, as numbers that order the same.
pub record Job : Type 0 where
  pub id : Text
  pub request : Request
  pub status : Status
  pub created_at : ℕ
  pub updated_at : ℕ
  pub progress : Progress
  pub failure : Option Text
  pub retry_of : Option Text
  pub outcome : Option Outcome
  pub idempotency_sha256 : Option Text

pub record Completion : Type 0 where
  pub schema_version : ℕ
  pub job_id : Text
  pub request : Request
  pub outcome : Outcome
  pub completed_at : ℕ

pub record CompletionDelivery : Type 0 where
  pub event : Completion
  pub pending_targets : List Text

pub record CompletionTarget : Type 0 where
  pub region : Region
  pub identity : Text

abbrev pub max_completion_events : ℕ
max_completion_events = 4096

pub record Ledger : Type 0 where
  pub schema_version : ℕ
  pub jobs : List Job
  pub completions : List CompletionDelivery

pub record Limits : Type 0 where
  pub max_running : ℕ
  pub max_queued : ℕ
  pub retain_terminal : ℕ

-- `file` is the content of `jobs.json`, `none` where there is none; `JobStore` of the source reads
-- and replaces that file under its owner lock.
pub record JobStore : Type 0 where
  pub completion_targets : List CompletionTarget
  pub file : Option Text
  pub ledger : Ledger
  pub limits : Limits

-- What the store calls and does not implement: the UUID parser, SHA-256 in hexadecimal, the
-- serializer and the parser of JSON. `encode_event` is `none` where serialization fails.
pub record Library : Type 0 where
  pub is_uuid : Text → Bool
  pub sha256_hex : Text → Text
  pub encode_event : Completion → Option Text
  pub encode_ledger : Ledger → Option Text
  pub decode_ledger : Text → Option Ledger

-- What one call reads from outside: the clock, a random UUID, and whether the temporary file is
-- written, synced and renamed over `jobs.json`.
pub record Outside : Type 0 where
  pub now : ℕ
  pub new_id : Text
  pub persisted : Bool

unfoldable pub target_identity : Text → Bool
target_identity value = (length value == 64) && all is_lower_hex value

unfoldable pub profile_byte : ℕ → Bool
profile_byte c = is_alphanumeric c || c == b'_' || c == b'-'

unfoldable pub valid_request : Request → Bool
valid_request r =
    not (region_eq r.region cn)
    && ltb 0 (length r.profile)
    && leb (length r.profile) 64
    && all profile_byte r.profile

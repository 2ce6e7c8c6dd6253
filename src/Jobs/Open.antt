-- ===== src/Jobs/Open.antt =====
-- src/jobs.rs: `JobStore::open`, which validates the stored ledger and fails interrupted jobs.
use sirius_asset_updater.Base.{
  Text, utf8, text_eq, Bool, true, not, ◌&&◌, ◌||◌, Option, none, some, List, [], ◌∷◌, map, ltb,
  ◌==◌, length, any, all, if◌then◌else◌,
}
use sirius_asset_updater.Base.Strings.{is_lower_hex}
use sirius_asset_updater.Region.{region_eq}
use sirius_asset_updater.Jobs.Types.{
  JobResult, ok, err, invalid, storage, locked, failed, Job, CompletionDelivery, Ledger, Limits,
  JobStore, Library, Outside, occupies_slot, max_completion_events, target_identity, valid_request,
}
use sirius_asset_updater.Jobs.Ledger.{bounded_completion, commit}

-- What the state directory holds: it cannot be used, its lock is taken, `jobs.json` cannot be
-- read, there is none, or its bytes.
pub data Directory : Type 0 where
  unusable owned unreadable absent : Directory
  content : Text → Directory

-- A set insertion that fails on a member.
unfoldable pub seen : Text → List Text → Bool
seen id ids = any (text_eq id) ids

unfoldable pub valid_targets : List Text → List Text → Bool
valid_targets ids [] = true
valid_targets ids (t ∷ ts) = target_identity t && not (seen t ids) && valid_targets (t ∷ ids) ts

unfoldable pub valid_key : List Text → Option Text → Bool
valid_key keys none = true
valid_key keys (some k) = length k == 64 && all is_lower_hex k && not (seen k keys)

abbrev add_key : Option Text → List Text → List Text
add_key none keys = keys
add_key (some k) keys = k ∷ keys

unfoldable pub interrupt : Outside → Job → Job
interrupt out j =
    if occupies_slot j.status
    then record j {
      status = failed;
      outcome = none;
      failure = some (utf8 "service_interrupted");
      updated_at = out.now;
    }
    else j

abbrev pub empty_ledger : Ledger
empty_ledger = record { schema_version = 2; jobs = []; completions = [] }

unfoldable pub loaded : Outside → Limits → Option Text → Ledger → JobStore
loaded out limits file l = record {
  completion_targets = [];
  file = file;
  ledger = record l { jobs = map (interrupt out) l.jobs };
  limits = limits;
}

module _ (lib : Library) where
  unfoldable pub valid_delivery : List Text → CompletionDelivery → Bool
  valid_delivery events d =
      bounded_completion lib d.event
      && d.event.schema_version == 1
      && lib.is_uuid d.event.job_id
      && not (seen d.event.job_id events)
      && valid_request d.event.request
      && region_eq d.event.outcome.verification.region d.event.request.region
      && ltb 0 (length d.pending_targets)
      && not (ltb 16 (length d.pending_targets))
      && valid_targets [] d.pending_targets

  unfoldable pub valid_deliveries : List Text → List CompletionDelivery → Bool
  valid_deliveries events [] = true
  valid_deliveries events (d ∷ ds) =
      valid_delivery events d && valid_deliveries (d.event.job_id ∷ events) ds

  unfoldable pub valid_jobs : List Text → List Text → List Job → Bool
  valid_jobs ids keys [] = true
  valid_jobs ids keys (j ∷ js) =
      valid_key keys j.idempotency_sha256
      && lib.is_uuid j.id
      && not (seen j.id ids)
      && valid_request j.request
      && valid_jobs (j.id ∷ ids) (add_key j.idempotency_sha256 keys) js

  unfoldable pub valid_ledger : Ledger → Bool
  valid_ledger l =
      (l.schema_version == 1 || l.schema_version == 2)
      && not (ltb max_completion_events (length l.completions))
      && valid_deliveries [] l.completions
      && valid_jobs [] [] l.jobs

  unfoldable pub read_ledger : Directory → JobResult (Option Text × Ledger)
  read_ledger unusable = err storage
  read_ledger owned = err locked
  read_ledger unreadable = err storage
  read_ledger absent = ok (none, empty_ledger)
  read_ledger (content bytes) = elim (lib.decode_ledger bytes) [
    | none ↦ err storage
    | some l ↦ ok (some bytes, l)
  ]

  -- `store.commit(store.ledger.clone())?; Ok(store)`.
  unfoldable pub recommit : Outside → JobStore → JobResult JobStore
  recommit out s =
      let (r, s') = commit lib out s.ledger s in elim r [ ok _ ↦ ok s' | err e ↦ err e ]

  unfoldable pub open_store : Outside → Limits → Directory → JobResult JobStore
  open_store out limits dir =
      if limits.max_running == 0 || limits.max_queued == 0
      then err invalid
      else elim (read_ledger dir) [
        | err e ↦ err e
        | ok (file, l) ↦
            if valid_ledger l then recommit out (loaded out limits file l) else err storage
      ]

-- ===== src/Tests/Sample.antt =====
-- src/jobs.rs: a ledger of two jobs, one of them interrupted by a restart, and a store in which it runs.
use sirius_asset_updater.Base.{
  ℕ, Text, utf8, text_eq, true, Option, none, some, List, [], ◌∷◌, ◌++◌, map, refl, arith, ltb,
  length,
}
use sirius_asset_updater.Region.{Region, jp, en}
use sirius_asset_updater.Jobs.Types.{
  Status, queued, running, completed, failed, update, Request, Job, Outcome, CompletionTarget,
  Ledger, Limits, JobStore, Library, Outside,
}
use sirius_asset_updater.Jobs.Ledger.{completion_of}
use sirius_asset_updater.Jobs.Store.{empty_progress}
use sirius_asset_updater.Jobs.Reservation.{IsReserved}
use sirius_asset_updater.Jobs.Retention.{IsUnique}

abbrev pub request_in : Region → Request
request_in r = record { region = r; profile = 112 ∷ []; operation = update }

abbrev pub job : Text → Region → Status → Option Text → ℕ → Job
job id r st failure at = record {
  id = id;
  request = request_in r;
  status = st;
  created_at = 1;
  updated_at = at;
  progress = empty_progress;
  failure = failure;
  retry_of = none;
  outcome = none;
  idempotency_sha256 = none;
}

abbrev pub stored : Ledger
stored = record {
  schema_version = 2;
  jobs = job (1 ∷ []) jp running none 5 ∷ job (2 ∷ []) en queued none 6 ∷ [];
  completions = [];
}

-- A serializer of the ids and the statuses that matter here, and a reader of one file.
abbrev pub lib : Library
lib = record {
  is_uuid = λ id. ltb 0 (length id);
  sha256_hex = λ key. key;
  encode_event = λ e. some e.job_id;
  encode_ledger = λ l. some (map (λ (j : Job). j.updated_at) l.jobs);
  decode_ledger = λ bytes. some stored;
}

abbrev pub at_nine : Outside
at_nine = record { now = 9; new_id = 3 ∷ []; persisted = true }

abbrev pub limits : Limits
limits = record { max_running = 1; max_queued = 4; retain_terminal = 2 }

abbrev pub eight : Text
eight = 97 ∷ 97 ∷ 97 ∷ 97 ∷ 97 ∷ 97 ∷ 97 ∷ 97 ∷ []

abbrev pub target : CompletionTarget
target = record {
  region = jp;
  identity = eight ++ eight ++ eight ++ eight ++ eight ++ eight ++ eight ++ eight;
}

abbrev pub store : List Job → List CompletionTarget → JobStore
store jobs targets = record {
  completion_targets = targets;
  file = some (map (λ (j : Job). j.updated_at) jobs);
  ledger = record { schema_version = 2; jobs = jobs; completions = [] };
  limits = limits;
}

-- What `open` makes of the stored ledger.
abbrev pub opened : JobStore
opened =
    store
      (job (1 ∷ []) jp failed (some (utf8 "service_interrupted")) 9
        ∷ job (2 ∷ []) en queued none 6
        ∷ [])
      []

-- A store in which the first job runs, and completion notices of its region are wanted.
abbrev pub busy : JobStore
busy = store (job (1 ∷ []) jp running none 5 ∷ job (2 ∷ []) en queued none 6 ∷ []) (target ∷ [])

abbrev pub outcome : Outcome
outcome = record {
  verification = record {
    full_catalog = true;
    catalog_remote_files = 7;
    catalog_verified = true;
    region = jp;
    platform = [];
    environment = [];
    resource_version = [];
    platform_hash = [];
    catalog_sha256 = [];
    asset_files_verified = 7;
    asset_bytes_verified = 900;
    planned_remote_files = 7;
    embedded_locations = 0;
    decrypted_bundles = 0;
  };
  export = none;
  publication_id = none;
}

abbrev pub done : Job
done = let j = job (1 ∷ []) jp completed none 9 in record j { outcome = some outcome }

abbrev pub after_finish : JobStore
after_finish = record {
  completion_targets = target ∷ [];
  file = some (9 ∷ 6 ∷ []);
  ledger = record {
    schema_version = 2;
    jobs = done ∷ job (2 ∷ []) en queued none 6 ∷ [];
    completions =
        record { event = completion_of done outcome; pending_targets = target.identity ∷ [] } ∷ [];
  };
  limits = limits;
}

abbrev pub keyed : Job
keyed =
    let j = job (3 ∷ []) en queued none 9 in
    record j { created_at = 9; idempotency_sha256 = some (107 ∷ []) }

abbrev pub resubmitted : JobStore
resubmitted =
    store (job (1 ∷ []) jp running none 5 ∷ job (2 ∷ []) en queued none 6 ∷ keyed ∷ [])
      (target ∷ [])

abbrev pub finished_jobs : List Job
finished_jobs =
    job (1 ∷ []) jp failed (some (97 ∷ [])) 7
    ∷ job (2 ∷ []) en queued none 6
    ∷ job (3 ∷ []) jp completed none 8
    ∷ []

pub busy-IsReserved : IsReserved busy
busy-IsReserved = omega arith

pub busy-IsUnique : IsUnique busy.ledger.jobs
unfolding text_eq
busy-IsUnique = (refl, (refl, tt))

-- ===== src/Lib.antt =====
-- The updater of game assets, modelled and proved from its sources.
--
-- The program downloads a catalog of Addressables locations, plans which files to fetch, decrypts
-- and exports them, and runs this work as jobs of a service. Its parts here:
--
-- * Region.antt is src/region.rs and Fault.antt the error type of src/lib.rs: the identities and
--   the errors that every other part uses. Verify.antt is the report of src/verify.rs that the
--   outcome of a job carries.
-- * Jobs.antt and Jobs/ are src/jobs.rs, the durable job ledger. Jobs/Types.antt holds the structs
--   (`JobStore` has the content of jobs.json as a field), Jobs/Ledger.antt `JobStore::commit`,
--   Jobs/Transitions.antt the closures that `cancel`, `progress` and `finish_with_outcome` apply to
--   one job, Jobs/Store.antt the other methods under their names, Jobs/Open.antt `JobStore::open`.
--   A method is a function of what it reads from outside (`Outside`: the clock, a UUID, whether the
--   file is replaced) and of the store, and returns its result with the next store.
--   Jobs/Calls.antt makes a history a list of calls: the service holds one lock around each.
--   Jobs/Lifecycle.antt has the graph of the statuses as a relation, Jobs/Steps.antt what each call
--   does to the store, as rules that every invariant of the other files fills.
-- * Catalog.antt and Catalog/ are src/catalog.rs: Catalog/Reader.antt is `Reader`, Catalog/Parse.antt
--   `Catalog::parse`, Catalog/Select.antt `Selection::validate` and `Catalog::select`, and
--   Assets/Priority.antt `Selection::prioritize`.
-- * Assets.antt and Assets/ are src/assets.rs: Assets/Plan.antt is `AssetConfig::validate`,
--   `safe_relative` and `Catalog::plan_with`, Assets/Decrypt.antt `BundleKey`,
--   on the bytes of a file, with the errors of the file system as inputs.
-- * Admission.antt and Admission/ are src/media_gate.rs, src/resource_budget.rs, src/cpu_policy.rs and
--   src/stage_limits.rs: what may run at once. A round of an `acquire` loop under its lock is one
--   event, so that an interleaving of threads is a list of events.
-- * ReadPolicy.antt is src/read_policy.rs.
-- * Snapshot.antt and Snapshot/ are the part of src/lib.rs that accepts a snapshot and derives its URLs
--   (Snapshot/Target.antt), and the receipt that a download writes and an offline check reads
--   (Snapshot/Receipts.antt). `Config` is without its logging and
--   network settings.
-- * Layout.antt and Layout/ are src/stable_layout.rs, the readable keys under which the outputs of an
--   export are stored: Layout/Names.antt the functions on names, Layout/Tracks.antt the sounds of a cue
--   sheet, Layout/Keys.antt `object_stem`, `object_key`, `unity_key` and `cri_key`, Layout/Claim.antt
--   `valid_key` and `claim`, Layout/Textures.antt the counts of the textures of a container,
--   Layout/Plan.antt the loop of `plan`, in the order of the resources. `ResourceReport` and
--   `OutputRecord` are of src/export.rs.
-- * ExportCache.antt and ExportCache/ are src/export_cache.rs, the cache of decoded resources:
--   ExportCache/Room.antt is `Cache::make_room`, ExportCache/Copy.antt `copy_outputs`,
--   ExportCache/Store.antt `Cache::store`, `restore` and `process`, ExportCache/Open.antt
--   `Cache::scan_and_prune`. A directory is a value, and the errors of the file system are inputs.
-- * Publish.antt and Publish/ are `Config::previous_manifest` and `Config::publish_stable` of
--   src/storage.rs (Publish/Stable.antt), which publish the plan of Layout/ under a prefix of an object
--   store. The objects are an association list; how each upload, write and deletion ends after its
--   attempts, and what it leaves, are inputs.
-- * Base.antt and Base/ hold what these share; Tests.antt and Tests/ the examples.
--
-- Strings are lists of UTF-8 bytes, machine integers are native naturals with their wrap-around or
-- saturation written out, B-tree maps are association lists in the order of their keys, hash maps in
-- any order. In Layout/ a string is its list of characters, of which the length in bytes is computed.
--
-- Fuel. `Reader::string` follows 256 links at most: its fuel is 258 rounds. The worklist of
-- `Catalog::parse` pushes no more than `MAX_LINKS` ids: its fuel is `MAX_LINKS + 1` rounds. The search
-- of `Catalog::select` pops each root and each dependency of a selected location once: its fuel is
-- their number and one. `claim` tries no more suffixes than the plan has entries: its fuel is two
-- rounds more. `make_room` evicts an entry in each round: its fuel is their number and one.
-- `strip_clones` takes a marker in each round: its fuel is the length. The loops that
-- wait (`Gate::acquire`, `Budget::acquire`) are not run but cut into rounds.
--
-- Parameters stand for code outside the repository: JSON, SHA-256 and UUIDs (`Library`), regular
-- expressions (`Regexes`), the cipher (`Crypto`), floating point (`Ratio`), class ids (`ClassIds`), the
-- case mapping of Unicode (`Unicode`), the parser of cue sheets (`CueFiles`).
--
-- Not modelled: the HTTP client and the service around the ledger (src/lib.rs, src/service.rs), the
-- export pipeline (src/export.rs and its companions), the transfers and the other layouts of
-- src/storage.rs with their credentials, the reading of resources.jsonl in src/stable_layout.rs,
-- `Cache::open` of src/export_cache.rs with the digest of its configuration, progress counters, the
-- raw download cache, logs and configuration sources, which are mostly I/O, and the FFmpeg bindings
-- (src/media_ffi).
pub mod Base
pub mod Fault
pub mod Region
pub mod Verify
pub mod Jobs
pub mod Catalog
pub mod Assets
pub mod Admission
pub mod ReadPolicy
pub mod Snapshot
pub mod Layout
pub mod ExportCache
pub mod Publish
pub mod Tests

-- ===== src/Jobs/Durability.antt =====
-- src/jobs.rs: `jobs.json` against the ledger in memory.
use sirius_asset_updater.Base.{Text, some, List, [], ◌∷◌, ◌≡◌, refl, arith}
use sirius_asset_updater.Jobs.Types.{JobError, err, JobStore, Ledger, Library, Outside}
use sirius_asset_updater.Jobs.Ledger.{commit, persist}
use sirius_asset_updater.Jobs.Calls.{Call, step, run}
use sirius_asset_updater.Jobs.Cases.{commit_cases}
use sirius_asset_updater.Jobs.Steps.{Keeps, step_keeps}

-- The file is the serialized ledger.
abbrev pub IsDurable : Library → JobStore → Type 0
IsDurable lib s = (bytes : Text) × (s.file ≡ some bytes) × (lib.encode_ledger s.ledger ≡ some bytes)

module _ (lib : Library) where
  commit-IsDurable :
      (out : Outside) (l : Ledger) (s : JobStore)
      → IsDurable lib s
      → IsDurable lib (commit lib out l s).1
  commit-IsDurable out l s h =
      commit_cases lib (IsDurable lib) out l s h (λ cs file _ enc. (file, refl, enc))

  IsDurable-rules : Keeps lib (IsDurable lib)
  IsDurable-rules = record {
    configured = λ s targets h _. h;
    added = λ s out request retry_of key h _ _ _. commit-IsDurable out _ s h;
    claimed = λ s out p h _ _. commit-IsDurable out _ s h;
    edited = λ s out id p j h _ _. commit-IsDurable out _ s h;
    acked = λ s out id target p h _. commit-IsDurable out _ s h;
  }

  -- If the file on disk is the serialized ledger in memory, so it is after any calls, failed ones included.
  pub run-IsDurable :
      (s : JobStore) (calls : List (Outside × Call))
      → IsDurable lib s
      → IsDurable lib (run lib s calls)
  unfolding run
  run-IsDurable s [] h = h
  run-IsDurable s (c ∷ cs) h =
      run-IsDurable (step lib s c) cs (step_keeps lib (IsDurable lib) IsDurable-rules s h c)

  commit_failed :
      (out : Outside) (l : Ledger) (s : JobStore) (e : JobError)
      → (commit lib out l s).0 ≡ err e
      → (commit lib out l s).1 ≡ s
  unfolding commit persist
  commit_failed out l s e h = ground arith

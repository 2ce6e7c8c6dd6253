-- ===== src/Jobs/Ledger.antt =====
-- src/jobs.rs: `JobStore::commit`, which records completion notices, drops old terminal jobs and
-- replaces the ledger, on disk first.
use sirius_asset_updater.Base.{
  ℕ, zero, suc, ◌-◌, Text, text_eq, text_leb, Bool, false, not, ◌&&◌, ◌||◌, Option, none, some,
  List, [], ◌∷◌, ◌++◌, map, leb, ltb, ◌==◌, length, any, filter, take, sort, if◌then◌else◌,
}
use sirius_asset_updater.Region.{Region, region_eq}
use sirius_asset_updater.Jobs.Types.{
  JobResult, ok, err, full, invalid, storage, Job, Outcome, CompletionTarget, CompletionDelivery,
  Completion, Ledger, JobStore, Library, Outside, is_completed, terminal, max_completion_events,
}

-- A method of the store.
abbrev pub Action : Type 0 → Type 0
Action A = JobStore → JobResult A × JobStore

-- `?` on a call that returns `()`, then `Ok(a)`.
abbrev pub reply {ℓ κ} :
    {A : Type ℓ} {U : Type κ} → A → JobResult U × JobStore → JobResult A × JobStore
reply a (ok _, s) = (ok a, s)
reply a (err e, s) = (err e, s)

-- Already completed in the ledger that is being replaced.
unfoldable pub was_completed : List Job → Text → Bool
was_completed old id = any (λ (o : Job). text_eq o.id id && is_completed o.status) old

unfoldable pub targets_of : List CompletionTarget → Region → List Text
targets_of ts r =
    map (λ (t : CompletionTarget). t.identity)
      (filter (λ (t : CompletionTarget). region_eq t.region r) ts)

abbrev pub completion_of : Job → Outcome → Completion
completion_of j o = record {
  schema_version = 1;
  job_id = j.id;
  request = j.request;
  outcome = o;
  completed_at = j.updated_at;
}

-- The order of the pairs (`updated_at`, `id`).
unfoldable pub stamp_leb : ℕ × Text → ℕ × Text → Bool
stamp_leb (t, i) (u, j) = ltb t u || t == u && text_leb i j

abbrev pub stamp : Job → ℕ × Text
stamp j = (j.updated_at, j.id)

-- The terminal jobs, oldest first.
unfoldable pub terminal_stamps : List Job → List (ℕ × Text)
terminal_stamps jobs = sort stamp_leb (map stamp (filter (λ (j : Job). terminal j.status) jobs))

abbrev pub stamped : Text → List (ℕ × Text) → Bool
stamped id ids = any (λ (p : ℕ × Text). text_eq p.1 id) ids

abbrev pub oldest : ℕ → List (ℕ × Text) → List (ℕ × Text)
oldest retain stamps = take (length stamps - retain) stamps

-- `retain_terminal == 0` keeps every job.
unfoldable pub retain_jobs : ℕ → List Job → List Job
unfolding terminal_stamps
retain_jobs zero jobs = jobs
retain_jobs (suc k) jobs =
    filter (λ (j : Job). not (stamped j.id (oldest (suc k) (terminal_stamps jobs)))) jobs

module _ (lib : Library) where
  unfoldable pub bounded_completion : Completion → Bool
  bounded_completion event = elim (lib.encode_event event) [
    | none ↦ false
    | some bytes ↦ leb (length bytes) 65536
  ]

  unfoldable pub deliver :
      Job → Outcome → List Text → List CompletionDelivery → JobResult (List CompletionDelivery)
  deliver j o [] cs = ok cs
  deliver j o (t ∷ ts) cs =
      if leb max_completion_events (length cs)
      then err full
      else if not (bounded_completion (completion_of j o))
      then err invalid
      else ok (cs ++ record { event = completion_of j o; pending_targets = t ∷ ts } ∷ [])

  abbrev pub deliver_outcome :
      List CompletionTarget
      → Job
      → Option Outcome
      → List CompletionDelivery
      → JobResult (List CompletionDelivery)
  deliver_outcome ts j none cs = ok cs
  deliver_outcome ts j (some o) cs = deliver j o (targets_of ts j.request.region) cs

  -- The body of the loop over the jobs of the new ledger.
  unfoldable pub record_completion :
      JobStore → Job → List CompletionDelivery → JobResult (List CompletionDelivery)
  record_completion s j cs =
      if not (is_completed j.status) || was_completed s.ledger.jobs j.id
      then ok cs
      else deliver_outcome s.completion_targets j j.outcome cs

  unfoldable pub record_completions :
      JobStore → List Job → List CompletionDelivery → JobResult (List CompletionDelivery)
  record_completions s [] cs = ok cs
  record_completions s (j ∷ js) cs = elim (record_completion s j cs) [
    | err e ↦ err e
    | ok cs' ↦ record_completions s js cs'
  ]

  -- The serialized ledger replaces the file, then the ledger in memory.
  unfoldable pub persist : Outside → Ledger → Action (Unit {0})
  persist out l s = elim (lib.encode_ledger l) [
    | none ↦ (err storage, s)
    | some bytes ↦
        if out.persisted
        then (ok tt, record s { file = some bytes; ledger = l })
        else (err storage, s)
  ]

  unfoldable pub commit : Outside → Ledger → Action (Unit {0})
  commit out l s = elim (record_completions s l.jobs l.completions) [
    | err e ↦ (err e, s)
    | ok cs ↦
        persist out
          (record {
            schema_version = 2;
            jobs = retain_jobs s.limits.retain_terminal l.jobs;
            completions = cs;
          })
          s
  ]

-- ===== src/Jobs/Atomicity.antt =====
-- src/jobs.rs: the store after a method that fails.
use sirius_asset_updater.Base.{Text, Option, none, some, List, [], ◌∷◌, ◌++◌, ◌≡◌, refl, arith}
use sirius_asset_updater.Jobs.Types.{
  JobError, JobResult, ok, err, Job, JobStore, Ledger, Library, Outside, Request, Progress, Outcome,
  CompletionTarget,
}
use sirius_asset_updater.Jobs.Ledger.{commit, persist, reply}
use sirius_asset_updater.Jobs.Transitions.{cancel_job, progress_job, finish_job}
use sirius_asset_updater.Jobs.Calls.{
  Call, configures, submits, resubmits, retries, claims, cancels, reports, finishes, acknowledges,
  step, failure_of, error_of-some,
}
use sirius_asset_updater.Jobs.Store.{
  with_jobs, new_job, enqueue, submit, submit_idempotent, retry, claim, mutate, cancel, progress,
  finish_with_outcome, acknowledge_completion, configure_completions,
}

-- The outcome of a method: if it is an error, the store is the one before.
abbrev pub IsAtomic : {A : Type 0} → JobStore → JobResult A × JobStore → Type 0
IsAtomic s r = (e : JobError) → r.0 ≡ err e → r.1 ≡ s

module _ (lib : Library) (out : Outside) (s : JobStore) where
  commit-IsAtomic : (l : Ledger) → IsAtomic s (commit lib out l s)
  unfolding commit persist
  commit-IsAtomic l e h = ground arith

  reply-IsAtomic :
      {A : Type 0} (a : A) (r : JobResult (Unit {0}) × JobStore)
      → IsAtomic s r
      → IsAtomic s (reply a r)
  reply-IsAtomic a (ok u, t) h e p = absurd (cc)
  reply-IsAtomic a (err x, t) h e p = h x refl

  done-IsAtomic : (a : Job) (l : Ledger) → IsAtomic s (reply a (commit lib out l s))
  done-IsAtomic a l = reply-IsAtomic a (commit lib out l s) (commit-IsAtomic l)

  claimed-IsAtomic : (a : Option Job) (l : Ledger) → IsAtomic s (reply a (commit lib out l s))
  claimed-IsAtomic a l = reply-IsAtomic a (commit lib out l s) (commit-IsAtomic l)

  enqueue-IsAtomic :
      (request : Request) (retry_of key : Option Text)
      → IsAtomic s (enqueue lib out request retry_of key s)
  unfolding enqueue
  enqueue-IsAtomic request retry_of key e h = ground (
    arith,
    done-IsAtomic (new_job out request retry_of key)
        (with_jobs s (s.ledger.jobs ++ new_job out request retry_of key ∷ [])) e,
  )

  mutate-IsAtomic :
      (id : Text) (apply : Job → JobResult Job) → IsAtomic s (mutate lib out id apply s)
  unfolding mutate
  mutate-IsAtomic id apply e h = grind (arith, done-IsAtomic)

  submit_idempotent-IsAtomic :
      (request : Request) (key : Text) → IsAtomic s (submit_idempotent lib out request key s)
  unfolding submit_idempotent
  submit_idempotent-IsAtomic request key e h =
      ground (arith, enqueue-IsAtomic request none (some (lib.sha256_hex key)) e)

  retry-IsAtomic : (id : Text) → IsAtomic s (retry lib out id s)
  unfolding retry
  retry-IsAtomic id e h = grind (arith, enqueue-IsAtomic)

  acknowledge_completion-IsAtomic :
      (job target : Text) → IsAtomic s (acknowledge_completion lib out job target s)
  unfolding acknowledge_completion
  acknowledge_completion-IsAtomic job target e h = grind (arith, commit-IsAtomic)

  claim-IsAtomic : IsAtomic s (claim lib out s)
  unfolding claim
  claim-IsAtomic e h = grind (arith, claimed-IsAtomic)

  configure-IsAtomic :
      (targets : List CompletionTarget) → IsAtomic s (configure_completions targets s)
  unfolding configure_completions
  configure-IsAtomic targets e h = ground arith

  progress-IsAtomic : (id : Text) (p : Progress) → IsAtomic s (progress lib out id p s)
  unfolding progress
  progress-IsAtomic id p e h = ground (arith, mutate-IsAtomic id (progress_job p) e)

  finish-IsAtomic :
      (id : Text) (failure : Option Text) (outcome : Option Outcome)
      → IsAtomic s (finish_with_outcome lib out id failure outcome s)
  unfolding finish_with_outcome
  finish-IsAtomic id failure outcome e h =
      ground (arith, mutate-IsAtomic id (finish_job failure outcome) e)

-- A call that fails, for whatever reason, leaves the whole store as it was: ledger, recipients and
-- file.
pub failed_step-same :
    (lib : Library) (s : JobStore) (c : Outside × Call) (e : JobError)
    → failure_of lib s c ≡ some e
    → step lib s c ≡ s
unfolding failure_of step submit cancel
failed_step-same lib s (out, configures targets) e h =
    configure-IsAtomic lib out s targets e (error_of-some _ e h)
failed_step-same lib s (out, submits request) e h =
    enqueue-IsAtomic lib out s request none none e (error_of-some _ e h)
failed_step-same lib s (out, resubmits request key) e h =
    submit_idempotent-IsAtomic lib out s request key e (error_of-some _ e h)
failed_step-same lib s (out, retries id) e h = retry-IsAtomic lib out s id e (error_of-some _ e h)
failed_step-same lib s (out, claims) e h = claim-IsAtomic lib out s e (error_of-some _ e h)
failed_step-same lib s (out, cancels id) e h =
    mutate-IsAtomic lib out s id cancel_job e (error_of-some _ e h)
failed_step-same lib s (out, reports id p) e h =
    progress-IsAtomic lib out s id p e (error_of-some _ e h)
failed_step-same lib s (out, finishes id failure outcome) e h =
    finish-IsAtomic lib out s id failure outcome e (error_of-some _ e h)
failed_step-same lib s (out, acknowledges job target) e h =
    acknowledge_completion-IsAtomic lib out s job target e (error_of-some _ e h)

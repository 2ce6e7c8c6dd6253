-- ===== src/Jobs/Steps.antt =====
-- src/jobs.rs: the changes that the methods of `JobStore` commit, and a rule for invariants of all calls.
use sirius_asset_updater.Base.{
  Text, text_eq, refl, true, false, not, ◌||◌, Option, none, some, List, [], ◌∷◌, ◌++◌, ◌≡◌, inl,
  inr, Bool-cases, Option-cases, Split, SplitsAt, split_first, split_first-SplitsAt, ltb, length,
  count_if, all, any, ◌==◌, ◌+◌,
}
use sirius_asset_updater.Jobs.Types.{
  JobResult, ok, Status, queued, running, cancelling, completed, failed, cancelled, Request, Job,
  CompletionDelivery, CompletionTarget, JobStore, Library, Outside, Outcome, Progress,
  target_identity, valid_request, is_queued, max_completion_events,
}
use sirius_asset_updater.Jobs.Ledger.{commit}
use sirius_asset_updater.Jobs.Transitions.{
  cancel_job, progress_job, finish_job, bad_progress, bad_failure_code,
}
use sirius_asset_updater.Jobs.Lifecycle.{
  IsEdit, cancel_job-IsEdit, progress_job-IsEdit, finish_job-IsEdit,
}
use sirius_asset_updater.Jobs.Store.{
  with_jobs, by_id, new_job, enqueue, completions_full, submit, submit_idempotent, retry, retry_job,
  start, runnable, active_regions, mutate, cancel, progress, finish_with_outcome, acknowledged,
  acknowledge_completion, of_event, get, configure_completions, bad_targets, reserves, has_key,
  request_eq, key_byte,
}
use sirius_asset_updater.Jobs.Calls.{
  Call, configures, submits, resubmits, retries, claims, cancels, reports, finishes, acknowledges,
  step,
}
use sirius_asset_updater.Jobs.Cases.{enqueue_cases, claim_cases, mutate_cases}

-- What holds of the store after every change that a call makes to `s`, with what it reads from
-- outside.
pub record Rules {ℓ} (lib : Library) (P : JobStore → Type ℓ) (s : JobStore) (out : Outside)
    : Type ℓ where
  pub configured :
      (targets : List CompletionTarget)
      → ltb max_completion_events
          (count_if (reserves targets) s.ledger.jobs + length s.ledger.completions)
        ≡ false
      → P (record s { completion_targets = targets })
  pub added :
      (request : Request) (retry_of key : Option Text)
      → valid_request request ≡ true
      → ltb (count_if (λ (j : Job). is_queued j.status) s.ledger.jobs) s.limits.max_queued ≡ true
      → completions_full s request.region ≡ false
      → P
          (commit lib out
            (with_jobs s (s.ledger.jobs ++ new_job out request retry_of key ∷ []))
            s).1
  pub claimed :
      (p : Split Job)
      → ltb (length (active_regions s.ledger.jobs)) s.limits.max_running ≡ true
      → SplitsAt (runnable (active_regions s.ledger.jobs)) s.ledger.jobs p
      → P (commit lib out (with_jobs s (p.before ++ start out p.found ∷ p.after)) s).1
  pub edited :
      (id : Text) (p : Split Job) (j : Job)
      → SplitsAt (by_id id) s.ledger.jobs p
      → IsEdit p.found j
      → let job = record j { updated_at = out.now } in
        P (commit lib out (with_jobs s (p.before ++ job ∷ p.after)) s).1
  pub acked :
      (id target : Text) (p : Split CompletionDelivery)
      → SplitsAt (of_event id) s.ledger.completions p
      → let l = s.ledger in
        P (commit lib out (record l { completions = acknowledged p target }) s).1

module _ {ℓ} (lib : Library) (P : JobStore → Type ℓ) (s : JobStore) (out : Outside)
    (k : Rules lib P s out) (h : P s) where
  configure_keeps : (targets : List CompletionTarget) → P (configure_completions targets s).1
  unfolding configure_completions
  configure_keeps targets = elim (Bool-cases (ltb 16 (length targets) || bad_targets [] targets)) [
    | inl bad ↦ rw bad h
    | inr good ↦
        elim (Bool-cases (
          ltb max_completion_events
            (count_if (reserves targets) s.ledger.jobs + length s.ledger.completions))) [
              | inl full ↦ rw (good, full) h
              | inr room ↦ rw (good, room) (k.configured targets room)
            ]
  ]

  enqueue_keeps :
      (request : Request) (retry_of key : Option Text)
      → P (enqueue lib out request retry_of key s).1
  enqueue_keeps request retry_of key =
      enqueue_cases lib P out request retry_of key s h (k.added request retry_of key)

  submit_idempotent_keeps :
      (request : Request) (key : Text) → P (submit_idempotent lib out request key s).1
  unfolding submit_idempotent
  submit_idempotent_keeps request key =
      elim (Bool-cases (
        not (valid_request request)
        || length key == 0
        || ltb 128 (length key)
        || not (all key_byte key))) [
          | inl bad ↦ rw bad h
          | inr good ↦
              elim (Option-cases (split_first (has_key (lib.sha256_hex key)) s.ledger.jobs)) [
                | inl e ↦ rw (good, e) (enqueue_keeps request none (some (lib.sha256_hex key)))
                | inr (p, e) ↦ elim (Bool-cases (request_eq p.found.request request)) [
                  | inl same ↦ rw (good, e) (rw same h)
                  | inr other ↦ rw (good, e) (rw other h)
                ]
              ]
        ]

  retry_keeps : (id : Text) → P (retry lib out id s).1
  unfolding retry
  retry_keeps id = elim (Option-cases (get s id)) [
    | inl e ↦ rw (e, retry) h
    | inr (j, e) ↦ rw (e, retry) (at j j.status refl)
  ]
    where
      at : (j : Job) (st : Status) → j.status ≡ st → P (retry_job lib out id j s).1
      at j queued e = rw (e, retry_job) h
      at j running e = rw (e, retry_job) h
      at j cancelling e = rw (e, retry_job) h
      at j completed e = rw (e, retry_job) h
      at j failed e = rw (e, retry_job) (enqueue_keeps j.request (some id) none)
      at j cancelled e = rw (e, retry_job) (enqueue_keeps j.request (some id) none)

  mutate_keeps :
      (id : Text) (apply : Job → JobResult Job)
      → ((j j' : Job) → apply j ≡ ok j' → IsEdit j j')
      → P (mutate lib out id apply s).1
  mutate_keeps id apply edit =
      mutate_cases lib P out id apply s h (λ p j at e. k.edited id p j at (edit p.found j e))

  progress_keeps : (id : Text) (p : Progress) → P (progress lib out id p s).1
  unfolding progress
  progress_keeps id p = elim (Bool-cases (bad_progress p)) [
    | inl bad ↦ rw bad h
    | inr good ↦ rw good (mutate_keeps id (progress_job p) (progress_job-IsEdit p))
  ]

  finish_keeps :
      (id : Text) (failure : Option Text) (outcome : Option Outcome)
      → P (finish_with_outcome lib out id failure outcome s).1
  unfolding finish_with_outcome
  finish_keeps id failure outcome = elim (Bool-cases (bad_failure_code failure)) [
    | inl bad ↦ rw bad h
    | inr good ↦
        rw good (mutate_keeps id (finish_job failure outcome) (finish_job-IsEdit failure outcome))
  ]

  acknowledge_keeps : (job target : Text) → P (acknowledge_completion lib out job target s).1
  unfolding acknowledge_completion
  acknowledge_keeps job target =
      elim (Bool-cases (not (target_identity target) || not (lib.is_uuid job))) [
        | inl bad ↦ rw bad h
        | inr good ↦ elim (Option-cases (split_first (of_event job) s.ledger.completions)) [
          | inl e ↦ rw (good, e) h
          | inr (p, e) ↦
              elim (Bool-cases
                (not (any (λ (t : Text). text_eq t target) p.found.pending_targets))) [
                  | inl gone ↦ rw (good, e) (rw gone h)
                  | inr pending ↦
                      rw (good, e)
                        (rw pending (k.acked job target p (split_first-SplitsAt _ _ p e)))
                ]
        ]
      ]

  -- Any call ends in what the five changes end in.
  pub step_rule : (c : Call) → P (step lib s (out, c))
  unfolding step submit cancel
  step_rule (configures targets) = configure_keeps targets
  step_rule (submits request) = enqueue_keeps request none none
  step_rule (resubmits request key) = submit_idempotent_keeps request key
  step_rule (retries id) = retry_keeps id
  step_rule claims = claim_cases lib P out s h (k.claimed)
  step_rule (cancels id) = mutate_keeps id cancel_job cancel_job-IsEdit
  step_rule (reports id p) = progress_keeps id p
  step_rule (finishes id failure outcome) = finish_keeps id failure outcome
  step_rule (acknowledges job target) = acknowledge_keeps job target

-- An invariant of the store: what it needs of each change.
pub record Keeps {ℓ} (lib : Library) (P : JobStore → Type ℓ) : Type ℓ where
  pub configured :
      (s : JobStore) (targets : List CompletionTarget)
      → P s
      → ltb max_completion_events
          (count_if (reserves targets) s.ledger.jobs + length s.ledger.completions)
        ≡ false
      → P (record s { completion_targets = targets })
  pub added :
      (s : JobStore) (out : Outside) (request : Request) (retry_of key : Option Text)
      → P s
      → valid_request request ≡ true
      → ltb (count_if (λ (j : Job). is_queued j.status) s.ledger.jobs) s.limits.max_queued ≡ true
      → completions_full s request.region ≡ false
      → P
          (commit lib out
            (with_jobs s (s.ledger.jobs ++ new_job out request retry_of key ∷ []))
            s).1
  pub claimed :
      (s : JobStore) (out : Outside) (p : Split Job)
      → P s
      → ltb (length (active_regions s.ledger.jobs)) s.limits.max_running ≡ true
      → SplitsAt (runnable (active_regions s.ledger.jobs)) s.ledger.jobs p
      → P (commit lib out (with_jobs s (p.before ++ start out p.found ∷ p.after)) s).1
  pub edited :
      (s : JobStore) (out : Outside) (id : Text) (p : Split Job) (j : Job)
      → P s
      → SplitsAt (by_id id) s.ledger.jobs p
      → IsEdit p.found j
      → let job = record j { updated_at = out.now } in
        P (commit lib out (with_jobs s (p.before ++ job ∷ p.after)) s).1
  pub acked :
      (s : JobStore) (out : Outside) (id target : Text) (p : Split CompletionDelivery)
      → P s
      → SplitsAt (of_event id) s.ledger.completions p
      → let l = s.ledger in
        P (commit lib out (record l { completions = acknowledged p target }) s).1

-- Any call keeps an invariant that the five changes keep.
pub step_keeps {ℓ} :
    (lib : Library) (P : JobStore → Type ℓ)
    → Keeps lib P
    → (s : JobStore) → P s
    → (c : Outside × Call) → P (step lib s c)
step_keeps lib P k s h (out, c) =
    step_rule lib P s out
      (record {
        configured = λ targets. k.configured s targets h;
        added = λ request retry_of key. k.added s out request retry_of key h;
        claimed = λ p. k.claimed s out p h;
        edited = λ id p j. k.edited s out id p j h;
        acked = λ id target p. k.acked s out id target p h;
      })
      h c

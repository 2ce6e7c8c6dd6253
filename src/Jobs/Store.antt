-- ===== src/Jobs/Store.antt =====
-- src/jobs.rs: the operations of `JobStore`.

use sirius_asset_updater.Base.{
  ℕ, ◌+◌, Text, text_eq, Bool, true, false, not, ◌&&◌, ◌||◌, Option, none, some, List, [], ◌∷◌,
  ◌++◌, map, leb, ltb, ◌==◌, length, any, all, filter, count_if, Split, split_first, if◌then◌else◌,
}
use sirius_asset_updater.Base.Strings.{is_alphanumeric}
use sirius_asset_updater.Region.{Region, cn, region_eq}
use sirius_asset_updater.Jobs.Types.{
  JobResult, ok, err, full, invalid, not_found, conflict, queued, running, failed, cancelled,
  Operation, update, export, verify, Request, Progress, Job, Outcome, CompletionTarget,
  CompletionDelivery, Ledger, JobStore, Library, Outside, is_queued, occupies_slot, terminal,
  max_completion_events, target_identity, valid_request,
}
use sirius_asset_updater.Jobs.Ledger.{Action, reply, commit}
use sirius_asset_updater.Jobs.Transitions.{
  cancel_job, progress_job, bad_progress, finish_job, bad_failure_code,
}

abbrev pub operation_eq : Operation → Operation → Bool
operation_eq update update = true
operation_eq export export = true
operation_eq verify verify = true
operation_eq _ _ = false

unfoldable pub request_eq : Request → Request → Bool
request_eq r q =
    region_eq r.region q.region
    && text_eq r.profile q.profile
    && operation_eq r.operation q.operation

abbrev pub with_jobs : JobStore → List Job → Ledger
with_jobs s jobs = let l = s.ledger in record l { jobs = jobs }

abbrev pub targeted : List CompletionTarget → Region → Bool
targeted ts r = any (λ (t : CompletionTarget). region_eq t.region r) ts

-- A job that may still need a completion notice.
abbrev pub reserves : List CompletionTarget → Job → Bool
reserves ts j = not (terminal j.status) && targeted ts j.request.region

-- `targets.len() > 16`, a reserved region, a malformed or a repeated identity.
unfoldable pub bad_targets : List Text → List CompletionTarget → Bool
bad_targets seen [] = false
bad_targets seen (t ∷ ts) =
    region_eq t.region cn
    || not (target_identity t.identity)
    || any (text_eq t.identity) seen
    || bad_targets (t.identity ∷ seen) ts

unfoldable pub configure_completions : List CompletionTarget → Action (Unit {0})
unfolding bad_targets
configure_completions targets s =
    if ltb 16 (length targets) || bad_targets [] targets
    then (err invalid, s)
    else if ltb max_completion_events
        (count_if (reserves targets) s.ledger.jobs + length s.ledger.completions)
    then (err full, s)
    else (ok tt, record s { completion_targets = targets })

abbrev pub by_id : Text → Job → Bool
by_id id j = text_eq j.id id

unfoldable pub get : JobStore → Text → Option Job
get s id = elim (split_first (by_id id) s.ledger.jobs) [ none ↦ none | some p ↦ some p.found ]

abbrev pub empty_progress : Progress
empty_progress = record { phase = []; completed = 0; failed = 0; total = none; bytes = 0 }

unfoldable pub new_job : Outside → Request → Option Text → Option Text → Job
new_job out request retry_of key = record {
  id = out.new_id;
  request = request;
  status = queued;
  created_at = out.now;
  updated_at = out.now;
  progress = empty_progress;
  failure = none;
  retry_of = retry_of;
  outcome = none;
  idempotency_sha256 = key;
}

-- No room for the completion notice that this request may need.
unfoldable pub completions_full : JobStore → Region → Bool
completions_full s region =
    targeted s.completion_targets region
    && leb max_completion_events
        (length s.ledger.completions + count_if (reserves s.completion_targets) s.ledger.jobs)

abbrev pub has_key : Text → Job → Bool
has_key digest j = elim j.idempotency_sha256 [ none ↦ false | some k ↦ text_eq k digest ]

unfoldable pub key_byte : ℕ → Bool
key_byte b = is_alphanumeric b || b == b'-' || b == b'_' || b == b'.' || b == b':'

-- The regions of the running and cancelling jobs.
unfoldable pub active_regions : List Job → List Region
active_regions jobs =
    map (λ (j : Job). j.request.region) (filter (λ (j : Job). occupies_slot j.status) jobs)

unfoldable pub runnable : List Region → Job → Bool
runnable active j = is_queued j.status && not (any (region_eq j.request.region) active)

unfoldable pub start : Outside → Job → Job
start out j = record j { status = running; updated_at = out.now }

abbrev pub of_event : Text → CompletionDelivery → Bool
of_event id d = text_eq d.event.job_id id

-- `retain` on the one delivery, then on the deliveries.
unfoldable pub acknowledged : Split CompletionDelivery → Text → List CompletionDelivery
acknowledged p target =
    let d = p.found in
    filter (λ (c : CompletionDelivery). ltb 0 (length c.pending_targets))
      (p.before
        ++ record d {
          pending_targets = filter (λ (t : Text). not (text_eq t target)) d.pending_targets;
        }
          ∷ p.after)

module _ (lib : Library) where
  unfoldable pub enqueue : Outside → Request → Option Text → Option Text → Action Job
  enqueue out request retry_of key s =
      if not (valid_request request)
      then (err invalid, s)
      else if leb s.limits.max_queued (count_if (λ (j : Job). is_queued j.status) s.ledger.jobs)
      then (err full, s)
      else if completions_full s request.region
      then (err full, s)
      else let job = new_job out request retry_of key in
        reply job (commit lib out (with_jobs s (s.ledger.jobs ++ job ∷ [])) s)

  unfoldable pub submit : Outside → Request → Action Job
  submit out request = enqueue out request none none

  unfoldable pub submit_idempotent : Outside → Request → Text → Action Job
  submit_idempotent out request key s =
      if not (valid_request request)
        || length key == 0
        || ltb 128 (length key)
        || not (all key_byte key)
      then (err invalid, s)
      else elim (split_first (has_key (lib.sha256_hex key)) s.ledger.jobs) [
        | some p ↦ if request_eq p.found.request request then (ok p.found, s) else (err conflict, s)
        | none ↦ enqueue out request none (some (lib.sha256_hex key)) s
      ]

  abbrev pub retry_job : Outside → Text → Job → Action Job
  retry_job out id j s = elim j.status [
    | failed ↦ enqueue out j.request (some id) none s
    | cancelled ↦ enqueue out j.request (some id) none s
    | _ ↦ (err conflict, s)
  ]

  unfoldable pub retry : Outside → Text → Action Job
  retry out id s = elim (get s id) [ none ↦ (err not_found, s) | some j ↦ retry_job out id j s ]

  unfoldable pub claim : Outside → Action (Option Job)
  claim out s =
      let active = active_regions s.ledger.jobs in
      if leb s.limits.max_running (length active)
      then (ok none, s)
      else elim (split_first (runnable active) s.ledger.jobs) [
        | none ↦ (ok none, s)
        | some p ↦
            let job = start out p.found in
            reply (some job) (commit lib out (with_jobs s (p.before ++ job ∷ p.after)) s)
      ]

  abbrev pub mutate_at : Outside → Split Job → JobResult Job → Action Job
  mutate_at out p (err e) s = (err e, s)
  mutate_at out p (ok j) s =
      let job = record j { updated_at = out.now } in
      reply job (commit lib out (with_jobs s (p.before ++ job ∷ p.after)) s)

  unfoldable pub mutate : Outside → Text → (Job → JobResult Job) → Action Job
  mutate out id apply s = elim (split_first (by_id id) s.ledger.jobs) [
    | none ↦ (err not_found, s)
    | some p ↦ mutate_at out p (apply p.found) s
  ]

  unfoldable pub cancel : Outside → Text → Action Job
  cancel out id = mutate out id cancel_job

  unfoldable pub progress : Outside → Text → Progress → Action Job
  progress out id p s =
      if bad_progress p then (err invalid, s) else mutate out id (progress_job p) s

  unfoldable pub finish_with_outcome : Outside → Text → Option Text → Option Outcome → Action Job
  finish_with_outcome out id failure outcome s =
      if bad_failure_code failure
      then (err invalid, s)
      else mutate out id (finish_job failure outcome) s

  unfoldable pub finish : Outside → Text → Option Text → Action Job
  finish out id failure = finish_with_outcome out id failure none

  unfoldable pub acknowledge_completion : Outside → Text → Text → Action (Unit {0})
  acknowledge_completion out job_id target s =
      if not (target_identity target) || not (lib.is_uuid job_id)
      then (err invalid, s)
      else elim (split_first (of_event job_id) s.ledger.completions) [
        | none ↦ (err not_found, s)
        | some p ↦
            if not (any (λ (t : Text). text_eq t target) p.found.pending_targets)
            then (err not_found, s)
            else let l = s.ledger in
              commit lib out (record l { completions = acknowledged p target }) s
      ]

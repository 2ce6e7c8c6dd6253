-- ===== src/Jobs/Room.antt =====
-- src/jobs.rs: the room for the completion notice of a finished job.
use sirius_asset_updater.Base.{
  Text, Option, ◌≢◌, ap, ◌∙◌, arith, Split, SplitsAt, split_first, split_first-SplitsAt, Bool-cases,
  Option-cases, inl, inr,
}
use sirius_asset_updater.Jobs.Types.{
  JobResult, ok, err, err-injective, full, Job, Outcome, JobStore, Ledger, Library, Outside,
}
use sirius_asset_updater.Jobs.Ledger.{commit, persist, reply, record_completions}
use sirius_asset_updater.Jobs.Transitions.{finish_job, finished_status, bad_failure_code}
use sirius_asset_updater.Jobs.Lifecycle.{IsEdit, finish_job-IsEdit}
use sirius_asset_updater.Jobs.Store.{by_id, reserves, mutate, mutate_at, finish_with_outcome}
use sirius_asset_updater.Jobs.Cases.{JobResult-cases}
use sirius_asset_updater.Jobs.Counts.{count_if-replace, count_if-found}
use sirius_asset_updater.Jobs.Notices.{record_completions-replaced, record_completion-ne-full}
use sirius_asset_updater.Jobs.Reservation.{IsReserved, edit_takes}

module _ (lib : Library) where
  commit-ne-full :
      (out : Outside) (l : Ledger) (s : JobStore)
      → record_completions lib s l.jobs l.completions ≢ err full
      → (commit lib out l s).0 ≢ err full
  unfolding commit persist
  commit-ne-full out l s h e = ground arith

  reply-ne-full :
      (j : Job) (r : JobResult (Unit {0}) × JobStore) → r.0 ≢ err full → (reply j r).0 ≢ err full
  reply-ne-full j (ok u, s) h e = cc
  reply-ne-full j (err x, s) h e = h (cc)

  edit-ne-full :
      (s : JobStore) (out : Outside) (id : Text) (p : Split Job) (j : Job)
      → IsReserved s
      → SplitsAt (by_id id) s.ledger.jobs p
      → IsEdit p.found j
      → (mutate_at lib out p (ok j) s).0 ≢ err full
  edit-ne-full s out id p j h at edit =
      let job = record j { updated_at = out.now } in
      reply-ne-full job _ (
        commit-ne-full out _ s (
          rw (record_completions-replaced lib s _ p job s.ledger.completions at) (
            record_completion-ne-full lib s job s.ledger.completions (
              omega (
                arith,
                count_if-replace (reserves s.completion_targets) _ s.ledger.jobs p job at,
                count_if-found (reserves s.completion_targets) _ s.ledger.jobs p at,
                edit_takes s.completion_targets out p.found j edit,
              )))))

  finish_errors :
      (failure : Option Text) (outcome : Option Outcome) (j : Job)
      → finish_job failure outcome j ≢ err full
  unfolding finish_job finished_status
  finish_errors failure outcome j e = ground arith

  -- Where the notices fit, `finish_with_outcome` never fails for want of room: the notice of every
  -- unfinished job has been reserved.
  pub finish_with_outcome-ne-full :
      (s : JobStore) (out : Outside) (id : Text) (failure : Option Text) (outcome : Option Outcome)
      → IsReserved s
      → (finish_with_outcome lib out id failure outcome s).0 ≢ err full
  unfolding finish_with_outcome mutate
  finish_with_outcome-ne-full s out id failure outcome h =
      elim (Bool-cases (bad_failure_code failure)) [
        | inl bad ↦ rw bad (λ e. cc)
        | inr good ↦ elim (Option-cases (split_first (by_id id) s.ledger.jobs)) [
          | inl e ↦ rw (good, e, mutate) (λ x. cc)
          | inr (p, e) ↦ elim (JobResult-cases (finish_job failure outcome p.found)) [
            | inl (x, r) ↦
                rw (good, e, mutate)
                  (rw (r, mutate_at)
                    (λ y. finish_errors failure outcome p.found (r ∙ ap err (err-injective y))))
            | inr (j, r) ↦
                rw (good, e, mutate)
                  (rw r (
                    edit-ne-full s out id p j h (split_first-SplitsAt _ _ p e)
                      (finish_job-IsEdit failure outcome p.found j r)))
          ]
        ]
      ]

-- ===== src/Tests/Ledger.antt =====
-- src/jobs.rs: the effects of single methods at concrete stores.
use sirius_asset_updater.Jobs.Slots.{active}
use sirius_asset_updater.Base.{
  count_if, ◌↔◌, ◌≤◌, ◌<◌, text_eq, text_leb, false, not, none, some, [], ◌∷◌, ◌++◌, ◌≡◌, ◌≢◌, refl,
  ◌⊎◌, arith, any, filter, count_if, Split, SplitsAt, split_first, sort, insert_sorted,
}
use sirius_asset_updater.Base.Strings.{is_digit, is_lower, is_upper, is_alphanumeric}
use sirius_asset_updater.Region.{en}
use sirius_asset_updater.Jobs.Types.{
  ok, err, full, queued, Job, terminal, profile_byte, valid_request,
}
use sirius_asset_updater.Jobs.Ledger.{
  was_completed, targets_of, stamp_leb, terminal_stamps, retain_jobs, bounded_completion, deliver,
  record_completion, record_completions, persist, commit,
}
use sirius_asset_updater.Jobs.Transitions.{bad_failure_code, finish_job, finished_status}
use sirius_asset_updater.Jobs.Store.{
  new_job, completions_full, key_byte, active_regions, runnable, start, enqueue, submit_idempotent,
  claim, mutate, finish_with_outcome,
}
use sirius_asset_updater.Jobs.Room.{finish_with_outcome-ne-full}
use sirius_asset_updater.Jobs.Retention.{unfinished-retain_jobs, terminal-retain_jobs-le}
use sirius_asset_updater.Jobs.Claims.{can_start, claim_first, claim-none}
use sirius_asset_updater.Jobs.Delivery.{notice_for, finish_with_outcome-notice}
use sirius_asset_updater.Jobs.Resubmission.{submit_idempotent-again}
use sirius_asset_updater.Tests.Sample.{
  request_in, job, lib, at_nine, opened, busy, outcome, done, after_finish, keyed, resubmitted,
  finished_jobs, busy-IsReserved, busy-IsUnique,
}

finish_with_outcome-ne-full_example :
    (finish_with_outcome lib at_nine (1 ∷ []) none (some outcome) busy).0 ≢ err full
finish_with_outcome-ne-full_example =
    finish_with_outcome-ne-full lib busy at_nine (1 ∷ []) none (some outcome) busy-IsReserved

busy-finishes :
    finish_with_outcome lib at_nine (1 ∷ []) none (some outcome) busy ≡ (ok done, after_finish)
unfolding finish_with_outcome mutate bad_failure_code finish_job finished_status split_first commit
    record_completions record_completion was_completed deliver bounded_completion targets_of persist
    retain_jobs terminal_stamps stamp_leb text_leb text_eq sort insert_sorted
busy-finishes = refl

finish_with_outcome-notice_example :
    after_finish.ledger.completions
    ≡ busy.ledger.completions ++ notice_for busy.completion_targets done
finish_with_outcome-notice_example =
    finish_with_outcome-notice lib busy after_finish at_nine (1 ∷ []) none (some outcome) done
      busy-IsUnique busy-finishes

opened-claims :
    (claim lib at_nine opened).0 ≡ ok (some (start at_nine (job (2 ∷ []) en queued none 6)))
unfolding claim active_regions runnable start split_first commit record_completions
    record_completion was_completed persist retain_jobs terminal_stamps stamp_leb text_leb text_eq
    sort insert_sorted
opened-claims = refl

claim_first_example :
    (count_if active opened.ledger.jobs < 1)
    × ((p : Split Job) × SplitsAt (can_start opened.ledger.jobs) opened.ledger.jobs p
        × (start at_nine (job (2 ∷ []) en queued none 6) ≡ start at_nine p.found))
claim_first_example =
    claim_first lib at_nine opened (start at_nine (job (2 ∷ []) en queued none 6)) opened-claims

busy-claims : (claim lib at_nine busy).0 ≡ ok none
unfolding claim active_regions
busy-claims = refl

claim-none_example : ((claim lib at_nine busy).0 ≡ ok none) ↔ (
    (1 ≤ count_if active busy.ledger.jobs)
    ⊎ (any (can_start busy.ledger.jobs) busy.ledger.jobs ≡ false))
claim-none_example = claim-none lib at_nine busy

busy-resubmits :
    submit_idempotent lib at_nine (request_in en) (107 ∷ []) busy ≡ (ok keyed, resubmitted)
unfolding submit_idempotent valid_request profile_byte key_byte is_alphanumeric is_digit is_lower
    is_upper enqueue completions_full new_job split_first commit record_completions
    record_completion was_completed persist retain_jobs terminal_stamps stamp_leb text_leb text_eq
    sort insert_sorted
busy-resubmits = refl

submit_idempotent-again_example :
    submit_idempotent lib at_nine (request_in en) (107 ∷ []) resubmitted ≡ (ok keyed, resubmitted)
unfolding text_eq
submit_idempotent-again_example =
    submit_idempotent-again lib at_nine at_nine (request_in en) (107 ∷ []) busy resubmitted keyed
      refl busy-resubmits

unfinished-retain_jobs_example :
    filter (λ (j : Job). not (terminal j.status)) (retain_jobs 1 finished_jobs)
    ≡ filter (λ (j : Job). not (terminal j.status)) finished_jobs
unfolding text_eq
unfinished-retain_jobs_example = unfinished-retain_jobs 1 finished_jobs (refl, (refl, (refl, tt)))

terminal-retain_jobs-le_example :
    count_if (λ (j : Job). terminal j.status) (retain_jobs 1 finished_jobs) ≤ 1
terminal-retain_jobs-le_example = terminal-retain_jobs-le 1 finished_jobs (omega arith)

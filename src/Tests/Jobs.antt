-- ===== src/Tests/Jobs.antt =====
-- src/jobs.rs: the invariants of the ledger at concrete histories.
use sirius_asset_updater.Base.{
  text_eq, text_leb, none, some, [], ◌∷◌, ◌≡◌, refl, All, split_first, sort, insert_sorted,
}
use sirius_asset_updater.Base.Strings.{is_digit, is_lower, is_upper, is_alphanumeric}
use sirius_asset_updater.Region.{jp, en}
use sirius_asset_updater.Jobs.Types.{ok, not_found, profile_byte, valid_request}
use sirius_asset_updater.Jobs.Ledger.{
  was_completed, stamp_leb, terminal_stamps, retain_jobs, record_completion, record_completions,
  persist, commit,
}
use sirius_asset_updater.Jobs.Store.{mutate, cancel}
use sirius_asset_updater.Jobs.Open.{
  seen, valid_key, interrupt, loaded, valid_deliveries, valid_jobs, valid_ledger, read_ledger,
  recommit, open_store, content,
}
use sirius_asset_updater.Jobs.Calls.{submits, claims, cancels, finishes, step, run, failure_of}
use sirius_asset_updater.Jobs.Reservation.{IsReserved, run-IsReserved}
use sirius_asset_updater.Jobs.Retention.{IsUnique}
use sirius_asset_updater.Jobs.Atomicity.{failed_step-same}
use sirius_asset_updater.Jobs.Lifecycle.{IsCoherent}
use sirius_asset_updater.Jobs.History.{Comes, step-Comes, run-IsCoherent}
use sirius_asset_updater.Jobs.Identity.{step-IsUnique}
use sirius_asset_updater.Jobs.Recovery.{IsReady, opened-run-IsReady}
use sirius_asset_updater.Tests.Sample.{
  request_in, lib, at_nine, limits, opened, busy, outcome, busy-IsReserved, busy-IsUnique,
}

open_store-opened : open_store lib at_nine limits (content []) ≡ ok opened
unfolding open_store read_ledger valid_ledger valid_deliveries valid_jobs valid_key seen
    valid_request profile_byte is_alphanumeric is_digit is_lower is_upper text_eq recommit loaded
    interrupt commit record_completions record_completion was_completed persist retain_jobs
    terminal_stamps stamp_leb text_leb sort insert_sorted
open_store-opened = refl

opened-run-IsReady_example : IsReady lib (
    run lib opened
      ((at_nine, claims) ∷ (at_nine, submits (request_in en)) ∷ (at_nine, claims) ∷ []))
opened-run-IsReady_example =
    opened-run-IsReady lib at_nine limits (content []) opened
      ((at_nine, claims) ∷ (at_nine, submits (request_in en)) ∷ (at_nine, claims) ∷ [])
      open_store-opened

step-Comes_example :
    All (Comes at_nine opened.ledger.jobs) (step lib opened (at_nine, claims)).ledger.jobs
step-Comes_example = step-Comes lib opened at_nine claims

run-IsReserved_example : IsReserved (
    run lib busy ((at_nine, finishes (1 ∷ []) none none) ∷ (at_nine, submits (request_in jp)) ∷ []))
run-IsReserved_example =
    run-IsReserved lib busy
      ((at_nine, finishes (1 ∷ []) none none) ∷ (at_nine, submits (request_in jp)) ∷ [])
      busy-IsReserved

busy-cancels : failure_of lib busy (at_nine, cancels (8 ∷ [])) ≡ some not_found
unfolding failure_of cancel mutate split_first text_eq
busy-cancels = refl

failed_step-same_example : step lib busy (at_nine, cancels (8 ∷ [])) ≡ busy
failed_step-same_example =
    failed_step-same lib busy (at_nine, cancels (8 ∷ [])) not_found busy-cancels

run-IsCoherent_example :
    All IsCoherent
      (run lib busy ((at_nine, finishes (1 ∷ []) none (some outcome)) ∷ [])).ledger.jobs
run-IsCoherent_example =
    run-IsCoherent lib busy ((at_nine, finishes (1 ∷ []) none (some outcome)) ∷ [])
      ((refl, refl), ((refl, refl), tt))

step-IsUnique_example : IsUnique (step lib busy (at_nine, submits (request_in jp))).ledger.jobs
unfolding text_eq
step-IsUnique_example = step-IsUnique lib busy at_nine (submits (request_in jp)) busy-IsUnique refl

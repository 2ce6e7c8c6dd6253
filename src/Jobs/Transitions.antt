-- ===== src/Jobs/Transitions.antt =====
-- src/jobs.rs: what `cancel`, `progress` and `finish_with_outcome` check and do to one job.
use sirius_asset_updater.Base.{
  ℕ, ◌+◌, ◌-◌, ◌^◌, Text, utf8, Bool, true, false, not, ◌||◌, Option, none, some, leb, ltb, ◌==◌,
  length, all, if◌then◌else◌,
}
use sirius_asset_updater.Base.Strings.{is_alphanumeric, is_lower}
use sirius_asset_updater.Region.{region_eq}
use sirius_asset_updater.Jobs.Types.{
  JobResult, ok, err, invalid, conflict, Status, queued, running, cancelling, completed, failed,
  cancelled, Progress, Job, Outcome, is_completed, occupies_slot,
}

abbrev pub is_some {ℓ} : {A : Type ℓ} → Option A → Bool
is_some none = false
is_some (some _) = true

unfoldable pub cancelled_status : Status → JobResult Status
cancelled_status queued = ok cancelled
cancelled_status running = ok cancelling
cancelled_status cancelling = ok cancelling
cancelled_status _ = err conflict

unfoldable pub cancel_job : Job → JobResult Job
cancel_job j = elim (cancelled_status j.status) [
  | err e ↦ err e
  | ok st ↦ ok (record j { status = st })
]

unfoldable pub progress_job : Progress → Job → JobResult Job
progress_job p j =
    if not (occupies_slot j.status) then err conflict else ok (record j { progress = p })

unfoldable pub finished_status : Bool → Status → JobResult Status
finished_status fault cancelling = ok cancelled
finished_status fault running = if fault then ok failed else ok completed
finished_status fault _ = err conflict

abbrev pub other_region : Option Outcome → Job → Bool
other_region none j = false
other_region (some o) j = not (region_eq o.verification.region j.request.region)

abbrev is_failed : Status → Bool
is_failed failed = true
is_failed _ = false

abbrev failure_or_default : Option Text → Text
failure_or_default none = utf8 "partial_failure"
failure_or_default (some code) = code

-- `failure_code.is_some() || job.progress.failed > 0`.
abbrev pub finish_fault : Option Text → Job → Bool
finish_fault failure j = is_some failure || ltb 0 j.progress.failed

-- The job with its new status, outcome and failure code.
abbrev pub finished : Option Text → Option Outcome → Job → Status → Job
finished failure outcome j st = record j {
  status = st;
  outcome = if is_completed st then outcome else none;
  failure = if is_failed st then some (failure_or_default failure) else none;
}

unfoldable pub finish_job : Option Text → Option Outcome → Job → JobResult Job
finish_job failure outcome j =
    if other_region outcome j
    then err invalid
    else elim (finished_status (finish_fault failure j) j.status) [
      | err e ↦ err e
      | ok st ↦ ok (finished failure outcome j st)
    ]

unfoldable pub phase_byte : ℕ → Bool
phase_byte c = is_alphanumeric c || c == b'_'

-- `saturating_add` of two `u64`.
unfoldable pub saturating_add : ℕ → ℕ → ℕ
saturating_add a b = if leb (2 ^ 64) (a + b) then 2 ^ 64 - 1 else a + b

unfoldable pub bad_progress : Progress → Bool
unfolding phase_byte saturating_add
bad_progress p =
    ltb 64 (length p.phase)
    || not (all phase_byte p.phase)
    || elim p.total [ none ↦ false | some n ↦ ltb n (saturating_add p.completed p.failed) ]

unfoldable pub bad_failure_code : Option Text → Bool
bad_failure_code none = false
bad_failure_code (some s) =
    length s == 0 || ltb 64 (length s) || not (all (λ c. is_lower c || c == b'_') s)

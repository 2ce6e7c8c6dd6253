-- ===== src/Jobs/Calls.antt =====
-- src/jobs.rs: the methods of `JobStore` as a sequence of calls, each with what it reads from
-- outside. The service takes one lock around each call, so a history is a list.
use sirius_asset_updater.Base.{Text, Option, none, some, ◌≡◌, List, [], ◌∷◌}
use sirius_asset_updater.Jobs.Types.{
  JobError, JobResult, ok, err, Request, Progress, Outcome, CompletionTarget, JobStore, Library,
  Outside,
}
use sirius_asset_updater.Jobs.Store.{
  configure_completions, submit, submit_idempotent, retry, claim, cancel, progress,
  finish_with_outcome, acknowledge_completion,
}

pub data Call : Type 0 where
  configures : List CompletionTarget → Call
  submits : Request → Call
  resubmits : Request → Text → Call
  retries : Text → Call
  claims : Call
  cancels : Text → Call
  reports : Text → Progress → Call
  finishes : Text → Option Text → Option Outcome → Call
  acknowledges : Text → Text → Call

unfoldable pub step : Library → JobStore → Outside × Call → JobStore
step lib s (out, configures targets) = (configure_completions targets s).1
step lib s (out, submits request) = (submit lib out request s).1
step lib s (out, resubmits request key) = (submit_idempotent lib out request key s).1
step lib s (out, retries id) = (retry lib out id s).1
step lib s (out, claims) = (claim lib out s).1
step lib s (out, cancels id) = (cancel lib out id s).1
step lib s (out, reports id p) = (progress lib out id p s).1
step lib s (out, finishes id failure outcome) = (finish_with_outcome lib out id failure outcome s).1
step lib s (out, acknowledges job target) = (acknowledge_completion lib out job target s).1

unfoldable pub run : Library → JobStore → List (Outside × Call) → JobStore
unfolding step
run lib s [] = s
run lib s (c ∷ cs) = run lib (step lib s c) cs

abbrev pub error_of : {A : Type 0} → JobResult A → Option JobError
error_of (ok a) = none
error_of (err e) = some e

-- The error that a call returns, if it fails.
unfoldable pub failure_of : Library → JobStore → Outside × Call → Option JobError
failure_of lib s (out, configures targets) = error_of (configure_completions targets s).0
failure_of lib s (out, submits request) = error_of (submit lib out request s).0
failure_of lib s (out, resubmits request key) = error_of (submit_idempotent lib out request key s).0
failure_of lib s (out, retries id) = error_of (retry lib out id s).0
failure_of lib s (out, claims) = error_of (claim lib out s).0
failure_of lib s (out, cancels id) = error_of (cancel lib out id s).0
failure_of lib s (out, reports id p) = error_of (progress lib out id p s).0
failure_of lib s (out, finishes id failure outcome) =
    error_of (finish_with_outcome lib out id failure outcome s).0
failure_of lib s (out, acknowledges job target) =
    error_of (acknowledge_completion lib out job target s).0

pub error_of-some : {A : Type 0} (r : JobResult A) (e : JobError) → error_of r ≡ some e → r ≡ err e
error_of-some (ok a) e h = cc
error_of-some (err x) e h = cc

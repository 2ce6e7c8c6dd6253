-- ===== src/Jobs/Reservation.antt =====
-- src/jobs.rs: room for completion notices. Each unfinished job of a region with a recipient counts
-- as one notice.
use sirius_asset_updater.Base.{
  ◌+◌, ◌≤◌, Text, text_eq, Bool, false, not, ◌&&◌, Option, List, [], ◌∷◌, ◌++◌, ◌≡◌, ap, arith,
  Split, SplitsAt, count_if, count_if-append, tally, length, length-append, length-filter, filter,
  ltb, count_if-le-length,
}
use sirius_asset_updater.Jobs.Types.{
  ok, ok-injective, Status, Job, Request, CompletionTarget, CompletionDelivery, JobStore, Ledger,
  Library, Outside, is_completed, terminal, max_completion_events,
}
use sirius_asset_updater.Jobs.Ledger.{commit, record_completion, record_completions}
use sirius_asset_updater.Jobs.Lifecycle.{
  IsEdit, Moves, drops, stops, stops_again, works, ends_well, ends_badly, ends_cancelled,
}
use sirius_asset_updater.Jobs.Store.{
  with_jobs, by_id, new_job, start, runnable, active_regions, acknowledged, of_event, targeted,
  reserves, completions_full,
}
use sirius_asset_updater.Jobs.Calls.{Call, step, run}
use sirius_asset_updater.Jobs.Cases.{commit_cases}
use sirius_asset_updater.Jobs.Steps.{Keeps, step_keeps}
use sirius_asset_updater.Jobs.Counts.{count_if-retain_jobs-le, count_if-replace}
use sirius_asset_updater.Jobs.Notices.{
  record_completions-same, record_completions-added, record_completions-replaced,
  length-record_completion-le,
}

-- The notices that are kept and those that may still come fit into the ledger.
abbrev pub IsReserved : JobStore → Type 0
IsReserved s =
    length s.ledger.completions + count_if (reserves s.completion_targets) s.ledger.jobs
    ≤ max_completion_events

-- A job that an edit completes had a notice reserved, which its own notice takes.
pub edit_takes :
    (ts : List CompletionTarget) (out : Outside) (j j' : Job)
    → IsEdit j j'
    → tally (is_completed j'.status && targeted ts j'.request.region) 0
        + tally (reserves ts (record j' { updated_at = out.now })) 0
      ≤ tally (reserves ts j) 0
edit_takes ts out j j' e =
    go e.keeps.moves (ap (λ (r : Request). targeted ts r.region) e.keeps.request)
  where
    go :
        {a b : Status} {t u : Bool}
        → Moves a b
        → t ≡ u
        → tally (is_completed b && t) 0 + tally (not (terminal b) && t) 0
          ≤ tally (not (terminal a) && u) 0
    go drops h = ground arith
    go stops h = ground arith
    go stops_again h = ground arith
    go works h = ground arith
    go ends_well h = ground arith
    go ends_badly h = ground arith
    go ends_cancelled h = ground arith

length-acknowledged-le :
    (id target : Text) (cs : List CompletionDelivery) (p : Split CompletionDelivery)
    → SplitsAt (of_event id) cs p
    → length (acknowledged p target) ≤ length cs
unfolding acknowledged
length-acknowledged-le id target cs p at =
    let rest : List CompletionDelivery =
      p.before
      ++ record (p.found) {
        pending_targets = filter (λ (t : Text). not (text_eq t target)) p.found.pending_targets;
      }
        ∷ p.after in
    omega (
      arith,
      length-filter (λ (c : CompletionDelivery). ltb 0 (length c.pending_targets)) rest,
      count_if-le-length (λ (c : CompletionDelivery). ltb 0 (length c.pending_targets)) rest,
      length-append p.before (p.found ∷ p.after),
      length-append p.before (
          record (p.found) {
            pending_targets = filter (λ (t : Text). not (text_eq t target)) p.found.pending_targets;
          }
          ∷ p.after),
      ap length at.whole,
    )

module _ (lib : Library) where
  -- A commit whose notices fit stores notices that fit.
  commit-IsReserved :
      (out : Outside) (l : Ledger) (s : JobStore)
      → IsReserved s
      → ((cs : List CompletionDelivery)
          → record_completions lib s l.jobs l.completions ≡ ok cs
          → length cs + count_if (reserves s.completion_targets) l.jobs ≤ max_completion_events)
      → IsReserved (commit lib out l s).1
  commit-IsReserved out l s h fits = commit_cases lib IsReserved out l s h λ cs file e _. omega (
    arith,
    count_if-retain_jobs-le (reserves s.completion_targets) s.limits.retain_terminal l.jobs,
    fits cs e,
  )

  IsReserved-added :
      (s : JobStore) (out : Outside) (request : Request) (retry_of key : Option Text)
      → IsReserved s
      → completions_full s request.region ≡ false
      → IsReserved
          (commit lib out
            (with_jobs s (s.ledger.jobs ++ new_job out request retry_of key ∷ []))
            s).1
  unfolding new_job completions_full
  IsReserved-added s out request retry_of key h room = commit-IsReserved out _ s h λ cs e. ground (
    arith,
    record_completions-added lib s (new_job out request retry_of key) s.ledger.completions,
    count_if-append (reserves s.completion_targets) s.ledger.jobs
        (new_job out request retry_of key ∷ []),
  )

  IsReserved-claimed :
      (s : JobStore) (out : Outside) (p : Split Job)
      → IsReserved s
      → SplitsAt (runnable (active_regions s.ledger.jobs)) s.ledger.jobs p
      → IsReserved (commit lib out (with_jobs s (p.before ++ start out p.found ∷ p.after)) s).1
  unfolding start runnable record_completion
  IsReserved-claimed s out p h at = commit-IsReserved out _ s h λ cs e. ground (
    arith,
    record_completions-replaced lib s _ p (start out p.found) s.ledger.completions at,
    count_if-replace (reserves s.completion_targets) _ s.ledger.jobs p (start out p.found) at,
  )

  IsReserved-edited :
      (s : JobStore) (out : Outside) (id : Text) (p : Split Job) (j : Job)
      → IsReserved s
      → SplitsAt (by_id id) s.ledger.jobs p
      → IsEdit p.found j
      → let job = record j { updated_at = out.now } in
        IsReserved (commit lib out (with_jobs s (p.before ++ job ∷ p.after)) s).1
  IsReserved-edited s out id p j h at edit =
      let job = record j { updated_at = out.now } in
      commit-IsReserved out _ s h λ cs e. omega (
        arith,
        length-record_completion-le lib s job s.ledger.completions cs
            (rw (record_completions-replaced lib s _ p job s.ledger.completions at) at e),
        count_if-replace (reserves s.completion_targets) _ s.ledger.jobs p job at,
        edit_takes s.completion_targets out p.found j edit,
      )

  IsReserved-acked :
      (s : JobStore) (out : Outside) (id target : Text) (p : Split CompletionDelivery)
      → IsReserved s
      → SplitsAt (of_event id) s.ledger.completions p
      → let l = s.ledger in
        IsReserved (commit lib out (record l { completions = acknowledged p target }) s).1
  IsReserved-acked s out id target p h at = commit-IsReserved out _ s h λ cs e. omega (
    arith,
    ap length (ok-injective (rw (record_completions-same lib s (acknowledged p target)) at e)),
    length-acknowledged-le id target s.ledger.completions p at,
  )

  IsReserved-rules : Keeps lib IsReserved
  IsReserved-rules = record {
    configured = λ s targets h room. ground arith;
    added =
        λ s out request retry_of key h _ _ room. IsReserved-added s out request retry_of key h room;
    claimed = λ s out p h _ at. IsReserved-claimed s out p h at;
    edited = IsReserved-edited;
    acked = IsReserved-acked;
  }

  -- After any calls, the notices that are kept and one for each unfinished job of a region with a
  -- recipient are at most 4096, if they were at the start.
  pub run-IsReserved :
      (s : JobStore) (calls : List (Outside × Call)) → IsReserved s → IsReserved (run lib s calls)
  unfolding run
  run-IsReserved s [] h = h
  run-IsReserved s (c ∷ cs) h =
      run-IsReserved (step lib s c) cs (step_keeps lib IsReserved IsReserved-rules s h c)

-- ===== src/Jobs/Slots.antt =====
-- src/jobs.rs: the running slots, `max_running` in all and one for each region.
use sirius_asset_updater.Base.{
  ℕ, ◌+◌, ◌≤◌, Text, Bool, true, false, ◌&&◌, List, [], ◌∷◌, ◌++◌, ◌≡◌, refl, ap, arith, Split,
  SplitsAt, count_if, count_if-append, tally, length, ltb, any, Option,
}
use sirius_asset_updater.Region.{Region, region_eq, region_eq_iff}
use sirius_asset_updater.Jobs.Types.{
  Status, Job, JobStore, Limits, Library, Outside, Ledger, Request, occupies_slot,
}
use sirius_asset_updater.Jobs.Ledger.{commit}
use sirius_asset_updater.Jobs.Lifecycle.{
  IsEdit, Moves, drops, stops, stops_again, works, ends_well, ends_badly, ends_cancelled,
}
use sirius_asset_updater.Jobs.Store.{by_id, new_job, start, runnable, active_regions}
use sirius_asset_updater.Jobs.Calls.{Call, step, run}
use sirius_asset_updater.Jobs.Cases.{commit_cases}
use sirius_asset_updater.Jobs.Steps.{Keeps, step_keeps}
use sirius_asset_updater.Jobs.Counts.{count_if-retain_jobs-le, count_if-replace}

-- The jobs in a slot whose region passes a test.
abbrev pub active_where : (Region → Bool) → Job → Bool
active_where q j = occupies_slot j.status && q j.request.region

abbrev pub active_in : Region → Job → Bool
active_in r = active_where (λ q. region_eq q r)

abbrev pub active : Job → Bool
active = active_where (λ _. true)

Moves-occupies_slot : {a b : Status} → Moves a b → occupies_slot b ≡ true → occupies_slot a ≡ true
Moves-occupies_slot drops h = cc
Moves-occupies_slot stops h = refl
Moves-occupies_slot stops_again h = refl
Moves-occupies_slot works h = refl
Moves-occupies_slot ends_well h = refl
Moves-occupies_slot ends_badly h = refl
Moves-occupies_slot ends_cancelled h = refl

-- An edit puts no job into a slot.
edit-active_where :
    (q : Region → Bool) (out : Outside) (j j' : Job)
    → IsEdit j j'
    → tally (active_where q (record j' { updated_at = out.now })) 0 ≤ tally (active_where q j) 0
edit-active_where q out j j' e =
    ground
      (arith, Moves-occupies_slot e.keeps.moves, ap (λ (r : Request). q r.region) e.keeps.request)

module _ (lib : Library) (q : Region → Bool) (n : Limits → ℕ) where
  abbrev Bounded : JobStore → Type 0
  Bounded s = count_if (active_where q) s.ledger.jobs ≤ n s.limits

  -- A commit of jobs that fit stores jobs that fit.
  commit-Bounded :
      (out : Outside) (l : Ledger) (s : JobStore)
      → Bounded s
      → count_if (active_where q) l.jobs ≤ n s.limits
      → Bounded (commit lib out l s).1
  commit-Bounded out l s h fits = commit_cases lib Bounded out l s h λ cs file _ _.
      omega (arith, count_if-retain_jobs-le (active_where q) s.limits.retain_terminal l.jobs)

  Bounded-rules :
      ((s : JobStore) (p : Split Job)
        → Bounded s
        → ltb (length (active_regions s.ledger.jobs)) s.limits.max_running ≡ true
        → SplitsAt (runnable (active_regions s.ledger.jobs)) s.ledger.jobs p
        → count_if (active_where q) s.ledger.jobs + tally (q p.found.request.region) 0 ≤ n s.limits)
      → Keeps lib Bounded
  unfolding new_job start runnable
  Bounded-rules room = record {
    configured = λ s targets h _. h;
    added = λ s out request retry_of key h _ _ _.
        commit-Bounded out _ s h (added s out request retry_of key h);
    claimed = λ s out p h free at. commit-Bounded out _ s h (claimed s out p h free at);
    edited = λ s out id p j h at e. commit-Bounded out _ s h (edited s out id p j h at e);
    acked = λ s out id target p h at. commit-Bounded out _ s h h;
  }
    where
      added :
          (s : JobStore) (out : Outside) (request : Request) (retry_of key : Option Text)
          → Bounded s
          → count_if (active_where q) (s.ledger.jobs ++ new_job out request retry_of key ∷ [])
            ≤ n s.limits
      added s out request retry_of key h = omega (
        arith,
        count_if-append (active_where q) s.ledger.jobs (new_job out request retry_of key ∷ []),
      )

      claimed :
          (s : JobStore) (out : Outside) (p : Split Job)
          → Bounded s
          → ltb (length (active_regions s.ledger.jobs)) s.limits.max_running ≡ true
          → SplitsAt (runnable (active_regions s.ledger.jobs)) s.ledger.jobs p
          → count_if (active_where q) (p.before ++ start out p.found ∷ p.after) ≤ n s.limits
      claimed s out p h free at = ground (
        arith,
        count_if-replace (active_where q) (runnable (active_regions s.ledger.jobs)) s.ledger.jobs p
            (start out p.found) at,
        room s p h free at,
      )

      edited :
          (s : JobStore) (out : Outside) (id : Text) (p : Split Job) (j : Job)
          → Bounded s
          → SplitsAt (by_id id) s.ledger.jobs p
          → IsEdit p.found j
          → count_if (active_where q) (p.before ++ record j { updated_at = out.now } ∷ p.after)
            ≤ n s.limits
      edited s out id p j h at e = omega (
        arith,
        count_if-replace (active_where q) (by_id id) s.ledger.jobs p
            (record j { updated_at = out.now }) at,
        edit-active_where q out p.found j e,
      )

length-active_regions : (jobs : List Job) → length (active_regions jobs) ≡ count_if active jobs
unfolding active_regions
length-active_regions [] = refl
length-active_regions (j ∷ js) = ground (arith, length-active_regions js)

-- No slot is taken by a region that is not among the active ones.
active_in-zero :
    (r : Region) (jobs : List Job)
    → any (region_eq r) (active_regions jobs) ≡ false
    → count_if (active_in r) jobs ≡ 0
unfolding active_regions
active_in-zero r [] h = refl
active_in-zero r (j ∷ js) h =
    ground (
      arith,
      active_in-zero r js,
      region_eq_iff r j.request.region,
      region_eq_iff j.request.region r,
    )

-- The store keeps to its limits on running jobs.
pub record IsSlotted (s : JobStore) : Type 0 where
  pub bounded : count_if active s.ledger.jobs ≤ s.limits.max_running
  pub exclusive : (r : Region) → count_if (active_in r) s.ledger.jobs ≤ 1

module _ (lib : Library) where
  slots_rules : Keeps lib (Bounded lib (λ _. true) (λ l. l.max_running))
  slots_rules =
      Bounded-rules lib (λ _. true) (λ l. l.max_running)
        λ s p h free at. ground (arith, length-active_regions s.ledger.jobs)

  region_rules : (r : Region) → Keeps lib (Bounded lib (λ x. region_eq x r) (λ _. 1))
  unfolding runnable
  region_rules r =
      Bounded-rules lib (λ x. region_eq x r) (λ _. 1)
        λ s p h free at. ground (
          arith,
          active_in-zero p.found.request.region s.ledger.jobs,
          region_eq_iff p.found.request.region r,
          at.matches,
        )

  step-IsSlotted : (s : JobStore) (c : Outside × Call) → IsSlotted s → IsSlotted (step lib s c)
  step-IsSlotted s c h = record {
    bounded = step_keeps lib _ slots_rules s h.bounded c;
    exclusive = λ r. step_keeps lib _ (region_rules r) s (h.exclusive r) c;
  }

  -- From a store within its limits, after any calls, at most `max_running` jobs are running or
  -- cancelling, and no two of them are of one region.
  pub run-IsSlotted :
      (s : JobStore) (calls : List (Outside × Call)) → IsSlotted s → IsSlotted (run lib s calls)
  unfolding run
  run-IsSlotted s [] h = h
  run-IsSlotted s (c ∷ cs) h = run-IsSlotted (step lib s c) cs (step-IsSlotted s c h)

-- ===== src/Jobs/History.antt =====
-- src/jobs.rs: where the jobs of the ledger come from, call by call.
use mathlib.Core.List.{Memᴰ}
use mathlib.Core.List
use sirius_asset_updater.Base.{
  ℕ, zero, suc, Text, Bool, true, Option, List, [], ◌∷◌, ◌++◌, ◌≡◌, refl, subst, arith, Split,
  SplitsAt, All, All-mono, All-append, All-before, All-after, All-filter,
}
use sirius_asset_updater.Jobs.Types.{
  Status, queued, Job, Request, Ledger, JobStore, Library, Outside, is_queued,
}
use sirius_asset_updater.Jobs.Ledger.{commit, retain_jobs}
use sirius_asset_updater.Jobs.Lifecycle.{Edits, IsCoherent}
use sirius_asset_updater.Jobs.Store.{new_job, start, runnable}
use sirius_asset_updater.Jobs.Calls.{Call, step, run}
use sirius_asset_updater.Jobs.Cases.{commit_cases}
use sirius_asset_updater.Jobs.Steps.{Rules, step_rule}

-- Where a job of the new ledger comes from.
pub data Comes (out : Outside) (old : List Job) (j : Job) : Type 0 where
  kept : Memᴰ j old → Comes out old j
  edited : (k : Job) → Memᴰ k old → Edits k j → j.updated_at ≡ out.now → Comes out old j
  started : (k : Job) → Memᴰ k old → k.status ≡ queued → j ≡ start out k → Comes out old j
  created :
      (request : Request) (retry_of key : Option Text)
      → j ≡ new_job out request retry_of key
      → Comes out old j

All-retain_jobs :
    (P : Job → Type 0) (n : ℕ) (jobs : List Job) → All P jobs → All P (retain_jobs n jobs)
unfolding retain_jobs
All-retain_jobs P zero jobs h = h
All-retain_jobs P (suc n) jobs h = All-filter P _ jobs h

members : (xs : List Job) → All (λ j. Memᴰ j xs) xs
members [] = tt
members (x ∷ xs) = (List.Memᴰ.head refl, All-mono _ _ (λ j m. List.Memᴰ.tail m) xs (members xs))

module _ (lib : Library) (P : Job → Type 0) (s : JobStore) (out : Outside) where
  -- Every job of the store.
  abbrev Every : JobStore → Type 0
  Every t = All P t.ledger.jobs

  commit-Every : (l : Ledger) → All P s.ledger.jobs → All P l.jobs → Every (commit lib out l s).1
  commit-Every l h k =
      commit_cases lib Every out l s h
        (λ cs file _ _. All-retain_jobs P s.limits.retain_terminal l.jobs k)

  replaced :
      (q : Job → Bool) (p : Split Job) (j : Job)
      → All P s.ledger.jobs
      → SplitsAt q s.ledger.jobs p
      → P j
      → All P (p.before ++ j ∷ p.after)
  replaced q p j h at k =
      let whole : All P (p.before ++ p.found ∷ p.after) = subst (All P) at.whole h in
      All-append P p.before (j ∷ p.after) (All-before P p.before (p.found ∷ p.after) whole)
        (k, (All-after P p.before (p.found ∷ p.after) whole).1)

  found :
      (q : Job → Bool) (p : Split Job)
      → All P s.ledger.jobs
      → SplitsAt q s.ledger.jobs p
      → P p.found
  found q p h at = (All-after P p.before (p.found ∷ p.after) (subst (All P) at.whole h)).0

is_queued-queued : (st : Status) → is_queued st ≡ true → st ≡ queued
is_queued-queued st h = ground arith

start-IsCoherent :
    (out : Outside) (j : Job) → is_queued j.status ≡ true → IsCoherent j → IsCoherent (start out j)
unfolding start
start-IsCoherent out j h c = ground arith

module _ (lib : Library) where
  history-Rules :
      (s : JobStore) (out : Outside) → Rules lib (Every lib (Comes out s.ledger.jobs) s out) s out
  history-Rules s out =
      let C = Comes out s.ledger.jobs in
      let all : All C s.ledger.jobs =
        All-mono _ _ (λ j m. kept m) s.ledger.jobs (members s.ledger.jobs) in
      record {
        configured = λ targets _. all;
        added = λ request retry_of key _ _ _.
            commit-Every lib C s out _ all
              (All-append C s.ledger.jobs _ all (created request retry_of key refl, tt));
        claimed = λ p _ at. commit-Every lib C s out _ all (
            replaced lib C s out _ p _ all at (
              started p.found
                (found lib (λ j. Memᴰ j s.ledger.jobs) s out _ p (members s.ledger.jobs) at)
                (is_queued-queued p.found.status (unfold runnable in ground (arith, at.matches)))
                refl));
        edited = λ id p j at e. commit-Every lib C s out _ all (
            replaced lib C s out _ p _ all at (
              edited p.found
                (found lib (λ k. Memᴰ k s.ledger.jobs) s out _ p (members s.ledger.jobs) at)
                (record {
                  id = e.keeps.id;
                  request = e.keeps.request;
                  created_at = e.keeps.created_at;
                  retry_of = e.keeps.retry_of;
                  idempotency = e.keeps.idempotency;
                  moves = e.keeps.moves;
                })
                refl));
        acked = λ id target p at. commit-Every lib C s out _ all all;
      }

  -- After a call each job is an old one as it was, an old one that kept its identity and whose status
  -- moved along the graph, a queued one that was started, or a new queued one.
  pub step-Comes :
      (s : JobStore) (out : Outside) (c : Call)
      → All (Comes out s.ledger.jobs) (step lib s (out, c)).ledger.jobs
  step-Comes s out c =
      step_rule lib (Every lib (Comes out s.ledger.jobs) s out) s out (history-Rules s out)
        (All-mono _ _ (λ j m. kept m) s.ledger.jobs (members s.ledger.jobs)) c

  IsCoherent-Rules :
      (s : JobStore) (out : Outside)
      → All IsCoherent s.ledger.jobs
      → Rules lib (Every lib IsCoherent s out) s out
  IsCoherent-Rules s out all = record {
    configured = λ targets _. all;
    added = λ request retry_of key _ _ _.
        commit-Every lib IsCoherent s out _ all
          (All-append IsCoherent s.ledger.jobs _ all (unfold new_job in (refl, refl), tt));
    claimed = λ p _ at. commit-Every lib IsCoherent s out _ all (
        replaced lib IsCoherent s out _ p _ all at (
          start-IsCoherent out p.found (unfold runnable in ground (arith, at.matches))
            (found lib IsCoherent s out _ p all at)));
    edited = λ id p j at e. commit-Every lib IsCoherent s out _ all (
        replaced lib IsCoherent s out _ p _ all at
          (e.coherent (found lib IsCoherent s out _ p all at)));
    acked = λ id target p at. commit-Every lib IsCoherent s out _ all all;
  }

  -- Calls keep the jobs coherent, if they all were: a failure code exactly on the failed ones, an outcome on completed
  -- ones only.
  pub run-IsCoherent :
      (s : JobStore) (calls : List (Outside × Call))
      → All IsCoherent s.ledger.jobs
      → All IsCoherent (run lib s calls).ledger.jobs
  unfolding run
  run-IsCoherent s [] h = h
  run-IsCoherent s ((out, c) ∷ cs) h =
      run-IsCoherent (step lib s (out, c)) cs
        (step_rule lib (Every lib IsCoherent s out) s out (IsCoherent-Rules s out h) h c)

-- ===== src/Jobs/Counts.antt =====
-- src/jobs.rs: how a commit and an edit change the number of jobs that satisfy a test.
use sirius_asset_updater.Base.{
  ℕ, zero, suc, ◌+◌, ◌≤◌, Bool, List, ◌∷◌, ◌++◌, ◌≡◌, arith, Split, SplitsAt, count_if,
  count_if-append, count_if-filter-le, tally,
}
use sirius_asset_updater.Jobs.Types.{Job}
use sirius_asset_updater.Jobs.Ledger.{retain_jobs}

-- Dropping old terminal jobs adds none.
pub count_if-retain_jobs-le :
    (p : Job → Bool) (n : ℕ) (jobs : List Job) → count_if p (retain_jobs n jobs) ≤ count_if p jobs
unfolding retain_jobs
count_if-retain_jobs-le p zero jobs = omega arith
count_if-retain_jobs-le p (suc n) jobs = count_if-filter-le p _ jobs

-- The jobs around a match are counted as they were.
pub count_if-replace :
    (p q : Job → Bool) (jobs : List Job) (s : Split Job) (j : Job)
    → SplitsAt q jobs s
    → count_if p (s.before ++ j ∷ s.after) + tally (p s.found) 0 ≡ count_if p jobs + tally (p j) 0
count_if-replace p q jobs s j at =
    rw
      (
        at.whole,
        count_if-append p s.before (j ∷ s.after),
        count_if-append p s.before (s.found ∷ s.after),
      )
      (ground arith)

-- The match is one of the jobs that are counted.
pub count_if-found :
    (p q : Job → Bool) (jobs : List Job) (s : Split Job)
    → SplitsAt q jobs s
    → tally (p s.found) 0 ≤ count_if p jobs
count_if-found p q jobs s at =
    rw (at.whole, count_if-append p s.before (s.found ∷ s.after)) (ground arith)

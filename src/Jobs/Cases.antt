-- ===== src/Jobs/Cases.antt =====
-- src/jobs.rs: how each method of the store ends, as rules for properties of the store after it.
use sirius_asset_updater.Base.{
  Text, true, false, Option, some, List, [], ◌∷◌, ◌++◌, ◌≡◌, refl, inl, inr, arith, Bool-cases,
  Option-cases, Split, SplitsAt, split_first, split_first-SplitsAt, ◌⊎◌, ltb, leb, length, count_if,
}
use sirius_asset_updater.Jobs.Types.{
  JobError, JobResult, ok, err, Request, Job, Ledger, CompletionDelivery, JobStore, Library,
  Outside, valid_request, is_queued,
}
use sirius_asset_updater.Jobs.Ledger.{reply, retain_jobs, record_completions, persist, commit}
use sirius_asset_updater.Jobs.Store.{
  with_jobs, by_id, completions_full, new_job, enqueue, claim, start, runnable, active_regions,
  mutate, mutate_at,
}

pub JobResult-cases {ℓ} :
    {A : Type ℓ} (r : JobResult A) → ((e : JobError) × (r ≡ err e)) ⊎ ((a : A) × (r ≡ ok a))
JobResult-cases (ok a) = inr (a, refl)
JobResult-cases (err e) = inl (e, refl)

pub reply-state {ℓ κ} :
    {A : Type ℓ} {U : Type κ} (a : A) (r : JobResult U × JobStore) → (reply a r).1 ≡ r.1
reply-state a (ok u, s) = refl
reply-state a (err e, s) = refl

-- The ledger that a commit stores.
abbrev pub committed : JobStore → Ledger → List CompletionDelivery → Ledger
committed s l cs = record {
  schema_version = 2;
  jobs = retain_jobs s.limits.retain_terminal l.jobs;
  completions = cs;
}

-- A commit that succeeds.
module _ (lib : Library) where
  pub commit_ok :
      (out : Outside) (l : Ledger) (s t : JobStore) {u : Unit {0}}
      → commit lib out l s ≡ (ok u, t)
      → (cs : List CompletionDelivery) × (file : Text) × (record_completions lib s l.jobs
            l.completions
          ≡ ok cs)
        × (lib.encode_ledger (committed s l cs) ≡ some file)
        × (t ≡ record s { file = some file; ledger = committed s l cs })
  unfolding commit persist
  commit_ok out l s t h = elim (JobResult-cases (record_completions lib s l.jobs l.completions)) [
    | inl (e, r) ↦ absurd (ground arith)
    | inr (cs, r) ↦ elim (Option-cases (lib.encode_ledger (committed s l cs))) [
      | inl enc ↦ absurd (ground arith)
      | inr (file, enc) ↦ (cs, file, r, enc, ground arith)
    ]
  ]

module _ {ℓ} (lib : Library) (P : JobStore → Type ℓ) where
  persist_cases :
      (out : Outside) (l : Ledger) (s : JobStore)
      → P s
      → ((file : Text)
          → lib.encode_ledger l ≡ some file
          → P (record s { file = some file; ledger = l }))
      → P (persist lib out l s).1
  unfolding persist
  persist_cases out l s keep done = elim (Option-cases (lib.encode_ledger l)) [
    | inl e ↦ rw (e, persist) keep
    | inr (file, e) ↦ elim (Bool-cases out.persisted) [
      | inl w ↦ rw (e, persist) (rw w (done file e))
      | inr w ↦ rw (e, persist) (rw w keep)
    ]
  ]

  pub commit_cases :
      (out : Outside) (l : Ledger) (s : JobStore)
      → P s
      → ((cs : List CompletionDelivery) (file : Text)
          → record_completions lib s l.jobs l.completions ≡ ok cs
          → lib.encode_ledger (committed s l cs) ≡ some file
          → P (record s { file = some file; ledger = committed s l cs }))
      → P (commit lib out l s).1
  unfolding commit
  commit_cases out l s keep done =
      elim (JobResult-cases (record_completions lib s l.jobs l.completions)) [
        | inl (e, h) ↦ rw (h, commit) keep
        | inr (cs, h) ↦
            rw (h, commit)
              (persist_cases out (committed s l cs) s keep (λ file enc. done cs file h enc))
      ]

  pub enqueue_cases :
      (out : Outside) (request : Request) (retry_of key : Option Text) (s : JobStore)
      → P s
      → (valid_request request ≡ true
          → ltb (count_if (λ (j : Job). is_queued j.status) s.ledger.jobs) s.limits.max_queued
            ≡ true
          → completions_full s request.region ≡ false
          → P
              (commit lib out
                (with_jobs s (s.ledger.jobs ++ new_job out request retry_of key ∷ []))
                s).1)
      → P (enqueue lib out request retry_of key s).1
  unfolding enqueue
  enqueue_cases out request retry_of key s keep done = elim (Bool-cases (valid_request request)) [
    | inr v ↦ rw v keep
    | inl v ↦
        elim (Bool-cases
          (leb s.limits.max_queued (count_if (λ (j : Job). is_queued j.status) s.ledger.jobs))) [
            | inl q ↦ rw (v, q) keep
            | inr q ↦ elim (Bool-cases (completions_full s request.region)) [
              | inl c ↦ rw (v, q, c) keep
              | inr c ↦ rw (v, q, c) (rw reply-state (done v (ground arith) c))
            ]
          ]
  ]

  pub mutate_cases :
      (out : Outside) (id : Text) (apply : Job → JobResult Job) (s : JobStore)
      → P s
      → ((p : Split Job) (j : Job)
          → SplitsAt (by_id id) s.ledger.jobs p
          → apply p.found ≡ ok j
          → let job = record j { updated_at = out.now } in
            P (commit lib out (with_jobs s (p.before ++ job ∷ p.after)) s).1)
      → P (mutate lib out id apply s).1
  unfolding mutate
  mutate_cases out id apply s keep done =
      elim (Option-cases (split_first (by_id id) s.ledger.jobs)) [
        | inl e ↦ rw (e, mutate) keep
        | inr (p, e) ↦ elim (JobResult-cases (apply p.found)) [
          | inl (x, h) ↦ rw (e, mutate) (rw (h, mutate_at) keep)
          | inr (j, h) ↦
              rw (e, mutate)
                (rw (h, mutate_at) (rw reply-state (done p j (split_first-SplitsAt _ _ p e) h)))
        ]
      ]

  pub claim_cases :
      (out : Outside) (s : JobStore)
      → P s
      → ((p : Split Job)
          → ltb (length (active_regions s.ledger.jobs)) s.limits.max_running ≡ true
          → SplitsAt (runnable (active_regions s.ledger.jobs)) s.ledger.jobs p
          → P (commit lib out (with_jobs s (p.before ++ start out p.found ∷ p.after)) s).1)
      → P (claim lib out s).1
  unfolding claim
  claim_cases out s keep done =
      elim (Bool-cases (leb s.limits.max_running (length (active_regions s.ledger.jobs)))) [
        | inl full ↦ rw full keep
        | inr room ↦
            elim (Option-cases
              (split_first (runnable (active_regions s.ledger.jobs)) s.ledger.jobs)) [
                | inl e ↦ rw (room, e) keep
                | inr (p, e) ↦
                    rw (room, e)
                      (rw reply-state (done p (ground arith) (split_first-SplitsAt _ _ p e)))
              ]
      ]

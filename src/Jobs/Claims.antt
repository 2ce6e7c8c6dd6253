-- ===== src/Jobs/Claims.antt =====
-- src/jobs.rs: which job `claim` takes.
use sirius_asset_updater.Base.{
  List, [], ◌∷◌, Bool, true, not, ◌&&◌, refl, ◌∙◌, ap, count_if, ◌↔◌, ◌≤◌, ◌<◌, false, Option, none,
  some, ◌≡◌, sym, arith, Split, SplitsAt, split_first, split_first-SplitsAt, split_first-none, any,
  any-append, length, leb, Bool-cases, Option-cases, inl, inr, ◌⊎◌, ◌≢◌,
}
use sirius_asset_updater.Region.{Region, region_eq}
use sirius_asset_updater.Jobs.Types.{
  is_queued, JobResult, ok, err, ok-injective, Job, JobStore, Library, Outside,
}
use sirius_asset_updater.Jobs.Ledger.{reply}
use sirius_asset_updater.Jobs.Slots.{active, active_in}
use sirius_asset_updater.Jobs.Store.{claim, start, runnable, active_regions}

some-injective : {a b : Job} → some a ≡ some b → a ≡ b
some-injective h = cc

none-ne-some : {a : Job} → some a ≢ none
none-ne-some h = cc

reply-result :
    (a : Option Job) (r : JobResult (Unit {0}) × JobStore) (b : Option Job)
    → (reply a r).0 ≡ ok b
    → a ≡ b
reply-result a (ok u, s) b h = ok-injective h
reply-result a (err e, s) b h = cc

-- Whether a job of the list may be started: it is queued, and no job of the list that has a slot is of
-- its region.
abbrev pub can_start : List Job → Job → Bool
can_start jobs j = is_queued j.status && not (any (active_in j.request.region) jobs)

region_eq_sym : (r q : Region) → region_eq r q ≡ region_eq q r
region_eq_sym r q = ground arith

any-active_regions :
    (r : Region) (jobs : List Job)
    → any (region_eq r) (active_regions jobs) ≡ any (active_in r) jobs
unfolding active_regions
any-active_regions r [] = refl
any-active_regions r (j ∷ jobs) =
    ground (arith, any-active_regions r jobs, region_eq_sym r j.request.region)

runnable-eq : (jobs : List Job) (j : Job) → runnable (active_regions jobs) j ≡ can_start jobs j
unfolding runnable
runnable-eq jobs j =
    ap (λ b. is_queued j.status && not b) (any-active_regions j.request.region jobs)

any-same :
    (p q : Job → Bool) → ((j : Job) → p j ≡ q j) → (jobs : List Job) → any p jobs ≡ any q jobs
any-same p q h [] = refl
any-same p q h (j ∷ jobs) = ground (arith, h j, any-same p q h jobs)

length-active_regions : (jobs : List Job) → length (active_regions jobs) ≡ count_if active jobs
unfolding active_regions
length-active_regions [] = refl
length-active_regions (j ∷ jobs) = ground (arith, length-active_regions jobs)

split-can_start :
    (jobs xs : List Job) (p : Split Job)
    → SplitsAt (runnable (active_regions jobs)) xs p
    → SplitsAt (can_start jobs) xs p
split-can_start jobs xs p h = record {
  whole = h.whole;
  matches = sym (runnable-eq jobs p.found) ∙ h.matches;
  first =
      sym (any-same (runnable (active_regions jobs)) (can_start jobs) (runnable-eq jobs) p.before)
      ∙ h.first;
}

some-can_start :
    (jobs xs : List Job) (p : Split Job)
    → SplitsAt (can_start jobs) xs p
    → any (can_start jobs) xs ≡ true
some-can_start jobs xs p h =
    ap (any (can_start jobs)) h.whole
    ∙ any-append (can_start jobs) p.before (p.found ∷ p.after)
    ∙ ground (arith, h.matches)

module _ (lib : Library) (out : Outside) (s : JobStore) where
  -- `claim` starts the first queued job of whose region no job has a slot, and only while fewer than
  -- `max_running` jobs have one.
  pub claim_first :
      (j : Job)
      → (claim lib out s).0 ≡ ok (some j)
      → (count_if active s.ledger.jobs < s.limits.max_running)
        × ((p : Split Job) × SplitsAt (can_start s.ledger.jobs) s.ledger.jobs p
            × (j ≡ start out p.found))
  unfolding claim
  claim_first j h =
      elim (Bool-cases (leb s.limits.max_running (length (active_regions s.ledger.jobs)))) [
        | inl full ↦ absurd (ground arith)
        | inr room ↦
            elim (Option-cases
              (split_first (runnable (active_regions s.ledger.jobs)) s.ledger.jobs)) [
                | inl e ↦ absurd (ground arith)
                | inr (p, e) ↦ (
                  ground (arith, length-active_regions s.ledger.jobs),
                  (
                    p,
                    split-can_start s.ledger.jobs s.ledger.jobs p (split_first-SplitsAt _ _ p e),
                    sym (some-injective (reply-result _ _ _ (rw (room, e) at h))),
                  ),
                )
              ]
      ]

  -- `claim` finds nothing exactly if `max_running` jobs have a slot, or each queued job waits for one of
  -- its region that has.
  pub claim-none : ((claim lib out s).0 ≡ ok none) ↔ (
      (s.limits.max_running ≤ count_if active s.ledger.jobs)
      ⊎ (any (can_start s.ledger.jobs) s.ledger.jobs ≡ false))
  unfolding claim
  claim-none = (
    λ h. elim (Bool-cases (leb s.limits.max_running (length (active_regions s.ledger.jobs)))) [
      | inl full ↦ inl (ground (arith, length-active_regions s.ledger.jobs))
      | inr room ↦
          elim (Option-cases
            (split_first (runnable (active_regions s.ledger.jobs)) s.ledger.jobs)) [
              | inl e ↦ inr (
                  sym (
                    any-same (runnable (active_regions s.ledger.jobs)) (can_start s.ledger.jobs)
                      (runnable-eq s.ledger.jobs) s.ledger.jobs)
                  ∙ split_first-none _ _ e)
              | inr (p, e) ↦ absurd (none-ne-some (reply-result _ _ _ (rw (room, e) at h)))
            ]
    ],
    λ h. elim (Bool-cases (leb s.limits.max_running (length (active_regions s.ledger.jobs)))) [
      | inl full ↦ rw full refl
      | inr room ↦
          elim (Option-cases
            (split_first (runnable (active_regions s.ledger.jobs)) s.ledger.jobs)) [
              | inl e ↦ rw (room, e) refl
              | inr (p, e) ↦ absurd (elim h [
                | inl full ↦ ground (arith, length-active_regions s.ledger.jobs)
                | inr none' ↦ cc (
                    some-can_start s.ledger.jobs s.ledger.jobs p (
                      split-can_start s.ledger.jobs s.ledger.jobs p (split_first-SplitsAt _ _ p e)))
              ])
            ]
    ],
  )

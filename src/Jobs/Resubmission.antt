-- ===== src/Jobs/Resubmission.antt =====
-- src/jobs.rs: a submission that is repeated under its idempotency key.
use sirius_asset_updater.Base.{
  ℕ, zero, suc, Text, text_eq, text_eq_refl, Bool, true, false, not, ◌&&◌, ◌||◌, Option, none, some,
  List, [], ◌∷◌, ◌++◌, ◌≡◌, refl, sym, subst, ◌∙◌, ap, arith, Split, split_first, split_first-none,
  any, all, filter, length, ltb, ◌==◌, Bool-cases, Option-cases, inl, inr,
}
use sirius_asset_updater.Region.{region_eq_iff}
use sirius_asset_updater.Jobs.Types.{
  JobResult, ok, err, Job, Request, JobStore, Library, Outside, valid_request, terminal, Operation,
  update, export, verify,
}
use sirius_asset_updater.Jobs.Ledger.{commit, reply, retain_jobs}
use sirius_asset_updater.Jobs.Store.{
  with_jobs, by_id, new_job, enqueue, submit_idempotent, has_key, request_eq, operation_eq,
  key_byte,
}
use sirius_asset_updater.Jobs.Retention.{unstamped}
use sirius_asset_updater.Jobs.Cases.{commit_ok}

-- The last job is the first match, where none before it matches, and where it is kept.
found_last :
    (p q : Job → Bool) (xs : List Job) (a : Job)
    → any p xs ≡ false
    → p a ≡ true
    → q a ≡ true
    → (s : Split Job) × (split_first p (filter q (xs ++ a ∷ [])) ≡ some s) × (s.found ≡ a)
unfolding split_first
found_last p q [] a none_before h k =
    (record { before = []; found = a; after = [] }, ground arith, refl)
found_last p q (x ∷ xs) a none_before h k =
    let (s, e, f) = found_last p q xs a (ground arith) h k in
    elim (Bool-cases (q x)) [
      | inl kept ↦ (record s { before = x ∷ s.before }, ground arith, f)
      | inr dropped ↦ (s, ground arith, f)
    ]

filter-true : (xs : List Job) → filter (λ _. true) xs ≡ xs
filter-true [] = refl
filter-true (x ∷ xs) = ap (◌∷◌ x) (filter-true xs)

not_terminal :
    (id : Text) (xs : List Job) (a : Job)
    → any (by_id id) xs ≡ false
    → terminal a.status ≡ false
    → any (λ (j : Job). terminal j.status && text_eq j.id id) (xs ++ a ∷ []) ≡ false
not_terminal id [] a h t = ground arith
not_terminal id (x ∷ xs) a h t = ground (arith, not_terminal id xs a)

-- A new job is found again behind a commit.
found_retained :
    (n : ℕ) (p : Job → Bool) (xs : List Job) (a : Job)
    → any p xs ≡ false
    → p a ≡ true
    → any (by_id a.id) xs ≡ false
    → terminal a.status ≡ false
    → (s : Split Job) × (split_first p (retain_jobs n (xs ++ a ∷ [])) ≡ some s) × (s.found ≡ a)
unfolding retain_jobs
found_retained zero p xs a none_before h new t =
    rw (filter-true (xs ++ a ∷ [])) at (found_last p (λ _. true) xs a none_before h refl)
found_retained (suc n) p xs a none_before h new t =
    found_last p _ xs a none_before h
      (unstamped a.id (suc n) (xs ++ a ∷ []) (not_terminal a.id xs a new t))

operation_eq_refl : (o : Operation) → operation_eq o o ≡ true
operation_eq_refl update = refl
operation_eq_refl export = refl
operation_eq_refl verify = refl

request_eq_refl : (r : Request) → request_eq r r ≡ true
unfolding request_eq
request_eq_refl r =
    ground (
      arith,
      text_eq_refl r.profile,
      region_eq_iff r.region r.region,
      operation_eq_refl r.operation,
    )

module _ (lib : Library) where
  enqueue_ok :
      (out : Outside) (request : Request) (retry_of key : Option Text) (s t : JobStore) (j : Job)
      → enqueue lib out request retry_of key s ≡ (ok j, t)
      → (j ≡ new_job out request retry_of key)
        × (commit lib out (with_jobs s (s.ledger.jobs ++ new_job out request retry_of key ∷ [])) s
            ≡ (ok tt, t))
  unfolding enqueue
  enqueue_ok out request retry_of key s t j h =
      go (commit lib out (with_jobs s (s.ledger.jobs ++ new_job out request retry_of key ∷ [])) s)
        refl (ground arith)
    where
      go :
          (r : JobResult (Unit {0}) × JobStore)
          → commit lib out (with_jobs s (s.ledger.jobs ++ new_job out request retry_of key ∷ [])) s
            ≡ r
          → reply (new_job out request retry_of key) r ≡ (ok j, t)
          → (j ≡ new_job out request retry_of key)
            × (commit lib out
                  (with_jobs s (s.ledger.jobs ++ new_job out request retry_of key ∷ []))
                  s
                ≡ (ok tt, t))
      go (ok u, s') e p = (ground arith, ground arith)
      go (err x, s') e p = absurd (ground arith)

  abbrev refused : Request → Text → Bool
  refused request key =
      not (valid_request request)
      || length key == 0
      || ltb 128 (length key)
      || not (all key_byte key)

  -- A key that names a job of the same request answers with it.
  answered :
      (out : Outside) (request : Request) (key : Text) (s : JobStore) (p : Split Job) (j : Job)
      → refused request key ≡ false
      → split_first (has_key (lib.sha256_hex key)) s.ledger.jobs ≡ some p
      → p.found ≡ j
      → request_eq j.request request ≡ true
      → submit_idempotent lib out request key s ≡ (ok j, s)
  unfolding submit_idempotent
  answered out request key s p j good e f same = rw (good, e) (ground arith)

  -- After a submission that succeeds, the same key and request answer with the same job, and
  -- change nothing, where the new job's id is not one of the ledger's.
  pub submit_idempotent-again :
      (out out' : Outside) (request : Request) (key : Text) (s t : JobStore) (j : Job)
      → any (by_id out.new_id) s.ledger.jobs ≡ false
      → submit_idempotent lib out request key s ≡ (ok j, t)
      → submit_idempotent lib out' request key t ≡ (ok j, t)
  submit_idempotent-again out out' request key s t j fresh h =
      elim (Bool-cases (refused request key)) [
        | inl bad ↦ absurd (unfold submit_idempotent in ground arith)
        | inr good ↦
            elim (Option-cases (split_first (has_key (lib.sha256_hex key)) s.ledger.jobs)) [
              | inr (p, e) ↦ elim (Bool-cases (request_eq p.found.request request)) [
                | inl same ↦
                    let a : s ≡ t = unfold submit_idempotent in ground arith in
                    let b : p.found ≡ j = unfold submit_idempotent in ground arith in
                    subst (λ x. submit_idempotent lib out' request key x ≡ (ok j, x)) a
                      (answered out' request key s p j good e b (ground arith))
                | inr other ↦ absurd (unfold submit_idempotent in ground arith)
              ]
              | inl e ↦
                  let (a, c) =
                    enqueue_ok out request none (some (lib.sha256_hex key)) s t j
                      (unfold submit_idempotent in ground arith) in
                  let (cs, file, _, _, f) = commit_ok lib out _ s t c in
                  let (p, g, same) = again out request key s fresh (split_first-none _ _ e) in
                  subst (λ x. submit_idempotent lib out' request key x ≡ (ok j, x)) (sym f)
                    (answered out' request key _ p j good g (same ∙ sym a)
                      (rw a (unfold new_job in request_eq_refl request)))
            ]
      ]
    where
      again :
          (out : Outside) (request : Request) (key : Text) (s : JobStore)
          → any (by_id out.new_id) s.ledger.jobs ≡ false
          → any (has_key (lib.sha256_hex key)) s.ledger.jobs ≡ false
          → let job = new_job out request none (some (lib.sha256_hex key)) in
            (p : Split Job) × (split_first
                (has_key (lib.sha256_hex key))
                (retain_jobs s.limits.retain_terminal (s.ledger.jobs ++ job ∷ []))
              ≡ some p)
            × (p.found ≡ job)
      again out request key s fresh new =
          unfold new_job in
          found_retained s.limits.retain_terminal (has_key (lib.sha256_hex key)) s.ledger.jobs
            (new_job out request none (some (lib.sha256_hex key))) new
            (text_eq_refl (lib.sha256_hex key)) fresh refl

-- ===== src/Jobs/Notices.antt =====
-- src/jobs.rs: which completion notices a commit records.
use sirius_asset_updater.Base.{
  ◌+◌, ◌≤◌, ◌<◌, Text, text_eq_refl, Bool, true, false, ◌&&◌, ◌||◌, Option, none, some, List, [],
  ◌∷◌, ◌++◌, ◌≡◌, refl, ◌∙◌, arith, Split, SplitsAt, tally, length, length-append, Bool-cases, inl,
  inr, ◌≢◌,
}
use sirius_asset_updater.Region.{Region}
use sirius_asset_updater.Jobs.Types.{
  JobResult, ok, err, full, Job, Outcome, CompletionTarget, CompletionDelivery, JobStore, Library,
  is_completed, max_completion_events,
}
use sirius_asset_updater.Jobs.Ledger.{
  was_completed, targets_of, deliver, deliver_outcome, record_completion, record_completions,
  completion_of,
}
use sirius_asset_updater.Jobs.Store.{targeted}

pub was_completed-append :
    (xs ys : List Job) (id : Text)
    → was_completed (xs ++ ys) id ≡ (was_completed xs id || was_completed ys id)
unfolding was_completed
was_completed-append [] ys id = refl
was_completed-append (x ∷ xs) ys id = ground (arith, was_completed-append xs ys id)

-- Every completed job of `xs` is completed in `old`.
abbrev Settled : List Job → List Job → Type 0
Settled old xs = (id : Text) → was_completed xs id ≡ true → was_completed old id ≡ true

module _ (lib : Library) (s : JobStore) where
  settled_one :
      (j : Job) (cs : List CompletionDelivery)
      → (is_completed j.status ≡ true → was_completed s.ledger.jobs j.id ≡ true)
      → record_completion lib s j cs ≡ ok cs
  unfolding record_completion
  settled_one j cs h = ground arith

  Settled-append :
      (xs ys : List Job) (cs : List CompletionDelivery)
      → Settled s.ledger.jobs xs
      → record_completions lib s (xs ++ ys) cs ≡ record_completions lib s ys cs
  unfolding record_completions
  Settled-append [] ys cs h = refl
  Settled-append (x ∷ xs) ys cs h =
      rw (settled_one x cs here, record_completions) (Settled-append xs ys cs there)
    where
      here : is_completed x.status ≡ true → was_completed s.ledger.jobs x.id ≡ true
      here c = h x.id (unfold was_completed in ground (arith, text_eq_refl x.id))

      there : Settled s.ledger.jobs xs
      there id c = h id (unfold was_completed in ground arith)

  Settled-nil :
      (xs : List Job) (cs : List CompletionDelivery)
      → Settled s.ledger.jobs xs
      → record_completions lib s xs cs ≡ ok cs
  unfolding record_completions
  Settled-nil [] cs h = refl
  Settled-nil (x ∷ xs) cs h =
      rw (settled_one x cs here, record_completions) (Settled-nil xs cs there)
    where
      here : is_completed x.status ≡ true → was_completed s.ledger.jobs x.id ≡ true
      here c = h x.id (unfold was_completed in ground (arith, text_eq_refl x.id))

      there : Settled s.ledger.jobs xs
      there id c = h id (unfold was_completed in ground arith)

  -- The jobs as they are add no notice.
  pub record_completions-same :
      (cs : List CompletionDelivery) → record_completions lib s s.ledger.jobs cs ≡ ok cs
  record_completions-same cs = Settled-nil s.ledger.jobs cs (λ id c. c)

  -- A new job that is not completed adds none.
  pub record_completions-added :
      (j : Job) (cs : List CompletionDelivery)
      → is_completed j.status ≡ false
      → record_completions lib s (s.ledger.jobs ++ j ∷ []) cs ≡ ok cs
  unfolding record_completions
  record_completions-added j cs h =
      Settled-append s.ledger.jobs (j ∷ []) cs (λ id c. c)
      ∙ rw (settled_one j cs (λ c. absurd (ground arith)), record_completions) refl

  -- Where one job is replaced, the notice is that of the new job alone.
  pub record_completions-replaced :
      (q : Job → Bool) (p : Split Job) (j : Job) (cs : List CompletionDelivery)
      → SplitsAt q s.ledger.jobs p
      → record_completions lib s (p.before ++ j ∷ p.after) cs ≡ record_completion lib s j cs
  unfolding record_completions
  record_completions-replaced q p j cs at =
      Settled-append p.before (j ∷ p.after) cs before ∙ go (record_completion lib s j cs) refl
    where
      parts :
          (id : Text)
          → was_completed s.ledger.jobs id
            ≡ (was_completed p.before id || was_completed (p.found ∷ p.after) id)
      parts id = rw at.whole (was_completed-append p.before (p.found ∷ p.after) id)

      before : Settled s.ledger.jobs p.before
      before id c = ground (arith, parts id)

      after : Settled s.ledger.jobs p.after
      after id c = unfold was_completed in ground (arith, parts id)

      go :
          (r : JobResult (List CompletionDelivery))
          → record_completion lib s j cs ≡ r
          → record_completions lib s (j ∷ p.after) cs ≡ record_completion lib s j cs
      go (err e) h = rw (h, record_completions) refl
      go (ok cs') h = rw (h, record_completions) (Settled-nil p.after cs' after)

targets_of-nil :
    (ts : List CompletionTarget) (r : Region) → targeted ts r ≡ false → targets_of ts r ≡ []
unfolding targets_of
targets_of-nil [] r h = refl
targets_of-nil (t ∷ ts) r h = ground (arith, targets_of-nil ts r)

module _ (lib : Library) (s : JobStore) (j : Job) (cs : List CompletionDelivery) where
  deliver-le :
      (o : Outcome) (ts : List Text) (cs' : List CompletionDelivery)
      → deliver lib j o ts cs ≡ ok cs'
      → length cs' ≤ length cs + 1
  unfolding deliver
  deliver-le o [] cs' h = ground arith
  deliver-le o (t ∷ ts) cs' h = ground (
    arith,
    length-append cs (record { event = completion_of j o; pending_targets = t ∷ ts } ∷ []),
  )

  deliver_outcome-le :
      (o : Option Outcome) (cs' : List CompletionDelivery)
      → deliver_outcome lib s.completion_targets j o cs ≡ ok cs'
      → length cs' ≤ length cs + tally (targeted s.completion_targets j.request.region) 0
  deliver_outcome-le none cs' h = ground arith
  deliver_outcome-le (some o) cs' h =
      elim (Bool-cases (targeted s.completion_targets j.request.region)) [
        | inl t ↦ rw t (deliver-le o _ cs' h)
        | inr t ↦
            let e : deliver lib j o [] cs ≡ ok cs' = rw (targets_of-nil _ _ t) at h in
            unfold deliver in ground arith
      ]

  -- A job adds one notice at most, and only if it is completed and its region has a recipient.
  pub length-record_completion-le :
      (cs' : List CompletionDelivery)
      → record_completion lib s j cs ≡ ok cs'
      → length cs'
        ≤ length cs
          + tally (is_completed j.status && targeted s.completion_targets j.request.region) 0
  unfolding record_completion
  length-record_completion-le cs' h = ground (arith, deliver_outcome-le j.outcome cs')

  deliver-ne-full :
      (o : Outcome) (ts : List Text)
      → length cs < max_completion_events
      → deliver lib j o ts cs ≢ err full
  unfolding deliver
  deliver-ne-full o [] h e = cc
  deliver-ne-full o (t ∷ ts) h e = ground arith

  deliver_outcome-ne-full :
      (o : Option Outcome)
      → length cs + tally (targeted s.completion_targets j.request.region) 0 ≤ max_completion_events
      → deliver_outcome lib s.completion_targets j o cs ≢ err full
  deliver_outcome-ne-full none h e = cc
  deliver_outcome-ne-full (some o) h e =
      elim (Bool-cases (targeted s.completion_targets j.request.region)) [
        | inl t ↦ deliver-ne-full o _ (ground arith) e
        | inr t ↦
            let e' : deliver lib j o [] cs ≡ err full = rw (targets_of-nil _ _ t) at e in
            unfold deliver in cc
      ]

  -- There is room for the notice of a completed job where one was reserved.
  pub record_completion-ne-full :
      length cs + tally (is_completed j.status && targeted s.completion_targets j.request.region) 0
        ≤ max_completion_events
      → record_completion lib s j cs ≢ err full
  unfolding record_completion
  record_completion-ne-full h e = ground (arith, deliver_outcome-ne-full j.outcome)

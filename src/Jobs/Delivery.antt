-- ===== src/Jobs/Delivery.antt =====
-- src/jobs.rs: the completion notice that a finished job leaves.
use sirius_asset_updater.Base.{
  Text, text_eq_iff, false, Option, none, some, List, [], ◌∷◌, ◌++◌, ◌≡◌, refl, sym, subst, ◌∙◌, ap,
  arith, Split, SplitsAt, split_first, split_first-SplitsAt, any, Bool-cases, Option-cases, inl,
  inr, if◌then◌else◌,
}
use mathlib.Core.List.{append-nil}
use sirius_asset_updater.Jobs.Types.{
  JobResult, ok, err, ok-injective, Job, Outcome, CompletionTarget, CompletionDelivery, JobStore,
  Library, Outside, Status, is_completed,
}
use sirius_asset_updater.Jobs.Ledger.{
  commit, reply, targets_of, deliver, deliver_outcome, record_completion, was_completed,
  completion_of,
}
use sirius_asset_updater.Jobs.Transitions.{finish_job, bad_failure_code}
use sirius_asset_updater.Jobs.Lifecycle.{
  Moves, drops, stops, stops_again, works, ends_well, ends_badly, ends_cancelled, finish_job-IsEdit,
}
use sirius_asset_updater.Jobs.Store.{with_jobs, by_id, mutate, finish_with_outcome}
use sirius_asset_updater.Jobs.Cases.{JobResult-cases, commit_ok}
use sirius_asset_updater.Jobs.Notices.{record_completions-replaced, was_completed-append}
use sirius_asset_updater.Jobs.Retention.{IsUnique}

abbrev addressed : Job → Outcome → List Text → List CompletionDelivery
addressed j o [] = []
addressed j o (t ∷ ts) = record { event = completion_of j o; pending_targets = t ∷ ts } ∷ []

abbrev notice_of : List CompletionTarget → Job → Option Outcome → List CompletionDelivery
notice_of ts j none = []
notice_of ts j (some o) = addressed j o (targets_of ts j.request.region)

-- The notice that a job should leave: one, to the recipients of its region, if it is completed with
-- an outcome and there are any.
unfoldable pub notice_for : List CompletionTarget → Job → List CompletionDelivery
notice_for ts j = if is_completed j.status then notice_of ts j j.outcome else []

unnamed : (id : Text) (xs : List Job) → any (by_id id) xs ≡ false → was_completed xs id ≡ false
unfolding was_completed
unnamed id [] h = refl
unnamed id (x ∷ xs) h = ground (arith, unnamed id xs)

unique_after : (b a : List Job) (j : Job) → IsUnique (b ++ j ∷ a) → any (by_id j.id) a ≡ false
unique_after [] a j (new, u) = new
unique_after (x ∷ b) a j (new, u) = unique_after b a j u

-- The only job of an id is not completed, so no job of that id is.
not_completed :
    (id : Text) (jobs : List Job) (p : Split Job)
    → IsUnique jobs
    → SplitsAt (by_id id) jobs p
    → is_completed p.found.status ≡ false
    → was_completed jobs p.found.id ≡ false
not_completed id jobs p u at h =
    let e : p.found.id ≡ id = (text_eq_iff p.found.id id).0 at.matches in
    let a = unique_after p.before p.after p.found (subst IsUnique at.whole u) in
    rw (at.whole, was_completed-append p.before (p.found ∷ p.after) p.found.id)
      (unfold was_completed in
        ground (
          arith,
          unnamed p.found.id p.before,
          unnamed p.found.id p.after,
          ap (λ (i : Text). any (by_id i) p.before) e,
        ))

Moves-not_completed : {a b : Status} → Moves a b → is_completed a ≡ false
Moves-not_completed drops = refl
Moves-not_completed stops = refl
Moves-not_completed stops_again = refl
Moves-not_completed works = refl
Moves-not_completed ends_well = refl
Moves-not_completed ends_badly = refl
Moves-not_completed ends_cancelled = refl

reply_ok :
    (a : Job) (r : JobResult (Unit {0}) × JobStore) (b : Job) (t : JobStore)
    → reply a r ≡ (ok b, t)
    → (a ≡ b) × (r ≡ (ok tt, t))
reply_ok a (ok u, s) b t h = (ground arith, ground arith)
reply_ok a (err e, s) b t h = absurd (ground arith)

module _ (lib : Library) where
  deliver-addressed :
      (j : Job) (o : Outcome) (ts : List Text) (cs cs' : List CompletionDelivery)
      → deliver lib j o ts cs ≡ ok cs'
      → cs' ≡ cs ++ addressed j o ts
  unfolding deliver
  deliver-addressed j o [] cs cs' h = sym (ok-injective h) ∙ sym (append-nil cs)
  deliver-addressed j o (t ∷ ts) cs cs' h = ground arith

  deliver_outcome-notice_of :
      (ts : List CompletionTarget) (j : Job) (o : Option Outcome) (cs cs' : List CompletionDelivery)
      → deliver_outcome lib ts j o cs ≡ ok cs'
      → cs' ≡ cs ++ notice_of ts j o
  deliver_outcome-notice_of ts j none cs cs' h = sym (ok-injective h) ∙ sym (append-nil cs)
  deliver_outcome-notice_of ts j (some o) cs cs' h = deliver-addressed j o _ cs cs' h

  recorded :
      (s : JobStore) (j : Job) (cs cs' : List CompletionDelivery)
      → was_completed s.ledger.jobs j.id ≡ false
      → record_completion lib s j cs ≡ ok cs'
      → cs' ≡ cs ++ notice_for s.completion_targets j
  unfolding record_completion notice_for
  recorded s j cs cs' new h =
      ground
        (arith, deliver_outcome-notice_of s.completion_targets j j.outcome cs cs', append-nil cs)

  mutate_ok :
      (out : Outside) (id : Text) (apply : Job → JobResult Job) (s t : JobStore) (j : Job)
      → mutate lib out id apply s ≡ (ok j, t)
      → (p : Split Job) × (k : Job) × SplitsAt (by_id id) s.ledger.jobs p
        × (apply p.found ≡ ok k)
        × (j ≡ record k { updated_at = out.now })
        × (commit lib out (with_jobs s (p.before ++ j ∷ p.after)) s ≡ (ok tt, t))
  unfolding mutate
  mutate_ok out id apply s t j h = elim (Option-cases (split_first (by_id id) s.ledger.jobs)) [
    | inl e ↦ absurd (ground arith)
    | inr (p, e) ↦ elim (JobResult-cases (apply p.found)) [
      | inl (x, r) ↦ absurd (ground arith)
      | inr (k, r) ↦
          let job = record k { updated_at = out.now } in
          let (a, c) =
            reply_ok job (commit lib out (with_jobs s (p.before ++ job ∷ p.after)) s) j t
              (ground arith) in
          (p, k, split_first-SplitsAt _ _ p e, r, sym a, rw (sym a) c)
    ]
  ]

  -- Where the ids are distinct, a job that is finished leaves exactly its notice behind the others:
  -- one for the recipients of its region if it completed with an outcome, and none otherwise.
  pub finish_with_outcome-notice :
      (s t : JobStore) (out : Outside) (id : Text) (failure : Option Text)
      (outcome : Option Outcome) (j : Job)
      → IsUnique s.ledger.jobs
      → finish_with_outcome lib out id failure outcome s ≡ (ok j, t)
      → t.ledger.completions ≡ s.ledger.completions ++ notice_for s.completion_targets j
  unfolding finish_with_outcome
  finish_with_outcome-notice s t out id failure outcome j u h =
      elim (Bool-cases (bad_failure_code failure)) [
        | inl bad ↦ absurd (ground arith)
        | inr good ↦
            let (p, k, at, r, e, c) =
              mutate_ok out id (finish_job failure outcome) s t j (ground arith) in
            let (cs, file, n, enc, f) = commit_ok lib out _ s t c in
            let edit = finish_job-IsEdit failure outcome p.found k r in
            let same : j.id ≡ p.found.id = ap (λ (x : Job). x.id) e ∙ edit.keeps.id in
            let new : was_completed s.ledger.jobs j.id ≡ false =
              rw same
                (not_completed id s.ledger.jobs p u at (Moves-not_completed edit.keeps.moves)) in
            ap (λ (x : JobStore). x.ledger.completions) f
            ∙ recorded s j s.ledger.completions cs new
                (sym (record_completions-replaced lib s (by_id id) p j s.ledger.completions at) ∙ n)
      ]

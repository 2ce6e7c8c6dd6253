-- ===== src/Jobs/Recovery.antt =====
-- src/jobs.rs: the store that `JobStore::open` returns, and calls on it.
use sirius_asset_updater.Base.{
  Text, Bool, true, false, ◌||◌, Option, List, [], ◌∷◌, ◌≡◌, refl, sym, subst, ◌∙◌, ap, arith, map,
  count_if, length, ltb, ◌==◌, Bool-cases, inl, inr,
}
use sirius_asset_updater.Region.{Region, region_eq}
use sirius_asset_updater.Jobs.Types.{
  JobResult, ok, err, ok-injective, Job, JobStore, Ledger, Limits, Library, Outside,
  CompletionDelivery, max_completion_events,
}
use sirius_asset_updater.Jobs.Ledger.{
  commit, record_completion, record_completions, deliver, targets_of, retain_jobs, deliver_outcome,
}
use sirius_asset_updater.Jobs.Store.{reserves}
use sirius_asset_updater.Jobs.Cases.{JobResult-cases, commit_ok}
use sirius_asset_updater.Jobs.Counts.{count_if-retain_jobs-le}
use sirius_asset_updater.Jobs.Slots.{IsSlotted, active_where, run-IsSlotted}
use sirius_asset_updater.Jobs.Reservation.{IsReserved, run-IsReserved}
use sirius_asset_updater.Jobs.Durability.{IsDurable, run-IsDurable}
use sirius_asset_updater.Jobs.Open.{
  Directory, interrupt, open_store, valid_ledger, read_ledger, loaded, recommit,
}
use sirius_asset_updater.Jobs.Calls.{Call, run}

-- No job of a store that has just been loaded is in a slot.
no_slots :
    (out : Outside) (q : Region → Bool) (jobs : List Job)
    → count_if (active_where q) (map (interrupt out) jobs) ≡ 0
unfolding interrupt
no_slots out q [] = refl
no_slots out q (j ∷ js) = ground (arith, no_slots out q js)

-- Without recipients nothing is reserved.
none_reserved : (jobs : List Job) → count_if (reserves []) jobs ≡ 0
none_reserved [] = refl
none_reserved (j ∷ js) = ground (arith, none_reserved js)

module _ (lib : Library) where
  -- Without recipients no notice is recorded.
  no_notices :
      (s : JobStore) (jobs : List Job) (cs : List CompletionDelivery)
      → s.completion_targets ≡ []
      → record_completions lib s jobs cs ≡ ok cs
  unfolding record_completions
  no_notices s [] cs h = refl
  no_notices s (j ∷ js) cs h = rw (one, record_completions) (no_notices s js cs h)
    where
      quiet : deliver_outcome lib s.completion_targets j j.outcome cs ≡ ok cs
      quiet = unfold deliver targets_of in rw h (ground arith)

      one : record_completion lib s j cs ≡ ok cs
      one = unfold record_completion in ground (arith, quiet)

  -- What holds of an opened store.
  pub record IsReady (s : JobStore) : Type 0 where
    pub slotted : IsSlotted s
    pub reserved : IsReserved s
    pub durable : IsDurable lib s

  ready :
      (out : Outside) (limits : Limits) (file : Option Text) (l : Ledger) (s : JobStore)
      {u : Unit {0}}
      → ltb max_completion_events (length l.completions) ≡ false
      → commit lib out (loaded out limits file l).ledger (loaded out limits file l) ≡ (ok u, s)
      → IsReady s
  unfolding loaded
  ready out limits file l s few h =
      let (cs, bytes, r, enc, e) = commit_ok lib out _ _ s h in
      let jobs : List Job = map (interrupt out) l.jobs in
      let quiet = λ (q : Region → Bool).
        count_if-retain_jobs-le (active_where q) limits.retain_terminal jobs in
      subst IsReady (sym e) (record {
        slotted = record {
          bounded = omega (arith, quiet (λ _. true), no_slots out (λ _. true) l.jobs);
          exclusive = λ x.
              omega (arith, quiet (λ q. region_eq q x), no_slots out (λ q. region_eq q x) l.jobs);
        };
        reserved = ground (
          arith,
          none_reserved (retain_jobs limits.retain_terminal jobs),
          no_notices (loaded out limits file l) jobs l.completions refl,
        );
        durable = (bytes, refl, enc);
      })

  recommit_ok :
      (out : Outside) (s t : JobStore)
      → recommit lib out s ≡ ok t
      → (u : Unit {0}) × (commit lib out s.ledger s ≡ (ok u, t))
  unfolding recommit
  recommit_ok out s t h = go (commit lib out s.ledger s) refl h
    where
      go :
          (p : JobResult (Unit {0}) × JobStore)
          → commit lib out s.ledger s ≡ p
          → ◌≡◌ {A = JobResult JobStore} (elim p.0 [ ok _ ↦ ok p.1 | err e ↦ err e ]) (ok t)
          → (u : Unit {0}) × (commit lib out s.ledger s ≡ (ok u, t))
      go (ok u, s') e p = (u, e ∙ ap (λ (x : JobStore). (ok u, x)) (ok-injective p))
      go (err x, s') e p = absurd (cc)

  few :
      (l : Ledger)
      → valid_ledger lib l ≡ true
      → ltb max_completion_events (length l.completions) ≡ false
  unfolding valid_ledger
  few l h = ground arith

  -- `open` fails every job that was interrupted: of the store that it returns no job is in a slot,
  -- the notices fit, and the file is the serialized ledger.
  pub open_store-IsReady :
      (out : Outside) (limits : Limits) (dir : Directory) (s : JobStore)
      → open_store lib out limits dir ≡ ok s
      → IsReady s
  unfolding open_store
  open_store-IsReady out limits dir s h =
      elim (Bool-cases (limits.max_running == 0 || limits.max_queued == 0)) [
        | inl bad ↦ absurd (ground arith)
        | inr good ↦ elim (JobResult-cases (read_ledger lib dir)) [
          | inl (e, r) ↦ absurd (ground arith)
          | inr ((file, l), r) ↦ elim (Bool-cases (valid_ledger lib l)) [
            | inr bad ↦ absurd (ground arith)
            | inl valid ↦
                let (u, c) = recommit_ok out (loaded out limits file l) s (ground arith) in
                ready out limits file l s {u = u} (few l valid) c
          ]
        ]
      ]

  -- So after any calls on an opened store: no more jobs run than `max_running` and no two of one
  -- region, every completion has room for its notice, and the file is the serialized ledger.
  pub opened-run-IsReady :
      (out : Outside) (limits : Limits) (dir : Directory) (s : JobStore)
      (calls : List (Outside × Call))
      → open_store lib out limits dir ≡ ok s
      → IsReady (run lib s calls)
  opened-run-IsReady out limits dir s calls h =
      let r = open_store-IsReady out limits dir s h in
      record {
        slotted = run-IsSlotted lib s calls r.slotted;
        reserved = run-IsReserved lib s calls r.reserved;
        durable = run-IsDurable lib s calls r.durable;
      }

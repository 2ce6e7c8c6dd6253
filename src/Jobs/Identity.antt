-- ===== src/Jobs/Identity.antt =====
-- src/jobs.rs: the ids of the jobs.
use sirius_asset_updater.Base.{
  ℕ, zero, suc, Text, text_eq, Bool, false, ◌||◌, List, [], ◌∷◌, ◌++◌, ◌≡◌, refl, sym, subst, ap,
  arith, any, any-append, filter, Bool-cases, inl, inr,
}
use sirius_asset_updater.Jobs.Types.{Job, Ledger, JobStore, Library, Outside}
use sirius_asset_updater.Jobs.Ledger.{commit, retain_jobs}
use sirius_asset_updater.Jobs.Store.{new_job, start, by_id}
use sirius_asset_updater.Jobs.Calls.{Call, step}
use sirius_asset_updater.Jobs.Cases.{commit_cases}
use sirius_asset_updater.Jobs.Steps.{Rules, step_rule}
use sirius_asset_updater.Jobs.Retention.{IsUnique, text_eq_sym}

any-filter :
    (id : Text) (q : Job → Bool) (xs : List Job)
    → any (by_id id) xs ≡ false
    → any (by_id id) (filter q xs) ≡ false
any-filter id q [] h = refl
any-filter id q (x ∷ xs) h = ground (arith, any-filter id q xs)

IsUnique-filter : (q : Job → Bool) (xs : List Job) → IsUnique xs → IsUnique (filter q xs)
IsUnique-filter q [] u = tt
IsUnique-filter q (x ∷ xs) (new, u) = elim (Bool-cases (q x)) [
  | inl e ↦ rw e (any-filter x.id q xs new, IsUnique-filter q xs u)
  | inr e ↦ rw e (IsUnique-filter q xs u)
]

IsUnique-retain_jobs : (n : ℕ) (jobs : List Job) → IsUnique jobs → IsUnique (retain_jobs n jobs)
unfolding retain_jobs
IsUnique-retain_jobs zero jobs u = u
IsUnique-retain_jobs (suc n) jobs u = IsUnique-filter _ jobs u

IsUnique-added :
    (xs : List Job) (a : Job) → IsUnique xs → any (by_id a.id) xs ≡ false → IsUnique (xs ++ a ∷ [])
IsUnique-added [] a u h = (refl, tt)
IsUnique-added (x ∷ xs) a (new, u) h = (
  ground (arith, any-append (by_id x.id) xs (a ∷ []), text_eq_sym a.id x.id),
  IsUnique-added xs a u (ground arith),
)

any_same :
    (id : Text) (b a : List Job) (j k : Job)
    → j.id ≡ k.id
    → any (by_id id) (b ++ k ∷ a) ≡ any (by_id id) (b ++ j ∷ a)
any_same id [] a j k e = ground arith
any_same id (x ∷ b) a j k e = ap (λ r. text_eq x.id id || r) (any_same id b a j k e)

IsUnique-replaced :
    (b a : List Job) (j k : Job) → j.id ≡ k.id → IsUnique (b ++ j ∷ a) → IsUnique (b ++ k ∷ a)
IsUnique-replaced [] a j k e (new, u) = (subst (λ i. any (by_id i) a ≡ false) e new, u)
IsUnique-replaced (x ∷ b) a j k e (new, u) =
    (ground (arith, any_same x.id b a j k e), IsUnique-replaced b a j k e u)

module _ (lib : Library) (s : JobStore) (out : Outside) where
  abbrev Distinct : JobStore → Type 0
  Distinct t = IsUnique t.ledger.jobs

  commit-Distinct :
      (l : Ledger) → IsUnique s.ledger.jobs → IsUnique l.jobs → Distinct (commit lib out l s).1
  commit-Distinct l u v =
      commit_cases lib Distinct out l s u
        (λ cs file _ _. IsUnique-retain_jobs s.limits.retain_terminal l.jobs v)

  Distinct-Rules :
      IsUnique s.ledger.jobs
      → any (by_id out.new_id) s.ledger.jobs ≡ false
      → Rules lib Distinct s out
  unfolding new_job start
  Distinct-Rules u fresh = record {
    configured = λ targets _. u;
    added =
        λ request retry_of key _ _ _. commit-Distinct _ u (IsUnique-added s.ledger.jobs _ u fresh);
    claimed = λ p _ at. commit-Distinct _ u (
        IsUnique-replaced p.before p.after p.found (start out p.found) refl
          (subst IsUnique at.whole u));
    edited = λ id p j at e. commit-Distinct _ u (
        IsUnique-replaced p.before p.after p.found (record j { updated_at = out.now })
          (sym e.keeps.id) (subst IsUnique at.whole u));
    acked = λ id target p at. commit-Distinct _ u u;
  }

  -- A call keeps the job ids distinct, where the UUID that it may draw is not one of them.
  pub step-IsUnique :
      (c : Call)
      → IsUnique s.ledger.jobs
      → any (by_id out.new_id) s.ledger.jobs ≡ false
      → IsUnique (step lib s (out, c)).ledger.jobs
  step-IsUnique c u fresh = step_rule lib Distinct s out (Distinct-Rules u fresh) u c

-- ===== src/Layout/Complete.antt =====
-- src/stable_layout.rs: `plan_resources` against what a plan promises.
use sirius_asset_updater.Base.{
  ◌+◌, ◌≤◌, ◌<◌, Bool, true, false, List, ◌≡◌, refl, sym, ap, subst, arith, length, all, ◌⊎◌, inl,
  inr,
}
use sirius_asset_updater.Base.Texts.{distinct}
use sirius_asset_updater.Fault.{verification}
use sirius_asset_updater.Layout.Chars.{Unicode}
use sirius_asset_updater.Layout.Types.{Options, ResourceReport, Plan}
use sirius_asset_updater.Layout.Runs.{failed, done}
use sirius_asset_updater.Layout.Tracks.{CueFiles}
use sirius_asset_updater.Layout.Taken.{folded_keys}
use sirius_asset_updater.Layout.Plan.{start, context, plan_resources}
use sirius_asset_updater.Layout.Rounds.{KeepsSuffixes}
use sirius_asset_updater.Layout.Steps.{holds_all, is_from_any}
use sirius_asset_updater.Layout.Validity.{all_valid}
use sirius_asset_updater.Layout.Sequence.{IsState}
use sirius_asset_updater.Layout.Planned.{all_wanted, all_failures, all_claims, plan_loop-Ends}

-- Whether the keys of all verified outputs are valid.
abbrev pub keys_valid : Unicode → CueFiles → List ResourceReport → Options → Bool
keys_valid u files rs options = all_valid (context u rs options) files rs start.names

-- What a plan promises of its keys, of the outputs in it and of the failed resources.
pub record IsPlan (u : Unicode) (files : CueFiles) (rs : List ResourceReport) (options : Options)
    (p : Plan) : Type 0 where
  pub valid : keys_valid u files rs options ≡ true
  pub unique : distinct (folded_keys u p.entries) ≡ true
  pub held : holds_all (all_wanted rs) p.entries ≡ true
  pub own : all (is_from_any (all_wanted rs)) p.entries ≡ true
  pub counted : length p.entries + p.deduplicated ≡ all_claims files rs
  pub failed : p.failed_sources ≡ all_failures rs
  pub few : length p.failed_sources ≤ options.max_failed_resources

module _ (u : Unicode) (law : KeepsSuffixes u) (files : CueFiles) where
  start-IsState :
      (rs : List ResourceReport) (options : Options) → IsState (context u rs options) start
  start-IsState rs options = record {
    claims = record { by_key = refl; by_place = refl; unique = refl };
    few = omega arith;
  }

  -- Where the case mapping keeps suffixes, the planner always ends: it refuses the export, which has
  -- an invalid key or more failed resources than the options allow, or it gives a plan whose keys are
  -- distinct if case is ignored, that holds the content of each verified output and only entries of
  -- them, that counts each claimed key as an entry or a duplicate, and that lists the failed
  -- resources in their order, of which there are no more than the options allow.
  pub plan_resources-IsPlan :
      (rs : List ResourceReport) (options : Options)
      → ((plan_resources u files rs options ≡ failed verification)
          × ((keys_valid u files rs options ≡ false)
              ⊎ (options.max_failed_resources < length (all_failures rs))))
        ⊎ ((p : Plan) × (plan_resources u files rs options ≡ done p) × IsPlan u files rs options p)
  unfolding plan_resources
  plan_resources-IsPlan rs options =
      elim (plan_loop-Ends (context u rs options) law files rs start (start-IsState rs options)) [
        | inl (x, inl bad) ↦ inl (rw x refl, inl bad)
        | inl (x, inr many) ↦ inl (rw x refl, inr (omega (arith, many)))
        | inr (t, x, v, q, h, adds) ↦ inr (
          t.claims.plan,
          rw x refl,
          record {
            valid = v;
            unique = h.claims.unique;
            held = adds.held;
            own =
                subst (λ es. all (is_from_any (all_wanted rs)) es ≡ true) (sym adds.kept) adds.own;
            counted = omega (arith, adds.counted);
            failed = adds.failed;
            few = h.few;
          },
        )
      ]

  -- Where the case mapping keeps suffixes, the keys of all outputs are valid and no more resources
  -- failed than the options allow, the export is planned.
  pub plan_resources-done :
      (rs : List ResourceReport) (options : Options)
      → keys_valid u files rs options ≡ true
      → length (all_failures rs) ≤ options.max_failed_resources
      → (p : Plan) × (plan_resources u files rs options ≡ done p)
  plan_resources-done rs options valid few = elim (plan_resources-IsPlan rs options) [
    | inl (x, inl bad) ↦ absurd (ground arith)
    | inl (x, inr many) ↦ absurd (omega (arith, many, few))
    | inr (p, x, h) ↦ (p, x)
  ]

  -- Where the case mapping keeps suffixes, an export with an invalid key or with more failed
  -- resources than the options allow is refused.
  pub plan_resources-refuses :
      (rs : List ResourceReport) (options : Options)
      → (keys_valid u files rs options ≡ false)
        ⊎ (options.max_failed_resources < length (all_failures rs))
      → plan_resources u files rs options ≡ failed verification
  plan_resources-refuses rs options why = elim (plan_resources-IsPlan rs options) [
    | inl (x, bad) ↦ x
    | inr (p, x, h) ↦ elim why [
      | inl bad ↦ absurd (ground (arith, h.valid))
      | inr many ↦ absurd (omega (arith, ap length h.failed, h.few))
    ]
  ]

-- ===== src/Layout/Planned.antt =====
-- src/stable_layout.rs: what a run of `plan_resources` leaves.
use mathlib.Core.List.{append-nil}
use sirius_asset_updater.Base.{
  ℕ, ◌+◌, Text, true, List, [], ◌∷◌, ◌++◌, refl, sym, subst, arith, length, length-append, map, leb,
  ◌==◌, Bool-cases, inl, inr, if◌then◌else◌,
}
use sirius_asset_updater.Layout.Types.{OutputRecord, ResourceReport, Entry}
use sirius_asset_updater.Layout.Keys.{Context}
use sirius_asset_updater.Layout.Tracks.{CueFiles}
use sirius_asset_updater.Layout.Claim.{Claims}
use sirius_asset_updater.Layout.Taken.{AreClaims}
use sirius_asset_updater.Layout.Plan.{
  key_parts, entry_of, State, plan_output, plan_outputs, leave_out, plan_resource, plan_loop,
}
use sirius_asset_updater.Layout.Aliases.{alias_count, key_parts-Counted}
use sirius_asset_updater.Layout.Rounds.{KeepsSuffixes}
use sirius_asset_updater.Layout.Validity.{
  output_valid, outputs_names, outputs_valid, resource_names, resource_valid, all_valid, all_names,
}
use sirius_asset_updater.Layout.Steps.{Adds, Adds_refl}
use sirius_asset_updater.Layout.Ends.{claim_keys-Ends}
use sirius_asset_updater.Layout.Sequence.{IsState, EndsIn, sequence, kept_few}

-- The outputs that an export verified, as the entries that want a key, and the sources that failed.
abbrev pub wanted_of : ResourceReport → List Entry
wanted_of r = if length r.errors == 0 then map (entry_of r) r.outputs else []

abbrev pub failures_of : ResourceReport → List Text
failures_of r = if length r.errors == 0 then [] else r.source ∷ []

abbrev pub alias_counts : CueFiles → ResourceReport → List OutputRecord → ℕ
alias_counts files r [] = 0
alias_counts files r (o ∷ os) = alias_count files r o + alias_counts files r os

abbrev pub claims_of : CueFiles → ResourceReport → ℕ
claims_of files r = if length r.errors == 0 then alias_counts files r r.outputs else 0

-- The same of all resources, in their order.
abbrev pub all_wanted : List ResourceReport → List Entry
all_wanted [] = []
all_wanted (r ∷ rs) = wanted_of r ++ all_wanted rs

abbrev pub all_failures : List ResourceReport → List Text
all_failures [] = []
all_failures (r ∷ rs) = failures_of r ++ all_failures rs

abbrev pub all_claims : CueFiles → List ResourceReport → ℕ
all_claims files [] = 0
all_claims files (r ∷ rs) = claims_of files r + all_claims files rs

module _ (c : Context) (law : KeepsSuffixes c.unicode) (files : CueFiles) where
  plan_output-Ends :
      (r : ResourceReport) (o : OutputRecord) (s : State)
      → IsState c s
      → EndsIn c
          (output_valid c files r o s.names)
          (key_parts c files r o s.names).1
          (alias_count files r o)
          []
          (entry_of r o ∷ [])
          s
          (plan_output c files r o s)
  plan_output-Ends r o s h =
      let (k, ks, e, n) = key_parts-Counted c files r o s.names in
      elim (claim_keys-Ends c law (entry_of r o) k ks s.claims h.claims) [
        | inl (x, bad) ↦ inl (rw (e, x) refl, inl (rw e bad))
        | inr (b, x, good, adds) ↦
            let t : State = record { names = (key_parts c files r o s.names).1; claims = b } in
            let sum = subst (λ m. Adds c.unicode m [] (entry_of r o ∷ []) s.claims b) n adds in
            inr (
              t,
              rw (e, x) refl,
              rw e good,
              refl,
              kept_few c (alias_count files r o) (entry_of r o ∷ []) s t h sum,
              sum,
            )
      ]

  plan_outputs-Ends :
      (r : ResourceReport) (os : List OutputRecord) (s : State)
      → IsState c s
      → EndsIn c
          (outputs_valid c files r os s.names)
          (outputs_names c files r os s.names)
          (alias_counts files r os)
          []
          (map (entry_of r) os)
          s
          (plan_outputs c files r os s)
  unfolding plan_outputs
  plan_outputs-Ends r [] s h = inr (s, refl, refl, refl, h, Adds_refl c.unicode s.claims h.claims)
  plan_outputs-Ends r (o ∷ os) s h =
      let names = (key_parts c files r o s.names).1 in
      sequence c (output_valid c files r o s.names) (outputs_valid c files r os names) names
        (outputs_names c files r os names) (alias_count files r o) (alias_counts files r os) [] []
        (entry_of r o ∷ []) (map (entry_of r) os) s (plan_output c files r o s)
        (plan_outputs c files r os) (plan_output-Ends r o s h)
        (λ t q k.
          subst
            (λ z.
              EndsIn c (outputs_valid c files r os z) (outputs_names c files r os z)
                (alias_counts files r os) [] (map (entry_of r) os) t (plan_outputs c files r os t))
            q (plan_outputs-Ends r os t k))

  -- The state behind a resource that is left out.
  leave_out-Ends :
      (r : ResourceReport) (s : State)
      → IsState c s
      → EndsIn c true s.names 0 (r.source ∷ []) [] s (leave_out c files r s)
  leave_out-Ends r s h =
      elim (Bool-cases (leb c.options.max_failed_resources (length s.claims.plan.failed_sources))) [
        | inl full ↦ inl (rw full refl, inr (ground arith))
        | inr room ↦
            let d : Claims = record s.claims {
              plan = record s.claims.plan {
                failed_sources = s.claims.plan.failed_sources ++ r.source ∷ [];
              };
            } in
            let k : AreClaims c.unicode d = record {
              by_key = h.claims.by_key;
              by_place = h.claims.by_place;
              unique = h.claims.unique;
            } in
            inr (
              record s { claims = d },
              rw room refl,
              refl,
              refl,
              record {
                claims = k;
                few = ground (arith, length-append s.claims.plan.failed_sources (r.source ∷ []));
              },
              record {
                claims = k;
                more = [];
                kept = sym (append-nil s.claims.plan.entries);
                held = refl;
                own = refl;
                counted = omega arith;
                failed = refl;
              },
            )
      ]

  plan_resource-Ends :
      (r : ResourceReport) (s : State)
      → IsState c s
      → EndsIn c
          (resource_valid c files r s.names)
          (resource_names c files r s.names)
          (claims_of files r)
          (failures_of r)
          (wanted_of r)
          s
          (plan_resource c files r s)
  plan_resource-Ends r s h = elim (Bool-cases (length r.errors == 0)) [
    | inl good ↦ rw good (plan_outputs-Ends r r.outputs s h)
    | inr bad ↦ rw bad (leave_out-Ends r s h)
  ]

  pub plan_loop-Ends :
      (rs : List ResourceReport) (s : State)
      → IsState c s
      → EndsIn c
          (all_valid c files rs s.names)
          (all_names c files rs s.names)
          (all_claims files rs)
          (all_failures rs)
          (all_wanted rs)
          s
          (plan_loop c files rs s)
  unfolding plan_loop
  plan_loop-Ends [] s h = inr (s, refl, refl, refl, h, Adds_refl c.unicode s.claims h.claims)
  plan_loop-Ends (r ∷ rs) s h =
      let names = resource_names c files r s.names in
      sequence c (resource_valid c files r s.names) (all_valid c files rs names) names
        (all_names c files rs names) (claims_of files r) (all_claims files rs) (failures_of r)
        (all_failures rs) (wanted_of r) (all_wanted rs) s (plan_resource c files r s)
        (plan_loop c files rs) (plan_resource-Ends r s h)
        (λ t q k.
          subst
            (λ z.
              EndsIn c (all_valid c files rs z) (all_names c files rs z) (all_claims files rs)
                (all_failures rs) (all_wanted rs) t (plan_loop c files rs t))
            q (plan_loop-Ends rs t k))

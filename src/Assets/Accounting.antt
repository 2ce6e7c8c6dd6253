-- ===== src/Assets/Accounting.antt =====
-- src/assets.rs: what `Catalog::plan_with` makes of each location of the catalog.
use sirius_asset_updater.Base.{
  ℕ, ◌+◌, Text, Option, none, some, List, [], ◌∷◌, ◌≡◌, subst, arith, all, ◌||◌, count_if, tally,
  Bool, true, false, refl, All, Bool-cases, inl, inr,
}
use sirius_asset_updater.Fault.{ok, Result-cases, ok-injective}
use sirius_asset_updater.Catalog.Types.{Location, Catalog}
use sirius_asset_updater.Assets.Plan.{
  Provider, Plan, Place, unknown, embedded, remote, safe_relative, provider_of, place_of, add_asset,
  place_location, plan_provided, plan_location, plan_locations, check_folded, empty_plan, plan_with,
}
use sirius_asset_updater.Assets.Served.{
  served, IsSafe, served-add_asset, IsSafe-add_asset, served_by, embedded_by, logical_by,
}

abbrev pub has_fate : ℕ → Option (Option Provider) → Place → Bool
has_fate id p place = served_by (λ _ _ _. true) id p place || embedded_by p place || logical_by p

has_fate-place :
    (p : Provider) (id : ℕ) (place : Place) (plan out : Plan)
    → place_location p id place plan ≡ ok out
    → has_fate id (some (some p)) place ≡ true
has_fate-place p id unknown plan out h = absurd (cc)
has_fate-place p id (embedded path) plan out h = refl
has_fate-place p id (remote path) plan out h = refl

has_fate-provided :
    (remote_dir : Text) (placeholder : Option Text) (l : Location) (p : Option (Option Provider))
    (plan out : Plan)
    → plan_provided remote_dir placeholder l p plan ≡ ok out
    → has_fate l.id p (place_of remote_dir placeholder l.internal_id) ≡ true
has_fate-provided remote_dir placeholder l none plan out h = absurd (cc)
has_fate-provided remote_dir placeholder l (some none) plan out h = ground arith
has_fate-provided remote_dir placeholder l (some (some p)) plan out h =
    has_fate-place p l.id (place_of remote_dir placeholder l.internal_id) plan out h

-- What a step makes of a plan.
record Counts (q : Text → Provider → ℕ → Bool) (s e l : Bool) (plan out : Plan) : Type 0 where
  by_asset : served q out.assets ≡ tally s (served q plan.assets)
  by_package : out.embedded_locations ≡ tally e plan.embedded_locations
  by_object : out.logical_locations ≡ tally l plan.logical_locations
  safe : All IsSafe plan.assets → All IsSafe out.assets

module _ (remote_dir : Text) (placeholder : Option Text) where
  abbrev pub place : Location → Place
  place l = place_of remote_dir placeholder l.internal_id

  abbrev pub is_embedded : Location → Bool
  is_embedded l = embedded_by (provider_of l.provider_id) (place l)

  abbrev pub is_logical : Location → Bool
  is_logical l = logical_by (provider_of l.provider_id)

  abbrev pub is_accounted : Location → Bool
  is_accounted l = has_fate l.id (provider_of l.provider_id) (place l)

module _ (q : Text → Provider → ℕ → Bool) where
  place-Counts :
      (p : Provider) (id : ℕ) (place : Place) (plan out : Plan)
      → place_location p id place plan ≡ ok out
      → Counts q
          (served_by q id (some (some p)) place)
          (embedded_by (some (some p)) place)
          false
          plan
          out
  place-Counts p id unknown plan out h = absurd (cc)
  place-Counts p id (embedded path) plan out h = elim (Bool-cases (safe_relative path)) [
    | inr bad ↦ absurd (ground arith)
    | inl safe ↦
        subst (Counts q false true false plan)
          {x = record plan { embedded_locations = plan.embedded_locations + 1 }} {y = out}
          (ground arith)
          (record { by_asset = refl; by_package = omega arith; by_object = refl; safe = λ a. a })
  ]
  place-Counts p id (remote path) plan out h = elim (Bool-cases (safe_relative path)) [
    | inr bad ↦ absurd (ground arith)
    | inl safe ↦ elim (Result-cases (add_asset path p id plan.assets)) [
      | inl (x, k) ↦ absurd (ground arith)
      | inr (assets, k) ↦
          subst (Counts q (q path p id) false false plan) {x = record plan { assets = assets }}
            {y = out} (ground arith)
            (record {
              by_asset = served-add_asset q path p id plan.assets assets k;
              by_package = refl;
              by_object = refl;
              safe = λ a. IsSafe-add_asset path p id plan.assets assets safe a k;
            })
    ]
  ]

  module _ (remote_dir : Text) (placeholder : Option Text) where
    abbrev pub is_served : Location → Bool
    is_served l = served_by q l.id (provider_of l.provider_id) (place remote_dir placeholder l)

    provided-Counts :
        (l : Location) (p : Option (Option Provider)) (plan out : Plan)
        → plan_provided remote_dir placeholder l p plan ≡ ok out
        → Counts q
            (served_by q l.id p (place remote_dir placeholder l))
            (embedded_by p (place remote_dir placeholder l))
            (logical_by p)
            plan
            out
    provided-Counts l none plan out h = absurd (cc)
    provided-Counts l (some none) plan out h =
        subst (Counts q false false true plan)
          {x = record plan { logical_locations = plan.logical_locations + 1 }} {y = out}
          (ok-injective h)
          (record { by_asset = refl; by_package = refl; by_object = omega arith; safe = λ a. a })
    provided-Counts l (some (some p)) plan out h =
        place-Counts p l.id (place remote_dir placeholder l) plan out h

    locations-counted :
        (ls : List Location) (plan out : Plan)
        → All IsSafe plan.assets
        → plan_locations remote_dir placeholder ls plan ≡ ok out
        → (served q out.assets ≡ count_if is_served ls + served q plan.assets)
          × (out.embedded_locations
              ≡ count_if (is_embedded remote_dir placeholder) ls + plan.embedded_locations)
          × (out.logical_locations
              ≡ count_if (is_logical remote_dir placeholder) ls + plan.logical_locations)
          × (all (is_accounted remote_dir placeholder) ls ≡ true)
          × All IsSafe out.assets
    unfolding plan_locations
    locations-counted [] plan out a h =
        let e : plan ≡ out = ok-injective h in
        (
          ground arith,
          ground arith,
          ground arith,
          refl,
          subst (λ (x : Plan). All IsSafe x.assets) e a,
        )
    locations-counted (l ∷ ls) plan out a h =
        elim (Result-cases (plan_location remote_dir placeholder l plan)) [
          | inl (x, k) ↦ absurd (ground arith)
          | inr (next, k) ↦
              let c =
                provided-Counts l (provider_of l.provider_id) plan next
                  (unfold plan_location in k) in
              let f =
                has_fate-provided remote_dir placeholder l (provider_of l.provider_id) plan next
                  (unfold plan_location in k) in
              let (m, n, o, z, s) = locations-counted ls next out (c.safe a) (ground arith) in
              (
                ground (arith, m, c.by_asset),
                ground (arith, n, c.by_package),
                ground (arith, o, c.by_object),
                ground (arith, f, z),
                s,
              )
        ]

check_folded-same : (plan out : Plan) → check_folded plan ≡ ok out → plan ≡ out
unfolding check_folded
check_folded-same plan out h = ground arith

-- The assets of a plan serve, with their paths and providers, exactly the locations whose provider has
-- files and whose place is remote, as many times each, whatever test of path, provider and id they are
-- counted by; the plan counts the embedded and the logical locations; every location is one of these;
-- and every asset's path is safe.
pub plan_with-counted :
    (q : Text → Provider → ℕ → Bool) (remote_dir : Text) (placeholder : Option Text) (c : Catalog)
    (out : Plan)
    → plan_with remote_dir placeholder c ≡ ok out
    → (served q out.assets ≡ count_if (is_served q remote_dir placeholder) c.locations)
      × (out.embedded_locations ≡ count_if (is_embedded remote_dir placeholder) c.locations)
      × (out.logical_locations ≡ count_if (is_logical remote_dir placeholder) c.locations)
      × (all (is_accounted remote_dir placeholder) c.locations ≡ true)
      × All IsSafe out.assets
unfolding plan_with
plan_with-counted q remote_dir placeholder c out h =
    elim (Result-cases (plan_locations remote_dir placeholder c.locations empty_plan)) [
      | inl (x, k) ↦ absurd (ground arith)
      | inr (plan, k) ↦
          let e : plan ≡ out = check_folded-same plan out (ground arith) in
          let (m, n, o, z, s) =
            locations-counted q remote_dir placeholder c.locations empty_plan plan tt k in
          (
            rw (← e) (unfold served in omega (arith, m)),
            rw (← e) (omega (arith, n)),
            rw (← e) (omega (arith, o)),
            z,
            subst (λ (x : Plan). All IsSafe x.assets) e s,
          )
    ]

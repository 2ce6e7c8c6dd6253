-- ===== src/Assets/Served.antt =====
-- src/assets.rs: the locations that the assets of a plan serve.
use sirius_asset_updater.Base.{
  ℕ, ◌+◌, Text, text_eq, text_leb, Option, none, some, List, [], ◌∷◌, ◌++◌, ◌≡◌, subst, arith,
  count_if, count_if-append, tally, Bool, true, false, text_eq_iff, refl, All, Bool-cases, inl, inr,
}
use sirius_asset_updater.Fault.{ok, Result-cases, ok-injective}
use sirius_asset_updater.Assets.Plan.{
  Provider, provider_eq, Asset, Place, embedded, remote, safe_relative, add_asset,
}

-- The locations that assets serve, where a test of the asset's path, its provider and the location's id
-- holds.
unfoldable pub served : (Text → Provider → ℕ → Bool) → List Asset → ℕ
served q [] = 0
served q (a ∷ as') = count_if (q a.relative_path a.provider) a.locations + served q as'

abbrev pub IsSafe : Asset → Type 0
IsSafe a = safe_relative a.relative_path ≡ true

provider_eq-eq : (p q : Provider) → provider_eq p q ≡ true → p ≡ q
provider_eq-eq p q h = ground arith

pub served-add_asset :
    (q : Text → Provider → ℕ → Bool) (path : Text) (p : Provider) (id : ℕ) (as' out : List Asset)
    → add_asset path p id as' ≡ ok out
    → served q out ≡ tally (q path p id) (served q as')
unfolding add_asset served
served-add_asset q path p id [] out h =
    subst (λ z. served q z ≡ tally (q path p id) 0) (ok-injective h) (unfold served in ground arith)
served-add_asset q path p id (a ∷ as') out h = elim (Bool-cases (text_eq a.relative_path path)) [
  | inl e ↦ elim (Bool-cases (provider_eq a.provider p)) [
    | inr other ↦ absurd (ground arith)
    | inl same ↦
        let x : a.relative_path ≡ path = (text_eq_iff a.relative_path path).0 e in
        let y : a.provider ≡ p = provider_eq-eq a.provider p same in
        let z : q path p id ≡ q a.relative_path a.provider id = rw (x, y) refl in
        subst (λ z. served q z ≡ tally (q path p id) (served q (a ∷ as')))
          {x = record a { locations = a.locations ++ id ∷ [] } ∷ as'} {y = out} (ground arith)
          (unfold served in
            ground (arith, z, count_if-append (q a.relative_path a.provider) a.locations (id ∷ [])))
  ]
  | inr e ↦ elim (Bool-cases (text_leb path a.relative_path)) [
    | inl f ↦
        subst (λ z. served q z ≡ tally (q path p id) (served q (a ∷ as')))
          {x = record { relative_path = path; provider = p; locations = id ∷ [] } ∷ a ∷ as'}
          {y = out} (ground arith) (unfold served in ground arith)
    | inr f ↦ elim (Result-cases (add_asset path p id as')) [
      | inl (x, k) ↦ absurd (ground arith)
      | inr (more, k) ↦
          subst (λ z. served q z ≡ tally (q path p id) (served q (a ∷ as'))) {x = a ∷ more}
            {y = out} (ground arith)
            (unfold served in ground (arith, served-add_asset q path p id as' more k))
    ]
  ]
]

pub IsSafe-add_asset :
    (path : Text) (p : Provider) (id : ℕ) (as' out : List Asset)
    → safe_relative path ≡ true
    → All IsSafe as'
    → add_asset path p id as' ≡ ok out
    → All IsSafe out
unfolding add_asset
IsSafe-add_asset path p id [] out s a h = subst (All IsSafe) (ok-injective h) (s, tt)
IsSafe-add_asset path p id (b ∷ as') out s (k, ks) h =
    elim (Bool-cases (text_eq b.relative_path path)) [
      | inl e ↦ elim (Bool-cases (provider_eq b.provider p)) [
        | inl same ↦
            subst (All IsSafe) {x = record b { locations = b.locations ++ id ∷ [] } ∷ as'} {y = out}
              (ground arith) (k, ks)
        | inr other ↦ absurd (ground arith)
      ]
      | inr e ↦ elim (Bool-cases (text_leb path b.relative_path)) [
        | inl f ↦
            subst (All IsSafe)
              {x = record { relative_path = path; provider = p; locations = id ∷ [] } ∷ b ∷ as'}
              {y = out} (ground arith) (s, (k, ks))
        | inr f ↦ elim (Result-cases (add_asset path p id as')) [
          | inl (x, q) ↦ absurd (ground arith)
          | inr (more, q) ↦
              subst (All IsSafe) {x = b ∷ more} {y = out} (ground arith)
                (k, IsSafe-add_asset path p id as' more s ks q)
        ]
      ]
    ]

-- What becomes of a location with a provider and a place: an asset serves it, or it is one that is
-- embedded, or a logical one.
abbrev pub served_by : (Text → Provider → ℕ → Bool) → ℕ → Option (Option Provider) → Place → Bool
served_by q id (some (some p)) (remote path) = q path p id
served_by q id _ _ = false

abbrev pub embedded_by : Option (Option Provider) → Place → Bool
embedded_by (some (some p)) (embedded path) = true
embedded_by _ _ = false

abbrev pub logical_by : Option (Option Provider) → Bool
logical_by (some none) = true
logical_by _ = false

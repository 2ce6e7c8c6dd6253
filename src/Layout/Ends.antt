-- ===== src/Layout/Ends.antt =====
-- src/stable_layout.rs: how the claims of an output end.
use sirius_asset_updater.Base.{
  ℕ, suc, Text, Bool, true, false, List, [], ◌∷◌, ◌≡◌, refl, ◌∙◌, arith, length, Bool-cases,
  Option-cases, ◌⊎◌, inl, inr,
}
use sirius_asset_updater.Fault.{verification}
use sirius_asset_updater.Layout.Chars.{Unicode}
use sirius_asset_updater.Layout.Types.{Entry}
use sirius_asset_updater.Layout.Runs.{Run, failed, done}
use sirius_asset_updater.Layout.Keys.{Context}
use sirius_asset_updater.Layout.Claim.{Claims, valid_key, claim}
use sirius_asset_updater.Layout.Claims.{claim-Claimed}
use sirius_asset_updater.Layout.Taken.{AreClaims}
use sirius_asset_updater.Layout.Plan.{key_of, claim_keys}
use sirius_asset_updater.Layout.Rounds.{KeepsSuffixes, claim-ends}
use sirius_asset_updater.Layout.Validity.{all_valid_keys}
use sirius_asset_updater.Layout.Steps.{Adds, Adds_claimed, Adds_again}

-- How a part of the run ends: it refuses the export for an invalid key, or it adds to the plan.
abbrev pub Ends : Unicode → Bool → ℕ → List Text → List Entry → Claims → Run Claims → Type 0
Ends u valid n failures wanted a r =
    ((r ≡ failed verification) × (valid ≡ false))
    ⊎ ((b : Claims) × (r ≡ done b) × (valid ≡ true) × Adds u n failures wanted a b)

module _ (c : Context) (law : KeepsSuffixes c.unicode) where
  -- One key of an output.
  claimed_key :
      (entry : Entry) (parts : List Text) (keys : List (List Text)) (a : Claims)
      → AreClaims c.unicode a
      → ((claim_keys c entry (parts ∷ keys) a ≡ failed verification)
          × (valid_key (key_of c parts) ≡ false))
        ⊎ ((m : Claims) × (claim_keys c entry (parts ∷ keys) a ≡ claim_keys c entry keys m)
            × (valid_key (key_of c parts) ≡ true)
            × Adds c.unicode 1 [] (entry ∷ []) a m)
  unfolding claim_keys
  claimed_key entry parts keys a h = elim (Bool-cases (valid_key (key_of c parts))) [
    | inr bad ↦ inl (rw bad refl, bad)
    | inl good ↦ elim (Option-cases (claim c.unicode (key_of c parts) entry a)) [
      | inl x ↦ absurd (claim-ends c.unicode law (key_of c parts) entry a h x)
      | inr (m, x) ↦ inr (
        m,
        rw (good, x) refl,
        good,
        Adds_claimed c.unicode entry a m (claim-Claimed c.unicode (key_of c parts) entry a m h x),
      )
    ]
  ]

  -- The keys of an output, of which there is one at least.
  pub claim_keys-Ends :
      (entry : Entry) (parts : List Text) (keys : List (List Text)) (a : Claims)
      → AreClaims c.unicode a
      → Ends c.unicode
          (all_valid_keys c (parts ∷ keys))
          (suc (length keys))
          []
          (entry ∷ [])
          a
          (claim_keys c entry (parts ∷ keys) a)
  unfolding claim_keys
  claim_keys-Ends entry parts [] a h = elim (claimed_key entry parts [] a h) [
    | inl (x, bad) ↦ inl (x, ground arith)
    | inr (m, x, good, adds) ↦ inr (m, x, ground arith, adds)
  ]
  claim_keys-Ends entry parts (k ∷ keys) a h = elim (claimed_key entry parts (k ∷ keys) a h) [
    | inl (x, bad) ↦ inl (x, rw bad refl)
    | inr (m, x, good, adds) ↦ elim (claim_keys-Ends entry k keys m adds.claims) [
      | inl (y, bad) ↦ inl (x ∙ y, rw good bad)
      | inr (b, y, v, more) ↦
          inr (b, x ∙ y, rw good v, Adds_again c.unicode (suc (length keys)) entry a m b adds more)
    ]
  ]

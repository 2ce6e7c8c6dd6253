-- ===== src/Layout/Sequence.antt =====
-- src/stable_layout.rs: the parts of a run of `plan_resources`, one behind another.
use sirius_asset_updater.Base.{
  ℕ, ◌+◌, ◌≤◌, ◌<◌, Text, Bool, true, false, ◌&&◌, List, [], ◌++◌, ◌≡◌, refl, ap, arith, length,
  length-append, ◌⊎◌, inl, inr,
}
use sirius_asset_updater.Fault.{verification}
use sirius_asset_updater.Layout.Types.{Entry}
use sirius_asset_updater.Layout.Runs.{Run, failed, done, ◌>>=◌}
use sirius_asset_updater.Layout.Keys.{Names, Context}
use sirius_asset_updater.Layout.Taken.{AreClaims}
use sirius_asset_updater.Layout.Plan.{State}
use sirius_asset_updater.Layout.Steps.{Adds, Adds_trans}

-- The maps agree with the plan, and it leaves out no more resources than it may.
pub record IsState (c : Context) (s : State) : Type 0 where
  pub claims : AreClaims c.unicode s.claims
  pub few : length s.claims.plan.failed_sources ≤ c.options.max_failed_resources

module _ (c : Context) where
  -- How a part of the run ends: it refuses the export where a key is invalid or more resources are
  -- left out than may be, or it adds to the plan.
  abbrev pub EndsIn : Bool → Names → ℕ → List Text → List Entry → State → Run State → Type 0
  EndsIn valid names n failures wanted s r =
      ((r ≡ failed verification)
        × ((valid ≡ false)
            ⊎ (c.options.max_failed_resources
                < length s.claims.plan.failed_sources + length failures)))
      ⊎ ((t : State) × (r ≡ done t)
          × (valid ≡ true)
          × (t.names ≡ names)
          × IsState c t
          × Adds c.unicode n failures wanted s.claims t.claims)

  -- A refusal of the first part, and one of the second, as one of both.
  module _ (v w : Bool) (f g : List Text) (s : State) where
    abbrev Refuses : Bool → List Text → State → Type 0
    Refuses valid failures s =
        (valid ≡ false)
        ⊎ (c.options.max_failed_resources < length s.claims.plan.failed_sources + length failures)

    Refuses-first : Refuses v f s → Refuses (v && w) (f ++ g) s
    Refuses-first (inl bad) = inl (ground arith)
    Refuses-first (inr many) = inr (omega (arith, many, length-append f g))

    Refuses-later :
        (m : ℕ) (ws : List Entry) (t : State)
        → Adds c.unicode m f ws s.claims t.claims
        → Refuses w g t
        → Refuses (v && w) (f ++ g) s
    Refuses-later m ws t adds (inl bad) = inl (ground arith)
    Refuses-later m ws t adds (inr many) = inr (
        omega (
          arith,
          many,
          ap length adds.failed,
          length-append s.claims.plan.failed_sources f,
          length-append f g,
        ))

  pub sequence :
      (v w : Bool) (names names' : Names) (m n : ℕ) (f g : List Text) (ws vs : List Entry)
      (s : State) (first : Run State) (next : State → Run State)
      → EndsIn v names m f ws s first
      → ((t : State) → t.names ≡ names → IsState c t → EndsIn w names' n g vs t (next t))
      → EndsIn (v && w) names' (m + n) (f ++ g) (ws ++ vs) s (first >>= next)
  sequence v w names names' m n f g ws vs s first next h k = elim h [
    | inl (x, bad) ↦ inl (rw x refl, Refuses-first v w f g s bad)
    | inr (t, x, good, q, ht, adds) ↦ elim (k t q ht) [
      | inl (y, bad) ↦ inl (rw (x, y) refl, Refuses-later v w f g s m ws t adds bad)
      | inr (z, y, good', q', hz, more) ↦ inr (
        z,
        rw (x, y) refl,
        ground arith,
        q',
        hz,
        Adds_trans c.unicode m n f g ws vs s.claims t.claims z.claims adds more,
      )
    ]
  ]

  -- A part that leaves no resource out keeps the state.
  pub kept_few :
      (n : ℕ) (wanted : List Entry) (s t : State)
      → IsState c s
      → Adds c.unicode n [] wanted s.claims t.claims
      → IsState c t
  kept_few n wanted s t h adds = record {
    claims = adds.claims;
    few =
        omega (arith, h.few, ap length adds.failed, length-append s.claims.plan.failed_sources []);
  }

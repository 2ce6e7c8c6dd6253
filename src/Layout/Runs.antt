-- ===== src/Layout/Runs.antt =====
-- src/stable_layout.rs: `Result<Plan, Error>`, with the ends that no result stands for.
use sirius_asset_updater.Base.{Option, none, some, ◌≡◌, refl, ◌⊎◌, inl, inr, arith}
use sirius_asset_updater.Fault.{Error}

-- A run of the planner: it ends with a value or an error, or stands (`stuck`) for a panic and for
-- a loop that has not ended.
pub data Run {ℓ} (A : Type ℓ) : Type ℓ where
  stuck : Run A
  failed : Error → Run A
  done : A → Run A

module _ {ℓ κ} {A : Type ℓ} {B : Type κ} where
  infixl 5 ◌>>=◌
  abbrev pub ◌>>=◌ : Run A → (A → Run B) → Run B
  stuck >>= next = stuck
  failed e >>= next = failed e
  done a >>= next = next a

abbrev pub run_of {ℓ} : {A : Type ℓ} → Option A → Run A
run_of none = stuck
run_of (some a) = done a

-- To split on a computed run and keep the equation.
pub Run-cases {ℓ} :
    {A : Type ℓ} (r : Run A)
    → (r ≡ stuck) ⊎ ((e : Error) × (r ≡ failed e)) ⊎ ((a : A) × (r ≡ done a))
Run-cases stuck = inl refl
Run-cases (failed e) = inr (inl (e, refl))
Run-cases (done a) = inr (inr (a, refl))

pub done-injective {ℓ} : {A : Type ℓ} (a b : A) → done a ≡ done b → a ≡ b
done-injective a b h = ground arith

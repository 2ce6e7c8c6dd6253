-- ===== src/Admission/Budget.antt =====
-- src/resource_budget.rs: `Budget`, which admits work by its bytes.
use sirius_asset_updater.Base.{
  ℕ, zero, suc, ◌+◌, ◌-◌, ◌≤◌, ◌<◌, Bool, false, Option, none, some, List, [], ◌∷◌, ◌≡◌, refl,
  arith, leb, ◌==◌, min, max, if◌then◌else◌,
}
use sirius_asset_updater.Fault.{Error, config, cancelled}

pub record Budget : Type 0 where
  pub limit : ℕ
  pub used : ℕ

unfoldable pub new : ℕ → Budget
new limit = record { limit = limit; used = 0 }

-- How a round of the loop ends: with a permit of a weight, with an error, or in the wait.
pub data Round : Type 0 where
  admitted : ℕ → Round
  refused : Error → Round
  waits : Round

unfoldable pub weight_of : ℕ → ℕ → ℕ
weight_of limit bytes = min (max bytes 1) limit

unfoldable pub acquire : ℕ → Bool → Budget → Round × Budget
acquire bytes stop b =
    let weight = weight_of b.limit bytes in
    if b.limit == 0
    then (refused config, b)
    else if stop
    then (refused cancelled, b)
    else if leb weight (b.limit - b.used)
    then (admitted weight, record b { used = b.used + weight })
    else (waits, b)

-- `Drop for Permit`.
unfoldable pub drop_permit : ℕ → Budget → Budget
drop_permit weight b = record b { used = b.used - weight }

-- The budget with the weights of the permits that are held.
pub record Usage : Type 0 where
  pub budget : Budget
  pub held : List ℕ

-- A round for so many bytes, or the drop of the permit in that position.
pub data Event : Type 0 where
  enters : ℕ → Bool → Event
  leaves : ℕ → Event

abbrev granted : Usage → Round × Budget → Usage
granted u (admitted w, b) = record { budget = b; held = w ∷ u.held }
granted u (waits, b) = record u { budget = b }
granted u (refused e, b) = record u { budget = b }

abbrev behind : ℕ → Option (ℕ × List ℕ) → Option (ℕ × List ℕ)
behind w none = none
behind w (some (v, vs)) = some (v, w ∷ vs)

-- The permit in a position and the others.
abbrev pub pick : ℕ → List ℕ → Option (ℕ × List ℕ)
pick n [] = none
pick zero (w ∷ ws) = some (w, ws)
pick (suc n) (w ∷ ws) = behind w (pick n ws)

abbrev dropped : Usage → Option (ℕ × List ℕ) → Usage
dropped u none = u
dropped u (some (w, ws)) = record { budget = drop_permit w u.budget; held = ws }

unfoldable pub happens : Usage → Event → Usage
happens u (enters bytes stop) = granted u (acquire bytes stop u.budget)
happens u (leaves n) = dropped u (pick n u.held)

unfoldable pub happen : Usage → List Event → Usage
unfolding happens
happen u [] = u
happen u (e ∷ es) = happen (happens u e) es

abbrev pub sum : List ℕ → ℕ
sum [] = 0
sum (w ∷ ws) = w + sum ws

sum-pick : (n : ℕ) (ws vs : List ℕ) (v : ℕ) → pick n ws ≡ some (v, vs) → sum ws ≡ v + sum vs
sum-pick n [] vs v h = absurd (cc)
sum-pick zero (w ∷ ws) vs v h = ground arith
sum-pick (suc n) (w ∷ ws) vs v h = go (sum-pick n ws) (pick n ws) refl h
  where
    go :
        ((xs : List ℕ) (x : ℕ) → pick n ws ≡ some (x, xs) → sum ws ≡ x + sum xs)
        → (o : Option (ℕ × List ℕ)) → pick n ws ≡ o
        → behind w o ≡ some (v, vs)
        → w + sum ws ≡ v + sum vs
    go ih none q p = absurd (cc)
    go ih (some (x, xs)) q p = let e = ih xs x q in ground arith

abbrev pub IsExact : ℕ → Usage → Type 0
IsExact limit u = (u.budget.limit ≡ limit) × (u.budget.used ≡ sum u.held) × (u.budget.used ≤ limit)

happens-IsExact :
    (limit : ℕ) (u : Usage) (e : Event) → IsExact limit u → IsExact limit (happens u e)
unfolding happens acquire drop_permit
happens-IsExact limit u (enters bytes stop) (h, k, b) = ground arith
happens-IsExact limit u (leaves n) (h, k, b) = go (pick n u.held) refl
  where
    go : (o : Option (ℕ × List ℕ)) → pick n u.held ≡ o → IsExact limit (dropped u o)
    go none q = (h, k, b)
    go (some (w, ws)) q = let s = sum-pick n u.held ws w q in (h, omega arith, omega arith)

happen_from-IsExact :
    (limit : ℕ) (u : Usage) (es : List Event) → IsExact limit u → IsExact limit (happen u es)
unfolding happen
happen_from-IsExact limit u [] h = h
happen_from-IsExact limit u (e ∷ es) h =
    happen_from-IsExact limit (happens u e) es (happens-IsExact limit u e h)

-- After any rounds and drops of a new budget, in any order, what is used is the sum of the held
-- weights, and at most the limit, so that neither subtraction underflows.
pub happen-IsExact :
    (limit : ℕ) (es : List Event)
    → IsExact limit (happen (record { budget = new limit; held = [] }) es)
unfolding new
happen-IsExact limit es = happen_from-IsExact limit _ es (refl, refl, omega arith)

-- Under a positive limit, work of any size is admitted where nothing is held and no stop is asked for.
pub acquire-alone :
    (limit bytes : ℕ)
    → 0 < limit
    → acquire bytes false (new limit)
      ≡ (admitted (weight_of limit bytes), record { limit = limit; used = weight_of limit bytes })
unfolding acquire new weight_of
acquire-alone limit bytes h = ground arith

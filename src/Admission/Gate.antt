-- ===== src/Admission/Gate.antt =====
-- src/media_gate.rs: `Gate`, which counts the media processes that run. A call of `acquire` takes the
-- lock again in each round of its loop, so the threads' rounds and drops are one sequence of events.
use sirius_asset_updater.Base.{
  ℕ, zero, suc, ◌+◌, ◌-◌, ◌≤◌, utf8, Bool, List, [], ◌∷◌, ◌≡◌, refl, arith, ltb, ◌==◌,
  if◌then◌else◌,
}
use sirius_asset_updater.Fault.{Error, config, cancelled, export}

pub record Gate : Type 0 where
  pub active : ℕ

-- What a round reads from outside: the flag, and whether the deadline is past.
pub record Moment : Type 0 where
  pub cancelled : Bool
  pub expired : Bool

-- How a round ends: with a permit, with an error, or in the wait for the next round.
pub data Round : Type 0 where
  admitted waits : Round
  refused : Error → Round

unfoldable pub acquire : ℕ → Moment → Gate → Round × Gate
acquire limit m g =
    if limit == 0
    then (refused config, g)
    else if m.cancelled
    then (refused cancelled, g)
    else if m.expired
    then (refused (export (utf8 "media process timed out")), g)
    else if ltb g.active limit
    then (admitted, record g { active = g.active + 1 })
    else (waits, g)

-- `Drop for Permit`: a saturating subtraction.
unfoldable pub drop_permit : Gate → Gate
drop_permit g = record g { active = g.active - 1 }

-- The gate with the number of permits that are held; a permit is dropped once, by who holds it.
pub record Usage : Type 0 where
  pub gate : Gate
  pub held : ℕ

pub data Event : Type 0 where
  enters : Moment → Event
  leaves : Event

abbrev granted : Usage → Round × Gate → Usage
granted u (admitted, g) = record { gate = g; held = suc u.held }
granted u (waits, g) = record u { gate = g }
granted u (refused e, g) = record u { gate = g }

abbrev released : Gate → ℕ → Usage
released g zero = record { gate = g; held = 0 }
released g (suc n) = record { gate = drop_permit g; held = n }

unfoldable pub happens : ℕ → Usage → Event → Usage
happens limit u (enters m) = granted u (acquire limit m u.gate)
happens limit u leaves = released u.gate u.held

unfoldable pub happen : ℕ → Usage → List Event → Usage
unfolding happens
happen limit u [] = u
happen limit u (e ∷ es) = happen limit (happens limit u e) es

abbrev pub idle : Usage
idle = record { gate = record { active = 0 }; held = 0 }

-- The count is that of the held permits, so the subtraction never saturates, and is in the limit.
abbrev pub IsCounted : ℕ → Usage → Type 0
IsCounted limit u = (u.gate.active ≡ u.held) × (u.held ≤ limit)

released-IsCounted :
    (limit : ℕ) (g : Gate) (n : ℕ) → g.active ≡ n → n ≤ limit → IsCounted limit (released g n)
unfolding drop_permit
released-IsCounted limit g zero h k = (h, k)
released-IsCounted limit g (suc n) h k = (omega arith, omega arith)

happens-IsCounted :
    (limit : ℕ) (u : Usage) (e : Event) → IsCounted limit u → IsCounted limit (happens limit u e)
unfolding happens acquire drop_permit
happens-IsCounted limit u (enters m) (h, k) = ground arith
happens-IsCounted limit u leaves (h, k) = released-IsCounted limit u.gate u.held h k

happen_from-IsCounted :
    (limit : ℕ) (u : Usage) (es : List Event)
    → IsCounted limit u
    → IsCounted limit (happen limit u es)
unfolding happen
happen_from-IsCounted limit u [] h = h
happen_from-IsCounted limit u (e ∷ es) h =
    happen_from-IsCounted limit (happens limit u e) es (happens-IsCounted limit u e h)

-- After any rounds and drops, in any order, the gate's count is the number of held permits, and at
-- most the limit.
pub happen-IsCounted : (limit : ℕ) (es : List Event) → IsCounted limit (happen limit idle es)
happen-IsCounted limit es = happen_from-IsCounted limit idle es (refl, omega arith)

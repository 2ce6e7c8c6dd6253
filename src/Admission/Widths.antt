-- ===== src/Admission/Widths.antt =====
-- src/cpu_policy.rs and src/stage_limits.rs: the bounds of the worker counts and the widths.
use sirius_asset_updater.Base.{
  ℕ, ◌*◌, ◌/◌, ◌≤◌, Bool, true, Option, none, some, ◌≡◌, refl, subst, arith, min, max, Bool-cases,
  inl, inr,
}
use sirius_asset_updater.Fault.{Result-cases, ok}
use sirius_asset_updater.Admission.Stages.{
  CpuConfig, Config, Stage, acb, usm, hca, image, audio_encode, video_encode, within, clamp,
  budget_for_cpus, workers_for_cpus, width_ok, validate_widths, limited, automatic, effective,
  width,
}

-- At most the width that is configured explicitly.
abbrev pub IsCapped : Option ℕ → Option ℕ → Type 0
IsCapped none o = Unit
IsCapped (some n) none = ⊥
IsCapped (some n) (some m) = m ≤ n

limited-ok :
    (o : Option ℕ) (n : ℕ)
    → width_ok o ≡ true
    → within 1 64 n ≡ true
    → (width_ok (limited o n) ≡ true) × IsCapped o (limited o n)
limited-ok none n h k = (ground arith, tt)
limited-ok (some m) n h k = (ground arith, ground arith)

clamp-ok : (n : ℕ) → within 1 64 (clamp n 1 64) ≡ true
clamp-ok n = ground arith

IsCapped-same : (o : Option ℕ) → IsCapped o o
IsCapped-same none = tt
IsCapped-same (some n) = ground arith

-- Every width is in 1..=64, and the wait is in 1..=3600.
abbrev AreValid : Config → Type 0
AreValid c =
    ((stage : Stage) → width_ok (width stage c) ≡ true)
    × (within 1 3600 c.wait_timeout_seconds ≡ true)

validated_width :
    (c : Config) (stage : Stage) → validate_widths c ≡ ok tt → width_ok (width stage c) ≡ true
unfolding validate_widths
validated_width c acb h = ground arith
validated_width c usm h = ground arith
validated_width c hca h = ground arith
validated_width c image h = ground arith
validated_width c audio_encode h = ground arith
validated_width c video_encode h = ground arith

validate_widths-AreValid : (c : Config) → validate_widths c ≡ ok tt → AreValid c
unfolding validate_widths
validate_widths-AreValid c h = (λ stage. validated_width c stage h, ground arith)

valid-validate_widths : (c : Config) → AreValid c → validate_widths c ≡ ok tt
unfolding validate_widths
valid-validate_widths c (w, h) =
    let a = w acb in
    let b = w usm in
    let d = w hca in
    let e = w image in
    let f = w audio_encode in let g = w video_encode in rw (a, b, d, e, f, g, h) refl

automatic-width :
    (c : Config) (budget : ℕ) (stage : Stage)
    → width_ok (width stage c) ≡ true
    → (width_ok (width stage (automatic c budget)) ≡ true)
      × IsCapped (width stage c) (width stage (automatic c budget))
automatic-width c budget acb h = limited-ok c.acb (clamp budget 1 64) h (clamp-ok budget)
automatic-width c budget usm h = limited-ok c.usm (clamp budget 1 64) h (clamp-ok budget)
automatic-width c budget hca h = limited-ok c.hca (clamp budget 1 64) h (clamp-ok budget)
automatic-width c budget image h = limited-ok c.image (clamp budget 1 64) h (clamp-ok budget)
automatic-width c budget audio_encode h =
    limited-ok c.audio_encode (clamp budget 1 64) h (clamp-ok budget)
automatic-width c budget video_encode h =
    limited-ok c.video_encode (clamp (budget / 2) 1 64) h (clamp-ok (budget / 2))

-- Tuned or not, the effective configuration passes the validation, and no width is above the one
-- that is configured explicitly.
pub effective-IsCapped :
    (unix : Bool) (cpu : CpuConfig) (cpus : ℕ) (c out : Config)
    → effective unix cpu cpus c ≡ ok out
    → (validate_widths out ≡ ok tt) × ((stage : Stage) → IsCapped (width stage c) (width stage out))
unfolding effective
effective-IsCapped unix cpu cpus c out h = elim (Result-cases (validate_widths c)) [
  | inl (x, q) ↦ absurd (ground arith)
  | inr (_, v) ↦ elim (Result-cases (budget_for_cpus unix cpu cpus)) [
    | inl (x, q) ↦ absurd (ground arith)
    | inr (budget, q) ↦
        let valid = validate_widths-AreValid c v in
        elim (Bool-cases c.auto_tune) [
          | inr manual ↦
              let e : c ≡ out = ground arith in
              subst
                (λ (z : Config).
                  (validate_widths z ≡ ok tt)
                  × ((stage : Stage) → IsCapped (width stage c) (width stage z)))
                e (v, λ stage. IsCapped-same (width stage c))
          | inl tuned ↦
              let e : automatic c budget ≡ out = ground arith in
              subst
                (λ (z : Config).
                  (validate_widths z ≡ ok tt)
                  × ((stage : Stage) → IsCapped (width stage c) (width stage z)))
                e
                (
                  valid-validate_widths (automatic c budget)
                      (λ stage. (automatic-width c budget stage (valid.0 stage)).0, valid.1),
                  λ stage. (automatic-width c budget stage (valid.0 stage)).1,
                )
        ]
  ]
]

-- The workers are in 1..=64, at least as many as configured where the cap of two for each processor
-- allows it.
pub workers_for_cpus-range :
    (unix : Bool) (c : CpuConfig) (configured cpus n : ℕ)
    → workers_for_cpus unix c configured cpus ≡ ok n
    → (1 ≤ n) × (n ≤ 64) × (min configured (2 * max cpus 1) ≤ n)
unfolding workers_for_cpus budget_for_cpus
workers_for_cpus-range unix c configured cpus n h = ground arith

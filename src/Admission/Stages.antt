-- ===== src/Admission/Stages.antt =====
-- src/cpu_policy.rs and src/stage_limits.rs: worker counts and decoder widths from the processors.
use sirius_asset_updater.Base.{
  ℕ, ◌-◌, ◌*◌, ◌/◌, ◌^◌, Bool, true, not, ◌&&◌, ◌||◌, Option, none, some, leb, min, max,
  if◌then◌else◌,
}
use sirius_asset_updater.Fault.{Result, ok, err, config, ◌>>=◌}

-- A floating point ratio: whether it is finite and in (0, 1], and `(cpus as f64 * ratio).floor()`.
pub record Ratio : Type 0 where
  pub is_valid : Bool
  pub share : ℕ → ℕ

pub record Throttle : Type 0 where
  pub enabled : Bool
  pub sample_ms : ℕ

pub record CpuConfig : Type 0 where
  pub auto_tune : Bool
  pub limit_stages : Bool
  pub throttle : Throttle
  pub budget_auto : Bool
  pub budget_ratio : Ratio
  pub reserved : ℕ

pub record Config : Type 0 where
  pub auto_tune : Bool
  pub acb : Option ℕ
  pub usm : Option ℕ
  pub hca : Option ℕ
  pub image : Option ℕ
  pub audio_encode : Option ℕ
  pub video_encode : Option ℕ
  pub wait_timeout_seconds : ℕ

pub data Stage : Type 0 where
  acb usm hca image audio_encode video_encode : Stage

abbrev pub within : ℕ → ℕ → ℕ → Bool
within low high n = leb low n && leb n high

abbrev pub clamp : ℕ → ℕ → ℕ → ℕ
clamp n low high = min (max n low) high

-- `unix` is the target's `cfg!(unix)`.
unfoldable pub validate_throttle : Bool → Throttle → Result (Unit {0})
validate_throttle unix t =
    if not (within 50 60000 t.sample_ms) || t.enabled && not unix then err config else ok tt

unfoldable pub validate_cpu : Bool → CpuConfig → Result (Unit {0})
validate_cpu unix c = validate_throttle unix c.throttle >>= λ _.
    if not c.budget_ratio.is_valid then err config else ok tt

unfoldable pub budget_for_cpus : Bool → CpuConfig → ℕ → Result ℕ
budget_for_cpus unix c cpus =
    let n = max cpus 1 in
    validate_cpu unix c >>= λ _.
    ok (if c.budget_auto then max (c.budget_ratio.share n - c.reserved) 1 else n)

-- `saturating_mul` on a 64-bit `usize`.
abbrev pub saturating_mul : ℕ → ℕ → ℕ
saturating_mul a b = min (a * b) (2 ^ 64 - 1)

unfoldable pub workers_for_cpus : Bool → CpuConfig → ℕ → ℕ → Result ℕ
workers_for_cpus unix c configured cpus = validate_cpu unix c >>= λ _.
    if not (within 1 64 configured)
    then err config
    else if not c.auto_tune
    then ok configured
    else budget_for_cpus unix c (max cpus 1) >>= λ budget.
        ok (min (min (max configured budget) (saturating_mul (max cpus 1) 2)) 64)

abbrev pub width_ok : Option ℕ → Bool
width_ok none = true
width_ok (some n) = within 1 64 n

unfoldable pub validate_widths : Config → Result (Unit {0})
validate_widths c =
    if not (
        width_ok c.acb
        && width_ok c.usm
        && width_ok c.hca
        && width_ok c.image
        && width_ok c.audio_encode
        && width_ok c.video_encode)
      || not (within 1 3600 c.wait_timeout_seconds)
    then err config
    else ok tt

abbrev pub limited : Option ℕ → ℕ → Option ℕ
limited none automatic = some (min 64 automatic)
limited (some n) automatic = some (min n automatic)

abbrev pub automatic : Config → ℕ → Config
automatic c budget = record {
  auto_tune = true;
  acb = limited c.acb (clamp budget 1 64);
  usm = limited c.usm (clamp budget 1 64);
  hca = limited c.hca (clamp budget 1 64);
  image = limited c.image (clamp budget 1 64);
  audio_encode = limited c.audio_encode (clamp budget 1 64);
  video_encode = limited c.video_encode (clamp (budget / 2) 1 64);
  wait_timeout_seconds = c.wait_timeout_seconds;
}

unfoldable pub effective : Bool → CpuConfig → ℕ → Config → Result Config
effective unix cpu cpus c = validate_widths c >>= λ _. budget_for_cpus unix cpu cpus >>= λ budget.
    if not c.auto_tune then ok c else ok (automatic c budget)

abbrev pub width : Stage → Config → Option ℕ
width acb c = c.acb
width usm c = c.usm
width hca c = c.hca
width image c = c.image
width audio_encode c = c.audio_encode
width video_encode c = c.video_encode

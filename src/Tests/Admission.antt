-- ===== src/Tests/Admission.antt =====
-- src/media_gate.rs, src/resource_budget.rs, src/cpu_policy.rs and src/stage_limits.rs: the theorems on
-- small limits. The theorems on src/region.rs and src/read_policy.rs are applied here too.
use sirius_asset_updater.Base.{◌/◌, ◌≤◌, true, false, none, some, [], ◌∷◌, ◌≡◌, refl, arith}
use sirius_asset_updater.Fault.{ok}
use sirius_asset_updater.Admission.Gate
use sirius_asset_updater.Admission.Gate.{IsCounted, happen-IsCounted}
use sirius_asset_updater.Admission.Budget
use sirius_asset_updater.Admission.Budget.{IsExact, happen-IsExact, acquire-alone}
use sirius_asset_updater.Admission.Gates.{Gates, gate_of, acquire_until, acquire_until-apart}
use sirius_asset_updater.ReadPolicy.{
  ClassIds, Policy, pos, object_raw, image, auto, validate_policy, find_class, supports, for_class,
  is_native, for_class-override,
}
use sirius_asset_updater.Admission.Stages
use sirius_asset_updater.Admission.Widths.{IsCapped, effective-IsCapped}
use sirius_asset_updater.Admission.Stages.{
  CpuConfig, Config, Stage, width, validate_throttle, validate_cpu, budget_for_cpus,
  workers_for_cpus, validate_widths, effective,
}

happen-IsCounted_example : IsCounted 1 (
    Gate.happen 1 Gate.idle (
      Gate.enters (record { cancelled = false; expired = false })
      ∷ Gate.enters (record { cancelled = false; expired = false })
      ∷ Gate.leaves
      ∷ []))
happen-IsCounted_example = happen-IsCounted 1 (
    Gate.enters (record { cancelled = false; expired = false })
    ∷ Gate.enters (record { cancelled = false; expired = false })
    ∷ Gate.leaves
    ∷ [])

happen-IsExact_example : IsExact 10 (
    Budget.happen
      (record { budget = Budget.new 10; held = [] })
      (Budget.enters 4 false
        ∷ Budget.enters 6 false
        ∷ Budget.enters 99 false
        ∷ Budget.leaves 1
        ∷ []))
happen-IsExact_example =
    happen-IsExact 10 (
      Budget.enters 4 false ∷ Budget.enters 6 false ∷ Budget.enters 99 false ∷ Budget.leaves 1 ∷ [])

abbrev half : CpuConfig
half = record {
  auto_tune = true;
  limit_stages = false;
  throttle = record { enabled = false; sample_ms = 250 };
  budget_auto = true;
  budget_ratio = record { is_valid = true; share = λ n. n / 2 };
  reserved = 2;
}

abbrev configured : Config
configured = record {
  auto_tune = true;
  acb = none;
  usm = none;
  hca = none;
  image = some 3;
  audio_encode = none;
  video_encode = none;
  wait_timeout_seconds = 3600;
}

abbrev tuned : Config
tuned = record {
  auto_tune = true;
  acb = some 30;
  usm = some 30;
  hca = some 30;
  image = some 3;
  audio_encode = some 30;
  video_encode = some 15;
  wait_timeout_seconds = 3600;
}

configured-effective : effective true half 64 configured ≡ ok tuned
unfolding effective validate_widths budget_for_cpus validate_cpu validate_throttle
configured-effective = refl

effective-IsCapped_example :
    (validate_widths tuned ≡ ok tt)
    × ((stage : Stage) → IsCapped (width stage configured) (width stage tuned))
effective-IsCapped_example = effective-IsCapped true half 64 configured tuned configured-effective

half-workers : workers_for_cpus true half 4 64 ≡ ok 30
unfolding workers_for_cpus budget_for_cpus validate_cpu validate_throttle
half-workers = refl

abbrev open_gates : Gates
open_gates = record {
  acb_gate = record { active = 0 };
  usm_gate = record { active = 1 };
  hca_gate = record { active = 0 };
  image_gate = record { active = 2 };
  audio_encode_gate = record { active = 0 };
  video_encode_gate = record { active = 0 };
}

abbrev now : Gate.Moment
now = record { cancelled = false; expired = false }

acquire_until-apart_example :
    (gate_of Stages.usm (acquire_until tuned Stages.image now open_gates).1 ≡ record { active = 1 })
    × ((gate_of Stages.image (acquire_until tuned Stages.image now open_gates).1).active ≤ 3)
acquire_until-apart_example =
    acquire_until-apart tuned Stages.image Stages.usm now open_gates 3 (λ e. cc) refl (omega arith)

abbrev class_ids : ClassIds
class_ids = record {
  texture_2d_array = pos 187;
  audio_clip = pos 83;
  video_clip = pos 329;
  movie_texture = pos 152;
}

abbrev images : Policy
images = record { default = object_raw; classes = (pos 28, image) ∷ [] }

images-validate : validate_policy class_ids images ≡ ok tt
unfolding validate_policy supports
images-validate = refl

images-find : find_class (pos 28) images.classes ≡ some image
unfolding find_class
images-find = refl

for_class-override_example : for_class class_ids images (pos 28) ≡ ok image
for_class-override_example =
    for_class-override class_ids images (pos 28) image images-validate images-find

abbrev automatic_policy : Policy
automatic_policy = record { default = auto; classes = (pos 28, auto) ∷ [] }

automatic-is_native : is_native automatic_policy ≡ true
unfolding is_native
automatic-is_native = refl

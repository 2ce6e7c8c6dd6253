-- ===== src/Admission/Gates.antt =====
-- src/stage_limits.rs: `Gates`, one gate for each decoder stage.
use sirius_asset_updater.Base.{
  ℕ, utf8, none, some, ◌≡◌, ◌≢◌, refl, arith, ◌≤◌, Bool-cases, inl, inr, if◌then◌else◌,
}
use sirius_asset_updater.Fault.{Error, cancelled, export}
use sirius_asset_updater.Admission.Gate.{Gate, Moment, Round, refused, acquire}
use sirius_asset_updater.Admission.Stages.{
  Config, Stage, acb, usm, hca, image, audio_encode, video_encode, width,
}

pub record Gates : Type 0 where
  pub acb_gate : Gate
  pub usm_gate : Gate
  pub hca_gate : Gate
  pub image_gate : Gate
  pub audio_encode_gate : Gate
  pub video_encode_gate : Gate

abbrev pub gate_of : Stage → Gates → Gate
gate_of acb gs = gs.acb_gate
gate_of usm gs = gs.usm_gate
gate_of hca gs = gs.hca_gate
gate_of image gs = gs.image_gate
gate_of audio_encode gs = gs.audio_encode_gate
gate_of video_encode gs = gs.video_encode_gate

abbrev pub with_gate : Stage → Gate → Gates → Gates
with_gate acb g gs = record gs { acb_gate = g }
with_gate usm g gs = record gs { usm_gate = g }
with_gate hca g gs = record gs { hca_gate = g }
with_gate image g gs = record gs { image_gate = g }
with_gate audio_encode g gs = record gs { audio_encode_gate = g }
with_gate video_encode g gs = record gs { video_encode_gate = g }

-- A round of `acquire_until`: no gate at all where the stage has no width.
pub data StageRound : Type 0 where
  unlimited : StageRound
  gated : Round → StageRound

-- A timeout of the gate is reported as one of the stage.
abbrev pub stage_error : Error → Error
stage_error (export _) = export (utf8 "decoder stage admission timed out")
stage_error e = e

abbrev pub stage_round : Round → Round
stage_round (refused e) = refused (stage_error e)
stage_round r = r

unfoldable pub acquire_until : Config → Stage → Moment → Gates → StageRound × Gates
acquire_until config stage m gs =
    if m.cancelled then (gated (refused cancelled), gs) else elim (width stage config) [
      | none ↦ (unlimited, gs)
      | some limit ↦
          let (r, g) = acquire limit m (gate_of stage gs) in
          (gated (stage_round r), with_gate stage g gs)
    ]

other_gate :
    (s t : Stage) (g : Gate) (gs : Gates) → s ≢ t → gate_of t (with_gate s g gs) ≡ gate_of t gs
other_gate s t g gs h = ground arith

own_gate : (s : Stage) (g : Gate) (gs : Gates) → gate_of s (with_gate s g gs) ≡ g
own_gate s g gs = ground arith

acquire-bounded :
    (limit : ℕ) (m : Moment) (g : Gate) → g.active ≤ limit → (acquire limit m g).1.active ≤ limit
unfolding acquire
acquire-bounded limit m g h = ground arith

-- A round for a stage that has a width touches no other stage's gate, and keeps its own gate within
-- the width, if it was.
pub acquire_until-apart :
    (config : Config) (stage other : Stage) (m : Moment) (gs : Gates) (limit : ℕ)
    → stage ≢ other
    → width stage config ≡ some limit
    → (gate_of stage gs).active ≤ limit
    → (gate_of other (acquire_until config stage m gs).1 ≡ gate_of other gs)
      × ((gate_of stage (acquire_until config stage m gs).1).active ≤ limit)
unfolding acquire_until
acquire_until-apart config stage other m gs limit apart w b = elim (Bool-cases m.cancelled) [
  | inl e ↦ rw e (refl, b)
  | inr e ↦
      let g = (acquire limit m (gate_of stage gs)).1 in
      rw (e, w)
        (
          other_gate stage other g gs apart,
          rw (own_gate stage g gs) (acquire-bounded limit m (gate_of stage gs) b),
        )
]

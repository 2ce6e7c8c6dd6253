-- ===== src/Layout/Plan.antt =====
-- src/stable_layout.rs: `plan_resources`.
use sirius_asset_updater.Base.{
  Text, utf8, text_eq, Option, none, some, List, [], ◌∷◌, ◌++◌, leb, ◌==◌, length, map, take,
  if◌then◌else◌,
}
use sirius_asset_updater.Base.Strings.{contains}
use sirius_asset_updater.Fault.{verification}
use sirius_asset_updater.Layout.Chars.{Unicode, first_part, rest_or, join, pop}
use sirius_asset_updater.Layout.Types.{
  Options, ObjectIdentity, OutputRecord, ResourceReport, Entry, Plan,
}
use sirius_asset_updater.Layout.Names.{split_ext, join_ext, output_file}
use sirius_asset_updater.Layout.Keys.{Names, Context, unity_key, cri_key}
use sirius_asset_updater.Layout.Tracks.{CueFiles, acb_track}
use sirius_asset_updater.Layout.Claim.{Claims, no_claims, valid_key, claim}
use sirius_asset_updater.Layout.Textures.{count_textures}
use sirius_asset_updater.Layout.Runs.{Run, failed, done, ◌>>=◌, run_of}

-- The keys of an output, as their parts.
abbrev pub alias : Text → Text → Option (List Text × Text) → List Text
alias name rest none = join_ext name rest ∷ []
alias name rest (some (parts, last)) = parts ++ (split_ext last).0 ∷ join_ext name rest ∷ []

abbrev pub or_first : Text → Option (List Text) → List Text
or_first file none = first_part (utf8 ".") file ∷ []
or_first file (some names) = names

abbrev pub keys_below : Text → Option (List Text) → List Text × Names → List (List Text) × Names
keys_below file tracks (base, names) =
    (map (λ name. alias name (rest_or [] (utf8 ".") file) (pop base)) (or_first file tracks), names)

abbrev pub key_alone : List Text × Names → List (List Text) × Names
key_alone (key, names) = (key ∷ [], names)

abbrev pub cri_keys : ResourceReport → OutputRecord → Option (List Text) → List (List Text)
cri_keys resource output none = cri_key resource output none ∷ []
cri_keys resource output (some tracks) = map (λ t. cri_key resource output (some t)) tracks

module _ (c : Context) (files : CueFiles) (resource : ResourceReport) (output : OutputRecord) where
  abbrev pub object_keys : Option ObjectIdentity → Names → List (List Text) × Names
  object_keys none names = (cri_keys resource output (acb_track files resource output), names)
  object_keys (some object) names =
      let key = unity_key c resource output object names in
      if contains output.path (utf8 "/")
      then keys_below (output_file output) (acb_track files resource output) key
      else key_alone key

  unfoldable pub key_parts : Names → List (List Text) × Names
  unfolding unity_key cri_key acb_track output_file split_ext pop join_ext first_part rest_or
      contains
  key_parts names = object_keys output.object names

-- `take(aliases)`.
unfoldable pub aliased : Text → List (List Text) → List (List Text)
aliased kind keys = if text_eq kind (utf8 "cue_metadata") then take 1 keys else keys

abbrev pub bind {ℓ} : {A : Type ℓ} → Option ObjectIdentity → (ObjectIdentity → Option A) → Option A
bind none f = none
bind (some object) f = f object

-- The entry of an output, before `claim` gives it its key.
abbrev pub entry_of : ResourceReport → OutputRecord → Entry
entry_of r o = record {
  path = [];
  local = r.output_directory ++ b'/' ∷ o.path;
  bytes = o.bytes;
  sha256 = o.sha256;
  content_type = [];
  source = r.source;
  kind = o.kind;
  class_id = bind o.object (λ object. some object.class_id);
  container = bind o.object (λ object. object.container);
  name = bind o.object (λ object. object.name);
}

unfoldable pub key_of : Context → List Text → Text
unfolding join
key_of c parts = if c.options.lowercase then c.unicode.lowercase (join parts) else join parts

unfoldable pub claim_keys : Context → Entry → List (List Text) → Claims → Run Claims
unfolding key_of valid_key claim
claim_keys c entry [] claims = done claims
claim_keys c entry (parts ∷ keys) claims =
    if valid_key (key_of c parts)
    then (do
      next ← run_of (claim c.unicode (key_of c parts) entry claims)
      claim_keys c entry keys next)
    else failed verification

-- What the loops of `plan_resources` change.
pub record State : Type 0 where
  pub names : Names
  pub claims : Claims

module _ (c : Context) (files : CueFiles) where
  abbrev pub plan_output : ResourceReport → OutputRecord → State → Run State
  plan_output r o s = do
    claims ← claim_keys c (entry_of r o) (aliased o.kind (key_parts c files r o s.names).0) s.claims
    done (record { names = (key_parts c files r o s.names).1; claims = claims })

  unfoldable pub plan_outputs : ResourceReport → List OutputRecord → State → Run State
  unfolding key_parts aliased claim_keys
  plan_outputs r [] s = done s
  plan_outputs r (o ∷ os) s = do next ← plan_output r o s; plan_outputs r os next

  -- A resource that failed is left out, where the options allow one more.
  abbrev pub leave_out : ResourceReport → State → Run State
  leave_out r s =
      if leb c.options.max_failed_resources (length s.claims.plan.failed_sources)
      then failed verification
      else done (record s {
        claims = record s.claims {
          plan = record s.claims.plan {
            failed_sources = s.claims.plan.failed_sources ++ r.source ∷ [];
          };
        };
      })

  abbrev pub plan_resource : ResourceReport → State → Run State
  plan_resource r s = if length r.errors == 0 then plan_outputs r r.outputs s else leave_out r s

  unfoldable pub plan_loop : List ResourceReport → State → Run State
  unfolding plan_outputs
  plan_loop [] s = done s
  plan_loop (r ∷ rs) s = do next ← plan_resource r s; plan_loop rs next

abbrev pub start : State
start = record { names = record { unnamed = []; stems = [] }; claims = no_claims }

abbrev pub context : Unicode → List ResourceReport → Options → Context
context u rs options = record {
  unicode = u;
  options = options;
  textures = count_textures u options rs [];
}

unfoldable pub plan_resources : Unicode → CueFiles → List ResourceReport → Options → Run Plan
unfolding plan_loop count_textures
plan_resources u files rs options = do
  s ← plan_loop (context u rs options) files rs start
  done s.claims.plan

-- ===== src/Tests/Layout.antt =====
-- src/stable_layout.rs: the theorems on a small export of a chat's pictures and a sound.
use mathlib.Core.List.{map-append}
use sirius_asset_updater.Base.{
  ℕ, ◌≤◌, ◌<◌, if◌then◌else◌, Text, utf8, text_eq, true, false, Option, none, some, List, [], ◌∷◌,
  ◌++◌, String, ◌≡◌, refl, arith, all, length, map, ◌⊎◌, ◌∙◌, ap,
}
use sirius_asset_updater.Base.Strings.{
  to_lower, split, is_digit, is_lower, is_upper, is_lower_hex, strip_prefix, starts_with, contains,
  strip_suffix,
}
use sirius_asset_updater.Base.Maps.{lookup, insert}
use sirius_asset_updater.Fault.{verification}
use sirius_asset_updater.Layout.Chars.{
  Unicode, is_control, is_whitespace, len_utf8, len, is_empty, trim_start, trim_end, trim,
  split_once, rsplit_once, last_part, first_part, rest_or, eq_ignore_ascii_case, join, pop, digits,
  decimal,
}
use sirius_asset_updater.Layout.Classes.{class_name, snake_from, snake_case, semantic_dir}
use sirius_asset_updater.Layout.Textures.{count_outputs, count_textures}
use sirius_asset_updater.Layout.Types.{
  pos, Options, default_options, ObjectIdentity, OutputRecord, ResourceReport, Entry, Plan,
}
use sirius_asset_updater.Layout.Names.{
  max_stem_chars, strip_clones, compress_clone_suffixes, shorten, fix_file_name, loose, strip_first,
  strip_container, split_ext, join_ext, with_extension, cri_location, output_file, output_ext,
  container_key,
}
use sirius_asset_updater.Layout.Runs.{Run, failed, done}
use sirius_asset_updater.Layout.Tracks.{CueFiles, cue_names, acb_track}
use sirius_asset_updater.Layout.Claim.{
  valid_key, type_in, content_type, key_stem, candidate, holder_of, claim_round, claim_loop, claim,
}
use sirius_asset_updater.Layout.Plan.{
  key_parts, aliased, entry_of, key_of, claim_keys, plan_outputs, plan_loop, plan_resources,
}
use sirius_asset_updater.Layout.Decimal.{to_lower-decimal}
use sirius_asset_updater.Layout.Planned.{all_failures}
use sirius_asset_updater.Layout.Complete.{keys_valid, IsPlan, plan_resources-IsPlan}
use sirius_asset_updater.Layout.Safe.{is_safe, fix_file_name-is_safe}
use sirius_asset_updater.Layout.Clones.{AreStripped, strip_clones-AreStripped}
use sirius_asset_updater.Layout.Keys.{Names, object_stem, contained, object_key, unity_key, cri_key}
use sirius_asset_updater.Layout.Stems.{Call, later, object_stem-again}
use sirius_asset_updater.Layout.Rounds.{KeepsSuffixes}

-- The case mapping of ASCII.
abbrev ascii : Unicode
ascii = record { lowercase = map to_lower; lower_char = λ c. to_lower c ∷ [] }

ascii-KeepsSuffixes : KeepsSuffixes ascii
unfolding to_lower utf8
ascii-KeepsSuffixes = record {
  kept = λ s r n.
      map-append to_lower s (utf8 "__dup" ++ (decimal n ++ r))
      ∙ ap (λ t. map to_lower s ++ (utf8 "__dup" ++ t))
          (map-append to_lower (decimal n) r ∙ ap (λ t. t ++ map to_lower r) (to_lower-decimal n));
}

-- No file can be read.
abbrev no_files : CueFiles
no_files = record { read = λ path. none; rows = λ bytes. none }

abbrev object : ℕ → ℕ → Option Text → Option Text → ObjectIdentity
object id class name container = record {
  source_file = utf8 "b.bundle::CAB";
  path_id = pos id;
  class_id = pos class;
  name = name;
  container = container;
}

abbrev output : String → String → String → Option ObjectIdentity → OutputRecord
output path kind sha object = record {
  path = utf8 path;
  kind = utf8 kind;
  bytes = 1;
  sha256 = utf8 sha;
  object = object;
}

abbrev resource : String → String → List OutputRecord → List Text → ResourceReport
resource source dir outputs errors = record {
  cache_hit = false;
  source = utf8 source;
  output_directory = utf8 dir;
  source_sha256 = [];
  objects = 0;
  selected_objects = 0;
  skipped_objects = 0;
  outputs = outputs;
  errors = errors;
}

abbrev back : Option Text
back = some (utf8 "Assets/AddressableResources/Adv/Chat/Data/003_rana/data/back.png")

abbrev button : Option Text
button = some (utf8 "Assets/AddressableResources/UI/Home/HomeButton.prefab")

abbrev named : String → Option Text
named s = some (utf8 s)

abbrev unity : ResourceReport
unity =
    resource "adv_bundle_0123456789abcdef0123456789abcdef" "00000"
      (output "0_1.png" "image_png" "a" (some (object 1 28 (named "back") back))
        ∷ output "0_2.png" "image_png" "b" (some (object 2 213 (named "back") back))
        ∷ output "0_3.json" "typetree_json" "c" (some (object 3 1 (named "HomeButton") button))
        ∷ output "0_4.json" "typetree_json" "d" (some (object 4 114 (named "HomeButton") button))
        ∷ output "0_5.json" "typetree_json" "e" (some (object 5 114 none button))
        ∷ output "0_6.json" "typetree_json" "f" (some (object 6 114 none button))
        ∷ output "0_7.json" "typetree_json" "g" (some (object 7 4 none button))
        ∷ output "0_8.json" "typetree_json" "h" (some (object 8 224 none button))
        ∷ output "0_9.json" "typetree_json" "i" (some (object 9 142 (named "x.bundle") none))
        ∷ [])
      []

abbrev part : Option Text
part = named "Assets/AddressableResources/A/B.prefab"

-- Four objects of two names, of which the first two have the same content.
abbrev collisions : ResourceReport
collisions =
    resource "b" "00000"
      (output "0_1.json" "typetree_json" "a" (some (object 1 1 (named "Same") part))
        ∷ output "0_2.json" "typetree_json" "a" (some (object 2 1 (named "Same") part))
        ∷ output "0_3.json" "typetree_json" "b" (some (object 3 1 (named "Same") part))
        ∷ output "0_4.json" "typetree_json" "c" (some (object 4 1 (named "SAME") part))
        ∷ [])
      []

abbrev voices : ResourceReport
voices =
    resource "cri_assets_cri/sound/adv_voice_10436_d0fadf2bf50f57e63be5a3c18c75aa75" "00007"
      (output "00000.wav" "hca_wav" "a" none
        ∷ output "00000.cues.json" "cue_metadata" "b" none
        ∷ output "00001.wav" "hca_wav" "c" none
        ∷ output "00001.cues.json" "cue_metadata" "d" none
        ∷ [])
      []

abbrev movie : ResourceReport
movie =
    resource "cri_assets_cri/video/adv/m_13_3/m_13_3_66782623efcc08538ad7884761168d5d" "00008"
      (output "00000.ivf" "usm_video_stream" "e" none
        ∷ output "00001.wav" "adx_wav" "f" none
        ∷ output "movie.mkv" "usm_mkv" "g" none
        ∷ output "usm.json" "usm_metadata_json" "h" none
        ∷ output "container-mask.json" "usm_masked_json" "i" none
        ∷ [])
      []

-- The first cue of the first track, and two of the second.
abbrev cue_files : CueFiles
cue_files = record {
  read = λ path.
      if text_eq path (utf8 "00007/00000.cues.json")
      then some (0 ∷ [])
      else if text_eq path (utf8 "00007/00001.cues.json")
      then some (1 ∷ [])
      else none;
  rows = λ bytes.
      if text_eq bytes (0 ∷ [])
      then some (named "voice_001" ∷ [])
      else some (named "voice_002" ∷ none ∷ named "VOICE_002" ∷ named "v3" ∷ []);
}

abbrev broken : ResourceReport
broken = resource "broken" "00009" [] (utf8 "no such codec" ∷ [])

abbrev keys : Run Plan → List Text
keys (done p) = map (λ e. e.path) p.entries
keys r = []

abbrev export : List ResourceReport
export = unity ∷ collisions ∷ broken ∷ voices ∷ movie ∷ []

abbrev lenient : Options
lenient = record default_options { max_failed_resources = 1 }

export-valid : keys_valid ascii cue_files export lenient ≡ true
unfolding utf8 text_eq is_digit is_lower is_upper is_lower_hex to_lower strip_prefix starts_with
    contains split strip_suffix lookup insert is_control is_whitespace len_utf8 len is_empty
    trim_start trim_end trim split_once rsplit_once last_part first_part rest_or
    eq_ignore_ascii_case join pop digits decimal class_name snake_from snake_case semantic_dir
    strip_clones compress_clone_suffixes shorten fix_file_name loose strip_first strip_container
    split_ext join_ext with_extension cri_location output_file output_ext container_key object_stem
    contained object_key unity_key cri_key cue_names acb_track valid_key key_parts aliased key_of
    count_outputs count_textures
export-valid = refl

-- The keys of the program's own tests.
planned-keys :
    keys (plan_resources ascii cue_files (collisions ∷ voices ∷ []) default_options)
    ≡ map utf8 (
        "a/b.assets/gameobject/same.json" ∷ "a/b.assets/gameobject/same__dup2.json"
        ∷ "a/b.assets/gameobject/same__dup3.json" ∷ "cri/sound/adv_voice_10436/voice_001.wav"
        ∷ "cri/sound/adv_voice_10436/voice_001.cues.json"
        ∷ "cri/sound/adv_voice_10436/voice_002.wav" ∷ "cri/sound/adv_voice_10436/v3.wav"
        ∷ "cri/sound/adv_voice_10436/voice_002.cues.json" ∷ [])
unfolding utf8 text_eq is_digit is_lower is_upper is_lower_hex to_lower strip_prefix starts_with
    contains split strip_suffix lookup insert is_control is_whitespace len_utf8 len is_empty
    trim_start trim_end trim split_once rsplit_once last_part first_part rest_or
    eq_ignore_ascii_case join pop digits decimal class_name snake_from snake_case semantic_dir
    strip_clones compress_clone_suffixes shorten fix_file_name loose strip_first strip_container
    split_ext join_ext with_extension cri_location output_file output_ext container_key object_stem
    contained object_key unity_key cri_key cue_names acb_track valid_key key_parts aliased key_of
    count_outputs count_textures type_in content_type key_stem candidate holder_of claim_round
    claim_loop claim claim_keys plan_outputs plan_loop plan_resources
planned-keys = refl

plan_resources-IsPlan_example :
    ((plan_resources ascii cue_files export lenient ≡ failed verification)
      × ((keys_valid ascii cue_files export lenient ≡ false)
          ⊎ (lenient.max_failed_resources < length (all_failures export))))
    ⊎ ((p : Plan) × (plan_resources ascii cue_files export lenient ≡ done p)
        × IsPlan ascii cue_files export lenient p)
plan_resources-IsPlan_example =
    plan_resources-IsPlan ascii ascii-KeepsSuffixes cue_files export lenient

fix_file_name-is_safe_example :
    (all is_safe (fix_file_name (utf8 " a/b:c(Clone)(Clone) ")) ≡ true)
    × (length (fix_file_name (utf8 " a/b:c(Clone)(Clone) ")) ≤ max_stem_chars)
fix_file_name-is_safe_example = fix_file_name-is_safe (utf8 " a/b:c(Clone)(Clone) ")

strip_clones-AreStripped_example :
    AreStripped (utf8 "a(Clone)(Clone)") 0 (strip_clones 15 (utf8 "a(Clone)(Clone)") 0)
unfolding utf8
strip_clones-AreStripped_example =
    strip_clones-AreStripped 15 (utf8 "a(Clone)(Clone)") 0 (omega arith)

abbrev unnamed : ObjectIdentity
unnamed = object 5 114 none button

abbrev between : List Call
between =
    record { object = object 6 114 none button; scope = utf8 "ui"; class = utf8 "MonoBehaviour" }
    ∷ []

abbrev no_names : Names
no_names = record { unnamed = []; stems = [] }

object_stem-again_example :
    (object_stem unnamed
      (utf8 "other")
      (utf8 "Mono")
      (later between (object_stem unnamed (utf8 "ui") (utf8 "MonoBehaviour") no_names).1)).0
    ≡ (object_stem unnamed (utf8 "ui") (utf8 "MonoBehaviour") no_names).0
object_stem-again_example =
    object_stem-again unnamed (utf8 "ui") (utf8 "other") (utf8 "MonoBehaviour") (utf8 "Mono")
      between no_names

abbrev entry : Entry
entry = entry_of unity (output "0_1.png" "image_png" "a" none)

-- ===== src/Tests/Assets.antt =====
-- src/assets.rs: the theorems on a catalog of four locations and on a small bundle.
use sirius_asset_updater.Base.{
  ℕ, ◌+◌, ◌%◌, Text, utf8, text_eq, text_leb, count_if, sort, insert_sorted, Bool, true, false, all,
  ◌&&◌, ◌==◌, none, some, List, [], ◌∷◌, ◌≡◌, refl, arith, map, All, length,
}
use sirius_asset_updater.Base.Texts.{distinct}
use sirius_asset_updater.Base.Strings.{
  starts_with, split, strip_prefix, is_alphanumeric, is_digit, is_lower, is_upper, to_lower,
}
use sirius_asset_updater.Fault.{ok}
use sirius_asset_updater.Catalog.Types.{Location, Catalog, Selection}
use sirius_asset_updater.Catalog.Select.{Regexes, patterns, build_all}
use sirius_asset_updater.Assets.Plan.{
  Provider, provider_eq, encrypted_bundle, cri, Asset, Plan, path_byte, safe_part, safe_relative,
  provider_of, place_of, add_asset, plan_location, plan_locations, fold_path, path_set, parents,
  inside_another, check_folded, plan_with,
}
use sirius_asset_updater.Assets.Served.{served, IsSafe}
use sirius_asset_updater.Assets.Accounting.{
  is_served, is_embedded, is_logical, is_accounted, plan_with-counted,
}
use sirius_asset_updater.Assets.Folded.{IsFlat, plan_with-IsFlat}
use sirius_asset_updater.Assets.Priority.{
  rank, rank_leb, prioritize, ArePrioritized, prioritize-ArePrioritized,
}
use sirius_asset_updater.Assets.Decrypt.{Crypto, FileOutside, BundleKey, decrypt_file}
use sirius_asset_updater.Assets.Prefix.{KeepsLength}
use sirius_asset_updater.Assets.Bundles.{IsOutcome, decrypt_file_lem}

abbrev location : ℕ → Text → Text → Location
location id internal provider = record {
  id = id;
  primary_key = [];
  internal_id = internal;
  provider_id = provider;
  dependencies = [];
}

abbrev sample : Catalog
sample = record {
  locations =
      location 1 (utf8 "r/A/b") (utf8 "Fwk.Crypt.AssetBundleCryptProvider")
      ∷ location 2 (utf8 "{Fwk.Resource.RemoteAssetDir}/A/b")
          (utf8 "Fwk.Crypt.AssetBundleCryptProvider")
      ∷ location 3 (utf8 "{UnityEngine.AddressableAssets.Addressables.RuntimePath}/x")
          (utf8 "UnityEngine.ResourceManagement.ResourceProviders.AssetBundleProvider")
      ∷ location 4 [] (utf8 "UnityEngine.ResourceManagement.ResourceProviders.BundledAssetProvider")
      ∷ [];
  keys = [];
}

abbrev sample_plan : Plan
sample_plan = record {
  assets =
      record {
        relative_path = 65 ∷ 47 ∷ 98 ∷ [];
        provider = encrypted_bundle;
        locations = 1 ∷ 2 ∷ [];
      }
      ∷ [];
  embedded_locations = 1;
  logical_locations = 1;
}

sample-plan_with : plan_with (114 ∷ []) none sample ≡ ok sample_plan
unfolding plan_with plan_locations plan_location provider_of place_of add_asset safe_relative
    safe_part path_byte split strip_prefix is_alphanumeric is_digit is_lower is_upper to_lower utf8
    text_eq text_leb check_folded fold_path path_set parents inside_another
sample-plan_with = refl

-- The encrypted bundles that serve the second location.
abbrev second : Text → Provider → ℕ → Bool
second path p id = provider_eq p encrypted_bundle && id == 2

plan_with-counted_example :
    (served second sample_plan.assets
      ≡ count_if (is_served second (114 ∷ []) none) sample.locations)
    × (1 ≡ count_if (is_embedded (114 ∷ []) none) sample.locations)
    × (1 ≡ count_if (is_logical (114 ∷ []) none) sample.locations)
    × (all (is_accounted (114 ∷ []) none) sample.locations ≡ true)
    × All IsSafe sample_plan.assets
plan_with-counted_example =
    plan_with-counted second (114 ∷ []) none sample sample_plan sample-plan_with

plan_with-IsFlat_example :
    (distinct (map fold_path sample_plan.assets) ≡ true) × IsFlat (map fold_path sample_plan.assets)
plan_with-IsFlat_example = plan_with-IsFlat (114 ∷ []) none sample sample_plan sample-plan_with

-- A cipher that adds one to each byte.
abbrev shift : Text → Text
shift = map (λ b. (b + 1) % 256)

abbrev crypto : Crypto
crypto = record {
  decode_hex = λ n hex. some hex;
  sha256 = λ bytes. bytes;
  apply_keystream = λ key counter bytes. shift bytes;
}

abbrev key : BundleKey
key = record { key = 1 ∷ []; seed = 2 ∷ [] }

length-shift : (bytes : Text) → length (shift bytes) ≡ length bytes
length-shift [] = refl
length-shift (b ∷ bs) = omega (arith, length-shift bs)

shift-KeepsLength : KeepsLength crypto key
shift-KeepsLength k counter bytes = length-shift bytes

abbrev encrypted : Text
encrypted = 84 ∷ 109 ∷ 104 ∷ 115 ∷ 120 ∷ 69 ∷ 82 ∷ 255 ∷ 10 ∷ 20 ∷ []

-- The disk is full behind three bytes.
abbrev full_disk : FileOutside
full_disk = record {
  open_fails = false;
  read_fails = false;
  seek_fails = false;
  write = some 3;
  sync = none;
}

decrypt_file_lem_example :
    IsOutcome crypto full_disk key
      (97 ∷ [])
      encrypted
      (decrypt_file crypto full_disk key encrypted (97 ∷ [])).0
      (decrypt_file crypto full_disk key encrypted (97 ∷ [])).1
decrypt_file_lem_example =
    decrypt_file_lem crypto full_disk key shift-KeepsLength encrypted (97 ∷ [])

abbrev prefixes : Regexes
prefixes = record { Pattern = Text; build = some; is_match = λ p s. starts_with s p }

abbrev b_first : Selection
b_first = record { keys = []; include = []; exclude = []; priority = (98 ∷ []) ∷ [] }

abbrev asset : ℕ → Asset
asset c = record { relative_path = c ∷ []; provider = cri; locations = [] }

abbrev three : List Asset → Plan
three as' = record { assets = as'; embedded_locations = 0; logical_locations = 0 }

prioritizes :
    prioritize prefixes b_first (three (asset 97 ∷ asset 98 ∷ asset 99 ∷ []))
    ≡ ok (three (asset 98 ∷ asset 97 ∷ asset 99 ∷ []))
unfolding prioritize patterns build_all sort insert_sorted rank_leb rank starts_with strip_prefix
    text_leb
prioritizes = refl

prioritize-ArePrioritized_example :
    (ps : List Text) × (patterns prefixes b_first.priority ≡ ok ps)
    × ArePrioritized prefixes ps (asset 98 ∷ asset 97 ∷ asset 99 ∷ [])
    × ((p : Asset → Bool)
        → count_if p (asset 98 ∷ asset 97 ∷ asset 99 ∷ [])
          ≡ count_if p (asset 97 ∷ asset 98 ∷ asset 99 ∷ []))
prioritize-ArePrioritized_example =
    prioritize-ArePrioritized prefixes b_first (three (asset 97 ∷ asset 98 ∷ asset 99 ∷ []))
      (three (asset 98 ∷ asset 97 ∷ asset 99 ∷ [])) prioritizes

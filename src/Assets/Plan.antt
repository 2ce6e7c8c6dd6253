-- ===== src/Assets/Plan.antt =====
-- src/assets.rs: `AssetConfig::validate`, `safe_relative` and `Catalog::plan_with`.
use sirius_asset_updater.Base.{
  ℕ, ◌+◌, ◌*◌, Text, utf8, text_eq, text_leb, Bool, true, false, not, ◌&&◌, ◌||◌, Option, none,
  some, List, [], ◌∷◌, ◌++◌, ltb, leb, ◌==◌, length, any, all, map, if◌then◌else◌,
}
use sirius_asset_updater.Base.Texts.{contains_path}
use sirius_asset_updater.Base.Strings.{split, strip_prefix, is_alphanumeric, to_lower}
use sirius_asset_updater.Fault.{Result, ok, err, config, provider, asset_path, ◌>>=◌}
use sirius_asset_updater.Catalog.Types.{Location, Catalog, Selection}
use sirius_asset_updater.Catalog.Select.{Regexes, validate}

pub record DecryptConfig : Type 0 where
  pub key_hex_env : Text
  pub nonce_seed_hex_env : Text

pub record AssetConfig : Type 0 where
  pub selection : Selection
  pub concurrency : ℕ
  pub cache_directory : Option Text
  pub max_file_bytes : ℕ
  pub max_total_bytes : ℕ
  pub decrypt : Option DecryptConfig

abbrev empty_path : Option Text → Bool
empty_path none = false
empty_path (some p) = length p == 0

unfoldable pub validate_config : Regexes → AssetConfig → Result (Unit {0})
validate_config r c = do
  u ← validate r c.selection
  if empty_path c.cache_directory
      then err config
      else (if not (leb 1 c.concurrency && leb c.concurrency 16)
            || ltb c.max_file_bytes 8
            || ltb (2 * 1024 * 1024 * 1024) c.max_file_bytes
            || ltb c.max_total_bytes c.max_file_bytes
            || ltb (128 * 1024 * 1024 * 1024) c.max_total_bytes
          then err config
          else ok tt)

pub data Provider : Type 0 where
  encrypted_bundle unity_bundle cri : Provider

abbrev pub provider_eq : Provider → Provider → Bool
provider_eq encrypted_bundle encrypted_bundle = true
provider_eq unity_bundle unity_bundle = true
provider_eq cri cri = true
provider_eq _ _ = false

pub record Asset : Type 0 where
  pub relative_path : Text
  pub provider : Provider
  pub locations : List ℕ

pub record Plan : Type 0 where
  pub assets : List Asset
  pub embedded_locations : ℕ
  pub logical_locations : ℕ

-- One of `._-()` or alphanumeric.
unfoldable pub path_byte : ℕ → Bool
path_byte c = is_alphanumeric c || c == b'.' || c == b'_' || c == b'-' || c == b'(' || c == b')'

unfoldable pub safe_part : Text → Bool
safe_part part =
    not (length part == 0)
    && not (text_eq part (utf8 "."))
    && not (text_eq part (utf8 ".."))
    && leb (length part) 255
    && all path_byte part

unfoldable pub safe_relative : Text → Bool
safe_relative path =
    leb (length path) 2048 && not (length path == 0) && all safe_part (split b'/' path)

-- What a provider id stands for: `none` for one that is not supported, `some none` for an object
-- inside a bundle.
unfoldable pub provider_of : Text → Option (Option Provider)
provider_of id =
    if text_eq id (utf8 "Fwk.Crypt.AssetBundleCryptProvider")
    then some (some encrypted_bundle)
    else if text_eq id (utf8 "UnityEngine.ResourceManagement.ResourceProviders.AssetBundleProvider")
    then some (some unity_bundle)
    else if text_eq id (utf8 "CriWare.Assets.CriResourceProvider")
    then some (some cri)
    else if text_eq id
        (utf8 "UnityEngine.ResourceManagement.ResourceProviders.BundledAssetProvider")
    then some none
    else none

-- Where a location's file is: on the CDN, in the installation package, or nowhere known.
pub data Place : Type 0 where
  remote embedded : Text → Place
  unknown : Place

abbrev or_else : Option Text → Place → Place
or_else (some path) place = remote path
or_else none place = place

abbrev strip_optional : Text → Option Text → Option Text
strip_optional id none = none
strip_optional id (some placeholder) = strip_prefix id (placeholder ++ utf8 "/")

abbrev embedded_or_unknown : Option Text → Place
embedded_or_unknown (some path) = embedded path
embedded_or_unknown none = unknown

unfoldable pub place_of : Text → Option Text → Text → Place
place_of remote_dir placeholder id =
    or_else (strip_prefix id (utf8 "{Fwk.Resource.RemoteAssetDir}/")) (
      or_else (strip_prefix id (remote_dir ++ utf8 "/")) (
        or_else (strip_optional id placeholder) (
          embedded_or_unknown
            (strip_prefix id (utf8 "{UnityEngine.AddressableAssets.Addressables.RuntimePath}/")))))

-- The entry of `BTreeMap<String, Asset>`, kept in the order of the paths: a second location of a
-- path must have the provider of the first.
unfoldable pub add_asset : Text → Provider → ℕ → List Asset → Result (List Asset)
add_asset path p id [] =
    ok (record { relative_path = path; provider = p; locations = id ∷ [] } ∷ [])
add_asset path p id (a ∷ as') =
    let rest = add_asset path p id as' in
    if text_eq a.relative_path path
    then (if provider_eq a.provider p
        then ok (record a { locations = a.locations ++ id ∷ [] } ∷ as')
        else err provider)
    else if text_leb path a.relative_path
    then ok (record { relative_path = path; provider = p; locations = id ∷ [] } ∷ a ∷ as')
    else (do more ← rest; ok (a ∷ more))

abbrev pub place_location : Provider → ℕ → Place → Plan → Result Plan
place_location p id unknown plan = err asset_path
place_location p id (embedded path) plan =
    if safe_relative path
    then ok (record plan { embedded_locations = plan.embedded_locations + 1 })
    else err asset_path
place_location p id (remote path) plan =
    if safe_relative path
    then (do assets ← add_asset path p id plan.assets; ok (record plan { assets = assets }))
    else err asset_path

abbrev pub plan_provided :
    Text → Option Text → Location → Option (Option Provider) → Plan → Result Plan
plan_provided remote_dir placeholder l none plan = err provider
plan_provided remote_dir placeholder l (some none) plan =
    ok (record plan { logical_locations = plan.logical_locations + 1 })
plan_provided remote_dir placeholder l (some (some p)) plan =
    place_location p l.id (place_of remote_dir placeholder l.internal_id) plan

-- The body of the loop over the locations.
unfoldable pub plan_location : Text → Option Text → Location → Plan → Result Plan
plan_location remote_dir placeholder l plan =
    plan_provided remote_dir placeholder l (provider_of l.provider_id) plan

unfoldable pub plan_locations : Text → Option Text → List Location → Plan → Result Plan
plan_locations remote_dir placeholder [] plan = ok plan
plan_locations remote_dir placeholder (l ∷ ls) plan =
    elim (plan_location remote_dir placeholder l plan) [
      | err e ↦ err e
      | ok plan' ↦ plan_locations remote_dir placeholder ls plan'
    ]

-- The paths in lower case, as a set.
unfoldable pub fold_path : Asset → Text
fold_path a = map to_lower a.relative_path

unfoldable pub path_set : List Text → List Text
path_set [] = []
path_set (p ∷ ps) = let rest = path_set ps in if contains_path p rest then rest else p ∷ rest

-- `&path[..i]` for each `/` of the path.
unfoldable pub parents : Text → List Text
parents [] = []
parents (c ∷ cs) = let rest = map (λ p. c ∷ p) (parents cs) in if c == b'/' then [] ∷ rest else rest

unfoldable pub inside_another : List Text → Text → Bool
inside_another folded path = any (λ p. contains_path p folded) (parents path)

unfoldable pub check_folded : Plan → Result Plan
check_folded plan =
    let folded = path_set (map fold_path plan.assets) in
    if not (length folded == length plan.assets)
    then err asset_path
    else if any (inside_another folded) folded
    then err asset_path
    else ok plan

abbrev pub empty_plan : Plan
empty_plan = record { assets = []; embedded_locations = 0; logical_locations = 0 }

unfoldable pub plan_with : Text → Option Text → Catalog → Result Plan
plan_with remote_dir placeholder c = do
  plan ← plan_locations remote_dir placeholder c.locations empty_plan
  check_folded plan

unfoldable pub plan : Text → Catalog → Result Plan
unfolding plan_with
plan remote_dir c = plan_with remote_dir none c

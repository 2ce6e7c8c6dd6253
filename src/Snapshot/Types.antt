-- ===== src/Snapshot/Types.antt =====
-- src/lib.rs: `Config`, `Snapshot`, `Receipt` and their parts. The configuration is
-- without its logging and its network settings, which no function here reads.
use sirius_asset_updater.Base.{
  ℕ, Text, utf8, text_eq, Bool, true, false, not, ◌&&◌, ◌||◌, Option, none, some, List, ◌++◌, ◌==◌,
  length, all, leb, if◌then◌else◌,
}
use sirius_asset_updater.Base.Strings.{is_alphanumeric, is_lower_hex}
use sirius_asset_updater.Assets.Plan.{AssetConfig}
use sirius_asset_updater.Region.{Region, Platform, name, family, protocol_version, default_platform}

pub data CdnAuthorization : Type 0 where
  basic anonymous : CdnAuthorization

pub record CdnAuth : Type 0 where
  pub authorization : CdnAuthorization
  pub username_env : Text
  pub credential_env : Text

pub data CatalogLayout : Type 0 where
  jp_layout global_layout : CatalogLayout

pub record Config : Type 0 where
  pub region : Region
  pub platform : Option Platform
  pub protocol_version : Option Text
  pub game_api_root : Text
  pub regional_routes : Bool
  pub internal_token_env : Text
  pub refresh_token_env : Option Text
  pub environment : Text
  pub client_version : Text
  pub output : Text
  pub cdn_roots : List (Text × CdnAuth)
  pub assets : Option AssetConfig
  pub catalog_locale : Option Text

pub record CatalogTarget : Type 0 where
  pub layout : CatalogLayout
  pub catalog_url : Text
  pub hash_url : Option Text
  pub bundle_base_url : Text
  pub remote_placeholder : Option Text
  pub authorization : CdnAuthorization

-- `observed_at` counts nanoseconds.
pub record Snapshot : Type 0 where
  pub region : Option Region
  pub schema_version : ℕ
  pub environment : Text
  pub platform : Text
  pub client_version : Text
  pub protocol_version : Text
  pub master_version : Option Text
  pub resource_version : Text
  pub platform_hash : Text
  pub effective_cdn_root : Text
  pub credential_ref : Text
  pub observed_at : ℕ
  pub source : Text
  pub catalog_layout : Option CatalogLayout
  pub catalog_url : Option Text
  pub bundle_base_url : Option Text
  pub cdn_authorization : Option CdnAuthorization

-- Without the field for the update of the assets, which no function here reads.
pub record Receipt : Type 0 where
  pub snapshot : Snapshot
  pub catalog_url : Text
  pub bytes : ℕ
  pub sha256 : Text
  pub downloaded_at : ℕ
  pub catalog_layout : Option CatalogLayout
  pub bundle_base_url : Option Text
  pub catalog_locale : Option Text
  pub catalog_hash : Option Text

abbrev pub layout_eq : CatalogLayout → CatalogLayout → Bool
layout_eq jp_layout jp_layout = true
layout_eq global_layout global_layout = true
layout_eq _ _ = false

abbrev pub authorization_eq : CdnAuthorization → CdnAuthorization → Bool
authorization_eq basic basic = true
authorization_eq anonymous anonymous = true
authorization_eq _ _ = false

unfoldable pub for_region : Region → CatalogLayout
for_region r = if text_eq (family r) (utf8 "global") then global_layout else jp_layout

abbrev pub unwrap_or {ℓ} : {A : Type ℓ} → Option A → A → A
unwrap_or none d = d
unwrap_or (some a) d = a

abbrev pub is_some {ℓ} : {A : Type ℓ} → Option A → Bool
is_some none = false
is_some (some a) = true

abbrev pub platform_of : Config → Platform
platform_of c = unwrap_or c.platform (default_platform c.region)

abbrev pub protocol_of : Config → Text
protocol_of c = unwrap_or c.protocol_version (protocol_version c.region)

unfoldable pub component_byte : ℕ → Bool
component_byte b = is_alphanumeric b || b == b'-' || b == b'_' || b == b'.'

unfoldable pub component : Text → Bool
component s =
    not (length s == 0)
    && not (text_eq s (utf8 ".") || text_eq s (utf8 ".."))
    && leb (length s) 256
    && all component_byte s

unfoldable pub lower_hex32 : Text → Bool
lower_hex32 value = length value == 32 && all is_lower_hex value

unfoldable pub known_locale : Text → Bool
known_locale l =
    text_eq l (utf8 "en")
    || text_eq l (utf8 "zh-Hant")
    || text_eq l (utf8 "zh-Hans")
    || text_eq l (utf8 "ko")

-- `matches!(platform, "iOS" | "Android")`.
unfoldable pub known_platform : Text → Bool
known_platform p = text_eq p (utf8 "iOS") || text_eq p (utf8 "Android")

-- `{game_api_root}/{scope}/v1/[{region}/]{suffix}`.
unfoldable pub api_url : Config → Bool → Text → Text
api_url c internal suffix =
    let scope = if internal then utf8 "internal" else utf8 "api" in
    if c.regional_routes
    then c.game_api_root
      ++ (utf8 "/" ++ (scope ++ (utf8 "/v1/" ++ (name c.region ++ (utf8 "/" ++ suffix)))))
    else c.game_api_root ++ (utf8 "/" ++ (scope ++ (utf8 "/v1/" ++ suffix)))

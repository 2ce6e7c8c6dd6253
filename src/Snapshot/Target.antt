-- ===== src/Snapshot/Target.antt =====
-- src/lib.rs: `SnapshotResponse::target`, which accepts a snapshot and derives the URLs.
use sirius_asset_updater.Base.{
  ℕ, ◌+◌, ◌*◌, Text, utf8, text_eq, Bool, false, not, ◌&&◌, ◌||◌, Option, none, some, List, [], ◌∷◌,
  ◌++◌, ◌==◌, ltb, if◌then◌else◌,
}
use sirius_asset_updater.Region.{Region, jp, ios, region_eq, platform_eq, platform_name}
use sirius_asset_updater.Fault.{Result, ok, err, snapshot}
use sirius_asset_updater.Snapshot.Types.{
  basic, anonymous, CdnAuth, CatalogLayout, jp_layout, global_layout, Config, CatalogTarget,
  Snapshot, layout_eq, authorization_eq, for_region, unwrap_or, is_some, platform_of, protocol_of,
  component, lower_hex32,
}

-- `num_milliseconds` of the age, which truncates towards zero, is in 0..=300000.
unfoldable pub age_ok : ℕ → ℕ → Bool
age_ok now observed = ltb observed (now + 1000000) && ltb now (observed + 300001 * 1000000)

abbrev pub is_region : Option Region → Region → Bool
is_region none r = false
is_region (some q) r = region_eq q r

unfoldable pub schema_ok : Config → Snapshot → Bool
schema_ok c s =
    if s.schema_version == 1
    then not (is_some s.region)
      && region_eq c.region jp
      && platform_eq (platform_of c) ios
      && text_eq s.protocol_version (utf8 "1.0.3")
    else if s.schema_version == 2
    then is_region s.region c.region
    else if s.schema_version == 3
    then is_region s.region c.region
    else false

-- Each of the four explicit fields is there in schema 3, and only there.
unfoldable pub explicit_ok : Snapshot → Bool
explicit_ok s =
    if s.schema_version == 3
    then is_some s.catalog_layout
      && is_some s.catalog_url
      && is_some s.bundle_base_url
      && is_some s.cdn_authorization
    else not (
        is_some s.catalog_layout
        || is_some s.catalog_url
        || is_some s.bundle_base_url
        || is_some s.cdn_authorization)

unfoldable pub same_client : Config → Snapshot → Bool
same_client c s =
    text_eq s.environment c.environment
    && text_eq s.platform (platform_name (platform_of c))
    && text_eq s.client_version c.client_version
    && text_eq s.protocol_version (protocol_of c)
    && text_eq s.source (utf8 "remote")
    && component s.resource_version
    && component s.platform_hash

abbrev pub is_global : CatalogLayout → Bool
is_global l = layout_eq l global_layout

abbrev pub layout_of : Snapshot → CatalogLayout
layout_of s = unwrap_or s.catalog_layout jp_layout

unfoldable pub bad_layout : Config → Snapshot → CatalogLayout → Bool
bad_layout c s l =
    not (layout_eq l (for_region c.region))
    || is_global l && not (lower_hex32 s.platform_hash)
    || layout_eq l jp_layout && is_some c.catalog_locale

unfoldable pub find_root : Text → List (Text × CdnAuth) → Option CdnAuth
find_root root [] = none
find_root root ((r, auth) ∷ rest) = if text_eq r root then some auth else find_root root rest

abbrev pub expected_ref : CdnAuth → Text
expected_ref a = elim a.authorization [ basic ↦ a.credential_env | anonymous ↦ [] ]

unfoldable pub bad_authorization : CdnAuth → Snapshot → Bool
bad_authorization a s =
    not (authorization_eq (unwrap_or s.cdn_authorization basic) a.authorization)
    || not (text_eq s.credential_ref (expected_ref a))

-- `{base}/catalog_{version}[_{locale}]`.
unfoldable pub catalog_stem : Text → Text → Option Text → Text
catalog_stem base version none = base ++ (utf8 "/catalog_" ++ version)
catalog_stem base version (some locale) =
    base ++ (utf8 "/catalog_" ++ (version ++ (utf8 "_" ++ locale)))

unfoldable pub global_base : Text → Text → Text
global_base root platform = root ++ (utf8 "/asset/" ++ platform)

unfoldable pub jp_base : Text → Text → Text → Text → Text
jp_base root version platform hash =
    root ++ (utf8 "/asset/" ++ (version ++ (utf8 "/" ++ (platform ++ (utf8 "/" ++ hash)))))

-- `{GLOBAL_REMOTE_PLACEHOLDER}/asset/{platform}`.
unfoldable pub placeholder_of : Text → Text
placeholder_of platform = utf8 "https://dummy.net" ++ (utf8 "/asset/" ++ platform)

-- The base catalog's URL, and the target.
unfoldable pub derive_target : Config → Snapshot → CatalogLayout → Text × CatalogTarget
derive_target c s jp_layout =
    let base =
      jp_base s.effective_cdn_root s.resource_version (platform_name (platform_of c))
        s.platform_hash in
    (
      base ++ utf8 "/catalog_main.bin",
      record {
        layout = jp_layout;
        catalog_url = base ++ utf8 "/catalog_main.bin";
        hash_url = none;
        bundle_base_url = base;
        remote_placeholder = none;
        authorization = unwrap_or s.cdn_authorization basic;
      },
    )
derive_target c s global_layout =
    let base = global_base s.effective_cdn_root (platform_name (platform_of c)) in
    (
      catalog_stem base s.resource_version none ++ utf8 ".bin",
      record {
        layout = global_layout;
        catalog_url = catalog_stem base s.resource_version c.catalog_locale ++ utf8 ".bin";
        hash_url = some (catalog_stem base s.resource_version c.catalog_locale ++ utf8 ".hash");
        bundle_base_url = base;
        remote_placeholder = some (placeholder_of (platform_name (platform_of c)));
        authorization = unwrap_or s.cdn_authorization basic;
      },
    )

abbrev pub differs : Option Text → Text → Bool
differs none url = false
differs (some u) url = not (text_eq u url)

unfoldable pub check_urls : Snapshot → Text × CatalogTarget → Result CatalogTarget
check_urls s (base_catalog, t) =
    if differs s.catalog_url base_catalog || differs s.bundle_base_url t.bundle_base_url
    then err snapshot
    else ok t

-- `stale` is the field beside the snapshot in a `SnapshotResponse`.
unfoldable pub target : Bool → ℕ → Config → Snapshot → Result CatalogTarget
target stale now c s =
    if stale
      || not (age_ok now s.observed_at)
      || not (schema_ok c s)
      || not (explicit_ok s)
      || not (same_client c s)
    then err snapshot
    else if bad_layout c s (layout_of s)
    then err snapshot
    else elim (find_root s.effective_cdn_root c.cdn_roots) [
      | none ↦ err snapshot
      | some auth ↦
          if bad_authorization auth s
          then err snapshot
          else check_urls s (derive_target c s (layout_of s))
    ]

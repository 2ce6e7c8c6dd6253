-- ===== src/Tests/Snapshot.antt =====
-- src/lib.rs: the theorem on an explicit snapshot of a Global region.
use sirius_asset_updater.Base.{Text, utf8, text_eq, false, none, some, [], ◌∷◌, ◌≡◌, refl}
use sirius_asset_updater.Base.Strings.{is_digit, is_lower, is_upper, is_alphanumeric, is_lower_hex}
use sirius_asset_updater.Region.{en, family, protocol_version, default_platform, platform_name}
use sirius_asset_updater.Fault.{ok}
use sirius_asset_updater.Snapshot.Types.{
  anonymous, global_layout, Config, CatalogTarget, Snapshot, for_region, component_byte, component,
  lower_hex32, known_locale,
}
use sirius_asset_updater.Snapshot.Target.{
  age_ok, schema_ok, explicit_ok, same_client, bad_layout, find_root, bad_authorization,
  catalog_stem, global_base, placeholder_of, derive_target, check_urls, target,
}
use sirius_asset_updater.Snapshot.Receipts.{region_identity, receipt_of, remote}
use sirius_asset_updater.Snapshot.Offline.{remote-receipt_of}

abbrev global_config : Config
global_config = record {
  region = en;
  platform = none;
  protocol_version = none;
  game_api_root = utf8 "https://a";
  regional_routes = false;
  internal_token_env = utf8 "T";
  refresh_token_env = none;
  environment = utf8 "prod";
  client_version = utf8 "1.0";
  output = utf8 "out";
  assets = none;
  cdn_roots =
      (
        utf8 "https://c",
        record { authorization = anonymous; username_env = []; credential_env = [] },
      )
      ∷ [];
  catalog_locale = some (utf8 "ko");
}

abbrev hash : Text
hash = utf8 "0123456789abcdef0123456789abcdef"

abbrev global_snapshot : Snapshot
global_snapshot = record {
  region = some en;
  schema_version = 3;
  environment = utf8 "prod";
  platform = utf8 "Android";
  client_version = utf8 "1.0";
  protocol_version = utf8 "1.0.1";
  master_version = none;
  resource_version = utf8 "9";
  platform_hash = hash;
  effective_cdn_root = utf8 "https://c";
  credential_ref = [];
  observed_at = 5000000000;
  source = utf8 "remote";
  catalog_layout = some global_layout;
  catalog_url = some (utf8 "https://c/asset/Android/catalog_9.bin");
  bundle_base_url = some (utf8 "https://c/asset/Android");
  cdn_authorization = some anonymous;
}

abbrev global_target : CatalogTarget
global_target = record {
  layout = global_layout;
  catalog_url = utf8 "https://c/asset/Android/catalog_9_ko.bin";
  hash_url = some (utf8 "https://c/asset/Android/catalog_9_ko.hash");
  bundle_base_url = utf8 "https://c/asset/Android";
  remote_placeholder = some (utf8 "https://dummy.net/asset/Android");
  authorization = anonymous;
}

global-target : target false 6000000000 global_config global_snapshot ≡ ok global_target
unfolding target age_ok schema_ok explicit_ok same_client bad_layout find_root bad_authorization
    catalog_stem global_base placeholder_of derive_target check_urls for_region family
    protocol_version default_platform platform_name component component_byte lower_hex32 utf8
    text_eq is_alphanumeric is_digit is_lower is_upper is_lower_hex
global-target = refl

remote-receipt_of_example :
    (remote (receipt_of global_config global_snapshot global_target 700 hash 6000000000 none)
      ≡ ok (global_target.bundle_base_url, global_target.remote_placeholder))
    × (region_identity global_snapshot ≡ ok en)
unfolding known_locale utf8 text_eq
remote-receipt_of_example =
    remote-receipt_of false 6000000000 global_config global_snapshot global_target 700 hash
      6000000000 none refl refl global-target

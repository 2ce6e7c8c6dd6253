-- ===== src/Verify.antt =====
-- src/verify.rs: what an offline verification reports.
use sirius_asset_updater.Base.{ℕ, Text, Bool}
use sirius_asset_updater.Region.{Region}

pub record Verification : Type 0 where
  pub full_catalog : Bool
  pub catalog_remote_files : ℕ
  pub catalog_verified : Bool
  pub region : Region
  pub platform : Text
  pub environment : Text
  pub resource_version : Text
  pub platform_hash : Text
  pub catalog_sha256 : Text
  pub asset_files_verified : ℕ
  pub asset_bytes_verified : ℕ
  pub planned_remote_files : ℕ
  pub embedded_locations : ℕ
  pub decrypted_bundles : ℕ

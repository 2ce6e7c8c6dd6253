-- ===== src/Snapshot/Receipts.antt =====
-- src/lib.rs: `Snapshot::region_identity`, the receipt that a download writes, and `Receipt::remote`.
use sirius_asset_updater.Base.{
  ℕ, Text, utf8, text_eq, Bool, false, not, ◌&&◌, ◌||◌, Option, none, some, ◌++◌, ◌==◌,
  if◌then◌else◌,
}
use sirius_asset_updater.Base.Strings.{strip_suffix}
use sirius_asset_updater.Region.{Region, jp, cn, region_eq}
use sirius_asset_updater.Fault.{Result, ok, err, verification}
use sirius_asset_updater.Snapshot.Types.{
  CatalogLayout, jp_layout, global_layout, Config, CatalogTarget, Snapshot, Receipt, layout_eq,
  for_region, unwrap_or, is_some, known_locale, known_platform,
}
use sirius_asset_updater.Snapshot.Target.{catalog_stem, global_base, placeholder_of, differs}

abbrev pub is_layout : Option CatalogLayout → CatalogLayout → Bool
is_layout none l = false
is_layout (some m) l = layout_eq m l

abbrev pub identity_of : Snapshot → Option Region → Result Region
identity_of s none =
    if s.schema_version == 1
      && text_eq s.platform (utf8 "iOS")
      && text_eq s.protocol_version (utf8 "1.0.3")
    then ok jp
    else err verification
identity_of s (some r) =
    if (s.schema_version == 2 && not (is_some s.catalog_layout)
        || s.schema_version == 3 && is_layout s.catalog_layout (for_region r))
      && not (region_eq r cn)
      && known_platform s.platform
    then ok r
    else err verification

unfoldable pub region_identity : Snapshot → Result Region
region_identity s = identity_of s s.region

-- What `CatalogClient::download` writes.
unfoldable pub receipt_of : Config → Snapshot → CatalogTarget → ℕ → Text → ℕ → Option Text → Receipt
receipt_of c s t bytes sha256 now hash = record {
  snapshot = s;
  catalog_url = t.catalog_url;
  bytes = bytes;
  sha256 = sha256;
  downloaded_at = now;
  catalog_layout = some t.layout;
  bundle_base_url = some t.bundle_base_url;
  catalog_locale = c.catalog_locale;
  catalog_hash = hash;
}

abbrev pub bad_locale : Option Text → Bool
bad_locale none = false
bad_locale (some l) = not (known_locale l)

abbrev pub remote_jp : Receipt → Option Text → Result (Text × Option Text)
remote_jp r none = err verification
remote_jp r (some derived) =
    if differs r.bundle_base_url derived || is_some r.catalog_locale
    then err verification
    else ok (derived, none)

abbrev pub remote_global : Receipt → Option Text → Result (Text × Option Text)
remote_global r none = err verification
remote_global r (some base) =
    if not (text_eq base (global_base r.snapshot.effective_cdn_root r.snapshot.platform))
      || not (
          text_eq r.catalog_url
            (catalog_stem base r.snapshot.resource_version r.catalog_locale ++ utf8 ".bin"))
      || bad_locale r.catalog_locale
    then err verification
    else ok (base, some (placeholder_of r.snapshot.platform))

abbrev pub remote_in : CatalogLayout → Receipt → Result (Text × Option Text)
remote_in jp_layout r = remote_jp r (strip_suffix r.catalog_url (utf8 "/catalog_main.bin"))
remote_in global_layout r = remote_global r r.bundle_base_url

unfoldable pub remote : Receipt → Result (Text × Option Text)
remote r =
    if not (known_platform r.snapshot.platform)
    then err verification
    else remote_in (unwrap_or r.catalog_layout jp_layout) r

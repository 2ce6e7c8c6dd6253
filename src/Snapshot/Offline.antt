-- ===== src/Snapshot/Offline.antt =====
-- src/lib.rs: the receipt of a download, read offline.
use sirius_asset_updater.Base.{
  ℕ, Text, utf8, text_eq, text_eq_iff, text_eq_refl, Bool, true, false, not, ◌||◌, Option, none,
  some, [], ◌∷◌, ◌++◌, ◌≡◌, refl, ap, subst, ◌∙◌, arith, ◌==◌, length, length-append, Bool-cases,
  Option-cases, inl, inr,
}
use sirius_asset_updater.Base.Strings.{strip_suffix}
use sirius_asset_updater.Region.{Region, jp, cn, region_eq, Platform, ios, android, platform_name}
use sirius_asset_updater.Fault.{ok}
use sirius_asset_updater.Snapshot.Types.{
  CatalogLayout, jp_layout, global_layout, Config, CatalogTarget, Snapshot, layout_eq, for_region,
  is_some, known_platform, platform_of,
}
use sirius_asset_updater.Snapshot.Target.{
  age_ok, schema_ok, explicit_ok, same_client, layout_of, bad_layout, find_root, bad_authorization,
  catalog_stem, global_base, jp_base, derive_target, check_urls, target,
}
use sirius_asset_updater.Snapshot.Receipts.{
  identity_of, region_identity, receipt_of, bad_locale, remote,
}

-- What an accepted snapshot has been checked for.
record IsAccepted (c : Config) (s : Snapshot) (t : CatalogTarget) : Type 0 where
  schema : schema_ok c s ≡ true
  explicit : explicit_ok s ≡ true
  client : same_client c s ≡ true
  layout : bad_layout c s (layout_of s) ≡ false
  derived : (derive_target c s (layout_of s)).1 ≡ t

check_urls-same :
    (s : Snapshot) (d : Text × CatalogTarget) (t : CatalogTarget) → check_urls s d ≡ ok t → d.1 ≡ t
unfolding check_urls
check_urls-same s (base, d) t h = ground arith

target-IsAccepted :
    (stale : Bool) (now : ℕ) (c : Config) (s : Snapshot) (t : CatalogTarget)
    → target stale now c s ≡ ok t
    → IsAccepted c s t
unfolding target
target-IsAccepted stale now c s t h =
    elim (Bool-cases (
      stale
      || not (age_ok now s.observed_at)
      || not (schema_ok c s)
      || not (explicit_ok s)
      || not (same_client c s))) [
        | inl bad ↦ absurd (ground arith)
        | inr good ↦ elim (Bool-cases (bad_layout c s (layout_of s))) [
          | inl bad ↦ absurd (ground arith)
          | inr l ↦ elim (Option-cases (find_root s.effective_cdn_root c.cdn_roots)) [
            | inl e ↦ absurd (ground arith)
            | inr (auth, e) ↦ elim (Bool-cases (bad_authorization auth s)) [
              | inl bad ↦ absurd (ground arith)
              | inr a ↦ record {
                schema = ground arith;
                explicit = ground arith;
                client = ground arith;
                layout = l;
                derived = check_urls-same s (derive_target c s (layout_of s)) t (ground arith);
              }
            ]
          ]
        ]
      ]

same_client-platform :
    (c : Config) (s : Snapshot)
    → same_client c s ≡ true
    → s.platform ≡ platform_name (platform_of c)
unfolding same_client
same_client-platform c s h =
    (text_eq_iff s.platform (platform_name (platform_of c))).0 (ground arith)

platform-known : (p : Platform) → known_platform (platform_name p) ≡ true
unfolding known_platform platform_name utf8 text_eq
platform-known ios = refl
platform-known android = refl

longer : (x : ℕ) (s p : Text) → text_eq (x ∷ (s ++ p)) p ≡ false
longer x s p = elim (Bool-cases (text_eq (x ∷ (s ++ p)) p)) [
  | inr e ↦ e
  | inl e ↦
      let q = ap length ((text_eq_iff (x ∷ (s ++ p)) p).0 e) in
      absurd (omega (arith, length-append s p))
]

strip_suffix-append : (s p : Text) → strip_suffix (s ++ p) p ≡ some s
unfolding strip_suffix
strip_suffix-append [] [] = unfold text_eq in refl
strip_suffix-append [] (x ∷ xs) = rw (text_eq_refl (x ∷ xs)) refl
strip_suffix-append (x ∷ s) p = rw (longer x s p) (rw (strip_suffix-append s p) refl)

module _ (c : Config) (s : Snapshot) where
  -- Schema 1, which has no region of its own.
  identity-none :
      s.region ≡ none
      → schema_ok c s ≡ true
      → s.platform ≡ platform_name (platform_of c)
      → identity_of s none ≡ ok c.region
  unfolding schema_ok
  identity-none e h p =
      let v : (s.schema_version == 1) ≡ true = ground arith in
      let r : c.region ≡ jp = ground arith in
      let q : platform_of c ≡ ios = ground arith in
      let k : text_eq s.protocol_version (utf8 "1.0.3") ≡ true = ground arith in
      let m : s.platform ≡ utf8 "iOS" = p ∙ (rw q (unfold platform_name in refl)) in
      rw (v, k, r) (rw m (rw (text_eq_refl (utf8 "iOS")) refl))

  identity-some :
      (r : Region)
      → s.region ≡ some r
      → region_eq c.region cn ≡ false
      → schema_ok c s ≡ true
      → explicit_ok s ≡ true
      → bad_layout c s (layout_of s) ≡ false
      → known_platform s.platform ≡ true
      → identity_of s (some r) ≡ ok c.region
  unfolding schema_ok explicit_ok bad_layout
  identity-some r e n h x b k =
      let q : r ≡ c.region = ground arith in
      rw q (elim (Bool-cases (s.schema_version == 2)) [
        | inl v ↦ let m : is_some s.catalog_layout ≡ false = ground arith in rw (v, m, n, k) refl
        | inr v ↦
            let w : (s.schema_version == 3) ≡ true = ground arith in
            elim (Option-cases s.catalog_layout) [
              | inl f ↦ absurd (ground arith)
              | inr (l, f) ↦
                  let y : layout_eq l (for_region c.region) ≡ true = ground arith in
                  rw (v, w, f, n, k) (rw y refl)
            ]
      ])

  region-identity :
      (t : CatalogTarget)
      → region_eq c.region cn ≡ false
      → IsAccepted c s t
      → region_identity s ≡ ok c.region
  unfolding region_identity
  region-identity t n a =
      let p = same_client-platform c s a.client in
      elim (Option-cases s.region) [
        | inl e ↦ rw e (identity-none e a.schema p)
        | inr (r, e) ↦ rw e (
            identity-some r e n a.schema a.explicit a.layout
              (rw p (platform-known (platform_of c))))
      ]

module _ (c : Config) (s : Snapshot) (bytes : ℕ) (sha256 : Text) (now : ℕ)
    (hash : Option Text) where
  remote-derived :
      (l : CatalogLayout)
      → s.platform ≡ platform_name (platform_of c)
      → bad_layout c s l ≡ false
      → bad_locale c.catalog_locale ≡ false
      → let t = (derive_target c s l).1 in
        remote (receipt_of c s t bytes sha256 now hash)
        ≡ ok (t.bundle_base_url, t.remote_placeholder)
  unfolding derive_target receipt_of remote
  remote-derived jp_layout p b n =
      let base =
        jp_base s.effective_cdn_root s.resource_version (platform_name (platform_of c))
          s.platform_hash in
      let k : known_platform s.platform ≡ true = rw p (platform-known (platform_of c)) in
      let m : is_some c.catalog_locale ≡ false = unfold bad_layout in ground arith in
      rw k
        (rw (strip_suffix-append base (utf8 "/catalog_main.bin")) (rw (text_eq_refl base, m) refl))
  remote-derived global_layout p b n =
      let base = global_base s.effective_cdn_root s.platform in
      let k : known_platform s.platform ≡ true = rw p (platform-known (platform_of c)) in
      rw (← p) (
        rw k (
          rw
            (
              text_eq_refl base,
              text_eq_refl (catalog_stem base s.resource_version c.catalog_locale ++ utf8 ".bin"),
              n,
            )
            refl))

-- Where a snapshot is accepted under a configuration that is not of the reserved region and
-- has a known locale or none, the receipt of the download gives back the target's bundle directory
-- and placeholder, and the snapshot's region is the configured one.
pub remote-receipt_of :
    (stale : Bool) (now : ℕ) (c : Config) (s : Snapshot) (t : CatalogTarget) (bytes : ℕ)
    (sha256 : Text) (at : ℕ) (hash : Option Text)
    → region_eq c.region cn ≡ false
    → bad_locale c.catalog_locale ≡ false
    → target stale now c s ≡ ok t
    → (remote (receipt_of c s t bytes sha256 at hash)
        ≡ ok (t.bundle_base_url, t.remote_placeholder))
      × (region_identity s ≡ ok c.region)
remote-receipt_of stale now c s t bytes sha256 at hash n l h =
    let a = target-IsAccepted stale now c s t h in
    (
      subst
          (λ z.
            remote (receipt_of c s z bytes sha256 at hash)
            ≡ ok (z.bundle_base_url, z.remote_placeholder))
          a.derived
          (remote-derived c s bytes sha256 at hash (layout_of s) (same_client-platform c s a.client)
            a.layout l),
      region-identity c s t n a,
    )

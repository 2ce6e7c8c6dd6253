-- ===== src/Region.antt =====
-- src/region.rs: region and platform identities.
use sirius_asset_updater.Base.{
  Text, utf8, text_eq, Bool, true, false, ◌&&◌, Option, none, some, if◌then◌else◌, ◌≡◌, refl, ◌↔◌,
  arith,
}
use sirius_asset_updater.Base.Strings.{starts_with, ends_with, contains}

pub data Region : Type 0 where
  jp hk en kr cn : Region

pub data Platform : Type 0 where
  ios android : Platform

-- `PartialEq`, derived.
abbrev pub region_eq : Region → Region → Bool
region_eq jp jp = true
region_eq hk hk = true
region_eq en en = true
region_eq kr kr = true
region_eq cn cn = true
region_eq _ _ = false

pub region_eq_iff : (r q : Region) → (region_eq r q ≡ true) ↔ (r ≡ q)
region_eq_iff r q = (λ h. ground arith, λ h. ground arith)

unfoldable pub legacy_hk : Text
legacy_hk = utf8 "tw"

unfoldable pub from_name : Text → Option Region
from_name value =
    if text_eq value (utf8 "jp")
    then some jp
    else if text_eq value (utf8 "hk")
    then some hk
    else if text_eq value (utf8 "en")
    then some en
    else if text_eq value (utf8 "kr")
    then some kr
    else if text_eq value (utf8 "cn")
    then some cn
    else if text_eq value legacy_hk
    then some hk
    else none

unfoldable pub name : Region → Text
name jp = utf8 "jp"
name hk = utf8 "hk"
name en = utf8 "en"
name kr = utf8 "kr"
name cn = utf8 "cn"

unfoldable pub family : Region → Text
family jp = utf8 "jp"
family cn = utf8 "cn"
family _ = utf8 "global"

unfoldable pub area_id : Region → Option Text
area_id hk = some (utf8 "2")
area_id en = some (utf8 "3")
area_id kr = some (utf8 "4")
area_id _ = none

unfoldable pub protocol_version : Region → Text
protocol_version jp = utf8 "1.0.4"
protocol_version cn = utf8 ""
protocol_version _ = utf8 "1.0.1"

unfoldable pub persisted_digest_tag : Region → Text
unfolding legacy_hk name
persisted_digest_tag r = if region_eq r hk then legacy_hk else name r

unfoldable pub default_platform : Region → Platform
default_platform r = if region_eq r jp then ios else android

-- The region that a known service host and path belong to; `none` in the outer position is the
-- early `return false`, `some none` a host that is not known.
unfoldable pub expected_region : Text → Text → Option (Option Region)
expected_region host path =
    if ends_with host (utf8 ".bang-dream-on.jp")
    then some (some jp)
    else if ends_with host (utf8 ".gamerfusiontech.com") && contains host (utf8 "-prod-hk-")
    then some (some hk)
    else if ends_with host (utf8 ".bilibiligame.net") && contains host (utf8 "-prod-va-")
    then some (some en)
    else if ends_with host (utf8 ".bilibiligame.net") && contains host (utf8 "-prod-kr-")
    then some (some kr)
    else if ends_with host (utf8 ".bilibiligame.net") && contains host (utf8 "-prod-sg-patch-")
    then (if starts_with path (utf8 "/prod/en_")
        then some (some en)
        else if starts_with path (utf8 "/prod/kr_")
        then some (some kr)
        else none)
    else some none

abbrev is_none_or_eq : Option Region → Region → Bool
is_none_or_eq none r = true
is_none_or_eq (some q) r = region_eq q r

unfoldable pub matches_known_service : Region → Text → Text → Bool
unfolding expected_region
matches_known_service r host path = elim (expected_region host path) [
  | none ↦ false
  | some e ↦ is_none_or_eq e r
]

unfoldable pub platform_name : Platform → Text
platform_name ios = utf8 "iOS"
platform_name android = utf8 "Android"

unfoldable pub header : Platform → Text
header ios = utf8 "ios"
header android = utf8 "android"

abbrev pub platform_eq : Platform → Platform → Bool
platform_eq ios ios = true
platform_eq android android = true
platform_eq _ _ = false

-- A region is read back from its name, and from the tag under which its digests are stored, which
-- for Hong Kong is the old name.
pub from_name-name :
    (r : Region) → (from_name (name r) ≡ some r) × (from_name (persisted_digest_tag r) ≡ some r)
unfolding from_name name persisted_digest_tag legacy_hk text_eq utf8
from_name-name jp = (refl, refl)
from_name-name hk = (refl, refl)
from_name-name en = (refl, refl)
from_name-name kr = (refl, refl)
from_name-name cn = (refl, refl)

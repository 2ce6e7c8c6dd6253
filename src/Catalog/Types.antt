-- ===== src/Catalog/Types.antt =====
-- src/catalog.rs: locations, the catalog, the selection and the limits.
use sirius_asset_updater.Base.{ℕ, Text, List}

-- Pointers are 32-bit words; `NONE`, `MASK`, `DYNAMIC` and `UNICODE` of the source.
abbrev pub none_pointer : ℕ
none_pointer = 0xffff_ffff

abbrev pub mask_size : ℕ
mask_size = 0x4000_0000

abbrev pub max_locations : ℕ
max_locations = 100000

abbrev pub max_links : ℕ
max_links = 1000000

pub record Location : Type 0 where
  pub id : ℕ
  pub primary_key : Text
  pub internal_id : Text
  pub provider_id : Text
  pub dependencies : List ℕ

pub record Catalog : Type 0 where
  pub locations : List Location
  pub keys : List (Text × List ℕ)

pub record Selection : Type 0 where
  pub keys : List Text
  pub include : List Text
  pub exclude : List Text
  pub priority : List Text

-- ===== src/Layout/Types.antt =====
-- src/stable_layout.rs and src/export.rs: the options of a stable layout, the outputs it reads and
-- the plan it makes.
use sirius_asset_updater.Base.{
  ℕ, suc, Text, utf8, Bool, true, false, ◌||◌, Option, List, [], ◌∷◌, ltb, ◌==◌, length, any,
  if◌then◌else◌,
}
use sirius_asset_updater.Base.Strings.{contains}
use sirius_asset_updater.Fault.{Result, ok, err, config}
use sirius_asset_updater.Layout.Chars.{len, is_empty, trim, is_slash, decimal}

-- The numbers `i32` and `i64`: `negsuc n` is -1 - n.
pub data ℤ : Type 0 where
  pos negsuc : ℕ → ℤ

abbrev pub ℤ_eq : ℤ → ℤ → Bool
ℤ_eq (pos m) (pos n) = m == n
ℤ_eq (negsuc m) (negsuc n) = m == n
ℤ_eq _ _ = false

abbrev pub show_ℤ : ℤ → Text
show_ℤ (pos n) = decimal n
show_ℤ (negsuc n) = b'-' ∷ decimal (suc n)

pub record Options : Type 0 where
  pub strip_prefixes : List Text
  pub lowercase : Bool
  pub prune : Bool
  pub max_failed_resources : ℕ

abbrev pub default_strip_prefixes : List Text
default_strip_prefixes = utf8 "Assets/AddressableResources" ∷ []

-- `Options::default`.
abbrev pub default_options : Options
default_options = record {
  strip_prefixes = default_strip_prefixes;
  lowercase = true;
  prune = false;
  max_failed_resources = 0;
}

abbrev bad_prefix : Text → Bool
bad_prefix p = is_empty (trim is_slash p) || ltb 256 (len p) || contains p (utf8 "\\")

-- `Options::validate`.
unfoldable pub validate_options : Options → Result (Unit {0})
validate_options o =
    if ltb 16 (length o.strip_prefixes) || any bad_prefix o.strip_prefixes
    then err config
    else ok tt

pub record ObjectIdentity : Type 0 where
  pub source_file : Text
  pub path_id : ℤ
  pub class_id : ℤ
  pub name : Option Text
  pub container : Option Text

pub record OutputRecord : Type 0 where
  pub path : Text
  pub kind : Text
  pub bytes : ℕ
  pub sha256 : Text
  pub object : Option ObjectIdentity

pub record ResourceReport : Type 0 where
  pub cache_hit : Bool
  pub source : Text
  pub output_directory : Text
  pub source_sha256 : Text
  pub objects : ℕ
  pub selected_objects : ℕ
  pub skipped_objects : ℕ
  pub outputs : List OutputRecord
  pub errors : List Text

pub record Entry : Type 0 where
  pub path : Text
  pub local : Text
  pub bytes : ℕ
  pub sha256 : Text
  pub content_type : Text
  pub source : Text
  pub kind : Text
  pub class_id : Option ℤ
  pub container : Option Text
  pub name : Option Text

pub record Plan : Type 0 where
  pub entries : List Entry
  pub deduplicated : ℕ
  pub renamed : ℕ
  pub failed_sources : List Text

-- `Plan::default`.
abbrev pub default_plan : Plan
default_plan = record { entries = []; deduplicated = 0; renamed = 0; failed_sources = [] }

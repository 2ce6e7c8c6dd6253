-- ===== src/Tests/Catalog.antt =====
-- src/catalog.rs: the theorems on a catalog file of two locations, one key and one dependency.
use mathlib.Core.List.{reverse}
use sirius_asset_updater.Base.{
  ℕ, Text, utf8, text_eq, text_leb, none, some, List, [], ◌∷◌, ◌≡◌, ◌≢◌, refl,
}
use sirius_asset_updater.Base.Strings.{starts_with, strip_prefix}
use sirius_asset_updater.Fault.{ok, err, catalog}
use sirius_asset_updater.Catalog.Types.{Location, Catalog, Selection}
use sirius_asset_updater.Catalog.Reader.{
  checked_add, checked_sub, get_range, from_le, words, is_ascii, read_bytes, read_u32, read_array,
  decode_string, plain_string, string_parts, read_string, read_ids, string_fuel, string_fuel_enough,
}
use sirius_asset_updater.Catalog.Parse.{
  has_location, insert_location, extend_key, rows, Keys, key_name, read_key, read_keys,
  read_dependencies, read_location, visit, read_locations, parse_fuel, check_header, read_table,
  parse,
}
use sirius_asset_updater.Catalog.Select.{
  Regexes, has_control, bad_key, find_location, find_key, key_roots, roots, select_loop, link_count,
  select_fuel, build_all, patterns, validate, matches, is_empty, wanted, wanted_roots, select_from,
  select,
}
use sirius_asset_updater.Catalog.Worklist.{parse_fuel_enough}
use sirius_asset_updater.Catalog.Keys.{IsClosed, parse-IsClosed}
use sirius_asset_updater.Catalog.Search.{select_fuel_enough}
use sirius_asset_updater.Catalog.Refusals.{select-ne-catalog}
use sirius_asset_updater.Catalog.Selected.{IsSelection, select-IsSelection}

abbrev file : Text
file =
    66 ∷ 137 ∷ 227 ∷ 13 ∷ 2 ∷ 0 ∷ 0 ∷ 0 ∷ 138 ∷ 0 ∷ 0 ∷ 0 ∷ 13 ∷ 0 ∷ 0 ∷ 0 ∷ 83 ∷ 121 ∷ 115 ∷ 116
    ∷ 101 ∷ 109 ∷ 46 ∷ 83 ∷ 116 ∷ 114 ∷ 105 ∷ 110 ∷ 103 ∷ 2 ∷ 0 ∷ 0 ∷ 0 ∷ 107 ∷ 49 ∷ 1 ∷ 0 ∷ 0 ∷ 0
    ∷ 97 ∷ 1 ∷ 0 ∷ 0 ∷ 0 ∷ 98 ∷ 1 ∷ 0 ∷ 0 ∷ 0 ∷ 112 ∷ 0 ∷ 0 ∷ 0 ∷ 0 ∷ 16 ∷ 0 ∷ 0 ∷ 0 ∷ 33 ∷ 0 ∷ 0
    ∷ 0 ∷ 50 ∷ 0 ∷ 0 ∷ 0 ∷ 58 ∷ 0 ∷ 0 ∷ 0 ∷ 39 ∷ 0 ∷ 0 ∷ 0 ∷ 44 ∷ 0 ∷ 0 ∷ 0 ∷ 49 ∷ 0 ∷ 0 ∷ 0 ∷ 255
    ∷ 255 ∷ 255 ∷ 255 ∷ 0 ∷ 0 ∷ 0 ∷ 0 ∷ 0 ∷ 0 ∷ 0 ∷ 0 ∷ 4 ∷ 0 ∷ 0 ∷ 0 ∷ 70 ∷ 0 ∷ 0 ∷ 0 ∷ 39 ∷ 0 ∷ 0
    ∷ 0 ∷ 44 ∷ 0 ∷ 0 ∷ 0 ∷ 49 ∷ 0 ∷ 0 ∷ 0 ∷ 98 ∷ 0 ∷ 0 ∷ 0 ∷ 0 ∷ 0 ∷ 0 ∷ 0 ∷ 0 ∷ 0 ∷ 0 ∷ 0 ∷ 4 ∷ 0
    ∷ 0 ∷ 0 ∷ 102 ∷ 0 ∷ 0 ∷ 0 ∷ 8 ∷ 0 ∷ 0 ∷ 0 ∷ 62 ∷ 0 ∷ 0 ∷ 0 ∷ 130 ∷ 0 ∷ 0 ∷ 0 ∷ []

abbrev first_location : Location
first_location = record {
  id = 102;
  primary_key = 97 ∷ [];
  internal_id = 98 ∷ [];
  provider_id = 112 ∷ [];
  dependencies = 70 ∷ [];
}

abbrev second_location : Location
second_location = record {
  id = 70;
  primary_key = 97 ∷ [];
  internal_id = 98 ∷ [];
  provider_id = 112 ∷ [];
  dependencies = [];
}

abbrev two_locations : Catalog
two_locations = record {
  locations = second_location ∷ first_location ∷ [];
  keys = (107 ∷ 49 ∷ [], 102 ∷ []) ∷ [];
}

abbrev table : Keys
table = record {
  index = (107 ∷ 49 ∷ [], 102 ∷ []) ∷ [];
  pending = 102 ∷ [];
  links = 1;
  budget = 67108849;
}

file-table : read_table file ≡ ok table
unfolding read_table read_array read_u32 read_bytes checked_add checked_sub get_range from_le words
    rows read_keys read_key read_ids key_name read_string plain_string decode_string is_ascii
    extend_key utf8 text_eq text_leb
file-table = refl

file-parse : parse file ≡ ok two_locations
unfolding parse check_header read_table read_array read_u32 read_bytes checked_add checked_sub
    get_range from_le words rows read_keys read_key read_ids key_name read_string plain_string
    decode_string is_ascii extend_key utf8 text_eq text_leb read_locations parse_fuel visit
    has_location read_dependencies read_location insert_location
file-parse = refl

string_fuel_enough_example : string_parts file (string_fuel file) (utf8 "/") 16 [] 0 [] 100 ≢ none
string_fuel_enough_example = string_fuel_enough file (utf8 "/") 16 100

parse_fuel_enough_example :
    read_locations file parse_fuel table.pending [] table.links table.budget ≢ none
parse_fuel_enough_example = parse_fuel_enough file table file-table

parse-IsClosed_example : IsClosed two_locations
parse-IsClosed_example = parse-IsClosed file two_locations file-parse

-- Two locations that depend on each other.
abbrev cycle : List Location
cycle = first_location ∷ (let l = second_location in record l { dependencies = 102 ∷ [] }) ∷ []

select_fuel_enough_example :
    select_loop (select_fuel cycle (102 ∷ [])) cycle (reverse (102 ∷ [])) [] ≢ none
select_fuel_enough_example = select_fuel_enough cycle (102 ∷ [])

-- Patterns that match a prefix.
abbrev prefixes : Regexes
prefixes = record { Pattern = Text; build = some; is_match = λ p s. starts_with s p }

abbrev by_key : Selection
by_key = record {
  keys = (107 ∷ 49 ∷ []) ∷ [];
  include = (97 ∷ []) ∷ [];
  exclude = [];
  priority = [];
}

abbrev both : Catalog
both = record { locations = second_location ∷ first_location ∷ []; keys = [] }

selects-both : select prefixes two_locations by_key ≡ ok both
unfolding select validate bad_key has_control patterns build_all roots key_roots find_key text_eq
    wanted_roots find_location wanted matches is_empty starts_with strip_prefix select_from
    select_loop select_fuel link_count
selects-both = refl

select-IsSelection_example :
    (starts : List ℕ) × (all : List ℕ) × (include : List Text) × (exclude : List Text) × (roots
        two_locations by_key.keys
      ≡ ok all)
    × (patterns prefixes by_key.include ≡ ok include)
    × (patterns prefixes by_key.exclude ≡ ok exclude)
    × (wanted_roots prefixes two_locations.locations include exclude all ≡ ok starts)
    × IsSelection two_locations starts both
select-IsSelection_example = select-IsSelection prefixes two_locations by_key both selects-both

select-ne-catalog_example : select prefixes two_locations by_key ≢ err catalog
select-ne-catalog_example =
    select-ne-catalog prefixes two_locations by_key (parse-IsClosed file two_locations file-parse)

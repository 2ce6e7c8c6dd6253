-- ===== src/ExportCache/Types.antt =====
-- src/export_cache.rs: the cache with its budget, and the directories that it keeps.
use sirius_asset_updater.Base.{
  ℕ, ◌+◌, ◌-◌, Text, utf8, text_eq, Bool, not, ◌&&◌, ◌||◌, Option, none, some, List, [], ◌∷◌, ltb,
  ◌==◌, length, any, all, filter, if◌then◌else◌,
}
use sirius_asset_updater.Base.Strings.{split, is_lower_hex, to_lower}
use sirius_asset_updater.Layout.Types.{ResourceReport}

-- An entry of the budget: the size, and when it was used. The order of the ids decides nothing.
pub record Item : Type 0 where
  pub id : Text
  pub bytes : ℕ
  pub accessed : ℕ

pub record Budget : Type 0 where
  pub entries : List Item
  pub bytes : ℕ

-- Regular files by their path.
abbrev pub Files : Type 0
Files = List (Text × Text)

-- What stands under an id: the bytes of `entry.json` and its time, and the files of `data`, where these
-- are regular.
pub record Directory : Type 0 where
  pub metadata : Option Text
  pub modified : ℕ
  pub files : Option Files

pub record Cache : Type 0 where
  pub limit : ℕ
  pub max_bytes : Option ℕ
  pub max_entries : Option ℕ
  pub budget : Budget
  pub disk : List (Text × Directory)

-- The metadata of an entry.
pub record Entry : Type 0 where
  pub schema : ℕ
  pub identity : Text
  pub report_sha256 : Text
  pub report : ResourceReport

-- JSON and SHA-256: an entry in bytes and read back, the digest of a report, and of a file.
pub record Library : Type 0 where
  pub to_vec : Entry → Text
  pub from_slice : Text → Option Entry
  pub fingerprint : ResourceReport → Text
  pub sha256_hex : Text → Text

abbrev pub max_report : ℕ
max_report = 16777216

abbrev pub u64_bound : ℕ
u64_bound = 18446744073709551616

-- `checked_add` and `checked_sub` of `u64`.
abbrev pub checked_add : ℕ → ℕ → Option ℕ
checked_add a b = if ltb (a + b) u64_bound then some (a + b) else none

abbrev pub checked_sub : ℕ → ℕ → Option ℕ
checked_sub a b = if ltb a b then none else some (a - b)

-- `BTreeMap::get`, `remove` and `insert` of the budget's entries.
abbrev pub has_id : Text → Item → Bool
has_id id item = text_eq item.id id

unfoldable pub find_item : Text → List Item → Option Item
find_item id [] = none
find_item id (i ∷ is) = let rest = find_item id is in if has_id id i then some i else rest

abbrev pub remove_item : Text → List Item → List Item
remove_item id = filter (λ i. not (has_id id i))

unfoldable pub insert_item : Item → List Item → List Item
insert_item i [] = i ∷ []
insert_item i (j ∷ js) = let rest = insert_item i js in if has_id i.id j then i ∷ js else j ∷ rest

abbrev pub total : List Item → ℕ
total [] = 0
total (i ∷ is) = i.bytes + total is

-- `safe_path` and `digest`.
abbrev normal : Text → Bool
normal p = not (length p == 0) && not (text_eq p (utf8 ".")) && not (text_eq p (utf8 ".."))

unfoldable pub safe_path : Text → Bool
safe_path path =
    not (any (λ c. c == b'\\' || c == b':' || c == 0) path) && all normal (split b'/' path)

unfoldable pub digest : Text → Bool
digest value = length value == 64 && all (λ b. is_lower_hex (to_lower b)) value

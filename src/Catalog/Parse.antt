-- ===== src/Catalog/Parse.antt =====
-- src/catalog.rs: `Catalog::parse`. The key table gives the first locations; a worklist follows the
-- dependencies.
use sirius_asset_updater.Base.{
  ℕ, zero, suc, ◌+◌, Text, utf8, text_eq, text_leb, Bool, not, Option, none, some, List, [], ◌∷◌,
  ◌++◌, ltb, leb, ◌==◌, length, any, if◌then◌else◌,
}
use mathlib.Core.List.{reverse}
use sirius_asset_updater.Fault.{Result, ok, err, catalog, size, ◌>>=◌}
use sirius_asset_updater.Catalog.Types.{none_pointer, max_locations, max_links, Location, Catalog}
use sirius_asset_updater.Catalog.Reader.{
  read_bytes, read_u32, read_array, read_ids, read_string, words,
}

-- `BTreeMap<u32, Location>`: the locations in the order of their ids.
unfoldable pub has_location : ℕ → List Location → Bool
has_location id locs = any (λ (l : Location). l.id == id) locs

unfoldable pub insert_location : Location → List Location → List Location
insert_location l [] = l ∷ []
insert_location l (m ∷ ms) = if ltb l.id m.id then l ∷ m ∷ ms else m ∷ insert_location l ms

-- `entry(name).or_default().extend(ids)` on `BTreeMap<String, Vec<u32>>`.
unfoldable pub extend_key : Text → List ℕ → List (Text × List ℕ) → List (Text × List ℕ)
extend_key name ids [] = (name, ids) ∷ []
extend_key name ids ((k, old) ∷ rest) =
    if text_eq k name
    then (k, old ++ ids) ∷ rest
    else if text_leb name k
    then (name, ids) ∷ (k, old) ∷ rest
    else (k, old) ∷ extend_key name ids rest

-- The table's rows of eight bytes: the key object and its location ids.
unfoldable pub rows : List ℕ → List (ℕ × ℕ)
rows (object ∷ ids ∷ rest) = (object, ids) ∷ rows rest
rows _ = []

abbrev pub index_key : Option Text → List ℕ → List (Text × List ℕ) → List (Text × List ℕ)
index_key none ids index = index
index_key (some name) ids index = extend_key name ids index

-- What the loop over the keys carries. `pending` is a stack, its top first.
pub record Keys : Type 0 where
  pub index : List (Text × List ℕ)
  pub pending : List ℕ
  pub links : ℕ
  pub budget : ℕ

module _ (file : Text) where
  -- The name of a key that is a string object.
  unfoldable pub key_name : ℕ → ℕ → Result (Option Text × ℕ)
  key_name object budget = if object == none_pointer then ok (none, budget) else do
    ty ← read_u32 file object
    type_pointer ← read_u32 file (ty + 4)
    (type_name, left) ← read_string file (utf8 ".") type_pointer budget
    if not (text_eq type_name (utf8 "System.String")) then ok (none, left) else do
      value ← read_u32 file (object + 4)
      name_pointer ← read_u32 file value
      (name, rest) ← read_string file (utf8 "/") name_pointer left
      if length name == 0 then err catalog else ok (some name, rest)

  unfoldable pub read_key : ℕ × ℕ → Keys → Result Keys
  read_key (object, pointer) k = do
    ids ← read_ids file pointer
    if ltb max_links (k.links + length ids) then err catalog else do
      (name, left) ← key_name object k.budget
      ok (record {
        index = index_key name ids k.index;
        pending = reverse ids ++ k.pending;
        links = k.links + length ids;
        budget = left;
      })

  unfoldable pub read_keys : List (ℕ × ℕ) → Keys → Result Keys
  read_keys [] k = ok k
  read_keys (r ∷ rs) k = elim (read_key r k) [ err e ↦ err e | ok k' ↦ read_keys rs k' ]

  unfoldable pub read_dependencies : ℕ → Result (List ℕ)
  read_dependencies id = do
    header ← read_bytes file id 24
    pointer ← read_u32 file (id + 12)
    read_ids file pointer

  unfoldable pub read_location : ℕ → List ℕ → ℕ → Result (Location × ℕ)
  read_location id dependencies budget = do
    primary ← read_u32 file id
    (primary_key, left) ← read_string file (utf8 "/") primary budget
    internal ← read_u32 file (id + 4)
    (internal_id, left') ← read_string file (utf8 "/") internal left
    provider ← read_u32 file (id + 8)
    (provider_id, rest) ← read_string file (utf8 ".") provider left'
    ok (
      record {
        id = id;
        primary_key = primary_key;
        internal_id = internal_id;
        provider_id = provider_id;
        dependencies = dependencies;
      },
      rest,
    )

  -- One round of the worklist: `none` for a location that is there already, or the new location
  -- and the budget that is left.
  unfoldable pub visit : ℕ → List Location → ℕ → ℕ → Result (Option (Location × ℕ))
  visit id locs links budget =
      if has_location id locs
      then ok none
      else if leb max_locations (length locs)
      then err catalog
      else do
        deps ← read_dependencies id
        if ltb max_links (links + length deps)
            then err catalog
            else do (l, left) ← read_location id deps budget; ok (some (l, left))

  -- The worklist; `none` where the fuel runs out. The new location's dependencies are counted and
  -- pushed.
  unfoldable pub read_locations :
      ℕ → List ℕ → List Location → ℕ → ℕ → Option (Result (List Location))
  read_locations zero pending locs links budget = none
  read_locations (suc fuel) [] locs links budget = some (ok locs)
  read_locations (suc fuel) (id ∷ pending) locs links budget = elim (visit id locs links budget) [
    | err e ↦ some (err e)
    | ok none ↦ read_locations fuel pending locs links budget
    | ok (some (l, left)) ↦
        read_locations fuel (reverse l.dependencies ++ pending) (insert_location l locs)
          (links + length l.dependencies) left
  ]

-- One round for each link, and one to end.
unfoldable pub parse_fuel : ℕ
parse_fuel = max_links + 1

abbrev pub finished : List (Text × List ℕ) → Option (Result (List Location)) → Result Catalog
finished index none = err catalog
finished index (some (err e)) = err e
finished index (some (ok [])) = err catalog
finished index (some (ok (l ∷ ls))) = ok (record { locations = l ∷ ls; keys = index })

abbrev pub no_keys : Keys
no_keys = record { index = []; pending = []; links = 0; budget = 67108864 }

-- The header's two words; the second is read only if the first is right.
unfoldable pub check_header : Text → Result (Unit {0})
check_header file = do
  magic ← read_u32 file 0
  if not (magic == 0x0de3_8942)
      then err catalog
      else do version ← read_u32 file 4; if not (version == 2) then err catalog else ok tt

unfoldable pub read_table : Text → Result Keys
read_table file = do
  pointer ← read_u32 file 8
  table ← read_array file pointer 8
  read_keys file (rows (words table)) no_keys

unfoldable pub parse : Text → Result Catalog
parse file = if ltb 67108864 (length file) then err size else do
  u ← check_header file
  k ← read_table file
  finished k.index (read_locations file parse_fuel k.pending [] k.links k.budget)

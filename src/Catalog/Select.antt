-- ===== src/Catalog/Select.antt =====
-- src/catalog.rs: `Selection` and `Catalog::select`. The regular expressions are the `regex` crate's.
use mathlib.Core.List.{reverse}
use sirius_asset_updater.Base.{
  ℕ, zero, suc, ◌+◌, Text, text_eq, Bool, true, false, not, ◌&&◌, ◌||◌, Option, none, some, List,
  [], ◌∷◌, ◌++◌, ltb, leb, ◌==◌, length, any, elem, filter, map, if◌then◌else◌,
}
use sirius_asset_updater.Fault.{Result, ok, err, catalog, config, selection, ◌>>=◌}
use sirius_asset_updater.Catalog.Types.{Location, Catalog, Selection}

-- A regular expression engine: `build` compiles under the size limit of 1 MiB.
pub record Regexes : Type 1 where
  pub Pattern : Type 0
  pub build : Text → Option Pattern
  pub is_match : Pattern → Text → Bool

-- `char::is_control` in UTF-8: below U+0020, U+007F, or U+0080 to U+009F.
unfoldable pub has_control : Text → Bool
has_control [] = false
has_control (b ∷ []) = ltb b 32 || b == 127
has_control (b ∷ c ∷ rest) =
    ltb b 32 || b == 127 || b == 0xc2 && leb 0x80 c && leb c 0x9f || has_control (c ∷ rest)

unfoldable pub bad_key : Text → Bool
unfolding has_control
bad_key k = length k == 0 || ltb 2048 (length k) || has_control k

-- `by_id`: collected from the locations, so that of two with one id the last stays.
unfoldable pub find_location : ℕ → List Location → Option Location
find_location id [] = none
find_location id (l ∷ ls) = elim (find_location id ls) [
  | some m ↦ some m
  | none ↦ if l.id == id then some l else none
]

unfoldable pub find_key : Text → List (Text × List ℕ) → Option (List ℕ)
find_key key [] = none
find_key key ((k, ids) ∷ rest) = if text_eq k key then some ids else find_key key rest

-- The union of the keys' ids, in order; an unknown or an empty key is an error.
unfoldable pub key_roots : List Text → List (Text × List ℕ) → Result (List ℕ)
key_roots [] index = ok []
key_roots (k ∷ ks) index = elim (find_key k index) [
  | none ↦ err selection
  | some [] ↦ err selection
  | some (id ∷ ids) ↦ elim (key_roots ks index) [
    | err e ↦ err e
    | ok more ↦ ok (id ∷ (ids ++ more))
  ]
]

unfoldable pub roots : Catalog → List Text → Result (List ℕ)
unfolding key_roots
roots c [] = ok (map (λ (l : Location). l.id) c.locations)
roots c (k ∷ ks) = key_roots (k ∷ ks) c.keys

-- The worklist: `selected` is the set, `pending` a stack with its top first; `none` where the fuel
-- runs out.
unfoldable pub select_loop : ℕ → List Location → List ℕ → List ℕ → Option (Result (List ℕ))
select_loop zero locs pending selected = none
select_loop (suc fuel) locs [] selected = some (ok selected)
select_loop (suc fuel) locs (id ∷ pending) selected = elim (elem id selected) [
  | true ↦ select_loop fuel locs pending selected
  | false ↦ elim (find_location id locs) [
    | none ↦ some (err catalog)
    | some l ↦ select_loop fuel locs (reverse l.dependencies ++ pending) (id ∷ selected)
  ]
]

-- One round for each root and each dependency, and one to end.
unfoldable pub link_count : List Location → ℕ
link_count [] = 0
link_count (l ∷ ls) = length l.dependencies + link_count ls

unfoldable pub select_fuel : List Location → List ℕ → ℕ
unfolding link_count
select_fuel locs pending = length pending + link_count locs + 1

abbrev pub selected_catalog : Catalog → Option (Result (List ℕ)) → Result Catalog
selected_catalog c none = err catalog
selected_catalog c (some (err e)) = err e
selected_catalog c (some (ok ids)) =
    ok (record { locations = filter (λ (l : Location). elem l.id ids) c.locations; keys = [] })

module _ (r : Regexes) where
  open r use {Pattern, build, is_match}

  unfoldable pub build_all : List Text → Result (List Pattern)
  build_all [] = ok []
  build_all (v ∷ vs) = elim (build v) [
    | none ↦ err config
    | some p ↦ elim (build_all vs) [ err e ↦ err e | ok ps ↦ ok (p ∷ ps) ]
  ]

  unfoldable pub patterns : List Text → Result (List Pattern)
  unfolding build_all
  patterns values =
      if ltb 128 (length values) || any (λ v. ltb 2048 (length v)) values
      then err config
      else build_all values

  unfoldable pub validate : Selection → Result (Unit {0})
  unfolding bad_key
  validate s = if ltb 256 (length s.keys) || any bad_key s.keys then err config else do
    include ← patterns s.include
    exclude ← patterns s.exclude
    priority ← patterns s.priority
    ok tt

  unfoldable pub matches : Location → Pattern → Bool
  matches l p = is_match p l.primary_key || is_match p l.internal_id

  unfoldable pub is_empty : List Pattern → Bool
  is_empty [] = true
  is_empty (p ∷ ps) = false

  unfoldable pub wanted : List Pattern → List Pattern → Location → Bool
  wanted include exclude l =
      (is_empty include || any (matches l) include) && not (any (matches l) exclude)

  -- The roots that pass the patterns, in order.
  unfoldable pub wanted_roots :
      List Location → List Pattern → List Pattern → List ℕ → Result (List ℕ)
  wanted_roots locs include exclude [] = ok []
  wanted_roots locs include exclude (id ∷ ids) = elim (find_location id locs) [
    | none ↦ err catalog
    | some l ↦ elim (wanted_roots locs include exclude ids) [
      | err e ↦ err e
      | ok more ↦ if wanted include exclude l then ok (id ∷ more) else ok more
    ]
  ]

  -- The search from a nonempty stack.
  unfoldable pub select_from : Catalog → List ℕ → Result Catalog
  select_from c [] = err selection
  select_from c (id ∷ ids) =
      selected_catalog c
        (select_loop (select_fuel c.locations (id ∷ ids)) c.locations (reverse (id ∷ ids)) [])

  unfoldable pub select : Catalog → Selection → Result Catalog
  select c s = do
    u ← validate s
    all ← roots c s.keys
    include ← patterns s.include
    exclude ← patterns s.exclude
    pending ← wanted_roots c.locations include exclude all
    select_from c pending

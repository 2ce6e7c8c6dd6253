-- ===== src/ExportCache/Room.antt =====
-- src/export_cache.rs: `Cache::make_room`.
use sirius_asset_updater.Base.{
  ℕ, zero, suc, ◌+◌, ◌-◌, Text, text_eq, text_leb, Bool, true, not, ◌&&◌, ◌||◌, Option, none, some,
  List, [], ◌∷◌, ltb, leb, ◌==◌, length, filter, if◌then◌else◌,
}
use sirius_asset_updater.Base.Maps.{insert}
use sirius_asset_updater.Fault.{Error, Result, ok, err, size, cancelled}
use sirius_asset_updater.ExportCache.Types.{
  Item, Budget, Directory, Cache, checked_add, checked_sub, find_item, remove_item,
}

-- What a removal from the disk gives: done, or an error and what it left.
pub data Removal : Type 0 where
  removed : Removal
  left : Error → Directory → Removal

-- What the loop reads from outside, in each round: the flag of cancellation, and a removal.
pub record Outside : Type 0 where
  pub stop : ℕ → Bool
  pub removal : ℕ → Removal

abbrev pub find_old : Option Text → List Item → Option Item
find_old none entries = none
find_old (some id) entries = find_item id entries

abbrev pub bytes_of : Option Item → ℕ
bytes_of none = 0
bytes_of (some i) = i.bytes

abbrev pub count_of : Option Item → ℕ
count_of none = 0
count_of (some i) = 1

abbrev pub within : Option ℕ → ℕ → Bool
within none n = true
within (some limit) n = leb n limit

-- The bytes that the cache would hold, where they are a `u64`.
abbrev pub add_to : ℕ → Option ℕ → Option ℕ
add_to bytes none = none
add_to bytes (some n) = checked_add n bytes

abbrev pub desired_bytes : Budget → Option Item → ℕ → Option ℕ
desired_bytes b old bytes = add_to bytes (checked_sub b.bytes (bytes_of old))

abbrev pub desired_count : Budget → Option Item → ℕ → ℕ
desired_count b old count = length b.entries - count_of old + count

-- `min_by_key(|(id, (_, time))| (*time, *id))`.
abbrev pub no_later : Item → Item → Bool
no_later i j = ltb i.accessed j.accessed || i.accessed == j.accessed && text_leb i.id j.id

abbrev pub earlier : Item → Option Item → Item
earlier i none = i
earlier i (some j) = if no_later i j then i else j

unfoldable pub oldest : List Item → Option Item
oldest [] = none
oldest (i ∷ is) = some (earlier i (oldest is))

abbrev pub is_other : Option Text → Item → Bool
is_other none i = true
is_other (some id) i = not (text_eq i.id id)

unfoldable pub victim : Option Text → List Item → Option Item
unfolding oldest
victim replacing entries = oldest (filter (is_other replacing) entries)

-- The cache without an item's place on the disk and in the budget.
abbrev pub remove_dir : Text → List (Text × Directory) → List (Text × Directory)
remove_dir id = filter (λ d. not (text_eq d.0 id))

abbrev pub budget_without : Item → Budget → Budget
budget_without i b = record { entries = remove_item i.id b.entries; bytes = b.bytes - i.bytes }

abbrev pub evicted : Item → Cache → Cache
evicted i c = record c { budget = budget_without i c.budget; disk = remove_dir i.id c.disk }

-- A round that does not find enough room: it evicts the victim, or ends.
pub data Round : Type 0 where
  ended : Result (Unit {0}) → Cache → Round
  again : Cache → Round

abbrev pub evict : Item → Removal → Cache → Round
evict i removed c = again (evicted i c)
evict i (left e d) c = ended (err e) (record c { disk = insert text_eq i.id d c.disk })

abbrev pub evict_one : Removal → Option Item → Cache → Round
evict_one r none c = ended (err size) c
evict_one r (some i) c = evict i r c

abbrev pub decide : Bool → Removal → Option Text → ℕ → ℕ → Cache → Option ℕ → Round
decide stop r replacing bytes count c none = ended (err size) c
decide stop r replacing bytes count c (some desired) =
    if within c.max_bytes desired
      && within c.max_entries (desired_count c.budget (find_old replacing c.budget.entries) count)
    then ended (ok tt) c
    else if stop
    then ended (err cancelled) c
    else evict_one r (victim replacing c.budget.entries) c

unfoldable pub room_round : Outside → ℕ → Option Text → ℕ → ℕ → Cache → Round
unfolding victim find_item
room_round out n replacing bytes count c =
    decide (out.stop n) (out.removal n) replacing bytes count c
      (desired_bytes c.budget (find_old replacing c.budget.entries) bytes)

abbrev pub finish_round :
    Round → (Cache → Option (Result (Unit {0}) × Cache)) → Option (Result (Unit {0}) × Cache)
finish_round (ended r c) next = some (r, c)
finish_round (again c) next = next c

unfoldable pub room_loop :
    Outside → ℕ → ℕ → Option Text → ℕ → ℕ → Cache → Option (Result (Unit {0}) × Cache)
unfolding room_round
room_loop out zero n replacing bytes count c = none
room_loop out (suc fuel) n replacing bytes count c =
    finish_round (room_round out n replacing bytes count c)
      (λ d. room_loop out fuel (suc n) replacing bytes count d)

-- A round for each entry, and one that finds none.
unfoldable pub make_room :
    Outside → Option Text → ℕ → ℕ → Cache → Option (Result (Unit {0}) × Cache)
unfolding room_loop
make_room out replacing bytes count c =
    room_loop out (suc (length c.budget.entries)) 0 replacing bytes count c

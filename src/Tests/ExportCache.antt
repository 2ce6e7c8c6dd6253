-- ===== src/Tests/ExportCache.antt =====
-- src/export_cache.rs: the theorems on a cache of two entries and a report of two pictures.
use sirius_asset_updater.Base.{
  ℕ, Text, utf8, text_eq, true, false, Option, none, some, List, [], ◌∷◌, ◌≡◌, refl, length, all,
  ◌⊎◌,
}
use sirius_asset_updater.Base.Strings.{split, is_digit, is_lower_hex, to_lower}
use sirius_asset_updater.Base.Maps.{lookup, insert}
use sirius_asset_updater.Fault.{Error, ok, cancelled}
use sirius_asset_updater.Layout.Types.{OutputRecord, ResourceReport}
use sirius_asset_updater.ExportCache.Types.{
  Item, Files, Cache, Library, find_item, insert_item, safe_path, digest,
}
use sirius_asset_updater.ExportCache.Room.{
  removed, Outside, is_other, oldest, victim, room_round, room_loop, make_room,
}
use sirius_asset_updater.ExportCache.Copy.{copy_output, copy_loop, copy_outputs}
use sirius_asset_updater.ExportCache.Copies.{calm}
use sirius_asset_updater.ExportCache.Store.{
  StoreOutside, swapped, size_of, entry_of, above, store, reused, restore,
}
use sirius_asset_updater.ExportCache.Open.{ProcessOutside, ScanOutside}
use sirius_asset_updater.ExportCache.Oldest.{IsAccounted}
use sirius_asset_updater.ExportCache.Evictions.{Ends, make_room-Ends}
use sirius_asset_updater.ExportCache.Recency.{no_later_all, Evicts-no_later}
use sirius_asset_updater.ExportCache.Accounts.{IsCache}
use sirius_asset_updater.ExportCache.History.{Work, process_all, process_all-IsCache}
use sirius_asset_updater.ExportCache.Pruned.{Pruned}
use sirius_asset_updater.ExportCache.Reuse.{quiet, restore-store}

abbrev zeros : Text
zeros = utf8 "0000000000000000000000000000000000000000000000000000000000000000"

abbrev output : Text → ℕ → OutputRecord
output path bytes = record {
  path = path;
  kind = utf8 "image_png";
  bytes = bytes;
  sha256 = zeros;
  object = none;
}

abbrev pictures : ResourceReport
pictures = record {
  cache_hit = false;
  source = utf8 "bundle";
  output_directory = utf8 "00004";
  source_sha256 = [];
  objects = 2;
  selected_objects = 2;
  skipped_objects = 0;
  outputs = output (utf8 "a.png") 3 ∷ output (utf8 "b/c.png") 2 ∷ [];
  errors = [];
}

-- JSON of one entry, and a digest that every file has.
abbrev lib : Library
lib = record {
  to_vec = λ e. 7 ∷ [];
  from_slice = λ s.
      some (record { schema = 1; identity = utf8 "new"; report_sha256 = zeros; report = pictures });
  fingerprint = λ r. zeros;
  sha256_hex = λ s. zeros;
}

abbrev files : Files
files = (utf8 "a.png", 1 ∷ 2 ∷ 3 ∷ []) ∷ (utf8 "b/c.png", 4 ∷ 5 ∷ []) ∷ []

abbrev item : Text → ℕ → ℕ → Item
item id bytes accessed = record { id = id; bytes = bytes; accessed = accessed }

-- Two entries fill it.
abbrev full : Cache
full = record {
  limit = 100;
  max_bytes = some 20;
  max_entries = some 2;
  budget = record { entries = item (utf8 "x") 6 5 ∷ item (utf8 "y") 6 3 ∷ []; bytes = 12 };
  disk = [];
}

abbrev no_trouble : Outside
no_trouble = record { stop = λ n. false; removal = λ n. removed }

abbrev storing : StoreOutside
storing = record { room = no_trouble; copy = calm; staged = none; swap = swapped; now = 9 }

full-IsAccounted : IsAccounted full.budget
unfolding utf8 text_eq
full-IsAccounted = record { sum = refl; unique = refl }

full-IsCache : IsCache full
full-IsCache = record { accounted = full-IsAccounted; few_bytes = refl; few_entries = refl }

make_room-Ends_example :
    Ends no_trouble
      (some (utf8 "new"))
      6
      1
      0
      full
      (make_room no_trouble (some (utf8 "new")) 6 1 full)
make_room-Ends_example = make_room-Ends no_trouble (some (utf8 "new")) 6 1 full full-IsAccounted

abbrev room :
    Ends no_trouble
      (some (utf8 "new"))
      6
      1
      0
      full
      (make_room no_trouble (some (utf8 "new")) 6 1 full)
room = make_room-Ends no_trouble (some (utf8 "new")) 6 1 full full-IsAccounted

Evicts-no_later_example :
    (all (no_later_all (some (utf8 "new")) room.cache.budget.entries) room.gone ≡ true)
    × (all (is_other (some (utf8 "new"))) room.gone ≡ true)
Evicts-no_later_example =
    Evicts-no_later (some (utf8 "new")) room.gone full.budget room.cache.budget room.evicts

abbrev processing : Option Error → ProcessOutside
processing stop = record {
  first = stop;
  restore_out = quiet 10;
  decode = ok (pictures, some files);
  second = none;
  store_out = storing;
}

abbrev works : List Work
works =
    record { out = processing none; id = utf8 "new"; index = 4 }
    ∷ record { out = processing (some cancelled); id = utf8 "y"; index = 5 }
    ∷ []

process_all-IsCache_example : (d : Cache) × (process_all lib works full ≡ some d) × IsCache d
process_all-IsCache_example = process_all-IsCache lib works full full-IsCache

abbrev on_disk : Cache
on_disk = record full {
  disk =
      (utf8 ".pending-export-1", record { metadata = none; modified = 1; files = none })
      ∷ (zeros, record { metadata = some (7 ∷ []); modified = 2; files = some files })
      ∷ [];
}

abbrev scanning : ScanOutside
scanning = record { poll = λ n. none; removal = λ n. removed; room = no_trouble }

-- The oldest entry made room.
abbrev behind : Cache
behind = record full {
  budget = record { entries = item (utf8 "x") 6 5 ∷ item (utf8 "new") 6 9 ∷ []; bytes = 12 };
  disk = (utf8 "new", record { metadata = some (7 ∷ []); modified = 9; files = some files }) ∷ [];
}

store-behind : store lib storing (utf8 "new") (some files) pictures full ≡ some (ok tt, behind)
unfolding utf8 text_eq split is_digit is_lower_hex to_lower lookup insert find_item insert_item
    safe_path digest oldest victim room_round room_loop make_room copy_output copy_loop copy_outputs
    size_of store
store-behind = refl

restore-store_example :
    ((n : ℕ) × (size_of (length (lib.to_vec (entry_of lib (utf8 "new") pictures))) pictures.outputs
        ≡ some n)
      × (above n full.max_bytes ≡ true)
      × (behind ≡ full))
    ⊎ ((copies : Files) × (copy_outputs lib behind.limit storing.copy (some files) pictures
          ≡ ok (some copies))
        × ((restore lib (quiet 10) (utf8 "new") 4 behind).0
            ≡ ok (
                some (record {
                  report = reused lib (quiet 10) (utf8 "new") 4 behind pictures;
                  files = copies;
                }))))
restore-store_example =
    restore-store lib storing (utf8 "new") (some files) pictures full behind 10 4 refl refl
      store-behind

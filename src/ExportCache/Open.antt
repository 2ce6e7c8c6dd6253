-- ===== src/ExportCache/Open.antt =====
-- src/export_cache.rs: `Cache::scan_and_prune`, `tree_size` and `Cache::process`.
use sirius_asset_updater.Base.{
  ℕ, suc, ◌+◌, Text, utf8, Option, none, some, List, [], ◌∷◌, ◌==◌, length, if◌then◌else◌,
}
use sirius_asset_updater.Base.Strings.{starts_with}
use sirius_asset_updater.Fault.{Error, Result, ok, err, size}
use sirius_asset_updater.Layout.Types.{ResourceReport}
use sirius_asset_updater.ExportCache.Types.{
  Files, Directory, Cache, Library, checked_add, insert_item, digest,
}
use sirius_asset_updater.ExportCache.Room.{Removal, removed, left, Outside, remove_dir, make_room}
use sirius_asset_updater.ExportCache.Store.{
  Run, StoreOutside, RestoreOutside, Restored, store, restore,
}

abbrev pub length_of : Option Text → ℕ
length_of none = 0
length_of (some s) = length s

abbrev pub files_size : Files → ℕ
files_size [] = 0
files_size ((path, content) ∷ files) = length content + files_size files

abbrev pub files_of : Option Files → Files
files_of none = []
files_of (some files) = files

-- `tree_size`: the sum in any order, where it is a `u64`.
abbrev pub tree_size : Directory → Option ℕ
tree_size d = checked_add (length_of d.metadata) (files_size (files_of d.files))

-- The time of `entry.json`, or the epoch.
abbrev accessed_of : Directory → ℕ
accessed_of d = elim d.metadata [ none ↦ 0 | some m ↦ d.modified ]

-- What the scan reads from outside: a cancellation or an error at an entry, and removals.
pub record ScanOutside : Type 0 where
  pub poll : ℕ → Option Error
  pub removal : ℕ → Removal
  pub room : Outside

abbrev pub add_item : Text → Directory → ℕ → Cache → Option ℕ → Result Cache
add_item name d bytes c none = err size
add_item name d bytes c (some sum) = ok (record c {
  budget = record {
    entries =
        insert_item (record { id = name; bytes = bytes; accessed = accessed_of d })
          c.budget.entries;
    bytes = sum;
  };
})

abbrev pub add_sized : Text → Directory → Cache → Option ℕ → Result Cache
add_sized name d c none = err size
add_sized name d c (some bytes) = add_item name d bytes c (checked_add c.budget.bytes bytes)

abbrev pub remove_pending : Text → Cache → Removal → Result Cache
remove_pending name c removed = ok (record c { disk = remove_dir name c.disk })
remove_pending name c (left e d) = err e

abbrev pub scan_entry : Removal → Text → Directory → Cache → Option Error → Result Cache
scan_entry r name d c (some e) = err e
scan_entry r name d c none =
    if starts_with name (utf8 ".pending-export-")
    then remove_pending name c r
    else if digest name
    then add_sized name d c (tree_size d)
    else ok c

unfoldable pub scan_loop : ScanOutside → ℕ → List (Text × Directory) → Cache → Result Cache
unfolding insert_item starts_with digest
scan_loop out n [] c = ok c
scan_loop out n ((name, d) ∷ ds) c = elim (scan_entry (out.removal n) name d c (out.poll n)) [
  | err e ↦ err e
  | ok next ↦ scan_loop out (suc n) ds next
]

abbrev pub empty_budget : Cache → Cache
empty_budget c = record c { budget = record { entries = []; bytes = 0 } }

abbrev pub pruned : ScanOutside → Cache → Result Cache → Run
pruned out c (err e) = some (err e, c)
pruned out c (ok scanned) = make_room out.room none 0 0 scanned

-- The entries of the directory, `none` where they cannot be read.
unfoldable pub scan_and_prune : ScanOutside → Cache → Run
unfolding scan_loop make_room
scan_and_prune out c = pruned out c (scan_loop out 0 c.disk (empty_budget c))

-- What `process` reads from outside: cancellations before it looks and before it stores, and the
-- decoder's report with the files of its outputs.
pub record ProcessOutside : Type 0 where
  pub first : Option Error
  pub restore_out : RestoreOutside
  pub decode : Result (ResourceReport × Option Files)
  pub second : Option Error
  pub store_out : StoreOutside

abbrev pub Processed : Type 0
Processed = Option (Result ResourceReport × Cache)

abbrev pub stored_run : ResourceReport → Run → Processed
stored_run report none = none
stored_run report (some (err e, c)) = some (err e, c)
stored_run report (some (ok u, c)) = some (ok report, c)

module _ (lib : Library) (out : ProcessOutside) (id : Text) where
  abbrev pub keep_report : ResourceReport → Option Files → Cache → Option Error → Processed
  keep_report report files c (some e) = some (err e, c)
  keep_report report files c none = stored_run report (store lib out.store_out id files report c)

  abbrev pub decoded : Cache → Result (ResourceReport × Option Files) → Processed
  decoded c (err e) = some (err e, c)
  decoded c (ok (report, files)) =
      if length report.errors == 0
      then keep_report report files c out.second
      else some (ok report, c)

  abbrev pub restored_or : Result (Option Restored) × Cache → Processed
  restored_or (err e, c) = some (err e, c)
  restored_or (ok (some r), c) = some (ok r.report, c)
  restored_or (ok none, c) = decoded c out.decode

  abbrev pub process_from : ℕ → Cache → Option Error → Processed
  process_from index c (some e) = some (err e, c)
  process_from index c none = restored_or (restore lib out.restore_out id index c)

unfoldable pub process : Library → ProcessOutside → Text → ℕ → Cache → Processed
unfolding store restore
process lib out id index c = process_from lib out id index c out.first

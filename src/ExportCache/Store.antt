-- ===== src/ExportCache/Store.antt =====
-- src/export_cache.rs: `Cache::store`, `restore`, `process` and `scan_and_prune`.
use sirius_asset_updater.Base.{
  ℕ, zero, suc, ◌-◌, Text, text_eq, Bool, true, false, not, ◌||◌, Option, none, some, List, [], ◌∷◌,
  ltb, ◌==◌, length, map, if◌then◌else◌,
}
use sirius_asset_updater.Base.Maps.{lookup, insert}
use sirius_asset_updater.Fault.{Error, Result, ok, err, size, verification}
use sirius_asset_updater.Layout.Chars.{decimal}
use sirius_asset_updater.Layout.Types.{OutputRecord, ResourceReport}
use sirius_asset_updater.ExportCache.Types.{
  Item, Budget, Files, Directory, Cache, Entry, Library, max_report, has_id, find_item, insert_item,
  checked_add,
}
use sirius_asset_updater.ExportCache.Room.{Outside, bytes_of, remove_dir, make_room}
use sirius_asset_updater.ExportCache.Copy.{CopyOutside, copy_outputs}

-- How the finished directory takes the place of an old one: it does, or an error leaves the old one, or
-- neither.
pub data Swap : Type 0 where
  swapped : Swap
  old_kept old_lost : Error → Swap

-- What `store` reads from outside: `staged` is an error while the entry is written, or a cancellation.
pub record StoreOutside : Type 0 where
  pub room : Outside
  pub copy : CopyOutside
  pub staged : Option Error
  pub swap : Swap
  pub now : ℕ

-- `None` where the loop of `make_room` has not ended, and else the result and the cache.
abbrev pub Run : Type 0
Run = Option (Result (Unit {0}) × Cache)

unfoldable pub size_of : ℕ → List OutputRecord → Option ℕ
size_of n [] = some n
size_of n (o ∷ os) = elim (checked_add n o.bytes) [ none ↦ none | some m ↦ size_of m os ]

abbrev pub entry_of : Library → Text → ResourceReport → Entry
entry_of lib id report = record {
  schema = 1;
  identity = id;
  report_sha256 = lib.fingerprint report;
  report = report;
}

abbrev pub above : ℕ → Option ℕ → Bool
above n none = false
above n (some limit) = ltb limit n

abbrev pub added : ℕ → Budget → List Item → ℕ → Option ℕ → Result (Unit {0}) × Budget
added old b entries size' none = (err size, record { entries = entries; bytes = b.bytes - old })
added old b entries size' (some n) = (ok tt, record { entries = entries; bytes = n })

-- The budget with the new entry in place of an old one.
abbrev pub insert_budget : Text → ℕ → ℕ → Budget → Result (Unit {0}) × Budget
insert_budget id size' now b =
    let old : ℕ = bytes_of (find_item id b.entries) in
    added old b (insert_item (record { id = id; bytes = size'; accessed = now }) b.entries) size'
      (checked_add (b.bytes - old) size')

abbrev pub with_budget : Cache → Result (Unit {0}) × Budget → Result (Unit {0}) × Cache
with_budget c (r, b) = (r, record c { budget = b })

module _ (lib : Library) (out : StoreOutside) (id : Text) (size' : ℕ) (metadata : Text) where
  abbrev pub swap_in : Files → Swap → Cache → Result (Unit {0}) × Cache
  swap_in files swapped c =
      with_budget
        (record c {
          disk =
              insert text_eq id
                (record { metadata = some metadata; modified = out.now; files = some files })
                c.disk;
        })
        (insert_budget id size' out.now c.budget)
  swap_in files (old_kept e) c = (err e, c)
  swap_in files (old_lost e) c = (err e, record c { disk = remove_dir id c.disk })

  abbrev pub staged_in : Files → Option Error → Cache → Result (Unit {0}) × Cache
  staged_in files (some e) c = (err e, c)
  staged_in files none c = swap_in files out.swap c

  abbrev pub copied_in : Result (Option Files) → Cache → Result (Unit {0}) × Cache
  copied_in (err e) c = (err e, c)
  copied_in (ok none) c = (err verification, c)
  copied_in (ok (some files)) c = staged_in files out.staged c

  abbrev pub room_made : Option Files → ResourceReport → Run → Run
  room_made source report none = none
  room_made source report (some (err e, c)) = some (err e, c)
  room_made source report (some (ok u, c)) =
      some (copied_in (copy_outputs lib c.limit out.copy source report) c)

abbrev pub sized :
    Library → StoreOutside → Text → Option Files → ResourceReport → Text → Cache → Option ℕ → Run
sized lib out id source report metadata c none = some (err size, c)
sized lib out id source report metadata c (some n) =
    if above n c.max_bytes
    then some (ok tt, c)
    else room_made lib out id n metadata source report (make_room out.room (some id) n 1 c)

unfoldable pub store : Library → StoreOutside → Text → Option Files → ResourceReport → Cache → Run
unfolding size_of make_room copy_outputs insert_item find_item insert
store lib out id source report c =
    let metadata : Text = lib.to_vec (entry_of lib id report) in
    if ltb max_report (length metadata)
    then some (err size, c)
    else sized lib out id source report metadata c (size_of (length metadata) report.outputs)

-- What `restore` reads from outside: `moved` is an error before the copies stand in their directory, and
-- `touched` one after it.
pub record RestoreOutside : Type 0 where
  pub copy : CopyOutside
  pub moved : Option Error
  pub touched : Option Error
  pub now : ℕ

-- A report with the copies of its outputs.
pub record Restored : Type 0 where
  pub report : ResourceReport
  pub files : Files

-- `format!("{index:05}")`.
abbrev pub pad : ℕ → Text → Text
pad zero s = s
pad (suc n) s = if ltb (length s) (suc n) then b'0' ∷ pad n s else s

abbrev pub touch_item : Text → ℕ → Item → Item
touch_item id now i = if has_id id i then record i { accessed = now } else i

abbrev pub touch : Text → ℕ → Directory → Cache → Cache
touch id now d c = record c {
  budget = record c.budget { entries = map (touch_item id now) c.budget.entries };
  disk = insert text_eq id (record d { modified = now }) c.disk;
}

module _ (lib : Library) (out : RestoreOutside) (id : Text) (index : ℕ) (c : Cache) where
  abbrev pub reused : ResourceReport → ResourceReport
  reused report = record report { output_directory = pad 5 (decimal index); cache_hit = true }

  abbrev pub touched_with :
      Directory → ResourceReport → Files → Option Error → Result (Option Restored) × Cache
  touched_with d report files (some e) = (err e, c)
  touched_with d report files none =
      (ok (some (record { report = reused report; files = files })), touch id out.now d c)

  abbrev pub moved_to :
      Directory → ResourceReport → Files → Option Error → Result (Option Restored) × Cache
  moved_to d report files (some e) = (err e, c)
  moved_to d report files none = touched_with d report files out.touched

  abbrev pub copied_out :
      Directory → ResourceReport → Result (Option Files) → Result (Option Restored) × Cache
  copied_out d report (err e) = (err e, c)
  copied_out d report (ok none) = (ok none, c)
  copied_out d report (ok (some files)) = moved_to d report files out.moved

  abbrev pub parsed : Directory → Option Entry → Result (Option Restored) × Cache
  parsed d none = (ok none, c)
  parsed d (some e) =
      if not (e.schema == 1)
        || not (text_eq e.identity id)
        || not (length e.report.errors == 0)
        || not (text_eq e.report_sha256 (lib.fingerprint e.report))
      then (ok none, c)
      else copied_out d e.report (copy_outputs lib c.limit out.copy d.files e.report)

  abbrev pub found : Directory → Option Text → Result (Option Restored) × Cache
  found d none = (ok none, c)
  found d (some metadata) =
      if ltb max_report (length metadata) then (ok none, c) else parsed d (lib.from_slice metadata)

  abbrev pub looked_up : Option Directory → Result (Option Restored) × Cache
  looked_up none = (ok none, c)
  looked_up (some d) = found d d.metadata

unfoldable pub restore :
    Library → RestoreOutside → Text → ℕ → Cache → Result (Option Restored) × Cache
unfolding copy_outputs lookup insert
restore lib out id index c = looked_up lib out id index c (lookup text_eq id c.disk)

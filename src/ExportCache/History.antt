-- ===== src/ExportCache/History.antt =====
-- src/export_cache.rs: an opened cache over the resources of an export.
use sirius_asset_updater.Base.{
  ℕ, Text, Option, none, some, List, [], ◌∷◌, ◌≡◌, refl, length, ◌==◌, Bool-cases, inl, inr,
}
use sirius_asset_updater.Fault.{Error, Result, ok, err, Result-cases}
use sirius_asset_updater.Layout.Types.{ResourceReport}
use sirius_asset_updater.ExportCache.Types.{Files, Cache, Library}
use sirius_asset_updater.ExportCache.Store.{Run, Restored, restore, store}
use sirius_asset_updater.ExportCache.Open.{
  ProcessOutside, Processed, stored_run, keep_report, decoded, restored_or, process_from, process,
}
use sirius_asset_updater.ExportCache.Accounts.{IsCache}
use sirius_asset_updater.ExportCache.Invariant.{Keeps, store-Keeps, restore-IsCache}

-- A resource that was processed, with a cache within its limits.
pub record IsProcessed (run : Processed) : Type 0 where
  pub result : Result ResourceReport
  pub cache : Cache
  pub ends : run ≡ some (result, cache)
  pub held : IsCache cache

IsProcessed-some : (r : Result ResourceReport) (c : Cache) → IsCache c → IsProcessed (some (r, c))
IsProcessed-some r c h = record { result = r; cache = c; ends = refl; held = h }

stored_run-IsProcessed :
    (report : ResourceReport) (run : Run) → Keeps run → IsProcessed (stored_run report run)
stored_run-IsProcessed report run k = elim (Result-cases k.result) [
  | inl (x, q) ↦ rw (k.ends, q) (IsProcessed-some (err x) k.cache k.held)
  | inr (u, q) ↦ rw (k.ends, q) (IsProcessed-some (ok report) k.cache k.held)
]

module _ (lib : Library) (out : ProcessOutside) (id : Text) where
  keep_report-IsProcessed :
      (report : ResourceReport) (files : Option Files) (c : Cache) (e : Option Error)
      → IsCache c
      → IsProcessed (keep_report lib out id report files c e)
  keep_report-IsProcessed report files c (some e) h = IsProcessed-some (err e) c h
  keep_report-IsProcessed report files c none h =
      stored_run-IsProcessed report (store lib out.store_out id files report c)
        (store-Keeps lib out.store_out id files report c h)

  decoded-IsProcessed :
      (c : Cache) (r : Result (ResourceReport × Option Files))
      → IsCache c
      → IsProcessed (decoded lib out id c r)
  decoded-IsProcessed c (err e) h = IsProcessed-some (err e) c h
  decoded-IsProcessed c (ok (report, files)) h = elim (Bool-cases (length report.errors == 0)) [
    | inl good ↦ rw good (keep_report-IsProcessed report files c out.second h)
    | inr bad ↦ rw bad (IsProcessed-some (ok report) c h)
  ]

  restored_or-IsProcessed :
      (r : Result (Option Restored)) (c : Cache)
      → IsCache c
      → IsProcessed (restored_or lib out id (r, c))
  restored_or-IsProcessed (err e) c h = IsProcessed-some (err e) c h
  restored_or-IsProcessed (ok (some r)) c h = IsProcessed-some (ok r.report) c h
  restored_or-IsProcessed (ok none) c h = decoded-IsProcessed c out.decode h

  process_from-IsProcessed :
      (index : ℕ) (c : Cache) (e : Option Error)
      → IsCache c
      → IsProcessed (process_from lib out id index c e)
  process_from-IsProcessed index c (some e) h = IsProcessed-some (err e) c h
  process_from-IsProcessed index c none h =
      restored_or-IsProcessed (restore lib out.restore_out id index c).0
        (restore lib out.restore_out id index c).1
        (restore-IsCache lib out.restore_out id index c h)

  process-IsProcessed :
      (index : ℕ) (c : Cache) → IsCache c → IsProcessed (process lib out id index c)
  unfolding process
  process-IsProcessed index c h = process_from-IsProcessed index c out.first h

-- A resource of an export: what is read from outside, its id and its number.
pub record Work : Type 0 where
  pub out : ProcessOutside
  pub id : Text
  pub index : ℕ

abbrev pub after : Processed → (Cache → Option Cache) → Option Cache
after none next = none
after (some (r, c)) next = next c

-- The cache behind the resources, in the order in which they hold the lock.
unfoldable pub process_all : Library → List Work → Cache → Option Cache
unfolding process
process_all lib [] c = some c
process_all lib (w ∷ ws) c = after (process lib w.out w.id w.index c) (λ d. process_all lib ws d)

-- Over any resources, failures and cancellations included, a cache ends each of them, and its bytes stay
-- the sum of its entries, with distinct ids, and within both limits, if they were.
pub process_all-IsCache :
    (lib : Library) (ws : List Work) (c : Cache)
    → IsCache c
    → (d : Cache) × (process_all lib ws c ≡ some d) × IsCache d
unfolding process_all
process_all-IsCache lib [] c h = (c, refl, h)
process_all-IsCache lib (w ∷ ws) c h =
    let p = process-IsProcessed lib w.out w.id w.index c h in
    let (d, e, k) = process_all-IsCache lib ws p.cache p.held in (d, rw p.ends e, k)

-- ===== src/ExportCache/Pruned.antt =====
-- src/export_cache.rs: the cache that `scan_and_prune` makes of a directory.
use sirius_asset_updater.Base.{true, none, List, ◌≡◌, filter}
use sirius_asset_updater.ExportCache.Types.{Item, Cache}
use sirius_asset_updater.ExportCache.Evictions.{Evicts, went_on, without}
use sirius_asset_updater.ExportCache.Open.{ScanOutside}
use sirius_asset_updater.ExportCache.Accounts.{IsCache}
use sirius_asset_updater.ExportCache.Tracked.{is_kept, IsTracked}

-- What a scan of the cache `c` that succeeds leaves: the cache that it made of the disk without the rests
-- of writes, but for the entries that it evicted while that was too large.
pub record Pruned (out : ScanOutside) (c d : Cache) : Type 0 where
  pub scanned : Cache
  pub gone : List Item
  pub whole : scanned.disk ≡ filter is_kept c.disk
  pub tracked : IsTracked scanned.budget.entries scanned.disk
  pub evicts : Evicts none gone scanned.budget d.budget
  pub went : went_on out.room none 0 0 0 scanned gone ≡ true
  pub disk : d.disk ≡ without gone (filter is_kept c.disk)
  pub still_tracked : IsTracked d.budget.entries d.disk
  pub held : IsCache d
  pub same_bytes : d.max_bytes ≡ c.max_bytes
  pub same_entries : d.max_entries ≡ c.max_entries

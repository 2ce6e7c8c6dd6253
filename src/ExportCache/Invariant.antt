-- ===== src/ExportCache/Invariant.antt =====
-- src/export_cache.rs: the operations on a cache that is within its limits.
use sirius_asset_updater.Base.{
  ℕ, Text, text_eq, true, not, ◌||◌, Option, none, some, ◌≡◌, refl, sym, ap, subst, ◌∙◌, length,
  ◌+◌, ltb, ◌==◌, Bool-cases, Option-cases, inl, inr,
}
use sirius_asset_updater.Base.Maps.{lookup}
use sirius_asset_updater.Base.Texts.{distinct}
use sirius_asset_updater.Fault.{Error, Result, ok, err, size, Result-cases}
use sirius_asset_updater.Layout.Types.{ResourceReport}
use sirius_asset_updater.ExportCache.Types.{Files, Directory, Cache, Entry, Library, max_report}
use sirius_asset_updater.ExportCache.Room.{Outside, within, make_room}
use sirius_asset_updater.ExportCache.Evictions.{has_room, Outcome, roomy, Ends, make_room-Ends}
use sirius_asset_updater.ExportCache.Copy.{copy_outputs}
use sirius_asset_updater.ExportCache.Store.{
  Run, StoreOutside, Swap, swapped, old_kept, old_lost, size_of, entry_of, above, swap_in,
  staged_in, copied_in, room_made, store, RestoreOutside, touch, touched_with, moved_to, copied_out,
  parsed, found, looked_up, restore,
}
use sirius_asset_updater.ExportCache.Accounts.{
  IsCache, within_mono, Evicts-le, insert_budget-IsCache, touch-IsAccounted,
}

-- A run that ended, within the limits.
pub record Keeps (run : Run) : Type 0 where
  pub result : Result (Unit {0})
  pub cache : Cache
  pub ends : run ≡ some (result, cache)
  pub held : IsCache cache

-- Evictions keep a cache within its limits.
evictions-IsCache :
    (out : Outside) (replacing : Option Text) (bytes count : ℕ) (c : Cache) (run : Run)
    → IsCache c
    → (e : Ends out replacing bytes count 0 c run) → IsCache e.cache
evictions-IsCache out replacing bytes count c run h e =
    let (x, y) = Evicts-le replacing e.gone c.budget e.cache.budget e.evicts in
    record {
      accounted = e.accounted;
      few_bytes =
          subst (λ l. within l e.cache.budget.bytes ≡ true) (sym e.same_bytes)
            (within_mono c.max_bytes e.cache.budget.bytes c.budget.bytes x h.few_bytes);
      few_entries =
          subst (λ l. within l (length e.cache.budget.entries) ≡ true) (sym e.same_entries)
            (within_mono c.max_entries (length e.cache.budget.entries) (length c.budget.entries) y
              h.few_entries);
    }

pub room_of :
    (out : Outside) (replacing : Option Text) (bytes count n : ℕ) (b c : Cache)
    → Outcome out replacing bytes count n b c (ok tt)
    → (has_room replacing bytes count c ≡ true) × (b ≡ c)
room_of out replacing bytes count n b c (roomy h) = (h, refl)

module _ (lib : Library) (out : StoreOutside) (id : Text) (n : ℕ) (metadata : Text) where
  swap_in-IsCache :
      (files : Files) (s : Swap) (c : Cache)
      → IsCache c
      → has_room (some id) n 1 c ≡ true
      → IsCache (swap_in lib out id n metadata files s c).1
  swap_in-IsCache files swapped c h room =
      let (a, k) = insert_budget-IsCache id n out.now c h.accounted room in
      record { accounted = k.accounted; few_bytes = k.few_bytes; few_entries = k.few_entries }
  swap_in-IsCache files (old_kept e) c h room = h
  swap_in-IsCache files (old_lost e) c h room = record {
    accounted = h.accounted;
    few_bytes = h.few_bytes;
    few_entries = h.few_entries;
  }

  staged_in-IsCache :
      (files : Files) (s : Option Error) (c : Cache)
      → IsCache c
      → has_room (some id) n 1 c ≡ true
      → IsCache (staged_in lib out id n metadata files s c).1
  staged_in-IsCache files (some e) c h room = h
  staged_in-IsCache files none c h room = swap_in-IsCache files out.swap c h room

  copied_in-IsCache :
      (r : Result (Option Files)) (c : Cache)
      → IsCache c
      → has_room (some id) n 1 c ≡ true
      → IsCache (copied_in lib out id n metadata r c).1
  copied_in-IsCache (err e) c h room = h
  copied_in-IsCache (ok none) c h room = h
  copied_in-IsCache (ok (some files)) c h room = staged_in-IsCache files out.staged c h room

  room_made-Keeps :
      (source : Option Files) (report : ResourceReport) (c : Cache) (run : Run)
      → IsCache c
      → Ends out.room (some id) n 1 0 c run
      → Keeps (room_made lib out id n metadata source report run)
  room_made-Keeps source report c run h e = elim (Result-cases e.result) [
    | inl (x, q) ↦ record {
      result = err x;
      cache = e.cache;
      ends = rw (e.ends, q) refl;
      held = evictions-IsCache out.room (some id) n 1 c run h e;
    }
    | inr (u, q) ↦
        let copies = copy_outputs lib e.cache.limit out.copy source report in
        record {
          result = (copied_in lib out id n metadata copies e.cache).0;
          cache = (copied_in lib out id n metadata copies e.cache).1;
          ends = rw (e.ends, q) refl;
          held =
              copied_in-IsCache copies e.cache (evictions-IsCache out.room (some id) n 1 c run h e)
                ((room_of out.room (some id) n 1 (0 + length e.gone) e.before e.cache (
                  subst (Outcome out.room (some id) n 1 (0 + length e.gone) e.before e.cache) q
                    e.outcome)).0);
        }
  ]

done_with : (r : Result (Unit {0})) (c : Cache) → IsCache c → Keeps (some (r, c))
done_with r c h = record { result = r; cache = c; ends = refl; held = h }

pub store-Keeps :
    (lib : Library) (out : StoreOutside) (id : Text) (source : Option Files)
    (report : ResourceReport) (c : Cache)
    → IsCache c
    → Keeps (store lib out id source report c)
unfolding store
store-Keeps lib out id source report c h =
    let metadata : Text = lib.to_vec (entry_of lib id report) in
    elim (Bool-cases (ltb max_report (length metadata))) [
      | inl big ↦ rw big (done_with (err size) c h)
      | inr fits ↦ elim (Option-cases (size_of (length metadata) report.outputs)) [
        | inl e ↦ rw (fits, e) (done_with (err size) c h)
        | inr (n, e) ↦ elim (Bool-cases (above n c.max_bytes)) [
          | inl large ↦ rw (fits, e, large) (done_with (ok tt) c h)
          | inr small ↦
              rw (fits, e, small)
                (room_made-Keeps lib out id n metadata source report c
                  (make_room out.room (some id) n 1 c) h
                  (make_room-Ends out.room (some id) n 1 c h.accounted))
        ]
      ]
    ]

touch-IsCache :
    (id : Text) (now : ℕ) (d : Directory) (c : Cache) → IsCache c → IsCache (touch id now d c)
touch-IsCache id now d c h =
    let (a, b, l) = touch-IsAccounted id now c.budget.entries in
    record {
      accounted = record {
        sum = h.accounted.sum ∙ sym a;
        unique = ap distinct b ∙ h.accounted.unique;
      };
      few_bytes = h.few_bytes;
      few_entries = ap (within c.max_entries) l ∙ h.few_entries;
    }

module _ (lib : Library) (out : RestoreOutside) (id : Text) (index : ℕ) (c : Cache)
    (h : IsCache c) where
  touched_with-IsCache :
      (d : Directory) (report : ResourceReport) (files : Files) (e : Option Error)
      → IsCache (touched_with lib out id index c d report files e).1
  touched_with-IsCache d report files (some e) = h
  touched_with-IsCache d report files none = touch-IsCache id out.now d c h

  moved_to-IsCache :
      (d : Directory) (report : ResourceReport) (files : Files) (e : Option Error)
      → IsCache (moved_to lib out id index c d report files e).1
  moved_to-IsCache d report files (some e) = h
  moved_to-IsCache d report files none = touched_with-IsCache d report files out.touched

  copied_out-IsCache :
      (d : Directory) (report : ResourceReport) (r : Result (Option Files))
      → IsCache (copied_out lib out id index c d report r).1
  copied_out-IsCache d report (err e) = h
  copied_out-IsCache d report (ok none) = h
  copied_out-IsCache d report (ok (some files)) = moved_to-IsCache d report files out.moved

  parsed-IsCache : (d : Directory) (e : Option Entry) → IsCache (parsed lib out id index c d e).1
  parsed-IsCache d none = h
  parsed-IsCache d (some e) =
      elim (Bool-cases (
        not (e.schema == 1)
        || not (text_eq e.identity id)
        || not (length e.report.errors == 0)
        || not (text_eq e.report_sha256 (lib.fingerprint e.report)))) [
          | inl bad ↦ rw bad h
          | inr good ↦
              rw good
                (copied_out-IsCache d e.report (copy_outputs lib c.limit out.copy d.files e.report))
        ]

  found-IsCache : (d : Directory) (m : Option Text) → IsCache (found lib out id index c d m).1
  found-IsCache d none = h
  found-IsCache d (some m) = elim (Bool-cases (ltb max_report (length m))) [
    | inl big ↦ rw big h
    | inr fits ↦ rw fits (parsed-IsCache d (lib.from_slice m))
  ]

  looked_up-IsCache : (d : Option Directory) → IsCache (looked_up lib out id index c d).1
  looked_up-IsCache none = h
  looked_up-IsCache (some d) = found-IsCache d d.metadata

  pub restore-IsCache : IsCache (restore lib out id index c).1
  unfolding restore
  restore-IsCache = looked_up-IsCache (lookup text_eq id c.disk)

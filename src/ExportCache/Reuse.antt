-- ===== src/ExportCache/Reuse.antt =====
-- src/export_cache.rs: what was stored is restored.
use mathlib.Core.Option.{some-injective}
use sirius_asset_updater.Base.{
  ℕ, Text, text_eq, text_eq_refl, true, false, Option, none, some, ◌≡◌, refl, sym, ap, ◌∙◌, arith,
  length, ltb, ◌==◌, Bool-cases, Option-cases, ◌⊎◌, inl, inr,
}
use sirius_asset_updater.Base.Maps.{lookup, lookup-insert}
use sirius_asset_updater.Fault.{Error, Result, ok, err}
use sirius_asset_updater.Layout.Types.{ResourceReport}
use sirius_asset_updater.ExportCache.Types.{Files, Directory, Cache, Library, max_report}
use sirius_asset_updater.ExportCache.Room.{make_room}
use sirius_asset_updater.ExportCache.Copy.{copy_outputs, no_copies}
use sirius_asset_updater.ExportCache.Copies.{calm, copy_loop-again}
use sirius_asset_updater.ExportCache.Store.{
  Run, StoreOutside, Swap, swapped, old_kept, old_lost, size_of, entry_of, above, swap_in,
  staged_in, copied_in, room_made, store, RestoreOutside, reused, restore,
}

-- A restoration that nothing outside disturbs.
abbrev pub quiet : ℕ → RestoreOutside
quiet now = record { copy = calm; moved = none; touched = none; now = now }

copy_outputs-again :
    (lib : Library) (limit : ℕ) (out : StoreOutside) (source : Option Files)
    (report : ResourceReport) (files : Files)
    → copy_outputs lib limit out.copy source report ≡ ok (some files)
    → copy_outputs lib limit calm (some files) report ≡ ok (some files)
unfolding copy_outputs
copy_outputs-again lib limit out none report files h = absurd (cc)
copy_outputs-again lib limit out (some source) report files h =
    copy_loop-again lib limit out.copy source report.outputs (no_copies lib limit calm) files
      (λ p. refl) h

-- The directory of a stored entry.
abbrev directory : Text → ℕ → Files → Directory
directory metadata now files = record {
  metadata = some metadata;
  modified = now;
  files = some files;
}

-- What a run that stored an entry left, from the cache `m` with room for it.
record IsStored (lib : Library) (out : StoreOutside) (id metadata : Text) (source : Option Files)
    (report : ResourceReport) (d : Cache) : Type 0 where
  files : Files
  copies : copy_outputs lib d.limit out.copy source report ≡ ok (some files)
  there : lookup text_eq id d.disk ≡ some (directory metadata out.now files)

module _ (lib : Library) (out : StoreOutside) (id : Text) (n : ℕ) (metadata : Text) where
  swap_in-there :
      (files : Files) (s : Swap) (c d : Cache)
      → swap_in lib out id n metadata files s c ≡ (ok tt, d)
      → (d.limit ≡ c.limit) × (lookup text_eq id d.disk ≡ some (directory metadata out.now files))
  swap_in-there files swapped c d h =
      let q = ap (λ p. p.1) h in
      (
        ap (λ z. z.limit) (sym q),
        ap (λ z. lookup text_eq id z.disk) (sym q)
            ∙ lookup-insert text_eq text_eq_refl id (directory metadata out.now files) c.disk,
      )
  swap_in-there files (old_kept e) c d h = absurd (ground arith)
  swap_in-there files (old_lost e) c d h = absurd (ground arith)

  staged_in-there :
      (files : Files) (s : Option Error) (c d : Cache)
      → staged_in lib out id n metadata files s c ≡ (ok tt, d)
      → (d.limit ≡ c.limit) × (lookup text_eq id d.disk ≡ some (directory metadata out.now files))
  staged_in-there files (some e) c d h = absurd (ground arith)
  staged_in-there files none c d h = swap_in-there files out.swap c d h

  copied_in-IsStored :
      (source : Option Files) (report : ResourceReport) (c d : Cache) (r : Result (Option Files))
      → copy_outputs lib c.limit out.copy source report ≡ r
      → copied_in lib out id n metadata r c ≡ (ok tt, d)
      → IsStored lib out id metadata source report d
  copied_in-IsStored source report c d (err e) q h = absurd (ground arith)
  copied_in-IsStored source report c d (ok none) q h = absurd (ground arith)
  copied_in-IsStored source report c d (ok (some files)) q h =
      let (l, t) = staged_in-there files out.staged c d h in
      record {
        files = files;
        copies = ap (λ m. copy_outputs lib m out.copy source report) l ∙ q;
        there = t;
      }

  room_made-IsStored :
      (source : Option Files) (report : ResourceReport) (d : Cache) (run : Run)
      → room_made lib out id n metadata source report run ≡ some (ok tt, d)
      → IsStored lib out id metadata source report d
  room_made-IsStored source report d none h = absurd (cc)
  room_made-IsStored source report d (some (err e, c)) h = absurd (ground arith)
  room_made-IsStored source report d (some (ok u, c)) h =
      copied_in-IsStored source report c d (copy_outputs lib c.limit out.copy source report) refl (
        some-injective
          (copied_in lib out id n metadata (copy_outputs lib c.limit out.copy source report) c)
          (ok tt, d) h)

-- The entry of an id, read back by JSON and the digest of its report.
restored-again :
    (lib : Library) (out : StoreOutside) (id : Text) (source : Option Files)
    (report : ResourceReport) (d : Cache) (now index : ℕ)
    → lib.from_slice (lib.to_vec (entry_of lib id report)) ≡ some (entry_of lib id report)
    → (length report.errors == 0) ≡ true
    → ltb max_report (length (lib.to_vec (entry_of lib id report))) ≡ false
    → (k : IsStored lib out id (lib.to_vec (entry_of lib id report)) source report d)
    → (restore lib (quiet now) id index d).0
      ≡ ok (some (record { report = reused lib (quiet now) id index d report; files = k.files }))
unfolding restore
restored-again lib out id source report d now index json good fits k =
    rw
      (
        k.there,
        fits,
        json,
        text_eq_refl id,
        good,
        text_eq_refl (lib.fingerprint report),
        copy_outputs-again lib d.limit out source report k.files k.copies,
      )
      refl

-- Where JSON reads an entry back, a report without errors that is stored can be restored, under whatever
-- number, with the same outputs, byte for byte; unless the entry is larger than the whole cache,
-- which then stays as it was.
pub restore-store :
    (lib : Library) (out : StoreOutside) (id : Text) (source : Option Files)
    (report : ResourceReport) (c d : Cache) (now index : ℕ)
    → lib.from_slice (lib.to_vec (entry_of lib id report)) ≡ some (entry_of lib id report)
    → (length report.errors == 0) ≡ true
    → store lib out id source report c ≡ some (ok tt, d)
    → ((n : ℕ) × (size_of (length (lib.to_vec (entry_of lib id report))) report.outputs ≡ some n)
        × (above n c.max_bytes ≡ true)
        × (d ≡ c))
      ⊎ ((files : Files) × (copy_outputs lib d.limit out.copy source report ≡ ok (some files))
          × ((restore lib (quiet now) id index d).0
              ≡ ok (
                  some
                    (record { report = reused lib (quiet now) id index d report; files = files }))))
unfolding store
restore-store lib out id source report c d now index json good h =
    let metadata : Text = lib.to_vec (entry_of lib id report) in
    elim (Bool-cases (ltb max_report (length metadata))) [
      | inl big ↦ absurd (ground arith)
      | inr fits ↦ elim (Option-cases (size_of (length metadata) report.outputs)) [
        | inl e ↦ absurd (ground arith)
        | inr (n, e) ↦ elim (Bool-cases (above n c.max_bytes)) [
          | inl large ↦ inl (n, e, large, ground arith)
          | inr small ↦
              let k =
                room_made-IsStored lib out id n metadata source report d
                  (make_room out.room (some id) n 1 c) (rw (fits, e, small) at h) in
              inr (
                k.files,
                k.copies,
                restored-again lib out id source report d now index json good fits k,
              )
        ]
      ]
    ]

-- ===== src/ExportCache/Scan.antt =====
-- src/export_cache.rs: what the scan of a directory makes of its entries.
use sirius_asset_updater.Base.{
  ℕ, suc, Text, text_eq_refl, Bool, true, false, Option, none, some, List, [], ◌∷◌, ◌++◌, ◌≡◌, refl,
  sym, ap, subst, ◌∙◌, arith, all, all-append, filter, Bool-cases, Option-cases, inl, inr,
}
use mathlib.Core.List.{append_assoc, append-nil}
use sirius_asset_updater.Base.Texts.{contains_path, distinct}
use sirius_asset_updater.Fault.{Error, ok, Result-cases, ok-injective}
use sirius_asset_updater.ExportCache.Types.{
  Item, Directory, Cache, insert_item, checked_add, digest,
}
use sirius_asset_updater.ExportCache.Room.{Removal, removed, left, remove_dir, bytes_of}
use sirius_asset_updater.ExportCache.Oldest.{IsAccounted}
use sirius_asset_updater.ExportCache.Open.{
  ScanOutside, tree_size, add_item, add_sized, remove_pending, scan_entry, scan_loop,
}
use sirius_asset_updater.ExportCache.Accounts.{insert-total, distinct-insert, checked_add-sum}
use sirius_asset_updater.ExportCache.Tracked.{names, is_pending, is_kept, tracks, find-insert}
use sirius_asset_updater.ExportCache.Listing.{
  contains-append, distinct-middle, remove_dir-middle, absent-entry, tracks-insert, present-append,
  present-insert,
}

-- The scan of the cache `c`, which has `done` behind it and `ds` before it: the budget has each directory
-- that it has seen with its size, and what it has removed are the rests of writes.
pub record Scanned (c b : Cache) (done ds : List (Text × Directory)) : Type 0 where
  pub disk : b.disk ≡ done ++ ds
  pub unique : distinct (names (done ++ ds)) ≡ true
  pub accounted : IsAccounted b.budget
  pub listed : all (tracks b.budget.entries) done ≡ true
  pub present : all (λ i. contains_path i.id (names done)) b.budget.entries ≡ true
  pub same_bytes : b.max_bytes ≡ c.max_bytes
  pub same_entries : b.max_entries ≡ c.max_entries

module _ (c : Cache) (name : Text) (d : Directory) (done ds : List (Text × Directory)) where
  abbrev Step : Cache → Type 0
  Step next = Scanned c next (done ++ filter is_kept ((name, d) ∷ [])) ds

  -- A directory that stays is behind the scan.
  passed :
      (b : Cache)
      → Scanned c b done ((name, d) ∷ ds)
      → (b.disk ≡ (done ++ (name, d) ∷ []) ++ ds)
        × (distinct (names ((done ++ (name, d) ∷ []) ++ ds)) ≡ true)
  passed b h =
      let q = append_assoc done ((name, d) ∷ []) ds in
      (h.disk ∙ sym q, subst (λ z. distinct (names z) ≡ true) (sym q) h.unique)

  add_item-Scanned :
      (b : Cache) (bytes sum : ℕ)
      → Scanned c b done ((name, d) ∷ ds)
      → is_pending name ≡ false
      → tree_size d ≡ some bytes
      → checked_add b.budget.bytes bytes ≡ some sum
      → (next : Cache) → add_item name d bytes b (some sum) ≡ ok next
      → Step next
  add_item-Scanned b bytes sum h p t q next e =
      let es = b.budget.entries in
      let at = elim d.metadata as (λ m. ℕ) [ none ↦ 0 | some m ↦ d.modified ] in
      let i : Item = record { id = name; bytes = bytes; accessed = at } in
      let (a, l, o) = insert-total i es in
      let (new, _, _) = distinct-middle done (name, d) ds h.unique in
      let none' = absent-entry name (names done) es new h.present in
      let (k, u) = passed b h in
      let here : contains_path name (names (done ++ (name, d) ∷ [])) ≡ true =
        contains-append name done ((name, d) ∷ []) ∙ ground (arith, text_eq_refl name) in
      subst Step (ok-injective e) (
        rw p (record {
          disk = k;
          unique = u;
          accounted = record {
            sum = omega (
              arith,
              a,
              h.accounted.sum,
              checked_add-sum b.budget.bytes bytes sum q,
              ap bytes_of none',
            );
            unique = distinct-insert i es h.accounted.unique;
          };
          listed =
              all-append (tracks (insert_item i es)) done ((name, d) ∷ [])
                (tracks-insert i es done new h.listed) (rw (p, find-insert i es, t) (ground arith));
          present =
              present-insert (names (done ++ (name, d) ∷ [])) i es here
                (present-append done (name, d) es h.present);
          same_bytes = h.same_bytes;
          same_entries = h.same_entries;
        }))

  add_sized-Scanned :
      (b next : Cache) (bytes : Option ℕ)
      → Scanned c b done ((name, d) ∷ ds)
      → is_pending name ≡ false
      → tree_size d ≡ bytes
      → add_sized name d b bytes ≡ ok next
      → Step next
  add_sized-Scanned b next none h p t e = absurd (cc)
  add_sized-Scanned b next (some bytes) h p t e =
      elim (Option-cases (checked_add b.budget.bytes bytes)) [
        | inl q ↦ absurd (ground arith)
        | inr (sum, q) ↦ add_item-Scanned b bytes sum h p t q next (rw q at e)
      ]

  other-Scanned :
      (b : Cache)
      → Scanned c b done ((name, d) ∷ ds)
      → is_pending name ≡ false
      → digest name ≡ false
      → Step b
  other-Scanned b h p n =
      let (k, u) = passed b h in
      rw p (record {
        disk = k;
        unique = u;
        accounted = h.accounted;
        listed =
            all-append (tracks b.budget.entries) done ((name, d) ∷ []) h.listed
              (rw (p, n) (ground arith));
        present = present-append done (name, d) b.budget.entries h.present;
        same_bytes = h.same_bytes;
        same_entries = h.same_entries;
      })

  remove_pending-Scanned :
      (r : Removal) (b next : Cache)
      → Scanned c b done ((name, d) ∷ ds)
      → is_pending name ≡ true
      → remove_pending name b r ≡ ok next
      → Step next
  remove_pending-Scanned removed b next h p q =
      let (x, y, u) = distinct-middle done (name, d) ds h.unique in
      subst Step (ok-injective q) (
        rw (p, append-nil done)
          (record {
            disk =
                ap (remove_dir name) h.disk
                ∙ remove_dir-middle done (name, d) ds (text_eq_refl name) x y;
            unique = u;
            accounted = h.accounted;
            listed = h.listed;
            present = h.present;
            same_bytes = h.same_bytes;
            same_entries = h.same_entries;
          }))
  remove_pending-Scanned (left e x) b next h p q = absurd (cc)

  scan_entry-Scanned :
      (r : Removal) (b next : Cache) (poll : Option Error)
      → Scanned c b done ((name, d) ∷ ds)
      → scan_entry r name d b poll ≡ ok next
      → Step next
  scan_entry-Scanned r b next (some e) h q = absurd (cc)
  scan_entry-Scanned r b next none h q = elim (Bool-cases (is_pending name)) [
    | inl p ↦ remove_pending-Scanned r b next h p (rw p at q)
    | inr p ↦ elim (Bool-cases (digest name)) [
      | inl n ↦ add_sized-Scanned b next (tree_size d) h p refl (rw (p, n) at q)
      | inr n ↦ subst Step (ok-injective (rw (p, n) at q)) (other-Scanned b h p n)
    ]
  ]

filter-append :
    (p : Text × Directory → Bool) (xs ys : List (Text × Directory))
    → filter p (xs ++ ys) ≡ filter p xs ++ filter p ys
filter-append p [] ys = refl
filter-append p (x ∷ xs) ys = ground (arith, filter-append p xs ys)

pub scan_loop-Scanned :
    (out : ScanOutside) (n : ℕ) (done ds : List (Text × Directory)) (c b next : Cache)
    → Scanned c b done ds
    → scan_loop out n ds b ≡ ok next
    → Scanned c next (done ++ filter is_kept ds) []
unfolding scan_loop
scan_loop-Scanned out n done [] c b next h e =
    subst (λ z. Scanned c z (done ++ []) []) (ok-injective e) (rw (append-nil done) h)
scan_loop-Scanned out n done ((name, d) ∷ ds) c b next h e =
    elim (Result-cases (scan_entry (out.removal n) name d b (out.poll n))) [
      | inl (x, q) ↦ absurd (ground arith)
      | inr (m, q) ↦
          let front = filter is_kept ((name, d) ∷ []) in
          let whole : (done ++ front) ++ filter is_kept ds
              ≡ done ++ filter is_kept ((name, d) ∷ ds) =
            append_assoc done front (filter is_kept ds)
            ∙ ap (λ z. done ++ z) (sym (filter-append is_kept ((name, d) ∷ []) ds)) in
          subst (λ z. Scanned c next z []) whole
            (scan_loop-Scanned out (suc n) (done ++ front) ds c m next
              (scan_entry-Scanned c name d done ds (out.removal n) b m (out.poll n) h q)
              (rw (q, scan_loop) at e))
    ]

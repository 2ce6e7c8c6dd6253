-- ===== src/ExportCache/Unscanned.antt =====
-- src/export_cache.rs: the errors of the scan of a directory.
use sirius_asset_updater.Base.{
  ℕ, suc, ◌+◌, ◌-◌, ◌≤◌, Text, Bool, true, false, not, ◌&&◌, Option, none, some, List, [], ◌∷◌, ◌≡◌,
  refl, ap, subst, ltb, ◌∙◌, arith, Bool-cases, Option-cases, inl, inr, if◌then◌else◌,
}
use sirius_asset_updater.Fault.{Error, Result, ok, err, size, cancelled, Result-cases}
use sirius_asset_updater.ExportCache.Types.{
  Item, Directory, Cache, checked_add, total, u64_bound, digest,
}
use sirius_asset_updater.ExportCache.Room.{Removal, removed, left, oldest, victim, within}
use sirius_asset_updater.ExportCache.Oldest.{IsAccounted}
use sirius_asset_updater.ExportCache.Evictions.{
  has_room, Outcome, overflow, stopped, too_large, kept,
}
use sirius_asset_updater.ExportCache.Open.{
  ScanOutside, length_of, files_of, files_size, tree_size, add_sized, remove_pending, scan_entry,
  scan_loop,
}
use sirius_asset_updater.ExportCache.Accounts.{checked_add-sum}
use sirius_asset_updater.ExportCache.Tracked.{is_pending}

-- The bytes of all directories of an id, in a sum that does not overflow.
abbrev pub plain_size : Directory → ℕ
plain_size d = length_of d.metadata + files_size (files_of d.files)

abbrev pub is_entry : Text → Bool
is_entry name = not (is_pending name) && digest name

pub disk_total : List (Text × Directory) → ℕ
disk_total [] = 0
disk_total ((name, d) ∷ ds) =
    let rest = disk_total ds in if is_entry name then plain_size d + rest else rest

-- Why a scan fails: a cancellation or an error at an entry, a rest that could not be removed, sizes whose
-- sum is no `u64`, or a cancellation or a failed removal while it makes room.
pub data ScanError (out : ScanOutside) (sum : ℕ) : Error → Type 0 where
  polled : {n : ℕ} {e : Error} → out.poll n ≡ some e → ScanError out sum e
  unremoved : {n : ℕ} {e : Error} {d : Directory} → out.removal n ≡ left e d → ScanError out sum e
  too_big : u64_bound ≤ sum → ScanError out sum size
  cut_off : {n : ℕ} → out.room.stop n ≡ true → ScanError out sum cancelled
  unpruned :
      {n : ℕ} {e : Error} {d : Directory} → out.room.removal n ≡ left e d → ScanError out sum e

tree_size-plain : (d : Directory) (n : ℕ) → tree_size d ≡ some n → n ≡ plain_size d
tree_size-plain d n h = checked_add-sum (length_of d.metadata) (files_size (files_of d.files)) n h

checked_add-none : (a b : ℕ) → checked_add a b ≡ none → u64_bound ≤ a + b
checked_add-none a b h = ground arith

module _ (out : ScanOutside) (sum : ℕ) (n : ℕ) (name : Text) (d : Directory) where
  -- What one entry of the directory gives: an error, or the bytes with those of the entry.
  abbrev Adds : ℕ → Cache → Result Cache → Type 0
  Adds rest b (err e) = ScanError out sum e
  Adds rest b (ok next) = next.budget.bytes + rest ≡ sum

  sized-Adds :
      (rest : ℕ) (b : Cache) (bytes : Option ℕ)
      → tree_size d ≡ bytes
      → b.budget.bytes + (plain_size d + rest) ≡ sum
      → Adds rest b (add_sized name d b bytes)
  sized-Adds rest b none t h =
      too_big (
        omega (arith, h, checked_add-none (length_of d.metadata) (files_size (files_of d.files)) t))
  sized-Adds rest b (some bytes) t h = elim (Option-cases (checked_add b.budget.bytes bytes)) [
    | inl q ↦ rw q (
        too_big
          (omega (arith, h, checked_add-none b.budget.bytes bytes q, tree_size-plain d bytes t)))
    | inr (m, q) ↦
        rw q (omega (arith, h, checked_add-sum b.budget.bytes bytes m q, tree_size-plain d bytes t))
  ]

  pending-Adds :
      (rest : ℕ) (b : Cache) (r : Removal)
      → out.removal n ≡ r
      → b.budget.bytes + rest ≡ sum
      → Adds rest b (remove_pending name b r)
  pending-Adds rest b removed q h = h
  pending-Adds rest b (left e x) q h = unremoved q

  entry-Adds :
      (rest : ℕ) (b : Cache) (poll : Option Error)
      → out.poll n ≡ poll
      → b.budget.bytes + (if is_entry name then plain_size d + rest else rest) ≡ sum
      → Adds rest b (scan_entry (out.removal n) name d b poll)
  entry-Adds rest b (some e) q h = polled q
  entry-Adds rest b none q h = elim (Bool-cases (is_pending name)) [
    | inl p ↦ rw p (pending-Adds rest b (out.removal n) refl (rw p at h))
    | inr p ↦ elim (Bool-cases (digest name)) [
      | inl g ↦ rw (p, g) (sized-Adds rest b (tree_size d) refl (rw (p, g) at h))
      | inr g ↦ rw (p, g) (rw (p, g) at h)
    ]
  ]

abbrev pub Sums : ScanOutside → ℕ → Result Cache → Type 0
Sums out sum (err e) = ScanError out sum e
Sums out sum (ok next) = next.budget.bytes ≡ sum

-- A scan fails for one of these reasons, or has the sum of all sizes.
pub scan_loop-Sums :
    (out : ScanOutside) (sum n : ℕ) (ds : List (Text × Directory)) (b : Cache)
    → b.budget.bytes + disk_total ds ≡ sum
    → Sums out sum (scan_loop out n ds b)
unfolding scan_loop disk_total
scan_loop-Sums out sum n [] b h = omega (arith, h)
scan_loop-Sums out sum n ((name, d) ∷ ds) b h =
    let added : Adds out sum n name d (disk_total ds) b
        (scan_entry (out.removal n) name d b (out.poll n)) =
      entry-Adds out sum n name d (disk_total ds) b (out.poll n) refl h in
    elim (Result-cases (scan_entry (out.removal n) name d b (out.poll n))) [
      | inl (e, q) ↦
          rw (q, scan_loop) (subst (Adds out sum n name d (disk_total ds) b) {y = err e} q added)
      | inr (next, q) ↦
          rw (q, scan_loop)
            (scan_loop-Sums out sum (suc n) ds next
              (subst (Adds out sum n name d (disk_total ds) b) {y = ok next} q added))
    ]

victim-none : (es : List Item) → victim none es ≡ none → es ≡ []
unfolding victim oldest
victim-none [] h = refl
victim-none (e ∷ es) h = absurd (cc)

within_zero : (limit : Option ℕ) → within limit 0 ≡ true
within_zero none = refl
within_zero (some n) = ground arith

-- An empty budget has room for nothing more.
empty-has_room :
    (c : Cache) → c.budget.bytes ≡ 0 → c.budget.entries ≡ [] → has_room none 0 0 c ≡ true
empty-has_room c b e =
    rw (b, e) (ground (arith, within_zero c.max_bytes, within_zero c.max_entries))

-- An error while room is made.
pub outcome-ScanError :
    (out : ScanOutside) (sum n : ℕ) (b c : Cache) (e : Error)
    → IsAccounted b.budget
    → b.budget.bytes ≤ sum
    → Outcome out.room none 0 0 n b c (err e)
    → ScanError out sum e
outcome-ScanError out sum n b c e a h (overflow q) =
    let fits : ltb b.budget.bytes 0 ≡ false = ground arith in
    too_big (omega (arith, h, checked_add-none (b.budget.bytes - 0) 0 (rw fits at q)))
outcome-ScanError out sum n b c e a h (stopped f s) = cut_off s
outcome-ScanError out sum n b c e a h (too_large f s v) =
    let nothing = victim-none b.budget.entries v in
    let room = empty-has_room b (a.sum ∙ ap total nothing) nothing in absurd (ground arith)
outcome-ScanError out sum n b c e a h (kept f s v r) = unpruned r

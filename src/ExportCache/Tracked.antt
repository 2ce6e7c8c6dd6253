-- ===== src/ExportCache/Tracked.antt =====
-- src/export_cache.rs: a budget that has each entry of the disk with its size.
use sirius_asset_updater.Base.{
  ℕ, Text, utf8, text_eq, text_eq_iff, text_eq_refl, Bool, true, false, not, ◌&&◌, ◌||◌, Option,
  some, List, [], ◌∷◌, ◌≡◌, refl, ◌∙◌, arith, all, ◌==◌, Bool-cases, inl, inr,
}
use sirius_asset_updater.Base.Strings.{starts_with}
use sirius_asset_updater.Base.Texts.{contains_path, text_eq_sym}
use sirius_asset_updater.ExportCache.Types.{
  Item, Budget, Directory, has_id, find_item, insert_item, remove_item, digest,
}
use sirius_asset_updater.ExportCache.Room.{remove_dir, budget_without}
use sirius_asset_updater.ExportCache.Evictions.{Evicts, none_gone, one_gone, without}
use sirius_asset_updater.ExportCache.Open.{tree_size}

abbrev pub names : List (Text × Directory) → List Text
names [] = []
names ((name, d) ∷ ds) = name ∷ names ds

abbrev pub is_pending : Text → Bool
is_pending name = starts_with name (utf8 ".pending-export-")

abbrev pub is_kept : Text × Directory → Bool
is_kept x = not (is_pending x.0)

abbrev pub has_size : Option Item → Option ℕ → Bool
has_size (some i) (some n) = i.bytes == n
has_size _ _ = false

-- A directory that is no rest of a write, and that the entries have with its size if its name is an id.
abbrev pub tracks : List Item → Text × Directory → Bool
tracks es x = is_kept x && (not (digest x.0) || has_size (find_item x.0 es) (tree_size x.1))

-- The entries have each directory of an id with its size, and no other; and no write's rest is there.
pub record IsTracked (es : List Item) (disk : List (Text × Directory)) : Type 0 where
  pub listed : all (tracks es) disk ≡ true
  pub present : all (λ i. contains_path i.id (names disk)) es ≡ true

pub find-insert : (i : Item) (es : List Item) → find_item i.id (insert_item i es) ≡ some i
unfolding find_item insert_item
find-insert i [] = ground (arith, text_eq_refl i.id)
find-insert i (j ∷ js) = elim (Bool-cases (has_id i.id j)) [
  | inl e ↦ rw e (ground (arith, text_eq_refl i.id))
  | inr e ↦ rw e (ground (arith, find-insert i js))
]

pub find-insert_apart :
    (q : Text) (i : Item) (es : List Item)
    → text_eq q i.id ≡ false
    → find_item q (insert_item i es) ≡ find_item q es
unfolding find_item insert_item
find-insert_apart q i [] h = ground (arith, text_eq_sym q i.id)
find-insert_apart q i (j ∷ js) h = elim (Bool-cases (has_id i.id j)) [
  | inl e ↦
      let s : j.id ≡ i.id = (text_eq_iff j.id i.id).0 e in
      rw (e, s) (ground (arith, text_eq_sym q i.id))
  | inr e ↦ rw e (ground (arith, find-insert_apart q i js))
]

find-remove :
    (q id : Text) (es : List Item)
    → text_eq q id ≡ false
    → find_item q (remove_item id es) ≡ find_item q es
unfolding find_item
find-remove q id [] h = refl
find-remove q id (j ∷ js) h = elim (Bool-cases (has_id id j)) [
  | inl e ↦
      let s : j.id ≡ id = (text_eq_iff j.id id).0 e in
      let k : has_id q j ≡ false = rw s (text_eq_sym id q ∙ h) in rw (e, k) (find-remove q id js h)
  | inr e ↦ rw e (ground (arith, find-remove q id js))
]

contains-remove_dir :
    (q id : Text) (ds : List (Text × Directory))
    → text_eq q id ≡ false
    → contains_path q (names (remove_dir id ds)) ≡ contains_path q (names ds)
contains-remove_dir q id [] h = refl
contains-remove_dir q id ((name, d) ∷ ds) h = elim (Bool-cases (text_eq name id)) [
  | inl e ↦
      let s : name ≡ id = (text_eq_iff name id).0 e in
      let k : text_eq q name ≡ false = rw s h in rw (e, k) (contains-remove_dir q id ds h)
  | inr e ↦ rw e (ground (arith, contains-remove_dir q id ds))
]

tracks-remove :
    (id : Text) (es : List Item) (ds : List (Text × Directory))
    → all (tracks es) ds ≡ true
    → all (tracks (remove_item id es)) (remove_dir id ds) ≡ true
tracks-remove id es [] h = refl
tracks-remove id es ((name, d) ∷ ds) h = elim (Bool-cases (text_eq name id)) [
  | inl e ↦ rw e (tracks-remove id es ds (ground arith))
  | inr e ↦ rw (e, find-remove name id es e) (ground (arith, tracks-remove id es ds))
]

present-remove :
    (id : Text) (ds : List (Text × Directory)) (es : List Item)
    → all (λ i. contains_path i.id (names ds)) es ≡ true
    → all (λ i. contains_path i.id (names (remove_dir id ds))) (remove_item id es) ≡ true
present-remove id ds [] h = refl
present-remove id ds (i ∷ es) h = elim (Bool-cases (has_id id i)) [
  | inl e ↦ rw e (present-remove id ds es (ground arith))
  | inr e ↦ rw (e, contains-remove_dir i.id id ds e) (ground (arith, present-remove id ds es))
]

-- Evictions keep what the budget has of the disk.
pub evictions-IsTracked :
    (replacing : Option Text) (gone : List Item) (b d : Budget) (disk : List (Text × Directory))
    → Evicts replacing gone b d
    → IsTracked b.entries disk
    → IsTracked d.entries (without gone disk)
evictions-IsTracked replacing [] b d disk none_gone h = h
evictions-IsTracked replacing (i ∷ gone) b d disk (one_gone v rest) h =
    evictions-IsTracked replacing gone (budget_without i b) d (remove_dir i.id disk) rest (record {
      listed = tracks-remove i.id b.entries disk h.listed;
      present = present-remove i.id disk b.entries h.present;
    })

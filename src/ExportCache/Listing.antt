-- ===== src/ExportCache/Listing.antt =====
-- src/export_cache.rs: the lists of the directories and of the entries that a scan builds.
use sirius_asset_updater.Base.{
  Text, text_eq, text_eq_iff, true, false, ◌||◌, none, List, [], ◌∷◌, ◌++◌, ◌≡◌, refl, ap, subst,
  arith, all, Bool-cases, inl, inr,
}
use sirius_asset_updater.Base.Texts.{contains_path, distinct, text_eq_sym}
use sirius_asset_updater.ExportCache.Types.{Item, Directory, find_item, insert_item}
use sirius_asset_updater.ExportCache.Room.{remove_dir}
use sirius_asset_updater.ExportCache.Tracked.{names, tracks, find-insert_apart}

names-append : (xs ys : List (Text × Directory)) → names (xs ++ ys) ≡ names xs ++ names ys
names-append [] ys = refl
names-append (x ∷ xs) ys = ap (λ z. x.0 ∷ z) (names-append xs ys)

pub contains-append :
    (q : Text) (xs ys : List (Text × Directory))
    → contains_path q (names (xs ++ ys))
      ≡ (contains_path q (names xs) || contains_path q (names ys))
contains-append q [] ys = refl
contains-append q (x ∷ xs) ys = ground (arith, contains-append q xs ys)

-- A name of a list of distinct ones is of no other directory, and the others are distinct.
pub distinct-middle :
    (done : List (Text × Directory)) (x : Text × Directory) (ds : List (Text × Directory))
    → distinct (names (done ++ x ∷ ds)) ≡ true
    → (contains_path x.0 (names done) ≡ false)
      × (contains_path x.0 (names ds) ≡ false)
      × (distinct (names (done ++ ds)) ≡ true)
distinct-middle [] x ds h = (refl, ground arith, ground arith)
distinct-middle (y ∷ done) x ds h =
    let (a, b, c) = distinct-middle done x ds (ground arith) in
    let m = contains-append y.0 done (x ∷ ds) in
    let n = contains-append y.0 done ds in
    (ground (arith, a, m, text_eq_sym x.0 y.0), b, ground (arith, c, m, n))

remove_dir-absent :
    (name : Text) (ds : List (Text × Directory))
    → contains_path name (names ds) ≡ false
    → remove_dir name ds ≡ ds
remove_dir-absent name [] h = refl
remove_dir-absent name (x ∷ ds) h = ground (arith, remove_dir-absent name ds, text_eq_sym x.0 name)

pub remove_dir-middle :
    (done : List (Text × Directory)) (x : Text × Directory) (ds : List (Text × Directory))
    → text_eq x.0 x.0 ≡ true
    → contains_path x.0 (names done) ≡ false
    → contains_path x.0 (names ds) ≡ false
    → remove_dir x.0 (done ++ x ∷ ds) ≡ done ++ ds
remove_dir-middle [] x ds r h k = rw r (remove_dir-absent x.0 ds k)
remove_dir-middle (y ∷ done) x ds r h k =
    ground (arith, remove_dir-middle done x ds r, text_eq_sym y.0 x.0)

-- The scanned directories hold no new name, so no entry has it.
pub absent-entry :
    (q : Text) (ps : List Text) (es : List Item)
    → contains_path q ps ≡ false
    → all (λ i. contains_path i.id ps) es ≡ true
    → find_item q es ≡ none
unfolding find_item
absent-entry q ps [] h k = refl
absent-entry q ps (i ∷ es) h k = elim (Bool-cases (text_eq i.id q)) [
  | inl e ↦
      let at : contains_path q ps ≡ true =
        subst (λ z. contains_path z ps ≡ true) ((text_eq_iff i.id q).0 e) (ground arith) in
      absurd (ground arith)
  | inr e ↦ rw e (absent-entry q ps es h (ground arith))
]

pub tracks-insert :
    (i : Item) (es : List Item) (done : List (Text × Directory))
    → contains_path i.id (names done) ≡ false
    → all (tracks es) done ≡ true
    → all (tracks (insert_item i es)) done ≡ true
tracks-insert i es [] h k = refl
tracks-insert i es (x ∷ done) h k =
    let apart : text_eq x.0 i.id ≡ false = ground (arith, text_eq_sym x.0 i.id) in
    rw (find-insert_apart x.0 i es apart) (ground (arith, tracks-insert i es done))

pub present-append :
    (done : List (Text × Directory)) (x : Text × Directory) (es : List Item)
    → all (λ i. contains_path i.id (names done)) es ≡ true
    → all (λ i. contains_path i.id (names (done ++ x ∷ []))) es ≡ true
present-append done x [] h = refl
present-append done x (i ∷ es) h =
    ground (arith, present-append done x es, contains-append i.id done (x ∷ []))

pub present-insert :
    (ps : List Text) (i : Item) (es : List Item)
    → contains_path i.id ps ≡ true
    → all (λ j. contains_path j.id ps) es ≡ true
    → all (λ j. contains_path j.id ps) (insert_item i es) ≡ true
unfolding insert_item
present-insert ps i [] h k = ground arith
present-insert ps i (j ∷ js) h k = ground (arith, present-insert ps i js)

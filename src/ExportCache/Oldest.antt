-- ===== src/ExportCache/Oldest.antt =====
-- src/export_cache.rs: the entry that `make_room` evicts, and the budget without it.
use sirius_asset_updater.Base.{
  suc, ◌+◌, Text, text_eq, text_eq_iff, text_eq_refl, Bool, true, false, not, ◌&&◌, ◌||◌, Option,
  none, some, List, [], ◌∷◌, ◌≡◌, refl, sym, ap, subst, ◌∙◌, arith, length, any, all, filter, ◌==◌,
  Bool-cases, Option-cases, inl, inr,
}
use sirius_asset_updater.Base.Texts.{
  contains_path, distinct, text_eq_sym, text_leb_refl, text_leb_total, text_leb_trans,
}
use sirius_asset_updater.ExportCache.Types.{Item, Budget, has_id, remove_item, total}
use sirius_asset_updater.ExportCache.Room.{
  no_later, earlier, oldest, is_other, victim, budget_without,
}

abbrev pub ids : List Item → List Text
ids [] = []
ids (i ∷ is) = i.id ∷ ids is

-- The bytes of the budget are the sum of its entries, which have distinct ids.
pub record IsAccounted (b : Budget) : Type 0 where
  pub sum : b.bytes ≡ total b.entries
  pub unique : distinct (ids b.entries) ≡ true

abbrev pub same : Item → Item → Bool
same i j = text_eq i.id j.id && i.bytes == j.bytes && i.accessed == j.accessed

same_refl : (i : Item) → same i i ≡ true
same_refl i = ground (arith, text_eq_refl i.id)

oldest-found : (es : List Item) (i : Item) → oldest es ≡ some i → any (same i) es ≡ true
unfolding oldest
oldest-found [] i h = absurd (cc)
oldest-found (e ∷ es) i h = elim (Option-cases (oldest es)) [
  | inl q ↦
      subst (λ z. any (same z) (e ∷ es) ≡ true) {x = e} {y = i} (ground arith)
        (ground (arith, same_refl e))
  | inr (j, q) ↦ elim (Bool-cases (no_later e j)) [
    | inl t ↦
        subst (λ z. any (same z) (e ∷ es) ≡ true) {x = e} {y = i} (ground arith)
          (ground (arith, same_refl e))
    | inr t ↦
        subst (λ z. any (same z) (e ∷ es) ≡ true) {x = j} {y = i} (ground arith)
          (ground (arith, oldest-found es j q))
  ]
]

no_later_refl : (i : Item) → no_later i i ≡ true
no_later_refl i = ground (arith, text_leb_refl i.id)

no_later_total : (i j : Item) → no_later i j ≡ false → no_later j i ≡ true
no_later_total i j h = ground (arith, text_leb_total i.id j.id)

no_later_trans : (i j k : Item) → no_later i j ≡ true → no_later j k ≡ true → no_later i k ≡ true
no_later_trans i j k h l = ground (arith, text_leb_trans i.id j.id k.id)

all-no_later :
    (i j : Item) (es : List Item)
    → no_later i j ≡ true
    → all (no_later j) es ≡ true
    → all (no_later i) es ≡ true
all-no_later i j [] h k = refl
all-no_later i j (e ∷ es) h k = ground (arith, no_later_trans i j e, all-no_later i j es)

-- The oldest entry is no later than any other.
oldest-first : (es : List Item) (i : Item) → oldest es ≡ some i → all (no_later i) es ≡ true
unfolding oldest
oldest-first [] i h = absurd (cc)
oldest-first (e ∷ []) i h =
    subst (λ z. all (no_later z) (e ∷ []) ≡ true) {x = e} {y = i} (ground arith)
      (ground (arith, no_later_refl e))
oldest-first (e ∷ f ∷ es) i h =
    let j = earlier f (oldest es) in
    let ih = oldest-first (f ∷ es) j refl in
    elim (Bool-cases (no_later e j)) [
      | inl t ↦
          subst (λ z. all (no_later z) (e ∷ f ∷ es) ≡ true) {x = e} {y = i} (ground arith)
            (ground (arith, no_later_refl e, all-no_later e j (f ∷ es) t ih))
      | inr t ↦
          subst (λ z. all (no_later z) (e ∷ f ∷ es) ≡ true) {x = j} {y = i} (ground arith)
            (ground (arith, no_later_total e j t, ih))
    ]

-- What `victim` found: an entry of the budget that is not replaced, and is no later than any other.
pub record IsVictim (replacing : Option Text) (es : List Item) (v : Item) : Type 0 where
  pub found : any (same v) es ≡ true
  pub other : is_other replacing v ≡ true
  pub first : all (λ k. not (is_other replacing k) || no_later v k) es ≡ true

other-same :
    (replacing : Option Text) (v i : Item)
    → same v i ≡ true
    → is_other replacing i ≡ is_other replacing v
other-same none v i h = refl
other-same (some id) v i h =
    ap (λ z. not (text_eq z id)) (sym ((text_eq_iff v.id i.id).0 (ground arith)))

module _ (replacing : Option Text) (v : Item) where
  found-filter :
      (es : List Item)
      → any (same v) (filter (is_other replacing) es) ≡ true
      → (any (same v) es ≡ true) × (is_other replacing v ≡ true)
  found-filter [] h = absurd (cc)
  found-filter (e ∷ es) h = elim (Bool-cases (is_other replacing e)) [
    | inr out ↦ let (a, b) = found-filter es (ground arith) in (ground (arith, a), b)
    | inl in' ↦ elim (Bool-cases (same v e)) [
      | inl s ↦ (ground arith, sym (other-same replacing v e s) ∙ in')
      | inr t ↦ let (a, b) = found-filter es (ground arith) in (ground (arith, a), b)
    ]
  ]

  first-filter :
      (es : List Item)
      → all (no_later v) (filter (is_other replacing) es) ≡ true
      → all (λ k. not (is_other replacing k) || no_later v k) es ≡ true
  first-filter [] h = refl
  first-filter (e ∷ es) h = ground (arith, first-filter es)

  pub victim-IsVictim : (es : List Item) → victim replacing es ≡ some v → IsVictim replacing es v
  unfolding victim
  victim-IsVictim es h =
      let (a, b) = found-filter es (oldest-found (filter (is_other replacing) es) v h) in
      record {
        found = a;
        other = b;
        first = first-filter es (oldest-first (filter (is_other replacing) es) v h);
      }

-- The entries without one of them.
remove-absent :
    (id : Text) (es : List Item) → contains_path id (ids es) ≡ false → remove_item id es ≡ es
remove-absent id [] h = refl
remove-absent id (e ∷ es) h = ground (arith, remove-absent id es, text_eq_sym e.id id)

contains-ids :
    (v : Item) (es : List Item) → any (same v) es ≡ true → contains_path v.id (ids es) ≡ true
contains-ids v [] h = absurd (cc)
contains-ids v (e ∷ es) h = ground (arith, contains-ids v es)

contains-remove :
    (id q : Text) (es : List Item)
    → contains_path q (ids es) ≡ false
    → contains_path q (ids (remove_item id es)) ≡ false
contains-remove id q [] h = refl
contains-remove id q (e ∷ es) h = ground (arith, contains-remove id q es)

distinct-remove :
    (id : Text) (es : List Item)
    → distinct (ids es) ≡ true
    → distinct (ids (remove_item id es)) ≡ true
distinct-remove id [] h = refl
distinct-remove id (e ∷ es) h = ground (arith, distinct-remove id es, contains-remove id e.id es)

apart :
    (id q : Text) (ps : List Text)
    → contains_path id ps ≡ true
    → contains_path q ps ≡ false
    → text_eq q id ≡ false
apart id q ps h k = elim (Bool-cases (text_eq q id)) [
  | inr e ↦ e
  | inl e ↦
      absurd (ground (arith, subst (λ z. contains_path z ps ≡ false) ((text_eq_iff q id).0 e) k))
]

pub remove-one :
    (v : Item) (es : List Item)
    → distinct (ids es) ≡ true
    → any (same v) es ≡ true
    → (total es ≡ v.bytes + total (remove_item v.id es))
      × (length es ≡ suc (length (remove_item v.id es)))
remove-one v [] h k = absurd (cc)
remove-one v (e ∷ es) h k = elim (Bool-cases (same v e)) [
  | inl s ↦
      let q : v.id ≡ e.id = (text_eq_iff v.id e.id).0 (ground arith) in
      let gone : remove_item v.id es ≡ es =
        remove-absent v.id es
          (subst (λ z. contains_path z (ids es) ≡ false) (sym q) (ground arith)) in
      let here : has_id v.id e ≡ true = ground (arith, text_eq_sym e.id v.id) in
      rw (here, gone) (ground arith, refl)
  | inr t ↦
      let (a, b) = remove-one v es (ground arith) (ground arith) in
      let away : has_id v.id e ≡ false =
        apart v.id e.id (ids es) (contains-ids v es (ground arith)) (ground arith) in
      rw away (omega (arith, a), omega (arith, b))
]

-- The budget without a victim is the sum of its entries.
pub budget_without-IsAccounted :
    (v : Item) (b : Budget)
    → IsAccounted b
    → any (same v) b.entries ≡ true
    → IsAccounted (budget_without v b)
budget_without-IsAccounted v b h found =
    let (a, l) = remove-one v b.entries h.unique found in
    record { sum = omega (arith, h.sum, a); unique = distinct-remove v.id b.entries h.unique }

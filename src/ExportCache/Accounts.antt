-- ===== src/ExportCache/Accounts.antt =====
-- src/export_cache.rs: the sum of the budget and its limits over the operations of the cache.
use sirius_asset_updater.Base.{
  ℕ, suc, length-filter, count_if-le-length, ◌+◌, ◌-◌, ◌≤◌, Text, text_eq, text_eq_iff, Bool, true,
  false, not, ◌&&◌, ◌||◌, Option, none, some, List, [], ◌∷◌, ◌≡◌, refl, ap, subst, arith, length,
  map, ltb, Bool-cases, Option-cases, inl, inr,
}
use sirius_asset_updater.Base.Texts.{contains_path, distinct}
use sirius_asset_updater.Fault.{ok}
use sirius_asset_updater.ExportCache.Types.{
  Item, Budget, Cache, has_id, find_item, insert_item, total, checked_add,
}
use sirius_asset_updater.ExportCache.Room.{
  within, bytes_of, count_of, desired_bytes, desired_count, budget_without,
}
use sirius_asset_updater.ExportCache.Oldest.{IsAccounted, ids}
use sirius_asset_updater.ExportCache.Evictions.{Evicts, none_gone, one_gone, has_room}
use sirius_asset_updater.ExportCache.Store.{insert_budget, touch_item}

-- A cache whose bytes are the sum of its entries, with distinct ids, and within both limits.
pub record IsCache (c : Cache) : Type 0 where
  pub accounted : IsAccounted c.budget
  pub few_bytes : within c.max_bytes c.budget.bytes ≡ true
  pub few_entries : within c.max_entries (length c.budget.entries) ≡ true

pub within_mono :
    (limit : Option ℕ) (m n : ℕ) → m ≤ n → within limit n ≡ true → within limit m ≡ true
within_mono none m n h k = refl
within_mono (some l) m n h k = ground arith

-- Evictions only shrink the budget.
pub Evicts-le :
    (replacing : Option Text) (gone : List Item) (b d : Budget)
    → Evicts replacing gone b d
    → (d.bytes ≤ b.bytes) × (length d.entries ≤ length b.entries)
Evicts-le replacing [] b d none_gone = (omega arith, omega arith)
Evicts-le replacing (i ∷ gone) b d (one_gone v rest) =
    let (x, y) = Evicts-le replacing gone (budget_without i b) d rest in
    let p : Item → Bool = λ k. not (has_id i.id k) in
    (omega (arith, x), omega (arith, y, length-filter p b.entries, count_if-le-length p b.entries))

pub insert-total :
    (i : Item) (es : List Item)
    → (total (insert_item i es) + bytes_of (find_item i.id es) ≡ i.bytes + total es)
      × (length (insert_item i es) + count_of (find_item i.id es) ≡ suc (length es))
      × (bytes_of (find_item i.id es) ≤ total es)
unfolding insert_item find_item
insert-total i [] = (omega arith, refl, omega arith)
insert-total i (j ∷ js) = elim (Bool-cases (has_id i.id j)) [
  | inl e ↦ rw e (omega arith, omega arith, omega arith)
  | inr e ↦
      let (a, b, c) = insert-total i js in
      rw e (omega (arith, a), omega (arith, b), omega (arith, c))
]

pub contains-insert :
    (q : Text) (i : Item) (es : List Item)
    → contains_path q (ids (insert_item i es)) ≡ (text_eq q i.id || contains_path q (ids es))
unfolding insert_item
contains-insert q i [] = refl
contains-insert q i (j ∷ js) = elim (Bool-cases (has_id i.id j)) [
  | inl e ↦ let s : j.id ≡ i.id = (text_eq_iff j.id i.id).0 e in rw (e, s) (ground arith)
  | inr e ↦ rw e (ground (arith, contains-insert q i js))
]

pub distinct-insert :
    (i : Item) (es : List Item)
    → distinct (ids es) ≡ true
    → distinct (ids (insert_item i es)) ≡ true
unfolding insert_item
distinct-insert i [] h = refl
distinct-insert i (j ∷ js) h = elim (Bool-cases (has_id i.id j)) [
  | inl e ↦
      let s : j.id ≡ i.id = (text_eq_iff j.id i.id).0 e in
      rw e (subst (λ z. (not (contains_path z (ids js)) && distinct (ids js)) ≡ true) s h)
  | inr e ↦ rw e (ground (arith, distinct-insert i js, contains-insert j.id i js))
]

pub checked_add-sum : (a b m : ℕ) → checked_add a b ≡ some m → m ≡ a + b
checked_add-sum a b m h = ground arith

-- A new entry, where there is room for it, keeps the sum and the limits.
pub insert_budget-IsCache :
    (id : Text) (n now : ℕ) (c : Cache)
    → IsAccounted c.budget
    → has_room (some id) n 1 c ≡ true
    → ((insert_budget id n now c.budget).0 ≡ ok tt)
      × IsCache (record c { budget = (insert_budget id n now c.budget).1 })
insert_budget-IsCache id n now c h room =
    let i : Item = record { id = id; bytes = n; accessed = now } in
    let es = c.budget.entries in
    let (a, l, o) = insert-total i es in
    let old = bytes_of (find_item id es) in
    elim (Option-cases (desired_bytes c.budget (find_item id es) n)) [
      | inl e ↦ absurd (ground (arith, rw e at room))
      | inr (m, e) ↦
          let fits = rw e at room in
          let sub : ltb c.budget.bytes old ≡ false = ground (arith, h.sum, o) in
          let e' = rw sub at e in
          let sum : checked_add (c.budget.bytes - old) n ≡ some m = e' in
          rw sum (
            refl,
            record {
              accounted = record {
                sum = omega (arith, checked_add-sum (c.budget.bytes - old) n m sum, a, o, h.sum);
                unique = distinct-insert i es h.unique;
              };
              few_bytes = ground arith;
              few_entries =
                  within_mono c.max_entries (length (insert_item i es))
                    (desired_count c.budget (find_item id es) 1) (omega (arith, l)) (ground arith);
            },
          )
    ]

-- An entry that is used again keeps its size.
pub touch-IsAccounted :
    (id : Text) (now : ℕ) (es : List Item)
    → (total (map (touch_item id now) es) ≡ total es)
      × (ids (map (touch_item id now) es) ≡ ids es)
      × (length (map (touch_item id now) es) ≡ length es)
touch-IsAccounted id now [] = (refl, refl, refl)
touch-IsAccounted id now (e ∷ es) =
    let (a, b, c) = touch-IsAccounted id now es in
    elim (Bool-cases (has_id id e)) [
      | inl t ↦ rw t (omega (arith, a), ap (λ r. e.id ∷ r) b, omega (arith, c))
      | inr t ↦ rw t (omega (arith, a), ap (λ r. e.id ∷ r) b, omega (arith, c))
    ]

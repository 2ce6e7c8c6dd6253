-- ===== src/ExportCache/Recency.antt =====
-- src/export_cache.rs: which entries `make_room` evicts.
use sirius_asset_updater.Base.{
  Text, Bool, true, not, ◌||◌, Option, List, [], ◌∷◌, ◌≡◌, refl, arith, all, filter,
}
use sirius_asset_updater.ExportCache.Types.{Item, Budget, has_id}
use sirius_asset_updater.ExportCache.Room.{no_later, is_other, budget_without}
use sirius_asset_updater.ExportCache.Oldest.{victim-IsVictim}
use sirius_asset_updater.ExportCache.Evictions.{Evicts, none_gone, one_gone}

all-filter : (p q : Item → Bool) (es : List Item) → all p es ≡ true → all p (filter q es) ≡ true
all-filter p q [] h = refl
all-filter p q (e ∷ es) h = ground (arith, all-filter p q es)

module _ (replacing : Option Text) where
  -- What holds of all entries holds of those that are left.
  Evicts-all :
      (p : Item → Bool) (gone : List Item) (b d : Budget)
      → Evicts replacing gone b d
      → all p b.entries ≡ true
      → all p d.entries ≡ true
  Evicts-all p [] b d none_gone h = h
  Evicts-all p (i ∷ gone) b d (one_gone v rest) h =
      Evicts-all p gone (budget_without i b) d rest
        (all-filter p (λ k. not (has_id i.id k)) b.entries h)

  abbrev pub no_later_all : List Item → Item → Bool
  no_later_all es g = all (λ k. not (is_other replacing k) || no_later g k) es

  -- An evicted entry was used no later than any entry that is left, but for the one to be replaced, which
  -- is never evicted.
  pub Evicts-no_later :
      (gone : List Item) (b d : Budget)
      → Evicts replacing gone b d
      → (all (no_later_all d.entries) gone ≡ true) × (all (is_other replacing) gone ≡ true)
  Evicts-no_later [] b d none_gone = (refl, refl)
  Evicts-no_later (i ∷ gone) b d (one_gone v rest) =
      let found = victim-IsVictim replacing i b.entries v in
      let (x, y) = Evicts-no_later gone (budget_without i b) d rest in
      let z =
        Evicts-all (λ k. not (is_other replacing k) || no_later i k) (i ∷ gone) b d
          (one_gone v rest) found.first in
      (rw z x, rw (found.other) y)

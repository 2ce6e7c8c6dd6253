-- ===== src/Base/Sorting.antt =====
-- A stable sort by a Boolean order, for `sort` and `sort_by_cached_key`.
use Prim.Native.Nat.{suc}
use mathlib.Core.Path.{◌≡◌, refl, ap, ◌∙◌}
use mathlib.Core.Bool.{Bool, ◌||◌}
use native.Mathlib.Omega.{arith}
use mathlib.Core.List.{List, [], ◌∷◌}
use sirius_asset_updater.Base.Tests.{if◌then◌else◌}
use sirius_asset_updater.Base.Lists.{any, count_if, tally, length}

module _ {ℓ} {A : Type ℓ} (le : A → A → Bool) where
  unfoldable pub insert_sorted : A → List A → List A
  insert_sorted a [] = a ∷ []
  insert_sorted a (x ∷ xs) = if le a x then a ∷ x ∷ xs else x ∷ insert_sorted a xs

  unfoldable pub sort : List A → List A
  unfolding insert_sorted
  sort [] = []
  sort (x ∷ xs) = insert_sorted x (sort xs)

  count_if-insert_sorted :
      (p : A → Bool) (a : A) (l : List A)
      → count_if p (insert_sorted a l) ≡ tally (p a) (count_if p l)
  unfolding insert_sorted
  count_if-insert_sorted p a [] = refl
  count_if-insert_sorted p a (x ∷ xs) = ground (arith, count_if-insert_sorted p a xs)

  -- Sorting keeps every count.
  pub count_if-sort : (p : A → Bool) (l : List A) → count_if p (sort l) ≡ count_if p l
  unfolding sort
  count_if-sort p [] = refl
  count_if-sort p (x ∷ xs) =
      count_if-insert_sorted p x (sort xs) ∙ ap (tally (p x)) (count_if-sort p xs)

  length-insert_sorted : (a : A) (l : List A) → length (insert_sorted a l) ≡ suc (length l)
  unfolding insert_sorted
  length-insert_sorted a [] = refl
  length-insert_sorted a (x ∷ xs) = ground (arith, length-insert_sorted a xs)

  pub length-sort : (l : List A) → length (sort l) ≡ length l
  unfolding sort
  length-sort [] = refl
  length-sort (x ∷ xs) = omega (arith, length-insert_sorted x (sort xs), length-sort xs)

  any-insert_sorted :
      (p : A → Bool) (a : A) (l : List A) → any p (insert_sorted a l) ≡ (p a || any p l)
  unfolding insert_sorted
  any-insert_sorted p a [] = refl
  any-insert_sorted p a (x ∷ xs) = ground (arith, any-insert_sorted p a xs)

  pub any-sort : (p : A → Bool) (l : List A) → any p (sort l) ≡ any p l
  unfolding sort
  any-sort p [] = refl
  any-sort p (x ∷ xs) = any-insert_sorted p x (sort xs) ∙ ap (◌||◌ (p x)) (any-sort p xs)

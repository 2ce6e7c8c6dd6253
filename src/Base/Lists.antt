-- ===== src/Base/Lists.antt =====
-- Lists over the native numbers: lengths, Boolean filters, counts and the first match.
use Prim.Native.Nat.{ℕ, zero, suc, ◌+◌, ◌-◌, ◌≤◌}
use mathlib.Core.Path.{◌≡◌, refl}
use mathlib.Core.Logic.{inl, inr}
use mathlib.Core.Bool.{Bool, true, false, ◌&&◌, ◌||◌}
use mathlib.Core.Option.{Option, none, some}
use mathlib.Core.List.{List, [], ◌∷◌, ◌++◌, map}
use native.Mathlib.Omega.{arith}
use sirius_asset_updater.Base.Tests.{◌==◌, if◌then◌else◌, Bool-cases, Option-cases}

abbrev pub tally : Bool → ℕ → ℕ
tally true n = suc n
tally false n = n

-- `find`, `position` and `iter_mut().find`: the first match, with what stands before and after.
pub record Split {ℓ} (A : Type ℓ) : Type ℓ where
  pub before : List A
  pub found : A
  pub after : List A

module _ {ℓ} {A : Type ℓ} where
  abbrev pub length : List A → ℕ
  length [] = 0
  length (x ∷ xs) = suc (length xs)

  abbrev pub take : ℕ → List A → List A
  take zero xs = []
  take (suc n) [] = []
  take (suc n) (x ∷ xs) = x ∷ take n xs

  abbrev pub drop : ℕ → List A → List A
  drop zero xs = xs
  drop (suc n) [] = []
  drop (suc n) (x ∷ xs) = drop n xs

  pub length-append : (xs ys : List A) → length (xs ++ ys) ≡ length xs + length ys
  length-append [] ys = omega arith
  length-append (x ∷ xs) ys = omega (arith, length-append xs ys)

  -- `Iterator::any`, `Iterator::all`, `Iterator::filter` and `.filter(p).count()`.
  abbrev pub any : (A → Bool) → List A → Bool
  any p [] = false
  any p (x ∷ xs) = p x || any p xs

  abbrev pub all : (A → Bool) → List A → Bool
  all p [] = true
  all p (x ∷ xs) = p x && all p xs

  abbrev pub keep : Bool → A → List A → List A
  keep true x xs = x ∷ xs
  keep false x xs = xs

  abbrev pub filter : (A → Bool) → List A → List A
  filter p [] = []
  filter p (x ∷ xs) = keep (p x) x (filter p xs)

  abbrev pub count_if : (A → Bool) → List A → ℕ
  count_if p [] = 0
  count_if p (x ∷ xs) = tally (p x) (count_if p xs)

  pub count_if-append :
      (p : A → Bool) (xs ys : List A) → count_if p (xs ++ ys) ≡ count_if p xs + count_if p ys
  count_if-append p [] ys = omega arith
  count_if-append p (x ∷ xs) ys = ground (arith, count_if-append p xs ys)

  pub count_if-filter-le : (p q : A → Bool) (xs : List A) → count_if p (filter q xs) ≤ count_if p xs
  count_if-filter-le p q [] = omega arith
  count_if-filter-le p q (x ∷ xs) = ground (arith, count_if-filter-le p q xs)

  pub count_if-le-length : (p : A → Bool) (xs : List A) → count_if p xs ≤ length xs
  count_if-le-length p [] = omega arith
  count_if-le-length p (x ∷ xs) = ground (arith, count_if-le-length p xs)

  pub length-filter : (p : A → Bool) (xs : List A) → length (filter p xs) ≡ count_if p xs
  length-filter p [] = refl
  length-filter p (x ∷ xs) = ground (arith, length-filter p xs)

  -- One predicate under another.
  pub count_if_mono :
      (p q : A → Bool)
      → ((x : A) → p x ≡ true → q x ≡ true)
      → (xs : List A) → count_if p xs ≤ count_if q xs
  count_if_mono p q h [] = omega arith
  count_if_mono p q h (x ∷ xs) = ground (arith, h x, count_if_mono p q h xs)

  unfoldable pub split_first : (A → Bool) → List A → Option (Split A)
  split_first p [] = none
  split_first p (x ∷ xs) =
      let rest : Option (Split A) = split_first p xs in
      if p x
      then some (record { before = []; found = x; after = xs })
      else elim rest [ none ↦ none | some s ↦ some (record s { before = x ∷ s.before }) ]

  -- What `split_first` found: the list again, a match, and no match before it.
  pub record SplitsAt (p : A → Bool) (xs : List A) (s : Split A) : Type ℓ where
    pub whole : xs ≡ s.before ++ s.found ∷ s.after
    pub matches : p s.found ≡ true
    pub first : any p s.before ≡ false

  pub split_first-SplitsAt :
      (p : A → Bool) (xs : List A) (s : Split A) → split_first p xs ≡ some s → SplitsAt p xs s
  unfolding split_first
  split_first-SplitsAt p [] s h = absurd (cc)
  split_first-SplitsAt p (x ∷ xs) s h = elim (Bool-cases (p x)) [
    | inl here ↦ ground arith
    | inr there ↦ elim (Option-cases (split_first p xs)) [
      | inl e ↦ ground arith
      | inr (t, e) ↦ let ih = split_first-SplitsAt p xs t e in ground arith
    ]
  ]

  pub split_first-none : (p : A → Bool) (xs : List A) → split_first p xs ≡ none → any p xs ≡ false
  unfolding split_first
  split_first-none p [] h = refl
  split_first-none p (x ∷ xs) h = elim (Option-cases (split_first p xs)) [
    | inl e ↦ ground (arith, split_first-none p xs e)
    | inr (t, e) ↦ ground arith
  ]

  pub any-take : (p : A → Bool) (n : ℕ) (xs : List A) → any p (take n xs) ≡ true → any p xs ≡ true
  any-take p zero xs h = absurd (cc)
  any-take p (suc n) [] h = h
  any-take p (suc n) (x ∷ xs) h = ground (arith, any-take p n xs)

  pub all-append :
      (p : A → Bool) (xs ys : List A) → all p xs ≡ true → all p ys ≡ true → all p (xs ++ ys) ≡ true
  all-append p [] ys h k = k
  all-append p (x ∷ xs) ys h k = ground (arith, all-append p xs ys)

  pub all-before : (p : A → Bool) (xs ys : List A) → all p (xs ++ ys) ≡ true → all p xs ≡ true
  all-before p [] ys h = refl
  all-before p (x ∷ xs) ys h = ground (arith, all-before p xs ys)

  pub all-take : (p : A → Bool) (n : ℕ) (xs : List A) → all p xs ≡ true → all p (take n xs) ≡ true
  all-take p zero xs h = refl
  all-take p (suc n) [] h = refl
  all-take p (suc n) (x ∷ xs) h = ground (arith, all-take p n xs)

  pub length-take-le : (n : ℕ) (xs : List A) → length (take n xs) ≤ n
  length-take-le zero xs = omega arith
  length-take-le (suc n) [] = omega arith
  length-take-le (suc n) (x ∷ xs) = omega (arith, length-take-le n xs)

  pub any-append : (p : A → Bool) (xs ys : List A) → any p (xs ++ ys) ≡ (any p xs || any p ys)
  any-append p [] ys = refl
  any-append p (x ∷ xs) ys = ground (arith, any-append p xs ys)

  -- At most the elements behind the first `n`, where the first `n` fail the test.
  pub count_if-take_none :
      (p : A → Bool) (n : ℕ) (xs : List A)
      → count_if p (take n xs) ≡ 0
      → count_if p xs ≤ length xs - n
  count_if-take_none p zero xs h = omega (arith, count_if-le-length p xs)
  count_if-take_none p (suc n) [] h = omega arith
  count_if-take_none p (suc n) (x ∷ xs) h = ground (arith, count_if-take_none p n xs)

  -- Facts about every element.
  abbrev pub All {κ} : (A → Type κ) → List A → Type κ
  All P [] = Unit
  All P (x ∷ xs) = P x × All P xs

  pub All-mono {κ μ} :
      (P : A → Type κ) (Q : A → Type μ)
      → ((x : A) → P x → Q x)
      → (xs : List A) → All P xs
      → All Q xs
  All-mono P Q f [] h = tt
  All-mono P Q f (x ∷ xs) (h, hs) = (f x h, All-mono P Q f xs hs)

  pub All-append {κ} : (P : A → Type κ) (xs ys : List A) → All P xs → All P ys → All P (xs ++ ys)
  All-append P [] ys h k = k
  All-append P (x ∷ xs) ys (h, hs) k = (h, All-append P xs ys hs k)

  pub All-filter {κ} :
      (P : A → Type κ) (q : A → Bool) (xs : List A) → All P xs → All P (filter q xs)
  All-filter P q [] h = tt
  All-filter P q (x ∷ xs) (h, hs) = elim (Bool-cases (q x)) [
    | inl e ↦ rw e (h, All-filter P q xs hs)
    | inr e ↦ rw e (All-filter P q xs hs)
  ]

  pub All-before {κ} : (P : A → Type κ) (xs ys : List A) → All P (xs ++ ys) → All P xs
  All-before P [] ys h = tt
  All-before P (x ∷ xs) ys (h, hs) = (h, All-before P xs ys hs)

  pub All-after {κ} : (P : A → Type κ) (xs ys : List A) → All P (xs ++ ys) → All P ys
  All-after P [] ys h = h
  All-after P (x ∷ xs) ys (h, hs) = All-after P xs ys hs

  -- An element of the list gives one that passes.
  pub All-of_any-false : (p : A → Bool) (xs : List A) → any p xs ≡ false → All (λ x. p x ≡ false) xs
  All-of_any-false p [] h = tt
  All-of_any-false p (x ∷ xs) h = (ground arith, All-of_any-false p xs (ground arith))

pub length-map {ℓ κ} :
    {A : Type ℓ} {B : Type κ} (f : A → B) (xs : List A) → length (map f xs) ≡ length xs
length-map f [] = refl
length-map f (x ∷ xs) = omega (arith, length-map f xs)

-- `contains` on numbers.
abbrev pub elem : ℕ → List ℕ → Bool
elem d xs = any (λ x. x == d) xs

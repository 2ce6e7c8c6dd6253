-- ===== src/Catalog/Closure.antt =====
-- src/catalog.rs: the locations that `Catalog::parse` collects, against the ids that they depend on.
use mathlib.Core.List.{reverse, reverse-cons}
use sirius_asset_updater.Base.{
  ℕ, zero, suc, ◌+◌, Text, true, ◌||◌, none, some, List, [], ◌∷◌, ◌++◌, ◌≡◌, refl, ap, subst, ◌∙◌,
  arith, ltb, ◌==◌, ==_iff, length, elem, any-append, All, All-mono, Bool-cases, inl, inr,
}
use sirius_asset_updater.Fault.{ok, Result-cases}
use sirius_asset_updater.Catalog.Types.{Location}
use sirius_asset_updater.Catalog.Parse.{has_location, insert_location, visit, read_locations}
use sirius_asset_updater.Catalog.Worklist.{visit-Visited, visit-none}

pub elem-reverse : (d : ℕ) (xs : List ℕ) → elem d (reverse xs) ≡ elem d xs
elem-reverse d [] = refl
elem-reverse d (x ∷ xs) =
    rw (reverse-cons x xs, any-append (λ y. y == d) (reverse xs) (x ∷ []))
      (ground (arith, elem-reverse d xs))

pub elem-pushed : (d : ℕ) (xs ys : List ℕ) → elem d (reverse xs ++ ys) ≡ (elem d xs || elem d ys)
elem-pushed d xs ys =
    any-append (λ y. y == d) (reverse xs) ys ∙ ap (λ b. b || elem d ys) (elem-reverse d xs)

pub elems : (xs : List ℕ) → All (λ d. elem d xs ≡ true) xs
elems [] = tt
elems (x ∷ xs) = (ground arith, All-mono _ _ (λ d h. ground arith) xs (elems xs))

has_location-insert :
    (d : ℕ) (l : Location) (locs : List Location)
    → has_location d (insert_location l locs) ≡ ((l.id == d) || has_location d locs)
unfolding has_location insert_location
has_location-insert d l [] = refl
has_location-insert d l (m ∷ ms) = ground (arith, has_location-insert d l ms)

All-insert :
    (P : Location → Type 0) (l : Location) (locs : List Location)
    → P l
    → All P locs
    → All P (insert_location l locs)
unfolding insert_location
All-insert P l [] h k = (h, tt)
All-insert P l (m ∷ ms) h (k, ks) = elim (Bool-cases (ltb l.id m.id)) [
  | inl e ↦ rw e (h, (k, ks))
  | inr e ↦ rw e (k, All-insert P l ms h ks)
]

-- Every dependency of a location is a location or still to be read.
abbrev pub Named : List Location → List ℕ → ℕ → Type 0
Named locs pending d = (has_location d locs || elem d pending) ≡ true

abbrev pub Covered : List Location → List ℕ → List Location → Type 0
Covered locs pending = All (λ l. All (Named locs pending) l.dependencies)

module _ (id : ℕ) (pending : List ℕ) (locs : List Location) where
  skip-Named :
      (d : ℕ) → has_location id locs ≡ true → Named locs (id ∷ pending) d → Named locs pending d
  skip-Named d old h = elim (Bool-cases (id == d)) [
    | inl e ↦ rw (← (==_iff id d).0 e) (ground arith)
    | inr e ↦ ground arith
  ]

  visit-Named :
      (l : Location) (d : ℕ)
      → l.id ≡ id
      → Named locs (id ∷ pending) d
      → Named (insert_location l locs) (reverse l.dependencies ++ pending) d
  visit-Named l d e h =
      rw (has_location-insert d l locs, elem-pushed d l.dependencies pending) (rw e (ground arith))

own-Named :
    (l : Location) (pending : List ℕ) (locs : List Location)
    → All (Named locs (reverse l.dependencies ++ pending)) l.dependencies
own-Named l pending locs =
    All-mono (λ d. elem d l.dependencies ≡ true) _
      (λ d h. rw (elem-pushed d l.dependencies pending) (ground arith)) l.dependencies
      (elems l.dependencies)

module _ (file : Text) where
  -- What the worklist returns holds all that it started from, and is covered.
  pub read_locations-Covered :
      (fuel : ℕ) (pending : List ℕ) (locs : List Location) (links budget : ℕ) (out : List Location)
      → Covered locs pending locs
      → read_locations file fuel pending locs links budget ≡ some (ok out)
      → Covered out [] out × ((d : ℕ) → Named locs pending d → has_location d out ≡ true)
  unfolding read_locations
  read_locations-Covered zero pending locs links budget out c h = absurd (cc)
  read_locations-Covered (suc fuel) [] locs links budget out c h =
      let e : locs ≡ out = ground arith in
      (subst (λ ls. Covered ls [] ls) e c, λ d n. rw (← e) (ground arith))
  read_locations-Covered (suc fuel) (id ∷ pending) locs links budget out c h =
      elim (Result-cases (visit file id locs links budget)) [
        | inl (x, e) ↦ absurd (ground arith)
        | inr (none, e) ↦
            let go = λ (d : ℕ) (n : Named locs (id ∷ pending) d).
              skip-Named id pending locs d (visit-none file id locs links budget e) n in
            let (a, b) =
              read_locations-Covered fuel pending locs links budget out
                (All-mono _ _ (λ m. All-mono _ _ go m.dependencies) locs c) (ground arith) in
            (a, λ d n. b d (go d n))
        | inr (some (l, left), e) ↦
            let v = visit-Visited file id locs links budget left l e in
            let go = visit-Named id pending locs l in
            let (a, b) =
              read_locations-Covered fuel (reverse l.dependencies ++ pending)
                (insert_location l locs) (links + length l.dependencies) left out
                (All-insert _ l locs (own-Named l pending (insert_location l locs))
                  (All-mono _ _ (λ m. All-mono _ _ (λ d. go d v.same) m.dependencies) locs c))
                (ground arith) in
            (a, λ d n. b d (go d v.same n))
      ]

-- ===== src/Catalog/Refusals.antt =====
-- src/catalog.rs: why `Catalog::select` refuses.
use mathlib.Core.List.{reverse, reverse-cons}
use sirius_asset_updater.Base.{
  ℕ, zero, suc, Text, text_eq, true, ◌||◌, Option, none, some, List, [], ◌∷◌, ◌++◌, ◌≡◌, ◌≢◌, refl,
  ap, sym, subst, ◌∙◌, arith, ltb, length, any, elem, map, All, All-mono, All-append, Bool-cases,
  Option-cases, inl, inr, ◌⊎◌,
}
use sirius_asset_updater.Fault.{Error, Result, ok, err, catalog, config, selection, Result-cases}
use sirius_asset_updater.Catalog.Types.{Location, Catalog, Selection}
use sirius_asset_updater.Catalog.Parse.{has_location}
use sirius_asset_updater.Catalog.Keys.{IsClosed, Listed}
use sirius_asset_updater.Catalog.Select.{
  Regexes, find_location, find_key, key_roots, roots, select_loop, selected_catalog, build_all,
  patterns, validate, wanted, wanted_roots, select_from, select, bad_key,
}
use sirius_asset_updater.Catalog.Search.{select_fuel_enough}

-- A location that is there is found, with whatever holds of every location.
find_location-All :
    (P : Location → Type 0) (id : ℕ) (locs : List Location) (l : Location)
    → All P locs
    → find_location id locs ≡ some l
    → P l
unfolding find_location
find_location-All P id [] l a h = absurd (cc)
find_location-All P id (m ∷ ms) l (a, as') h = elim (Option-cases (find_location id ms)) [
  | inr (k, e) ↦ find_location-All P id ms l as' (ground arith)
  | inl e ↦ subst P {x = m} {y = l} (ground arith) a
]

find_location-ne-none :
    (id : ℕ) (locs : List Location) → has_location id locs ≡ true → find_location id locs ≢ none
unfolding find_location has_location
find_location-ne-none id [] h e = cc
find_location-ne-none id (m ∷ ms) h e = ground (arith, find_location-ne-none id ms)

module _ (locs : List Location) where
  abbrev Has : ℕ → Type 0
  Has d = has_location d locs ≡ true

  All-reverse : (xs : List ℕ) → All Has xs → All Has (reverse xs)
  All-reverse [] h = tt
  All-reverse (x ∷ xs) (h, hs) =
      subst (All Has) (sym (reverse-cons x xs))
        (All-append Has (reverse xs) (x ∷ []) (All-reverse xs hs) (h, tt))

  -- Where every named location is there, the search does not fail.
  select_loop-ne-err :
      (fuel : ℕ) (pending selected : List ℕ) (e : Error)
      → All (λ l. All Has l.dependencies) locs
      → All Has pending
      → select_loop fuel locs pending selected ≢ some (err e)
  unfolding select_loop
  select_loop-ne-err zero pending selected e c h = λ q. cc
  select_loop-ne-err (suc fuel) [] selected e c h = λ q. cc
  select_loop-ne-err (suc fuel) (id ∷ pending) selected e c (h, hs) =
      elim (Bool-cases (elem id selected)) [
        | inl old ↦ rw (old, select_loop) (select_loop-ne-err fuel pending selected e c hs)
        | inr new ↦ elim (Option-cases (find_location id locs)) [
          | inl q ↦ absurd (find_location-ne-none id locs h q)
          | inr (l, q) ↦
              rw (new, select_loop)
                (rw q (
                  select_loop-ne-err fuel (reverse l.dependencies ++ pending) (id ∷ selected) e c (
                    All-append Has (reverse l.dependencies) pending
                      (All-reverse l.dependencies (find_location-All _ id locs l c q)) hs)))
        ]
      ]

own_ids : (locs : List Location) → All (Has locs) (map (λ (l : Location). l.id) locs)
unfolding has_location
own_ids [] = tt
own_ids (l ∷ ls) = (ground arith, All-mono _ _ (λ d h. ground arith) _ (own_ids ls))

-- The ids of a key.
find_key-All :
    (P : ℕ → Type 0) (key : Text) (index : List (Text × List ℕ)) (ids : List ℕ)
    → Listed P index
    → find_key key index ≡ some ids
    → All P ids
unfolding find_key
find_key-All P key [] ids l h = absurd (cc)
find_key-All P key ((k, old) ∷ rest) ids (l, ls) h = elim (Bool-cases (text_eq k key)) [
  | inl e ↦ subst (All P) {x = old} {y = ids} (ground arith) l
  | inr e ↦ find_key-All P key rest ids ls (ground arith)
]

-- The roots of known keys, or the error of an unknown one.
key_roots-All :
    (P : ℕ → Type 0) (keys : List Text) (index : List (Text × List ℕ))
    → Listed P index
    → (key_roots keys index ≡ err selection)
      ⊎ ((all : List ℕ) × (key_roots keys index ≡ ok all) × All P all)
unfolding key_roots
key_roots-All P [] index l = inr ([], refl, tt)
key_roots-All P (k ∷ ks) index l = go (find_key k index) refl (key_roots-All P ks index l)
  where
    go :
        (f : Option (List ℕ))
        → find_key k index ≡ f
        → (key_roots ks index ≡ err selection)
          ⊎ ((all : List ℕ) × (key_roots ks index ≡ ok all) × All P all)
        → (key_roots (k ∷ ks) index ≡ err selection)
          ⊎ ((all : List ℕ) × (key_roots (k ∷ ks) index ≡ ok all) × All P all)
    go none e more = inl (ground arith)
    go (some []) e more = inl (ground arith)
    go (some (id ∷ ids)) e (inl x) = inl (ground arith)
    go (some (id ∷ ids)) e (inr (all, x, y)) = inr (
      id ∷ (ids ++ all),
      ground arith,
      All-append P (id ∷ ids) all (find_key-All P k index (id ∷ ids) l e) y,
    )

roots-All :
    (c : Catalog) (keys : List Text)
    → IsClosed c
    → (roots c keys ≡ err selection)
      ⊎ ((all : List ℕ) × (roots c keys ≡ ok all) × All (Has c.locations) all)
unfolding roots
roots-All c [] closed = inr (map (λ (l : Location). l.id) c.locations, refl, own_ids c.locations)
roots-All c (k ∷ ks) closed = key_roots-All (Has c.locations) (k ∷ ks) c.keys closed.keys

module _ (r : Regexes) where
  build_all-err : (vs : List Text) (e : Error) → build_all r vs ≡ err e → e ≡ config
  unfolding build_all
  build_all-err [] e h = absurd (cc)
  build_all-err (v ∷ vs) e h = elim (Option-cases (r.build v)) [
    | inl q ↦ ground arith
    | inr (p, q) ↦ elim (Result-cases (build_all r vs)) [
      | inl (x, k) ↦ build_all-err vs e (k ∙ ap err (ground arith))
      | inr (ps, k) ↦ absurd (ground arith)
    ]
  ]

  patterns-err : (vs : List Text) (e : Error) → patterns r vs ≡ err e → e ≡ config
  unfolding patterns
  patterns-err vs e h = ground (arith, build_all-err vs e)

  validate-err : (s : Selection) (e : Error) → validate r s ≡ err e → e ≡ config
  unfolding validate
  validate-err s e h = elim (Bool-cases (ltb 256 (length s.keys) || any bad_key s.keys)) [
    | inl bad ↦ ground arith
    | inr good ↦ elim (Result-cases (patterns r s.include)) [
      | inl (x, q) ↦ patterns-err s.include e (q ∙ ap err (ground arith))
      | inr (i, q) ↦ elim (Result-cases (patterns r s.exclude)) [
        | inl (x, k) ↦ patterns-err s.exclude e (k ∙ ap err (ground arith))
        | inr (x, k) ↦ elim (Result-cases (patterns r s.priority)) [
          | inl (y, m) ↦ patterns-err s.priority e (m ∙ ap err (ground arith))
          | inr (y, m) ↦ absurd (ground arith)
        ]
      ]
    ]
  ]

  wanted_roots-Has :
      (locs : List Location) (include exclude : List (r.Pattern)) (ids : List ℕ)
      → All (Has locs) ids
      → (out : List ℕ) × (wanted_roots r locs include exclude ids ≡ ok out) × All (Has locs) out
  unfolding wanted_roots
  wanted_roots-Has locs include exclude [] h = ([], refl, tt)
  wanted_roots-Has locs include exclude (id ∷ ids) (h, hs) =
      let (out, e, k) = wanted_roots-Has locs include exclude ids hs in
      elim (Option-cases (find_location id locs)) [
        | inl q ↦ absurd (find_location-ne-none id locs h q)
        | inr (l, q) ↦ elim (Bool-cases (wanted r include exclude l)) [
          | inl w ↦ (id ∷ out, ground arith, (h, k))
          | inr w ↦ (out, ground arith, k)
        ]
      ]

  selected_catalog-ne-err :
      (c : Catalog) (x : Option (Result (List ℕ)))
      → x ≢ none
      → ((e : Error) → x ≢ some (err e))
      → selected_catalog c x ≢ err catalog
  selected_catalog-ne-err c none h k = λ e. h refl
  selected_catalog-ne-err c (some (err e)) h k = absurd (k e refl)
  selected_catalog-ne-err c (some (ok ids)) h k = λ e. cc

  select_from-ne-catalog :
      (c : Catalog) (starts : List ℕ)
      → IsClosed c
      → All (Has c.locations) starts
      → select_from r c starts ≢ err catalog
  unfolding select_from
  select_from-ne-catalog c [] closed h = λ e. cc
  select_from-ne-catalog c (id ∷ ids) closed h =
      selected_catalog-ne-err c _ (select_fuel_enough c.locations (id ∷ ids)) (λ e.
        select_loop-ne-err c.locations _ (reverse (id ∷ ids)) [] e closed.dependencies
          (All-reverse c.locations (id ∷ ids) h))

  -- On a closed catalog `select` reports no missing location and no cycle: it succeeds, or it refuses
  -- the selection (an unknown or empty key, or nothing wanted) or its patterns.
  pub select-ne-catalog : (c : Catalog) (s : Selection) → IsClosed c → select r c s ≢ err catalog
  unfolding select
  select-ne-catalog c s closed h = elim (Result-cases (validate r s)) [
    | inl (e, q) ↦ ground (arith, validate-err s e q)
    | inr (u, q) ↦ elim (roots-All c s.keys closed) [
      | inl k ↦ absurd (ground arith)
      | inr (all, k, has) ↦ elim (Result-cases (patterns r s.include)) [
        | inl (e, i) ↦ ground (arith, patterns-err s.include e i)
        | inr (include, i) ↦ elim (Result-cases (patterns r s.exclude)) [
          | inl (e, x) ↦ ground (arith, patterns-err s.exclude e x)
          | inr (exclude, x) ↦
              let (starts, w, held) = wanted_roots-Has c.locations include exclude all has in
              select_from-ne-catalog c starts closed held (ground arith)
        ]
      ]
    ]
  ]

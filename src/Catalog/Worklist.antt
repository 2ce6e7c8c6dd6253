-- ===== src/Catalog/Worklist.antt =====
-- src/catalog.rs: the rounds of the location worklist in `Catalog::parse`.
use mathlib.Core.List.{reverse, reverse-cons}
use sirius_asset_updater.Base.{
  ℕ, zero, suc, ◌+◌, ◌-◌, ◌≤◌, ◌<◌, Text, true, false, none, some, List, [], ◌∷◌, ◌++◌, ◌≡◌, ◌≢◌,
  refl, ap, subst, arith, ltb, leb, length, length-append, Bool-cases, inl, inr,
}
use sirius_asset_updater.Fault.{ok, Result-cases, ok-injective}
use sirius_asset_updater.Catalog.Types.{max_locations, max_links, Location}
use sirius_asset_updater.Catalog.Reader.{read_ids, read_array, read_u32, words}
use sirius_asset_updater.Catalog.Parse.{
  Keys, has_location, insert_location, read_dependencies, read_location, visit, read_locations,
  read_key, read_keys, read_table, parse_fuel, no_keys, rows,
}

pub length-reverse {ℓ} : {A : Type ℓ} (xs : List A) → length (reverse xs) ≡ length xs
length-reverse [] = refl
length-reverse (x ∷ xs) =
    omega
      (arith, ap length (reverse-cons x xs), length-append (reverse xs) (x ∷ []), length-reverse xs)

-- What a round that reads a location has checked.
pub record Visited (id : ℕ) (locs : List Location) (links : ℕ) (l : Location) : Type 0 where
  pub same : l.id ≡ id
  pub new : has_location id locs ≡ false
  pub room : length locs < max_locations
  pub few : links + length l.dependencies ≤ max_links

module _ (file : Text) where
  read_location-id :
      (id : ℕ) (deps : List ℕ) (budget left : ℕ) (l : Location)
      → read_location file id deps budget ≡ ok (l, left)
      → (l.id ≡ id) × (l.dependencies ≡ deps)
  unfolding read_location
  read_location-id id deps budget left l h = (ground arith, ground arith)

  pub visit-Visited :
      (id : ℕ) (locs : List Location) (links budget left : ℕ) (l : Location)
      → visit file id locs links budget ≡ ok (some (l, left))
      → Visited id locs links l
  unfolding visit
  visit-Visited id locs links budget left l h = elim (Bool-cases (has_location id locs)) [
    | inl old ↦ absurd (ground arith)
    | inr new ↦ elim (Bool-cases (leb max_locations (length locs))) [
      | inl full ↦ absurd (ground arith)
      | inr room ↦ elim (Result-cases (read_dependencies file id)) [
        | inl (x, r) ↦ absurd (ground arith)
        | inr (deps, r) ↦ elim (Bool-cases (ltb max_links (links + length deps))) [
          | inl many ↦ absurd (ground arith)
          | inr fits ↦ elim (Result-cases (read_location file id deps budget)) [
            | inl (x, q) ↦ absurd (ground arith)
            | inr ((m, rest), q) ↦
                let same : m ≡ l = ground arith in
                let (a, b) = read_location-id id deps budget rest m q in
                subst (Visited id locs links) same
                  (record { same = a; new = new; room = ground arith; few = rw b (ground arith) })
          ]
        ]
      ]
    ]
  ]

  -- A round that reads nothing met a location that is there.
  pub visit-none :
      (id : ℕ) (locs : List Location) (links budget : ℕ)
      → visit file id locs links budget ≡ ok none
      → has_location id locs ≡ true
  unfolding visit
  visit-none id locs links budget h = ground arith

  read_locations-ne-none :
      (fuel : ℕ) (pending : List ℕ) (locs : List Location) (links budget : ℕ)
      → links ≤ max_links
      → length pending + (max_links - links) < fuel
      → read_locations file fuel pending locs links budget ≢ none
  unfolding read_locations
  read_locations-ne-none zero pending locs links budget few h = absurd (omega arith)
  read_locations-ne-none (suc fuel) [] locs links budget few h = λ e. cc
  read_locations-ne-none (suc fuel) (id ∷ pending) locs links budget few h =
      elim (Result-cases (visit file id locs links budget)) [
        | inl (x, e) ↦ rw (e, read_locations) (λ q. cc)
        | inr (none, e) ↦
            rw (e, read_locations)
              (read_locations-ne-none fuel pending locs links budget few (omega arith))
        | inr (some (l, left), e) ↦
            rw (e, read_locations)
              (read_locations-ne-none fuel (reverse l.dependencies ++ pending)
                (insert_location l locs) (links + length l.dependencies) left
                (visit-Visited id locs links budget left l e).few
                (room l (visit-Visited id locs links budget left l e).few))
      ]
    where
      room :
          (l : Location)
          → links + length l.dependencies ≤ max_links
          → length (reverse l.dependencies ++ pending)
              + (max_links - (links + length l.dependencies))
            < fuel
      room l fits =
          omega
            (arith, length-append (reverse l.dependencies) pending, length-reverse l.dependencies)

  -- The pending locations are among the links that were counted.
  abbrev Counted : Keys → Type 0
  Counted k = (length k.pending ≤ k.links) × (k.links ≤ max_links)

  read_key-Counted : (r : ℕ × ℕ) (k k' : Keys) → Counted k → read_key file r k ≡ ok k' → Counted k'
  unfolding read_key
  read_key-Counted (object, pointer) k k' c h = elim (Result-cases (read_ids file pointer)) [
    | inl (e, q) ↦ absurd (ground arith)
    | inr (ids, q) ↦
        (ground (arith, length-append (reverse ids) k.pending, length-reverse ids), ground arith)
  ]

  read_keys-Counted :
      (rs : List (ℕ × ℕ)) (k k' : Keys) → Counted k → read_keys file rs k ≡ ok k' → Counted k'
  unfolding read_keys
  read_keys-Counted [] k k' c h = subst Counted (ok-injective h) c
  read_keys-Counted (r ∷ rs) k k' c h = elim (Result-cases (read_key file r k)) [
    | inl (e, q) ↦ absurd (ground arith)
    | inr (m, q) ↦ read_keys-Counted rs m k' (read_key-Counted r k m c q) (ground arith)
  ]

  -- The worklist of a table that was read ends within `parse_fuel` rounds.
  pub parse_fuel_enough :
      (k : Keys)
      → read_table file ≡ ok k
      → read_locations file parse_fuel k.pending [] k.links k.budget ≢ none
  unfolding read_table parse_fuel
  parse_fuel_enough k h = elim (Result-cases (read_u32 file 8)) [
    | inl (e, q) ↦ absurd (ground arith)
    | inr (pointer, q) ↦ elim (Result-cases (read_array file pointer 8)) [
      | inl (e, r) ↦ absurd (ground arith)
      | inr (table, r) ↦
          let read : read_keys file (rows (words table)) no_keys ≡ ok k = ground arith in
          let c =
            read_keys-Counted (rows (words table)) no_keys k (omega arith, omega arith) read in
          read_locations-ne-none (max_links + 1) k.pending [] k.links k.budget c.1
            (omega (arith, c.0, c.1))
    ]
  ]

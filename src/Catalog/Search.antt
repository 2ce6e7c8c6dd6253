-- ===== src/Catalog/Search.antt =====
-- src/catalog.rs: the worklist of `Catalog::select`.
use mathlib.Core.List.{reverse}
use sirius_asset_updater.Base.{
  ℕ, zero, suc, ◌+◌, ◌≤◌, ◌<◌, true, false, ◌||◌, none, some, List, [], ◌∷◌, ◌++◌, ◌≡◌, ◌≢◌, refl,
  ap, sym, subst, ◌∙◌, arith, ◌==◌, ==_iff, length, length-append, elem, Bool-cases, Option-cases,
  inl, inr,
}
use sirius_asset_updater.Fault.{ok}
use sirius_asset_updater.Catalog.Types.{Location}
use sirius_asset_updater.Catalog.Worklist.{length-reverse}
use sirius_asset_updater.Catalog.Closure.{elem-pushed, elem-reverse}
use sirius_asset_updater.Catalog.Select.{find_location, select_loop, select_fuel, link_count}

-- The dependencies of the locations that are not selected yet.
abbrev remaining : List ℕ → List Location → ℕ
remaining selected [] = 0
remaining selected (l ∷ ls) = elim (elem l.id selected) [
  | true ↦ remaining selected ls
  | false ↦ length l.dependencies + remaining selected ls
]

remaining_mono :
    (id : ℕ) (selected : List ℕ) (locs : List Location)
    → remaining (id ∷ selected) locs ≤ remaining selected locs
remaining_mono id selected [] = omega arith
remaining_mono id selected (l ∷ ls) = ground (arith, remaining_mono id selected ls)

-- Selecting a location takes its dependencies off.
remaining_found :
    (id : ℕ) (selected : List ℕ) (locs : List Location) (l : Location)
    → find_location id locs ≡ some l
    → elem id selected ≡ false
    → length l.dependencies + remaining (id ∷ selected) locs ≤ remaining selected locs
unfolding find_location
remaining_found id selected [] l h new = absurd (cc)
remaining_found id selected (m ∷ ms) l h new = elim (Option-cases (find_location id ms)) [
  | inr (k, e) ↦ ground (arith, remaining_found id selected ms l, remaining_mono id selected ms)
  | inl e ↦ ground (arith, remaining_mono id selected ms, ==_iff m.id id)
]

remaining-nil : (locs : List Location) → remaining [] locs ≡ link_count locs
unfolding link_count
remaining-nil [] = refl
remaining-nil (l ∷ ls) = ap (λ n. length l.dependencies + n) (remaining-nil ls)

select_loop-ne-none :
    (fuel : ℕ) (locs : List Location) (pending selected : List ℕ)
    → length pending + remaining selected locs < fuel
    → select_loop fuel locs pending selected ≢ none
unfolding select_loop
select_loop-ne-none zero locs pending selected h = absurd (omega arith)
select_loop-ne-none (suc fuel) locs [] selected h = λ e. cc
select_loop-ne-none (suc fuel) locs (id ∷ pending) selected h =
    elim (Bool-cases (elem id selected)) [
      | inl old ↦
          rw (old, select_loop) (select_loop-ne-none fuel locs pending selected (omega arith))
      | inr new ↦ elim (Option-cases (find_location id locs)) [
        | inl e ↦ rw (new, select_loop) (rw e (λ x. cc))
        | inr (l, e) ↦
            rw (new, select_loop)
              (rw e (
                select_loop-ne-none fuel locs (reverse l.dependencies ++ pending) (id ∷ selected) (
                  omega (
                    arith,
                    length-append (reverse l.dependencies) pending,
                    length-reverse l.dependencies,
                    remaining_found id selected locs l e new,
                  ))))
      ]
    ]

-- The search ends within its fuel, cycles included.
pub select_fuel_enough :
    (locs : List Location) (pending : List ℕ)
    → select_loop (select_fuel locs pending) locs (reverse pending) [] ≢ none
unfolding select_fuel
select_fuel_enough locs pending =
    select_loop-ne-none _ locs (reverse pending) []
      (omega (arith, length-reverse pending, remaining-nil locs))

-- What a list of roots reaches through the dependencies.
pub data Reaches (locs : List Location) (roots : List ℕ) : ℕ → Type 0 where
  root : {d : ℕ} → elem d roots ≡ true → Reaches locs roots d
  follow :
      {d : ℕ} (id : ℕ) (l : Location)
      → Reaches locs roots id
      → find_location id locs ≡ some l
      → elem d l.dependencies ≡ true
      → Reaches locs roots d

-- A selected id is found, and its dependencies are selected or pending.
abbrev Expanded : List Location → List ℕ → List ℕ → ℕ → Type 0
Expanded locs pending selected id =
    (l : Location) × (find_location id locs ≡ some l)
    × ((d : ℕ) → elem d l.dependencies ≡ true → (elem d pending || elem d selected) ≡ true)

-- What the search returns from `roots`.
pub record Found (locs : List Location) (roots selected : List ℕ) : Type 0 where
  pub rooted : (d : ℕ) → elem d roots ≡ true → elem d selected ≡ true
  pub expanded : (id : ℕ) → elem id selected ≡ true → Expanded locs [] selected id
  pub reached : (id : ℕ) → elem id selected ≡ true → Reaches locs roots id

module _ (locs : List Location) (roots : List ℕ) where
  record Invariant (pending selected : List ℕ) : Type 0 where
    rooted : (d : ℕ) → elem d roots ≡ true → (elem d pending || elem d selected) ≡ true
    expanded : (id : ℕ) → elem id selected ≡ true → Expanded locs pending selected id
    reached : (id : ℕ) → elem id selected ≡ true → Reaches locs roots id
    waiting : (id : ℕ) → elem id pending ≡ true → Reaches locs roots id

  skipped :
      (id : ℕ) (pending selected : List ℕ)
      → elem id selected ≡ true
      → (d : ℕ) → (elem d (id ∷ pending) || elem d selected) ≡ true
      → (elem d pending || elem d selected) ≡ true
  skipped id pending selected old d h = elim (Bool-cases (id == d)) [
    | inl e ↦ rw (← (==_iff id d).0 e) (ground arith)
    | inr e ↦ ground arith
  ]

  moved :
      (id : ℕ) (pending selected : List ℕ) (l : Location) (d : ℕ)
      → (elem d (id ∷ pending) || elem d selected) ≡ true
      → (elem d (reverse l.dependencies ++ pending) || elem d (id ∷ selected)) ≡ true
  moved id pending selected l d h = rw (elem-pushed d l.dependencies pending) (ground arith)

  skip-Invariant :
      (id : ℕ) (pending selected : List ℕ)
      → elem id selected ≡ true
      → Invariant (id ∷ pending) selected
      → Invariant pending selected
  skip-Invariant id pending selected old v = record {
    rooted = λ d h. skipped id pending selected old d (v.rooted d h);
    expanded = λ x h.
        let (l, e, f) = v.expanded x h in (l, e, λ d k. skipped id pending selected old d (f d k));
    reached = v.reached;
    waiting = λ x h. v.waiting x (ground arith);
  }

  visit-Invariant :
      (id : ℕ) (pending selected : List ℕ) (l : Location)
      → find_location id locs ≡ some l
      → Invariant (id ∷ pending) selected
      → Invariant (reverse l.dependencies ++ pending) (id ∷ selected)
  visit-Invariant id pending selected l e v = record {
    rooted = λ d h. moved id pending selected l d (v.rooted d h);
    expanded = λ x h. elim (Bool-cases (id == x)) [
      | inl same ↦
          subst (Expanded locs (reverse l.dependencies ++ pending) (id ∷ selected))
            ((==_iff id x).0 same)
            (l, e, λ d k. rw (elem-pushed d l.dependencies pending) (ground arith))
      | inr other ↦
          let (m, f, g) = v.expanded x (ground arith) in
          (m, f, λ d k. moved id pending selected l d (g d k))
    ];
    reached = λ x h. elim (Bool-cases (id == x)) [
      | inl same ↦ subst (Reaches locs roots) ((==_iff id x).0 same) (v.waiting id (ground arith))
      | inr other ↦ v.reached x (ground arith)
    ];
    waiting = λ x h. elim (Bool-cases (elem x l.dependencies)) [
      | inl named ↦ follow id l (v.waiting id (ground arith)) e named
      | inr other ↦ v.waiting x (ground (arith, elem-pushed x l.dependencies pending))
    ];
  }

  select_loop-Found :
      (fuel : ℕ) (pending selected out : List ℕ)
      → Invariant pending selected
      → select_loop fuel locs pending selected ≡ some (ok out)
      → Found locs roots out
  unfolding select_loop
  select_loop-Found zero pending selected out v h = absurd (cc)
  select_loop-Found (suc fuel) [] selected out v h =
      subst (Found locs roots) {x = selected} {y = out} (ground arith)
        (record { rooted = v.rooted; expanded = v.expanded; reached = v.reached })
  select_loop-Found (suc fuel) (id ∷ pending) selected out v h =
      elim (Bool-cases (elem id selected)) [
        | inl old ↦
            select_loop-Found fuel pending selected out (skip-Invariant id pending selected old v)
              (ground arith)
        | inr new ↦ elim (Option-cases (find_location id locs)) [
          | inl e ↦ absurd (ground arith)
          | inr (l, e) ↦
              select_loop-Found fuel (reverse l.dependencies ++ pending) (id ∷ selected) out
                (visit-Invariant id pending selected l e v) (ground arith)
        ]
      ]

  start : Invariant (reverse roots) []
  start = record {
    rooted = λ d h. ground (arith, elem-reverse d roots);
    expanded = λ id h. absurd (cc);
    reached = λ id h. absurd (cc);
    waiting = λ id h. root (sym (elem-reverse id roots) ∙ h);
  }

-- What the search selects holds the roots and is closed under dependencies, and every selected id is
-- reached from a root.
pub select_loop_lem :
    (locs : List Location) (roots selected : List ℕ)
    → select_loop (select_fuel locs roots) locs (reverse roots) [] ≡ some (ok selected)
    → Found locs roots selected
select_loop_lem locs roots selected h =
    select_loop-Found locs roots (select_fuel locs roots) (reverse roots) [] selected
      (start locs roots) h

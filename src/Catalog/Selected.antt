-- ===== src/Catalog/Selected.antt =====
-- src/catalog.rs: `Catalog::select` as a whole.
use mathlib.Core.List.{reverse}
use sirius_asset_updater.Base.{
  ℕ, Option, none, some, List, [], ◌∷◌, ◌≡◌, refl, subst, arith, elem, filter, inl, inr,
}
use sirius_asset_updater.Fault.{Result, ok, err, Result-cases, ok-injective}
use sirius_asset_updater.Catalog.Types.{Location, Catalog, Selection}
use sirius_asset_updater.Catalog.Select.{
  Regexes, roots, select_loop, select_fuel, selected_catalog, patterns, validate, wanted_roots,
  select_from, select,
}
use sirius_asset_updater.Catalog.Search.{Found, select_loop_lem}

-- The locations that the selection starts from.
pub record IsSelection (c : Catalog) (starts : List ℕ) (out : Catalog) : Type 0 where
  pub ids : List ℕ
  pub found : Found c.locations starts ids
  pub locations : out.locations ≡ filter (λ (l : Location). elem l.id ids) c.locations
  pub keys : out.keys ≡ []

from_search :
    (c : Catalog) (starts : List ℕ) (r : Option (Result (List ℕ))) (out : Catalog)
    → select_loop (select_fuel c.locations starts) c.locations (reverse starts) [] ≡ r
    → selected_catalog c r ≡ ok out
    → IsSelection c starts out
from_search c starts none out e h = absurd (cc)
from_search c starts (some (err x)) out e h = absurd (cc)
from_search c starts (some (ok ids)) out e h =
    subst (IsSelection c starts) (ok-injective h) (record {
      ids = ids;
      found = select_loop_lem c.locations starts ids e;
      locations = refl;
      keys = refl;
    })

module _ (r : Regexes) (c : Catalog) (s : Selection) where
  select_from-IsSelection :
      (starts : List ℕ) (out : Catalog) → select_from r c starts ≡ ok out → IsSelection c starts out
  unfolding select_from
  select_from-IsSelection [] out h = absurd (cc)
  select_from-IsSelection (id ∷ ids) out h = from_search c (id ∷ ids) _ out refl h

  -- A selection that succeeds keeps exactly the locations that the wanted roots reach through
  -- dependencies. The wanted roots are those of the keys, or all locations, that pass the patterns.
  pub select-IsSelection :
      (out : Catalog)
      → select r c s ≡ ok out
      → (starts : List ℕ) × (all : List ℕ) × (include : List (r.Pattern)) × (exclude : List
          (r.Pattern))
        × (roots c s.keys ≡ ok all)
        × (patterns r s.include ≡ ok include)
        × (patterns r s.exclude ≡ ok exclude)
        × (wanted_roots r c.locations include exclude all ≡ ok starts)
        × IsSelection c starts out
  unfolding select
  select-IsSelection out h = elim (Result-cases (validate r s)) [
    | inl (e, q) ↦ absurd (ground arith)
    | inr (u, q) ↦ elim (Result-cases (roots c s.keys)) [
      | inl (e, k) ↦ absurd (ground arith)
      | inr (all, k) ↦ elim (Result-cases (patterns r s.include)) [
        | inl (e, i) ↦ absurd (ground arith)
        | inr (include, i) ↦ elim (Result-cases (patterns r s.exclude)) [
          | inl (e, x) ↦ absurd (ground arith)
          | inr (exclude, x) ↦
              elim (Result-cases (wanted_roots r c.locations include exclude all)) [
                | inl (e, w) ↦ absurd (ground arith)
                | inr (starts, w) ↦ (
                  starts,
                  all,
                  include,
                  exclude,
                  k,
                  i,
                  x,
                  w,
                  select_from-IsSelection starts out (ground arith),
                )
              ]
        ]
      ]
    ]
  ]

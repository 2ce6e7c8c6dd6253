-- ===== src/Assets/Priority.antt =====
-- src/catalog.rs: `Selection::prioritize`, which orders the downloads of a plan.
use sirius_asset_updater.Base.{
  ℕ, suc, Text, text_leb, Bool, true, false, ◌&&◌, ◌||◌, List, [], ◌∷◌, ◌≡◌, subst, arith, ltb,
  ◌==◌, count_if, sort, insert_sorted, count_if-sort, Bool-cases, inl, inr, if◌then◌else◌,
}
use sirius_asset_updater.Base.Texts.{text_leb_total}
use sirius_asset_updater.Fault.{Result, ok, Result-cases, ◌>>=◌}
use sirius_asset_updater.Catalog.Types.{Selection}
use sirius_asset_updater.Catalog.Select.{Regexes, patterns}
use sirius_asset_updater.Assets.Plan.{Asset, Plan}

module _ (r : Regexes) where
  open r use {Pattern, is_match}

  -- The position of the first pattern that matches, or the number of patterns.
  unfoldable pub rank : List Pattern → Text → ℕ
  rank [] path = 0
  rank (p ∷ ps) path = if is_match p path then 0 else suc (rank ps path)

  -- The order of the keys of `sort_by_cached_key`.
  unfoldable pub rank_leb : List Pattern → Asset → Asset → Bool
  rank_leb ps a b =
      ltb (rank ps a.relative_path) (rank ps b.relative_path)
      || (rank ps a.relative_path == rank ps b.relative_path)
        && text_leb a.relative_path b.relative_path

  unfoldable pub prioritize : Selection → Plan → Result Plan
  prioritize s plan = do
    ps ← patterns r s.priority
    ok (record plan { assets = sort (rank_leb ps) plan.assets })

-- Each neighbour pair is in order.
abbrev pub AreOrdered : (Asset → Asset → Bool) → List Asset → Type 0
AreOrdered le [] = Unit
AreOrdered le (a ∷ []) = Unit
AreOrdered le (a ∷ b ∷ as') = (le a b ≡ true) × AreOrdered le (b ∷ as')

module _ (le : Asset → Asset → Bool) (total : (a b : Asset) → le a b ≡ false → le b a ≡ true) where
  insert_sorted-AreOrdered :
      (a : Asset) (as' : List Asset) → AreOrdered le as' → AreOrdered le (insert_sorted le a as')
  unfolding insert_sorted
  insert_sorted-AreOrdered a [] h = tt
  insert_sorted-AreOrdered a (b ∷ []) h = elim (Bool-cases (le a b)) [
    | inl e ↦ rw e (e, tt)
    | inr e ↦ rw e (total a b e, tt)
  ]
  insert_sorted-AreOrdered a (b ∷ c ∷ as') (h, hs) = elim (Bool-cases (le a b)) [
    | inl e ↦ rw e (e, (h, hs))
    | inr e ↦
        let ih = insert_sorted-AreOrdered a (c ∷ as') hs in
        rw e (elim (Bool-cases (le a c)) [
          | inl f ↦ rw f (total a b e, rw f at ih)
          | inr f ↦ rw f (h, rw f at ih)
        ])
  ]

  sort-AreOrdered : (as' : List Asset) → AreOrdered le (sort le as')
  unfolding sort
  sort-AreOrdered [] = tt
  sort-AreOrdered (a ∷ as') = insert_sorted-AreOrdered a (sort le as') (sort-AreOrdered as')

rank_leb-total :
    (r : Regexes) (ps : List (r.Pattern)) (a b : Asset)
    → rank_leb r ps a b ≡ false
    → rank_leb r ps b a ≡ true
unfolding rank_leb
rank_leb-total r ps a b h = ground (arith, text_leb_total a.relative_path b.relative_path)

-- Whether a path comes before another one: at the first pattern that matches either it matches, and if
-- both do or no pattern matches, it is not behind in the order of the paths.
pub data IsBefore (r : Regexes) (a b : Text) : List (r.Pattern) → Type 0 where
  sooner :
      {p : r.Pattern} {ps : List (r.Pattern)}
      → r.is_match p a ≡ true
      → r.is_match p b ≡ false
      → IsBefore r a b (p ∷ ps)
  together :
      {p : r.Pattern} {ps : List (r.Pattern)}
      → r.is_match p a ≡ true
      → r.is_match p b ≡ true
      → text_leb a b ≡ true
      → IsBefore r a b (p ∷ ps)
  later :
      {p : r.Pattern} {ps : List (r.Pattern)}
      → r.is_match p a ≡ false
      → r.is_match p b ≡ false
      → IsBefore r a b ps
      → IsBefore r a b (p ∷ ps)
  unmatched : text_leb a b ≡ true → IsBefore r a b []

rank_leb-IsBefore :
    (r : Regexes) (ps : List (r.Pattern)) (a b : Asset)
    → rank_leb r ps a b ≡ true
    → IsBefore r a.relative_path b.relative_path ps
unfolding rank_leb rank
rank_leb-IsBefore r [] a b h = unmatched (ground arith)
rank_leb-IsBefore r (p ∷ ps) a b h = elim (Bool-cases (r.is_match p a.relative_path)) [
  | inl e ↦ elim (Bool-cases (r.is_match p b.relative_path)) [
    | inl f ↦ together e f (ground arith)
    | inr f ↦ sooner e f
  ]
  | inr e ↦ elim (Bool-cases (r.is_match p b.relative_path)) [
    | inl f ↦ absurd (ground arith)
    | inr f ↦ later e f (rank_leb-IsBefore r ps a b (ground arith))
  ]
]

-- Each neighbour pair is in the order of the patterns.
abbrev pub ArePrioritized : (r : Regexes) → List (r.Pattern) → List Asset → Type 0
ArePrioritized r ps [] = Unit
ArePrioritized r ps (a ∷ []) = Unit
ArePrioritized r ps (a ∷ b ∷ as') =
    IsBefore r a.relative_path b.relative_path ps × ArePrioritized r ps (b ∷ as')

ordered-ArePrioritized :
    (r : Regexes) (ps : List (r.Pattern)) (as' : List Asset)
    → AreOrdered (rank_leb r ps) as'
    → ArePrioritized r ps as'
ordered-ArePrioritized r ps [] h = tt
ordered-ArePrioritized r ps (a ∷ []) h = tt
ordered-ArePrioritized r ps (a ∷ b ∷ as') (h, hs) =
    (rank_leb-IsBefore r ps a b h, ordered-ArePrioritized r ps (b ∷ as') hs)

-- A prioritized plan has the same assets, as many times each, and lists first those that match the
-- first pattern, then those that match the second one, and so on, and last those that match none, each
-- group by path.
pub prioritize-ArePrioritized :
    (r : Regexes) (s : Selection) (plan out : Plan)
    → prioritize r s plan ≡ ok out
    → (ps : List (r.Pattern)) × (patterns r s.priority ≡ ok ps)
      × ArePrioritized r ps out.assets
      × ((p : Asset → Bool) → count_if p out.assets ≡ count_if p plan.assets)
unfolding prioritize
prioritize-ArePrioritized r s plan out h = elim (Result-cases (patterns r s.priority)) [
  | inl (x, q) ↦ absurd (ground arith)
  | inr (ps, q) ↦
      let e : record plan { assets = sort (rank_leb r ps) plan.assets } ≡ out = ground arith in
      (
        ps,
        q,
        subst (λ (z : Plan). ArePrioritized r ps z.assets) e
            (ordered-ArePrioritized r ps (sort (rank_leb r ps) plan.assets)
              (sort-AreOrdered (rank_leb r ps) (rank_leb-total r ps) plan.assets)),
        λ p.
            subst (λ (z : Plan). count_if p z.assets ≡ count_if p plan.assets) e
              (count_if-sort (rank_leb r ps) p plan.assets),
      )
]

-- ===== src/Assets/Folded.antt =====
-- src/assets.rs: the paths of a plan on a file system that ignores case.
use sirius_asset_updater.Base.{
  ℕ, ◌≤◌, Text, text_eq, text_eq_iff, text_eq_refl, Bool, true, false, ◌||◌, Option, List, [], ◌∷◌,
  ◌++◌, ◌≡◌, refl, ap, sym, subst, ◌∙◌, arith, ◌==◌, length, length-map, any, map, Bool-cases, inl,
  inr,
}
use sirius_asset_updater.Base.Texts.{contains_path, distinct}
use sirius_asset_updater.Fault.{ok, Result-cases}
use sirius_asset_updater.Catalog.Types.{Catalog}
use sirius_asset_updater.Assets.Plan.{
  Plan, path_set, parents, inside_another, fold_path, check_folded, plan_locations, empty_plan,
  plan_with,
}

length-path_set : (ps : List Text) → length (path_set ps) ≤ length ps
unfolding path_set
length-path_set [] = omega arith
length-path_set (p ∷ ps) = ground (arith, length-path_set ps)

path_set-contains : (q : Text) (ps : List Text) → contains_path q (path_set ps) ≡ contains_path q ps
unfolding path_set
path_set-contains q [] = refl
path_set-contains q (p ∷ ps) = elim (Bool-cases (contains_path p (path_set ps))) [
  | inl e ↦ rw e (elim (Bool-cases (text_eq q p)) [
    | inl same ↦
        let f : q ≡ p = (text_eq_iff q p).0 same in
        path_set-contains q ps
        ∙ subst (λ z. contains_path z ps ≡ contains_path z (p ∷ ps)) (sym f)
            (ground (arith, path_set-contains p ps, text_eq_refl p))
    | inr other ↦ rw other (path_set-contains q ps)
  ])
  | inr e ↦ rw e (ap (◌||◌ (text_eq q p)) (path_set-contains q ps))
]

path_set-distinct : (ps : List Text) → length (path_set ps) ≡ length ps → distinct ps ≡ true
unfolding path_set
path_set-distinct [] h = refl
path_set-distinct (p ∷ ps) h = elim (Bool-cases (contains_path p (path_set ps))) [
  | inl e ↦ absurd (ground (arith, length-path_set ps))
  | inr e ↦ ground (arith, path_set-distinct ps, path_set-contains p ps)
]

map-contains :
    (x : ℕ) (p : Text) (ps : List Text)
    → contains_path (x ∷ p) (map (λ q. x ∷ q) ps) ≡ contains_path p ps
unfolding text_eq
map-contains x p [] = refl
map-contains x p (q ∷ qs) = ground (arith, map-contains x p qs)

-- A directory of the path is one of its parents.
parents-directory : (p r : Text) → contains_path p (parents (p ++ b'/' ∷ r)) ≡ true
unfolding parents text_eq
parents-directory [] r = refl
parents-directory (x ∷ xs) r =
    let ih = map-contains x xs (parents (xs ++ b'/' ∷ r)) ∙ parents-directory xs r in
    elim (Bool-cases (x == b'/')) [ inl e ↦ rw e ih | inr e ↦ rw e ih ]

any-false :
    (test : Text → Bool) (q : Text) (ps : List Text)
    → any test ps ≡ false
    → contains_path q ps ≡ true
    → test q ≡ false
any-false test q [] h c = absurd (cc)
any-false test q (p ∷ ps) h c = elim (Bool-cases (text_eq q p)) [
  | inl e ↦ rw ((text_eq_iff q p).0 e) (ground arith)
  | inr e ↦ any-false test q ps (ground arith) (ground arith)
]

any-true :
    (test : Text → Bool) (q : Text) (ps : List Text)
    → contains_path q ps ≡ true
    → test q ≡ true
    → any test ps ≡ true
any-true test q [] c h = absurd (cc)
any-true test q (p ∷ ps) c h = elim (Bool-cases (text_eq q p)) [
  | inl e ↦ let k : test p ≡ true = rw (← (text_eq_iff q p).0 e) h in ground arith
  | inr e ↦ ground (arith, any-true test q ps (ground arith) h)
]

-- No path is inside another one, read as a directory.
abbrev pub IsFlat : List Text → Type 0
IsFlat ps = (p r : Text) → contains_path p ps ≡ true → contains_path (p ++ b'/' ∷ r) ps ≡ false

check_folded-IsFlat :
    (plan : Plan)
    → check_folded plan ≡ ok plan
    → (distinct (map fold_path plan.assets) ≡ true) × IsFlat (map fold_path plan.assets)
unfolding check_folded inside_another
check_folded-IsFlat plan h =
    let ps = map fold_path plan.assets in
    elim (Bool-cases (length (path_set ps) == length plan.assets)) [
      | inr e ↦ absurd (ground arith)
      | inl e ↦ elim (Bool-cases (any (inside_another (path_set ps)) (path_set ps))) [
        | inl f ↦ absurd (ground arith)
        | inr f ↦ (
          path_set-distinct ps (ground (arith, length-map fold_path plan.assets)),
          λ p r m. elim (Bool-cases (contains_path (p ++ b'/' ∷ r) ps)) [
            | inr g ↦ g
            | inl g ↦
                let inside =
                  any-false (inside_another (path_set ps)) (p ++ b'/' ∷ r) (path_set ps) f
                    (path_set-contains (p ++ b'/' ∷ r) ps ∙ g) in
                let here =
                  any-true (λ q. contains_path q (path_set ps)) p (parents (p ++ b'/' ∷ r))
                    (parents-directory p r) (path_set-contains p ps ∙ m) in
                absurd (ground arith)
          ],
        )
      ]
    ]

check_folded-same : (plan out : Plan) → check_folded plan ≡ ok out → plan ≡ out
unfolding check_folded
check_folded-same plan out h = ground arith

-- The paths of a plan, in lower case, are distinct, and none is a directory of another one.
pub plan_with-IsFlat :
    (remote_dir : Text) (placeholder : Option Text) (c : Catalog) (out : Plan)
    → plan_with remote_dir placeholder c ≡ ok out
    → (distinct (map fold_path out.assets) ≡ true) × IsFlat (map fold_path out.assets)
unfolding plan_with
plan_with-IsFlat remote_dir placeholder c out h =
    elim (Result-cases (plan_locations remote_dir placeholder c.locations empty_plan)) [
      | inl (x, q) ↦ absurd (ground arith)
      | inr (plan, q) ↦
          let e : plan ≡ out = check_folded-same plan out (ground arith) in
          check_folded-IsFlat out (ground arith)
    ]

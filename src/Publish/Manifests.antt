-- ===== src/Publish/Manifests.antt =====
-- src/storage.rs: a tree with its manifest, and the entries of a manifest.
use sirius_asset_updater.Base.{
  Text, text_eq, text_eq_iff, text_eq_refl, Bool, true, false, not, ◌&&◌, ◌||◌, some, List, [], ◌∷◌,
  ◌≡◌, refl, sym, ap, subst, ◌∙◌, arith, any, all, map, filter, Bool-cases, inl, inr,
}
use sirius_asset_updater.Base.Maps.{lookup, insert}
use sirius_asset_updater.Base.Texts.{contains_path, distinct, text_eq_sym}
use sirius_asset_updater.Fault.{ok}
use sirius_asset_updater.Layout.Types.{Entry}
use sirius_asset_updater.Publish.Types.{Remote, Outside, files_key, summary_key, version_key}
use sirius_asset_updater.Publish.Stable.{Previous, by_path, parse_manifest, values}
use sirius_asset_updater.Publish.Held.{holds, agrees}

-- The keys that a publication writes of itself.
abbrev pub is_own : Text → Bool
is_own k = text_eq k files_key || text_eq k summary_key || text_eq k version_key

-- Every entry of a manifest stands under its path, and none under a key of the publication itself.
abbrev pub is_keyed : Previous → Bool
is_keyed [] = true
is_keyed ((p, e) ∷ m) = text_eq p e.path && is_keyed m

-- The manifest of the tree reads as `previous`, and each of its entries is there with its bytes.
pub record IsPublished (r : Remote) (previous : Previous) : Type 0 where
  pub read : parse_manifest (lookup text_eq files_key r) ≡ ok previous
  pub held : all (holds r) (values previous) ≡ true
  pub free : all (λ e. not (is_own e.path)) (values previous) ≡ true
  pub keyed : is_keyed previous ≡ true

-- Uploads and deletions end in some order.
pub record KeepsAll (out : Outside) : Type 0 where
  pub uploads : (p : Entry → Bool) (es : List Entry) → any p (out.upload_order es) ≡ any p es
  pub deletes : (p : Text → Bool) (ks : List Text) → any p (out.delete_order ks) ≡ any p ks

module _ {A : Type 0} where
  pub all-any : (p : A → Bool) (xs : List A) → all p xs ≡ not (any (λ x. not (p x)) xs)
  all-any p [] = refl
  all-any p (x ∷ xs) = ground (arith, all-any p xs)

  pub all-both :
      (p q : A → Bool) (xs : List A)
      → all p xs ≡ true
      → all q xs ≡ true
      → all (λ x. p x && q x) xs ≡ true
  all-both p q [] h k = refl
  all-both p q (x ∷ xs) h k = ground (arith, all-both p q xs)

  pub all-implies :
      (p q : A → Bool) (xs : List A)
      → ((x : A) → p x ≡ true → q x ≡ true)
      → all p xs ≡ true
      → all q xs ≡ true
  all-implies p q [] f h = refl
  all-implies p q (x ∷ xs) f h = ground (arith, f x, all-implies p q xs f)

  pub all-same_any :
      (p : A → Bool) (xs ys : List A)
      → any (λ x. not (p x)) ys ≡ any (λ x. not (p x)) xs
      → all p xs ≡ true
      → all p ys ≡ true
  all-same_any p xs ys e h = all-any p ys ∙ ap not e ∙ sym (all-any p xs) ∙ h

  -- What is not left out by a filter is in it.
  pub all-kept :
      (d : A → Bool) (s : A → A → Bool)
      → ((x : A) → s x x ≡ true)
      → (xs : List A) → all (λ x. not (d x) || any (λ e. s e x) (filter d xs)) xs ≡ true
  all-kept d s r [] = refl
  all-kept d s r (x ∷ xs) =
      let head : (not (d x) || any (λ e. s e x) (filter d (x ∷ xs))) ≡ true = ground (arith, r x) in
      let tail =
        all-implies (λ y. not (d y) || any (λ e. s e y) (filter d xs))
          (λ y. not (d y) || any (λ e. s e y) (filter d (x ∷ xs))) xs (λ y h. ground arith)
          (all-kept d s r xs) in
      rw head tail

  pub all-filter_of : (p q : A → Bool) (xs : List A) → all p xs ≡ true → all p (filter q xs) ≡ true
  all-filter_of p q [] h = refl
  all-filter_of p q (x ∷ xs) h = ground (arith, all-filter_of p q xs)

-- A lookup in a manifest gives an entry of the path, of which everything holds that holds of all.
pub lookup-entry :
    (q : Entry → Bool) (k : Text) (m : Previous) (e : Entry)
    → is_keyed m ≡ true
    → all q (values m) ≡ true
    → lookup text_eq k m ≡ some e
    → (e.path ≡ k) × (q e ≡ true)
unfolding lookup
lookup-entry q k [] e h a l = absurd (cc)
lookup-entry q k ((p, d) ∷ m) e h a l = elim (Bool-cases (text_eq k p)) [
  | inl s ↦
      let same : d ≡ e = ground arith in
      let x = (text_eq_iff k p).0 s ∙ (text_eq_iff p d.path).0 (ground arith) in
      (subst (λ z. z.path ≡ k) same (sym x), subst (λ z. q z ≡ true) same (ground arith))
  | inr t ↦ lookup-entry q k m e (ground arith) (ground arith) (ground arith)
]

-- Distinct paths agree.
agrees_refl : (e : Entry) → agrees e e ≡ true
agrees_refl e = ground (arith, text_eq_refl e.sha256)

abbrev pub paths : List Entry → List Text
paths = map (λ e. e.path)

agrees-absent :
    (x : Entry) (es : List Entry)
    → contains_path x.path (paths es) ≡ false
    → (all (λ e. agrees e x) es ≡ true) × (all (agrees x) es ≡ true)
agrees-absent x [] h = (refl, refl)
agrees-absent x (e ∷ es) h =
    let (a, b) = agrees-absent x es (ground arith) in
    (ground (arith, a, text_eq_sym e.path x.path), ground (arith, b))

pub distinct-agree :
    (es : List Entry) → distinct (paths es) ≡ true → all (λ x. all (λ e. agrees e x) es) es ≡ true
distinct-agree [] h = refl
distinct-agree (x ∷ es) h =
    let (a, b) = agrees-absent x es (ground arith) in
    let rest =
      all-both (agrees x) (λ y. all (λ e. agrees e y) es) es b (distinct-agree es (ground arith)) in
    rw (agrees_refl x, a) rest

-- The deleted keys are of no entry of the new manifest.
keys-apart :
    (k : Text) (es : List Entry)
    → contains_path k (paths es) ≡ false
    → all (λ x. not (text_eq x.path k)) es ≡ true
keys-apart k [] h = refl
keys-apart k (e ∷ es) h = ground (arith, keys-apart k es, text_eq_sym e.path k)

all-nothing : (es : List Entry) → all (λ x. true) es ≡ true
all-nothing [] = refl
all-nothing (e ∷ es) = all-nothing es

pub gone-apart :
    (es : List Entry) (gone : List Text)
    → all (λ k. not (contains_path k (paths es))) gone ≡ true
    → all (λ x. all (λ k. not (text_eq x.path k)) gone) es ≡ true
gone-apart es [] h = all-nothing es
gone-apart es (k ∷ gone) h =
    all-both (λ x. not (text_eq x.path k)) (λ x. all (λ j. not (text_eq x.path j)) gone) es
      (keys-apart k es (ground arith)) (gone-apart es gone (ground arith))

-- A manifest is read back as the entries that it lists.
values-insert :
    (p : Entry → Bool) (k : Text) (e : Entry) (m : Previous)
    → p e ≡ true
    → all p (values m) ≡ true
    → all p (values (insert text_eq k e m)) ≡ true
unfolding insert
values-insert p k e [] h a = ground arith
values-insert p k e ((j, d) ∷ m) h a = elim (Bool-cases (text_eq k j)) [
  | inl s ↦ rw s (ground arith)
  | inr s ↦ rw s (ground (arith, values-insert p k e m))
]

keyed-insert :
    (e : Entry) (m : Previous) → is_keyed m ≡ true → is_keyed (insert text_eq e.path e m) ≡ true
unfolding insert
keyed-insert e [] h = ground (arith, text_eq_refl e.path)
keyed-insert e ((j, d) ∷ m) h = elim (Bool-cases (text_eq e.path j)) [
  | inl s ↦ rw s (ground (arith, text_eq_sym e.path j))
  | inr s ↦ rw s (ground (arith, keyed-insert e m))
]

pub values-by_path :
    (p : Entry → Bool) (es : List Entry) (m : Previous)
    → all p es ≡ true
    → all p (values m) ≡ true
    → all p (values (by_path es m)) ≡ true
unfolding by_path
values-by_path p [] m h a = a
values-by_path p (e ∷ es) m h a =
    values-by_path p es (insert text_eq e.path e m) (ground arith)
      (values-insert p e.path e m (ground arith) a)

pub keyed-by_path :
    (es : List Entry) (m : Previous) → is_keyed m ≡ true → is_keyed (by_path es m) ≡ true
unfolding by_path
keyed-by_path [] m h = h
keyed-by_path (e ∷ es) m h = keyed-by_path es (insert text_eq e.path e m) (keyed-insert e m h)

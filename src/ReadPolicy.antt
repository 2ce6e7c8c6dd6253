-- ===== src/ReadPolicy.antt =====
-- src/read_policy.rs: which representation each class of Unity object is exported in.
use sirius_asset_updater.Base.{
  ℕ, Bool, true, false, not, ◌&&◌, ◌||◌, Option, none, some, List, [], ◌∷◌, ◌≡◌, refl, subst, arith,
  ltb, ◌==◌, length, any, all, Bool-cases, inl, inr, if◌then◌else◌,
}
use sirius_asset_updater.Fault.{Result, ok, err, config}

-- An `i32`.
pub data ℤ : Type 0 where
  pos negsuc : ℕ → ℤ

abbrev pub int_eq : ℤ → ℤ → Bool
int_eq (pos m) (pos n) = m == n
int_eq (negsuc m) (negsuc n) = m == n
int_eq _ _ = false

abbrev pub positive : ℤ → Bool
positive (pos n) = ltb 0 n
positive (negsuc n) = false

abbrev pub is_class : ℕ → ℤ → Bool
is_class n class = int_eq class (pos n)

pub data Kind : Type 0 where
  auto object_raw typetree_json image image_archive audio video text_bytes font shader obj : Kind

-- The class ids that `unity_rs_core` names.
pub record ClassIds : Type 0 where
  pub texture_2d_array : ℤ
  pub audio_clip : ℤ
  pub video_clip : ℤ
  pub movie_texture : ℤ

pub record Policy : Type 0 where
  pub default : Kind
  pub classes : List (ℤ × Kind)

abbrev pub is_auto : Kind → Bool
is_auto auto = true
is_auto _ = false

-- `BTreeMap::get`.
unfoldable pub find_class : ℤ → List (ℤ × Kind) → Option Kind
find_class class [] = none
find_class class ((c, k) ∷ rest) = if int_eq c class then some k else find_class class rest

abbrev unwrap_or : Kind → Option Kind → Kind
unwrap_or d none = d
unwrap_or d (some k) = k

unfoldable pub is_native : Policy → Bool
is_native p = is_auto p.default && all (λ (c, k). is_auto k) p.classes

same_class : (c d : ℤ) → int_eq c d ≡ true → c ≡ d
same_class (pos m) (pos n) h = ground arith
same_class (pos m) (negsuc n) h = cc
same_class (negsuc m) (pos n) h = cc
same_class (negsuc m) (negsuc n) h = ground arith

module _ (ids : ClassIds) where
  unfoldable pub supports : Kind → ℤ → Bool
  supports auto class = positive class
  supports object_raw class = positive class
  supports typetree_json class = positive class
  supports image class =
      is_class 28 class || is_class 213 class || int_eq class ids.texture_2d_array
  supports image_archive class = int_eq class ids.texture_2d_array
  supports audio class = int_eq class ids.audio_clip
  supports video class = int_eq class ids.video_clip || int_eq class ids.movie_texture
  supports text_bytes class = is_class 49 class
  supports font class = is_class 128 class
  supports shader class = is_class 48 class
  supports obj class = is_class 43 class

  unfoldable pub validate_policy : Policy → Result (Unit {0})
  validate_policy p =
      if ltb 256 (length p.classes) || any (λ (c, k). not (supports k c)) p.classes
      then err config
      else ok tt

  unfoldable pub for_class : Policy → ℤ → Result Kind
  for_class p class =
      let kind = unwrap_or p.default (find_class class p.classes) in
      if supports kind class then ok kind else err config

  found_supports :
      (class : ℤ) (k : Kind) (cs : List (ℤ × Kind))
      → any (λ (c, k'). not (supports k' c)) cs ≡ false
      → find_class class cs ≡ some k
      → supports k class ≡ true
  unfolding find_class
  found_supports class k [] a h = absurd (cc)
  found_supports class k ((c, l) ∷ cs) a h = elim (Bool-cases (int_eq c class)) [
    | inl e ↦
        let q = same_class c class e in
        let f : some l ≡ some k = rw e at h in
        let g : l ≡ k = cc in
        subst (λ c'. supports k c' ≡ true) q (subst (λ k'. supports k' c ≡ true) g (ground arith))
    | inr e ↦ found_supports class k cs (ground arith) (ground arith)
  ]

  -- In a validated policy the kind of an overridden class is the override.
  pub for_class-override :
      (p : Policy) (class : ℤ) (k : Kind)
      → validate_policy p ≡ ok tt
      → find_class class p.classes ≡ some k
      → for_class p class ≡ ok k
  unfolding validate_policy for_class
  for_class-override p class k h f =
      rw f (rw (found_supports class k p.classes (ground arith) f) refl)

  native_class :
      (class : ℤ) (cs : List (ℤ × Kind))
      → all (λ (c, k). is_auto k) cs ≡ true
      → unwrap_or auto (find_class class cs) ≡ auto
  unfolding find_class
  native_class class [] h = refl
  native_class class ((c, k) ∷ cs) h = elim (Bool-cases (int_eq c class)) [
    | inl e ↦ rw e (ground arith)
    | inr e ↦ rw e (native_class class cs (ground arith))
  ]

  auto_kind : (k : Kind) → is_auto k ≡ true → k ≡ auto
  auto_kind k h = ground arith

  -- A native policy exports every positive class in the automatic representation.
  pub for_class-native :
      (p : Policy) (class : ℤ)
      → is_native p ≡ true
      → positive class ≡ true
      → for_class p class ≡ ok auto
  unfolding is_native for_class supports
  for_class-native p class h pos_class =
      rw (auto_kind p.default (ground arith))
        (rw (native_class class p.classes (ground arith)) (rw pos_class refl))

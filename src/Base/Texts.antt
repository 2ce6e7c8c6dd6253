-- ===== src/Base/Texts.antt =====
-- Sets of strings, as lists.
use Prim.Native.Nat.{◌≤◌, ◌<◌}
use mathlib.Core.Path.{◌≡◌, refl}
use mathlib.Core.Logic.{inl, inr}
use mathlib.Core.Bool.{Bool, true, false, not, ◌&&◌}
use mathlib.Core.List.{List, [], ◌∷◌, ◌++◌}
use native.Mathlib.Omega.{arith}
use sirius_asset_updater.Base.Tests.{Bool-cases}
use sirius_asset_updater.Base.Lists.{any, length, filter, any-append}
use sirius_asset_updater.Base.Strings.{Text, text_leb, text_eq, text_eq_iff}

abbrev pub contains_path : Text → List Text → Bool
contains_path p = any (text_eq p)

-- No path is there twice.
abbrev pub distinct : List Text → Bool
distinct [] = true
distinct (p ∷ ps) = not (contains_path p ps) && distinct ps

pub text_eq_sym : (s t : Text) → text_eq s t ≡ text_eq t s
unfolding text_eq
text_eq_sym [] [] = refl
text_eq_sym [] (y ∷ t) = refl
text_eq_sym (x ∷ s) [] = refl
text_eq_sym (x ∷ s) (y ∷ t) = ground (arith, text_eq_sym s t)

-- A path that is not there may come last.
pub distinct-append :
    (ps : List Text) (q : Text)
    → distinct ps ≡ true
    → contains_path q ps ≡ false
    → distinct (ps ++ q ∷ []) ≡ true
distinct-append [] q h k = refl
distinct-append (p ∷ ps) q h k =
    ground (arith, distinct-append ps q, any-append (text_eq p) ps (q ∷ []), text_eq_sym p q)

-- All the other paths.
abbrev pub without : Text → List Text → List Text
without q = filter (λ p. not (text_eq q p))

pub length-without : (q : Text) (ps : List Text) → length (without q ps) ≤ length ps
length-without q [] = omega arith
length-without q (p ∷ ps) = ground (arith, length-without q ps)

pub without-shorter :
    (q : Text) (ps : List Text) → contains_path q ps ≡ true → length (without q ps) < length ps
without-shorter q [] h = absurd (cc)
without-shorter q (p ∷ ps) h = ground (arith, without-shorter q ps, length-without q ps)

pub contains_path-without :
    (q r : Text) (ps : List Text)
    → text_eq q r ≡ false
    → contains_path r ps ≡ true
    → contains_path r (without q ps) ≡ true
contains_path-without q r [] h k = absurd (cc)
contains_path-without q r (p ∷ ps) h k = elim (Bool-cases (text_eq q p)) [
  | inl e ↦ ground (arith, contains_path-without q r ps h, text_eq_iff q p, text_eq_sym q r)
  | inr e ↦ ground (arith, contains_path-without q r ps h)
]

pub text_leb_refl : (s : Text) → text_leb s s ≡ true
unfolding text_leb
text_leb_refl [] = refl
text_leb_refl (x ∷ s) = ground (arith, text_leb_refl s)

pub text_leb_total : (s t : Text) → text_leb s t ≡ false → text_leb t s ≡ true
unfolding text_leb
text_leb_total [] t h = absurd (cc)
text_leb_total (x ∷ s) [] h = refl
text_leb_total (x ∷ s) (y ∷ t) h = ground (arith, text_leb_total s t)

pub text_leb_trans :
    (r s t : Text) → text_leb r s ≡ true → text_leb s t ≡ true → text_leb r t ≡ true
unfolding text_leb
text_leb_trans [] s t h k = refl
text_leb_trans (x ∷ r) [] t h k = absurd (cc)
text_leb_trans (x ∷ r) (y ∷ s) [] h k = absurd (cc)
text_leb_trans (x ∷ r) (y ∷ s) (z ∷ t) h k = ground (arith, text_leb_trans r s t)

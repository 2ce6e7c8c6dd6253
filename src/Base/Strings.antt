-- ===== src/Base/Strings.antt =====
-- Rust strings as their UTF-8 bytes.
use Prim.Native.Nat.{ℕ, ◌+◌, compare, Ordering}
use Prim.Native.Char.{code}
use Prim.Native.String.{String}
use mathlib.Core.Path.{◌≡◌, refl}
use mathlib.Core.Logic.{◌↔◌, inl, inr}
use mathlib.Core.Bool.{Bool, true, false, ◌&&◌, ◌||◌}
use mathlib.Core.Option.{Option, none, some}
use mathlib.Core.List.{List, [], ◌∷◌, ◌++◌}
use native.Mathlib.Omega.{arith}
use sirius_asset_updater.Base.Tests.{◌==◌, leb, if◌then◌else◌, Bool-cases, Option-cases}

abbrev pub Text : Type 0
Text = List ℕ

-- The bytes of a literal, which is ASCII in this program.
unfoldable pub utf8 : String → Text
utf8 String.[] = []
utf8 (String.◌∷◌ c s) = code c ∷ utf8 s

unfoldable pub text_eq : Text → Text → Bool
text_eq [] [] = true
text_eq [] (y ∷ ys) = false
text_eq (x ∷ xs) [] = false
text_eq (x ∷ xs) (y ∷ ys) = (x == y) && text_eq xs ys

text_eq-eq : (s t : Text) → text_eq s t ≡ true → s ≡ t
unfolding text_eq
text_eq-eq [] [] h = refl
text_eq-eq [] (y ∷ ys) h = cc
text_eq-eq (x ∷ xs) [] h = cc
text_eq-eq (x ∷ xs) (y ∷ ys) h = ground (arith, text_eq-eq xs ys)

pub text_eq_refl : (s : Text) → text_eq s s ≡ true
unfolding text_eq
text_eq_refl [] = refl
text_eq_refl (x ∷ xs) = ground (arith, text_eq_refl xs)

pub text_eq_iff : (s t : Text) → (text_eq s t ≡ true) ↔ (s ≡ t)
text_eq_iff s t = (text_eq-eq s t, λ h. ground (arith, text_eq_refl s))

-- `Ord` of strings: byte by byte.
unfoldable pub text_leb : Text → Text → Bool
text_leb [] t = true
text_leb (x ∷ xs) [] = false
text_leb (x ∷ xs) (y ∷ ys) =
    let rest = text_leb xs ys in
    elim (compare x y) [ Ordering.lt ↦ true | Ordering.eq ↦ rest | Ordering.gt ↦ false ]

-- `str::strip_prefix`, `starts_with`, `ends_with`, `contains`.
unfoldable pub strip_prefix : Text → Text → Option Text
strip_prefix s [] = some s
strip_prefix [] (y ∷ ys) = none
strip_prefix (x ∷ xs) (y ∷ ys) = let rest = strip_prefix xs ys in if x == y then rest else none

unfoldable pub starts_with : Text → Text → Bool
unfolding strip_prefix
starts_with s p = elim (strip_prefix s p) [ none ↦ false | some _ ↦ true ]

unfoldable pub ends_with : Text → Text → Bool
unfolding text_eq
ends_with [] p = text_eq [] p
ends_with (x ∷ xs) p = text_eq (x ∷ xs) p || ends_with xs p

unfoldable pub contains : Text → Text → Bool
unfolding starts_with
contains [] p = starts_with [] p
contains (x ∷ xs) p = starts_with (x ∷ xs) p || contains xs p

-- A stripped prefix stood there.
pub strip_prefix-append : (s p r : Text) → strip_prefix s p ≡ some r → s ≡ p ++ r
unfolding strip_prefix
strip_prefix-append s [] r h = ground arith
strip_prefix-append [] (y ∷ ys) r h = cc
strip_prefix-append (x ∷ xs) (y ∷ ys) r h = ground (arith, strip_prefix-append xs ys r)

-- `str::split` at one byte.
abbrev pub cons_head : ℕ → List Text → List Text
cons_head c [] = (c ∷ []) ∷ []
cons_head c (w ∷ ws) = (c ∷ w) ∷ ws

unfoldable pub split : ℕ → Text → List Text
split c [] = [] ∷ []
split c (x ∷ xs) = if x == c then [] ∷ split c xs else cons_head x (split c xs)

-- `u8::is_ascii_digit`, `is_ascii_lowercase`, `is_ascii_alphanumeric`, `to_ascii_lowercase`.
unfoldable pub is_digit : ℕ → Bool
is_digit c = leb b'0' c && leb c b'9'

unfoldable pub is_lower : ℕ → Bool
is_lower c = leb b'a' c && leb c b'z'

unfoldable pub is_upper : ℕ → Bool
is_upper c = leb b'A' c && leb c b'Z'

unfoldable pub is_alphanumeric : ℕ → Bool
unfolding is_digit is_lower is_upper
is_alphanumeric c = is_digit c || is_lower c || is_upper c

-- A lowercase hexadecimal digit, as `is_ascii_digit() || (b'a'..=b'f').contains`.
unfoldable pub is_lower_hex : ℕ → Bool
unfolding is_digit
is_lower_hex c = is_digit c || leb b'a' c && leb c b'f'

unfoldable pub to_lower : ℕ → ℕ
unfolding is_upper
to_lower c = if is_upper c then c + 32 else c

-- `str::strip_suffix`.
unfoldable pub strip_suffix : Text → Text → Option Text
unfolding text_eq
strip_suffix [] p = if text_eq [] p then some [] else none
strip_suffix (x ∷ xs) p =
    let rest = strip_suffix xs p in
    if text_eq (x ∷ xs) p then some [] else elim rest [ none ↦ none | some s ↦ some (x ∷ s) ]

-- A stripped suffix stood there.
pub strip_suffix-whole : (s p r : Text) → strip_suffix s p ≡ some r → s ≡ r ++ p
unfolding strip_suffix
strip_suffix-whole [] p r h = elim (Bool-cases (text_eq [] p)) [
  | inl e ↦ ground (arith, text_eq-eq [] p e)
  | inr e ↦ absurd (ground arith)
]
strip_suffix-whole (x ∷ xs) p r h = elim (Bool-cases (text_eq (x ∷ xs) p)) [
  | inl e ↦ ground (arith, text_eq-eq (x ∷ xs) p e)
  | inr e ↦ elim (Option-cases (strip_suffix xs p)) [
    | inl none' ↦ absurd (ground arith)
    | inr (t, q) ↦ ground (arith, strip_suffix-whole xs p t q)
  ]
]

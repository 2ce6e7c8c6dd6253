-- ===== src/Catalog/Utf16.antt =====
-- The standard library's `String::from_utf16`, which src/catalog.rs calls: UTF-16 units to UTF-8
-- bytes, an unpaired surrogate being an error.
use sirius_asset_updater.Base.{
  ℕ, ◌+◌, ◌-◌, ◌*◌, ◌/◌, ◌%◌, Text, Bool, ◌&&◌, Option, none, some, List, [], ◌∷◌, ◌++◌, ltb, leb,
  if◌then◌else◌,
}

unfoldable pub encode_utf8 : ℕ → Text
encode_utf8 c =
    if ltb c 0x80
    then c ∷ []
    else if ltb c 0x800
    then (0xc0 + c / 64) ∷ (0x80 + c % 64) ∷ []
    else if ltb c 0x1_0000
    then (0xe0 + c / 4096) ∷ (0x80 + c / 64 % 64) ∷ (0x80 + c % 64) ∷ []
    else (0xf0 + c / 262144) ∷ (0x80 + c / 4096 % 64) ∷ (0x80 + c / 64 % 64) ∷ (0x80 + c % 64) ∷ []

unfoldable pub is_high : ℕ → Bool
is_high u = leb 0xd800 u && leb u 0xdbff

unfoldable pub is_low : ℕ → Bool
is_low u = leb 0xdc00 u && leb u 0xdfff

abbrev prepend : Text → Option Text → Option Text
prepend c none = none
prepend c (some rest) = some (c ++ rest)

unfoldable pub from_utf16 : List ℕ → Option Text
unfolding encode_utf8 is_high is_low
from_utf16 [] = some []
from_utf16 (u ∷ []) = if is_high u then none else if is_low u then none else some (encode_utf8 u)
from_utf16 (u ∷ v ∷ rest) =
    let pair =
      prepend (encode_utf8 (0x1_0000 + (u - 0xd800) * 0x400 + (v - 0xdc00))) (from_utf16 rest) in
    let single = prepend (encode_utf8 u) (from_utf16 (v ∷ rest)) in
    if is_high u then (if is_low v then pair else none) else if is_low u then none else single

-- ===== src/Assets/Prefix.antt =====
-- src/assets.rs: what `decrypt_prefix` makes of the first bytes of a bundle, and what overwriting them leaves.
use sirius_asset_updater.Base.{
  ℕ, zero, suc, ◌+◌, Text, true, not, ◌||◌, [], ◌∷◌, ◌++◌, ◌≡◌, refl, ap, sym, ◌∙◌, arith, ◌==◌,
  length, length-append, any, take, drop, min, Bool-cases, inl, inr,
}
use sirius_asset_updater.Base.Strings.{starts_with}
use sirius_asset_updater.Fault.{ok}
use sirius_asset_updater.Assets.Plan.{safe_relative}
use sirius_asset_updater.Assets.Decrypt.{
  Crypto, over, BundleKey, unity_magic, prefix_len, counter_block, decrypted, decrypt_prefix,
}

take-drop : (n : ℕ) (xs : Text) → take n xs ++ drop n xs ≡ xs
take-drop zero xs = refl
take-drop (suc n) [] = refl
take-drop (suc n) (x ∷ xs) = ap (◌∷◌ x) (take-drop n xs)

pub take-over :
    (n : ℕ) (xs front : Text) → length front ≡ length (take n xs) → take n (over front xs) ≡ front
take-over zero xs [] h = refl
take-over zero xs (p ∷ ps) h = absurd (omega (arith, h))
take-over (suc n) [] [] h = refl
take-over (suc n) [] (p ∷ ps) h = absurd (omega (arith, h))
take-over (suc n) (x ∷ xs) [] h = absurd (omega (arith, h))
take-over (suc n) (x ∷ xs) (p ∷ ps) h = ap (◌∷◌ p) (take-over n xs ps (omega (arith, h)))

pub drop-over :
    (n : ℕ) (xs front : Text)
    → length front ≡ length (take n xs)
    → drop n (over front xs) ≡ drop n xs
drop-over zero xs [] h = refl
drop-over zero xs (p ∷ ps) h = absurd (omega (arith, h))
drop-over (suc n) [] [] h = refl
drop-over (suc n) [] (p ∷ ps) h = absurd (omega (arith, h))
drop-over (suc n) (x ∷ xs) [] h = absurd (omega (arith, h))
drop-over (suc n) (x ∷ xs) (p ∷ ps) h = drop-over n xs ps (omega (arith, h))

pub length-over :
    (n : ℕ) (xs front : Text)
    → length front ≡ length (take n xs)
    → length (over front xs) ≡ length xs
length-over zero xs [] h = refl
length-over zero xs (p ∷ ps) h = absurd (omega (arith, h))
length-over (suc n) [] [] h = refl
length-over (suc n) [] (p ∷ ps) h = absurd (omega (arith, h))
length-over (suc n) (x ∷ xs) [] h = absurd (omega (arith, h))
length-over (suc n) (x ∷ xs) (p ∷ ps) h = omega (arith, length-over n xs ps (omega (arith, h)))

-- The first bytes of what overwrites a file fit in the place of what was read.
pub length-torn :
    (n m : ℕ) (xs front : Text)
    → length front ≡ length (take n xs)
    → (length (over (take m front) xs) ≡ length xs) × (drop n (over (take m front) xs) ≡ drop n xs)
length-torn n zero xs front h = (refl, refl)
length-torn n (suc m) xs [] h = (refl, refl)
length-torn zero (suc m) xs (p ∷ ps) h = absurd (omega (arith, h))
length-torn (suc n) (suc m) [] (p ∷ ps) h = absurd (omega (arith, h))
length-torn (suc n) (suc m) (x ∷ xs) (p ∷ ps) h =
    let (a, b) = length-torn n m xs ps (omega (arith, h)) in (omega (arith, a), b)

module _ (crypto : Crypto) (k : BundleKey) where
  -- The keystream is added byte by byte.
  abbrev pub KeepsLength : Type 0
  KeepsLength =
      (key counter bytes : Text) → length (crypto.apply_keystream key counter bytes) ≡ length bytes

  length-decrypted :
      KeepsLength
      → (bytes basename : Text) → length (decrypted crypto k basename bytes) ≡ length bytes
  unfolding decrypted
  length-decrypted keeps bytes basename =
      let n = min (length bytes) prefix_len in
      length-append (crypto.apply_keystream k.key (counter_block crypto k basename) (take n bytes))
        (drop n bytes)
      ∙ ap (λ m. m + length (drop n bytes))
          (keeps k.key (counter_block crypto k basename) (take n bytes))
      ∙ sym (length-append (take n bytes) (drop n bytes))
      ∙ ap length (take-drop n bytes)

  -- What an accepting `decrypt_prefix` did.
  pub prefix-accepted :
      KeepsLength
      → (bytes basename plain : Text) → decrypt_prefix crypto k bytes basename ≡ (ok tt, plain)
      → (starts_with plain unity_magic ≡ true)
        × (length plain ≡ length bytes)
        × (decrypt_prefix crypto k plain basename ≡ (ok tt, plain))
        × (starts_with bytes unity_magic ≡ true → plain ≡ bytes)
  unfolding decrypt_prefix
  prefix-accepted keeps bytes basename plain h =
      elim (Bool-cases (not (safe_relative basename) || any (λ c. c == b'/') basename)) [
        | inl bad ↦ absurd (ground arith)
        | inr good ↦ elim (Bool-cases (starts_with bytes unity_magic)) [
          | inl e ↦
              let q : bytes ≡ plain = ground arith in
              (ground arith, ground arith, ground arith, λ _. sym q)
          | inr e ↦
              let q : decrypted crypto k basename bytes ≡ plain = ground arith in
              (
                ground arith,
                ap length (sym q) ∙ length-decrypted keeps bytes basename,
                ground arith,
                λ f. absurd (ground arith),
              )
        ]
      ]

-- ===== src/Layout/Decimal.antt =====
-- src/stable_layout.rs: the numbers in the suffixes of keys.
use sirius_asset_updater.Base.{
  ℕ, zero, suc, ◌+◌, ◌-◌, ◌*◌, ◌/◌, ◌%◌, ◌<◌, Text, [], ◌∷◌, ◌≡◌, refl, sym, ap, ◌∙◌, arith, ltb,
  Bool-cases, inl, inr, map,
}
use sirius_asset_updater.Base.Strings.{to_lower}
use sirius_asset_updater.Layout.Chars.{digits, decimal}

-- What a number in decimal stands for, behind the digits of `n`.
abbrev value : ℕ → Text → ℕ
value n [] = n
value n (c ∷ s) = value (10 * n + (c - 48)) s

value-digits : (fuel n : ℕ) (acc : Text) → n < fuel → value 0 (digits fuel n acc) ≡ value n acc
unfolding digits
value-digits zero n acc h = absurd (omega arith)
value-digits (suc fuel) n acc h = elim (Bool-cases (ltb n 10)) [
  | inl small ↦ rw small (ap (λ m. value m acc) (omega arith))
  | inr large ↦ rw large (
      value-digits fuel (n / 10) ((48 + n % 10) ∷ acc) (ground arith)
      ∙ ap (λ m. value m acc) (omega arith))
]

-- Two numbers with one decimal are one.
pub decimal-injective : (m n : ℕ) → decimal m ≡ decimal n → m ≡ n
unfolding decimal
decimal-injective m n h =
    sym (value-digits (suc m) m [] (omega arith))
    ∙ ap (value 0) h
    ∙ value-digits (suc n) n [] (omega arith)

to_lower-digit : (n : ℕ) → n < 10 → to_lower (48 + n) ≡ 48 + n
unfolding to_lower
to_lower-digit n h = ground arith

to_lower-digits :
    (fuel n : ℕ) (acc : Text)
    → map to_lower acc ≡ acc
    → map to_lower (digits fuel n acc) ≡ digits fuel n acc
unfolding digits
to_lower-digits zero n acc h = h
to_lower-digits (suc fuel) n acc h = elim (Bool-cases (ltb n 10)) [
  | inl small ↦ rw (small, to_lower-digit n (ground arith), h) refl
  | inr large ↦ rw large (
      to_lower-digits fuel (n / 10) ((48 + n % 10) ∷ acc)
        (rw (to_lower-digit (n % 10) (omega arith), h) refl))
]

-- Digits have no case.
pub to_lower-decimal : (n : ℕ) → map to_lower (decimal n) ≡ decimal n
unfolding decimal
to_lower-decimal n = to_lower-digits (suc n) n [] refl

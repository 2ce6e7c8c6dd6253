-- ===== src/Layout/Clones.antt =====
-- src/stable_layout.rs: the loop over the clone suffixes of a name.
use mathlib.Core.List.{append_assoc, append-nil}
use sirius_asset_updater.Base.{
  ℕ, zero, suc, ◌+◌, ◌≤◌, Text, utf8, none, some, [], ◌∷◌, ◌++◌, ◌≡◌, refl, sym, ap, subst, ◌∙◌,
  arith, length, length-append, Option-cases, inl, inr,
}
use sirius_asset_updater.Base.Strings.{strip_suffix, strip_suffix-whole}
use sirius_asset_updater.Layout.Names.{clone_marker, stripped_or, strip_clones}

abbrev pub repeated : ℕ → Text → Text
repeated zero s = []
repeated (suc n) s = repeated n s ++ s

repeated-front : (n : ℕ) (s : Text) → s ++ repeated n s ≡ repeated n s ++ s
repeated-front zero s = append-nil s
repeated-front (suc n) s =
    sym (append_assoc s (repeated n s) s) ∙ ap (λ t. t ++ s) (repeated-front n s)

shorter : (s r : Text) → strip_suffix s clone_marker ≡ some r → suc (length r) ≤ length s
unfolding utf8
shorter s r e =
    omega (arith, ap length (strip_suffix-whole s clone_marker r e), length-append r clone_marker)

-- What `strip_clones` found behind the `count` markers that were there.
pub record AreStripped (value : Text) (count : ℕ) (found : Text × ℕ) : Type 0 where
  pub markers : ℕ
  pub counted : found.1 ≡ markers + count
  pub whole : value ≡ found.0 ++ repeated markers clone_marker
  pub none_left : strip_suffix found.0 clone_marker ≡ none

-- The loop takes all the markers at the end of a name, and counts them, in at most as many rounds as the
-- name has characters.
pub strip_clones-AreStripped :
    (fuel : ℕ) (value : Text) (count : ℕ)
    → length value ≤ fuel
    → AreStripped value count (strip_clones fuel value count)
unfolding strip_clones strip_suffix utf8
strip_clones-AreStripped zero [] count h = record {
  markers = 0;
  counted = omega arith;
  whole = refl;
  none_left = refl;
}
strip_clones-AreStripped zero (c ∷ s) count h = absurd (omega arith)
strip_clones-AreStripped (suc fuel) value count h =
    elim (Option-cases (strip_suffix value clone_marker)) [
      | inl e ↦
          subst (AreStripped value count)
            (sym (ap (stripped_or (value, count) (λ rest. strip_clones fuel rest (suc count))) e))
            (record {
              markers = 0;
              counted = omega arith;
              whole = sym (append-nil value);
              none_left = e;
            })
      | inr (r, e) ↦
          let ih = strip_clones-AreStripped fuel r (suc count) (omega (arith, shorter value r e)) in
          let found = strip_clones fuel r (suc count) in
          subst (AreStripped value count)
            (sym (ap (stripped_or (value, count) (λ rest. strip_clones fuel rest (suc count))) e))
            (record {
              markers = suc ih.markers;
              counted = omega (arith, ih.counted);
              whole =
                  strip_suffix-whole value clone_marker r e
                  ∙ ap (λ t. t ++ clone_marker) ih.whole
                  ∙ append_assoc found.0 (repeated ih.markers clone_marker) clone_marker;
              none_left = ih.none_left;
            })
    ]

-- ===== src/Layout/Taken.antt =====
-- src/stable_layout.rs: the two maps of `claim` and the entries of the plan.
use sirius_asset_updater.Base.{
  ℕ, suc, ◌+◌, Text, text_eq, text_eq_iff, text_eq_refl, Bool, true, false, none, some, List, [],
  ◌∷◌, ◌++◌, ◌≡◌, refl, sym, ap, ◌∙◌, arith, length, any, map, Bool-cases, ◌⊎◌, inl, inr,
}
use sirius_asset_updater.Base.Maps.{lookup, insert-new}
use sirius_asset_updater.Base.Texts.{contains_path, distinct, distinct-append}
use sirius_asset_updater.Layout.Chars.{Unicode}
use sirius_asset_updater.Layout.Types.{Entry}
use sirius_asset_updater.Layout.Claim.{Claims, get_elem?, holder_of, placed, content_type}

module _ (u : Unicode) where
  -- The key of an entry on a consumer that ignores case.
  abbrev pub folded : Entry → Text
  folded e = u.lowercase e.path

  abbrev pub folded_keys : List Entry → List Text
  folded_keys = map folded

  -- What the maps hold for the entries, of which the first has the place `n`.
  abbrev pub lowered_of : List Entry → List (Text × Text)
  lowered_of [] = []
  lowered_of (e ∷ es) = (folded e, e.path) ∷ lowered_of es

  abbrev pub claimed_of : ℕ → List Entry → List (Text × ℕ)
  claimed_of n [] = []
  claimed_of n (e ∷ es) = (e.path, n) ∷ claimed_of (suc n) es

  -- The maps agree with the entries, whose folded keys are distinct.
  pub record AreClaims (c : Claims) : Type 0 where
    pub by_key : c.lowered ≡ lowered_of c.plan.entries
    pub by_place : c.claimed ≡ claimed_of 0 c.plan.entries
    pub unique : distinct (folded_keys c.plan.entries) ≡ true

  abbrev has_path : Text → List Entry → Bool
  has_path p = any (λ e. text_eq p e.path)

  lowered-cases :
      (f : Text) (es : List Entry)
      → ((lookup text_eq f (lowered_of es) ≡ none) × (contains_path f (folded_keys es) ≡ false))
        ⊎ ((p : Text) × (lookup text_eq f (lowered_of es) ≡ some p)
            × (has_path p es ≡ true)
            × (u.lowercase p ≡ f))
  unfolding lookup
  lowered-cases f [] = inl (refl, refl)
  lowered-cases f (e ∷ es) = elim (Bool-cases (text_eq f (folded e))) [
    | inl same ↦ inr (
      e.path,
      rw same refl,
      ground (arith, text_eq_refl e.path),
      sym ((text_eq_iff f (folded e)).0 same),
    )
    | inr other ↦ elim (lowered-cases f es) [
      | inl (a, b) ↦ inl (ground arith, ground arith)
      | inr (p, a, b, q) ↦ inr (p, ground arith, ground arith, q)
    ]
  ]

  claimed-cases :
      (p : Text) (n : ℕ) (es : List Entry)
      → has_path p es ≡ true
      → (i : ℕ) × (e : Entry) × (lookup text_eq p (claimed_of n es) ≡ some (n + i))
        × (get_elem? es i ≡ some e)
        × (e.path ≡ p)
  unfolding lookup
  claimed-cases p n [] h = absurd (cc)
  claimed-cases p n (e ∷ es) h = elim (Bool-cases (text_eq p e.path)) [
    | inl same ↦ (0, e, ground arith, refl, sym ((text_eq_iff p e.path).0 same))
    | inr other ↦
        let (i, d, a, b, q) = claimed-cases p (suc n) es (ground arith) in
        (suc i, d, ground arith, b, q)
  ]

  -- Whether a key is taken: nothing holds it, or an entry of the plan with the same folded key does.
  pub holder_of-cases :
      (c : Claims) (key : Text) (h : AreClaims c)
      → ((holder_of u c key ≡ none)
          × (contains_path (u.lowercase key) (folded_keys c.plan.entries) ≡ false))
        ⊎ ((i : ℕ) × (e : Entry) × (holder_of u c key ≡ some (some e))
            × (get_elem? c.plan.entries i ≡ some e)
            × (folded e ≡ u.lowercase key))
  unfolding holder_of
  holder_of-cases c key h = elim (lowered-cases (u.lowercase key) c.plan.entries) [
    | inl (a, b) ↦ inl (rw (h.by_key, a) refl, b)
    | inr (p, a, b, q) ↦
        let (i, e, x, y, z) = claimed-cases p 0 c.plan.entries b in
        let at : 0 + i ≡ i = omega arith in
        inr (i, e, rw (h.by_key, h.by_place, a, x, at, y) refl, y, ap u.lowercase z ∙ q)
  ]

  lowered_of-append :
      (es : List Entry) (e : Entry)
      → lowered_of (es ++ e ∷ []) ≡ lowered_of es ++ (folded e, e.path) ∷ []
  lowered_of-append [] e = refl
  lowered_of-append (d ∷ es) e = ap (λ r. (folded d, d.path) ∷ r) (lowered_of-append es e)

  claimed_of-append :
      (n : ℕ) (es : List Entry) (e : Entry)
      → claimed_of n (es ++ e ∷ []) ≡ claimed_of n es ++ (e.path, n + length es) ∷ []
  claimed_of-append n [] e = ap (λ m. (e.path, m) ∷ []) (omega arith)
  claimed_of-append n (d ∷ es) e =
      ap (λ r. (d.path, n) ∷ r)
        (claimed_of-append (suc n) es e
          ∙ ap (λ m. claimed_of (suc n) es ++ (e.path, m) ∷ []) (omega arith))

  folded_keys-append :
      (es : List Entry) (e : Entry) → folded_keys (es ++ e ∷ []) ≡ folded_keys es ++ folded e ∷ []
  folded_keys-append [] e = refl
  folded_keys-append (d ∷ es) e = ap (λ r. folded d ∷ r) (folded_keys-append es e)

  not_claimed :
      (p : Text) (n : ℕ) (es : List Entry)
      → contains_path (u.lowercase p) (folded_keys es) ≡ false
      → lookup text_eq p (claimed_of n es) ≡ none
  unfolding lookup
  not_claimed p n [] h = refl
  not_claimed p n (e ∷ es) h = elim (Bool-cases (text_eq p e.path)) [
    | inl same ↦
        let k : u.lowercase p ≡ folded e = ap u.lowercase ((text_eq_iff p e.path).0 same) in
        absurd (ground (arith, text_eq_iff (u.lowercase p) (folded e)))
    | inr other ↦ ground (arith, not_claimed p (suc n) es)
  ]

  not_lowered :
      (f : Text) (es : List Entry)
      → contains_path f (folded_keys es) ≡ false
      → lookup text_eq f (lowered_of es) ≡ none
  unfolding lookup
  not_lowered f [] h = refl
  not_lowered f (e ∷ es) h = ground (arith, not_lowered f es)

  -- A free key may be given to an entry.
  pub placed-AreClaims :
      (c : Claims) (key : Text) (e : Entry) (n : ℕ)
      → AreClaims c
      → contains_path (u.lowercase key) (folded_keys c.plan.entries) ≡ false
      → AreClaims (placed u key e n c)
  placed-AreClaims c key e n h free =
      let es = c.plan.entries in
      let new = record e { content_type = content_type key; path = key } in
      record {
        by_key = rw (h.by_key) (
            insert-new text_eq (u.lowercase key) key (lowered_of es)
              (not_lowered (u.lowercase key) es free)
            ∙ sym (lowered_of-append es new));
        by_place = rw (h.by_place) (
            insert-new text_eq key (length es) (claimed_of 0 es) (not_claimed key 0 es free)
            ∙ ap (λ m. claimed_of 0 es ++ (key, m) ∷ []) (omega arith)
            ∙ sym (claimed_of-append 0 es new));
        unique =
            rw (folded_keys-append es new)
              (distinct-append (folded_keys es) (u.lowercase key) h.unique free);
      }

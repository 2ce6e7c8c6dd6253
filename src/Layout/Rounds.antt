-- ===== src/Layout/Rounds.antt =====
-- src/stable_layout.rs: the rounds of `claim`.
use mathlib.Core.List.{append_assoc, append_cancel_left, append_cancel_right, append-nil}
use sirius_asset_updater.Base.{
  ℕ, zero, suc, ◌≤◌, ◌<◌, Text, utf8, text_eq, text_eq_iff, true, false, none, List, [], ◌∷◌, ◌++◌,
  ◌≡◌, ◌≢◌, refl, sym, ap, ◌∙◌, arith, length, leb, Bool-cases, inl, inr,
}
use sirius_asset_updater.Base.Texts.{contains_path, without, without-shorter, contains_path-without}
use sirius_asset_updater.Layout.Chars.{Unicode, is_empty, decimal}
use sirius_asset_updater.Layout.Names.{join_ext}
use sirius_asset_updater.Layout.Types.{Entry}
use sirius_asset_updater.Layout.Claim.{Claims, key_stem, candidate, claim_loop, claim}
use sirius_asset_updater.Layout.Taken.{folded_keys, AreClaims}
use sirius_asset_updater.Layout.Claims.{claim_round-cases}
use sirius_asset_updater.Layout.Decimal.{decimal-injective}

-- What the loop relies on in the case mapping: a suffix is kept, and what stands around it is mapped
-- on its own. (Neither `_` nor a digit is a letter or ignored in the rule for the final sigma.)
pub record KeepsSuffixes (u : Unicode) : Type 0 where
  pub kept :
      (s r : Text) (n : ℕ)
      → u.lowercase (s ++ (utf8 "__dup" ++ (decimal n ++ r)))
        ≡ u.lowercase s ++ (utf8 "__dup" ++ (decimal n ++ u.lowercase r))

abbrev behind : Text → Text
behind [] = []
behind (c ∷ ext) = b'.' ∷ c ∷ ext

join_ext-behind : (stem ext : Text) → join_ext stem ext ≡ stem ++ behind ext
unfolding join_ext is_empty
join_ext-behind stem [] = sym (append-nil stem)
join_ext-behind stem (c ∷ ext) = refl

-- A candidate with a suffix is the stem, the suffix and the extension.
candidate-parts :
    (key : Text) (n : ℕ)
    → 2 ≤ n
    → candidate key n ≡ (key_stem key).0 ++ (utf8 "__dup" ++ (decimal n ++ behind (key_stem key).1))
unfolding candidate
candidate-parts key n h =
    let more : leb n 1 ≡ false = ground arith in
    let (stem, ext) = key_stem key in
    rw more (
      join_ext-behind (stem ++ utf8 "__dup" ++ decimal n) ext
      ∙ append_assoc (stem ++ utf8 "__dup") (decimal n) (behind ext)
      ∙ append_assoc stem (utf8 "__dup") (decimal n ++ behind ext))

module _ (u : Unicode) (law : KeepsSuffixes u) (key : Text) where
  abbrev folded_candidate : ℕ → Text
  folded_candidate n = u.lowercase (candidate key n)

  -- Two rounds with a suffix try different keys.
  candidates-apart :
      (m n : ℕ) → 2 ≤ m → m < n → text_eq (folded_candidate m) (folded_candidate n) ≡ false
  candidates-apart m n h k =
      let (stem, ext) = key_stem key in
      let form : (i : ℕ)
          → 2 ≤ i
          → folded_candidate i
            ≡ u.lowercase stem ++ (utf8 "__dup" ++ (decimal i ++ u.lowercase (behind ext))) =
        λ i l. ap u.lowercase (candidate-parts key i l) ∙ law.kept stem (behind ext) i in
      elim (Bool-cases (text_eq (folded_candidate m) (folded_candidate n))) [
        | inr other ↦ other
        | inl same ↦
            let e =
              sym (form m h)
              ∙ (text_eq_iff (folded_candidate m) (folded_candidate n)).0 same
              ∙ form n (omega arith) in
            let d = append_cancel_right (decimal m) (decimal n) (u.lowercase (behind ext)) (
              append_cancel_left (utf8 "__dup") (decimal m ++ u.lowercase (behind ext))
                (decimal n ++ u.lowercase (behind ext))
                (append_cancel_left (u.lowercase stem)
                  (utf8 "__dup" ++ (decimal m ++ u.lowercase (behind ext)))
                  (utf8 "__dup" ++ (decimal n ++ u.lowercase (behind ext))) e)) in
            absurd (omega (arith, decimal-injective m n d))
      ]

  -- The loop ends before the rounds are more than the taken keys that later rounds may meet.
  claim_loop-ne-none :
      (entry : Entry) (fuel n : ℕ) (c : Claims) (left : List Text)
      → AreClaims u c
      → 2 ≤ n
      → ((m : ℕ)
          → n ≤ m
          → contains_path (folded_candidate m) (folded_keys u c.plan.entries) ≡ true
          → contains_path (folded_candidate m) left ≡ true)
      → length left < fuel
      → claim_loop u fuel key entry n c ≢ none
  unfolding claim_loop
  claim_loop-ne-none entry zero n c left h two met room = absurd (omega arith)
  claim_loop-ne-none entry (suc fuel) n c left h two met room =
      elim (claim_round-cases u key entry n c h) [
        | inl (d, a, ends) ↦ rw (a, claim_loop) (λ q. cc)
        | inr (a, taken) ↦
            let here = met n (omega arith) taken in
            rw (a, claim_loop)
              (claim_loop-ne-none entry fuel (suc n) c (without (folded_candidate n) left) h
                (omega arith)
                (λ m l t.
                  contains_path-without (folded_candidate n) (folded_candidate m) left
                    (candidates-apart n m two (omega arith)) (met m (omega arith) t))
                (omega (arith, without-shorter (folded_candidate n) left here)))
      ]

  length-folded_keys : (es : List Entry) → length (folded_keys u es) ≡ length es
  length-folded_keys [] = refl
  length-folded_keys (e ∷ es) = ap suc (length-folded_keys es)

  -- The loop over the candidates of a key ends and no index is out of range, where the maps agree
  -- with the plan and the case mapping keeps suffixes.
  pub claim-ends : (entry : Entry) (c : Claims) → AreClaims u c → claim u key entry c ≢ none
  unfolding claim claim_loop
  claim-ends entry c h = elim (claim_round-cases u key entry 1 c h) [
    | inl (d, a, ends) ↦ rw (a, claim_loop) (λ q. cc)
    | inr (a, taken) ↦
        rw (a, claim_loop)
          (claim_loop-ne-none entry (suc (length c.plan.entries)) 2 c (folded_keys u c.plan.entries)
            h (omega arith) (λ m l t. t) (omega (arith, length-folded_keys c.plan.entries)))
  ]

-- ===== src/Layout/Claims.antt =====
-- src/stable_layout.rs: what a round of `claim`, and `claim`, leave.
use sirius_asset_updater.Base.{
  ℕ, zero, suc, ◌+◌, Text, text_eq, text_eq_refl, Bool, true, false, ◌&&◌, none, some, List, [],
  ◌∷◌, ◌++◌, ◌≡◌, refl, sym, subst, arith, ◌==◌, length, length-append, any, any-append, all,
  Bool-cases, ◌⊎◌, inl, inr,
}
use sirius_asset_updater.Base.Texts.{contains_path}
use mathlib.Core.Option.{some-injective}
use mathlib.Core.List.{append-nil}
use sirius_asset_updater.Layout.Chars.{Unicode}
use sirius_asset_updater.Layout.Types.{Entry}
use sirius_asset_updater.Layout.Claim.{
  Claims, get_elem?, content_type, same_content, candidate, placed, deduplicated, claim_round,
  claim_loop, claim,
}
use sirius_asset_updater.Layout.Taken.{
  folded, folded_keys, AreClaims, holder_of-cases, placed-AreClaims,
}

-- Whether the plan holds the bytes of an output, by their digest and number.
abbrev pub has_content : Entry → List Entry → Bool
has_content w = any (λ e. text_eq e.sha256 w.sha256 && e.bytes == w.bytes)

-- Whether an entry is one of an output, under some key.
abbrev pub is_from : Entry → Entry → Bool
is_from entry e =
    text_eq e.local entry.local
    && e.bytes == entry.bytes
    && text_eq e.sha256 entry.sha256
    && text_eq e.source entry.source
    && text_eq e.kind entry.kind

-- What a claim that ends leaves, from `c` to `d`.
pub record Claimed (u : Unicode) (entry : Entry) (c d : Claims) : Type 0 where
  pub claims : AreClaims u d
  pub held : has_content entry d.plan.entries ≡ true
  pub more : List Entry
  pub kept : d.plan.entries ≡ c.plan.entries ++ more
  pub own : all (is_from entry) more ≡ true
  pub counted :
      length d.plan.entries + d.plan.deduplicated ≡ 1 + length c.plan.entries + c.plan.deduplicated
  pub failures : d.plan.failed_sources ≡ c.plan.failed_sources

same_content_refl :
    (e : Entry) (key t : Text) → same_content (record e { content_type = t; path = key }) e ≡ true
same_content_refl e key t = ground (arith, text_eq_refl e.sha256)

is_from_refl :
    (e : Entry) (key t : Text) → is_from e (record e { content_type = t; path = key }) ≡ true
is_from_refl e key t =
    ground (
      arith,
      text_eq_refl e.local,
      text_eq_refl e.sha256,
      text_eq_refl e.source,
      text_eq_refl e.kind,
    )

any-get_elem? :
    (p : Entry → Bool) (es : List Entry) (i : ℕ) (e : Entry)
    → get_elem? es i ≡ some e
    → p e ≡ true
    → any p es ≡ true
any-get_elem? p [] i e h k = absurd (cc)
any-get_elem? p (d ∷ es) zero e h k = ground arith
any-get_elem? p (d ∷ es) (suc i) e h k = ground (arith, any-get_elem? p es i e)

taken-get_elem? :
    (u : Unicode) (es : List Entry) (i : ℕ) (e : Entry)
    → get_elem? es i ≡ some e
    → contains_path (folded u e) (folded_keys u es) ≡ true
taken-get_elem? u [] i e h = absurd (cc)
taken-get_elem? u (d ∷ es) zero e h =
    subst (λ x. contains_path (folded u x) (folded_keys u (d ∷ es)) ≡ true) (some-injective d e h)
      (ground (arith, text_eq_refl (folded u d)))
taken-get_elem? u (d ∷ es) (suc i) e h = ground (arith, taken-get_elem? u es i e)

module _ (u : Unicode) (key : Text) (entry : Entry) where
  placed-Claimed :
      (n : ℕ) (c : Claims)
      → AreClaims u c
      → contains_path (u.lowercase (candidate key n)) (folded_keys u c.plan.entries) ≡ false
      → Claimed u entry c (placed u (candidate key n) entry n c)
  placed-Claimed n c h free =
      let es = c.plan.entries in
      let path = candidate key n in
      let t = content_type path in
      let new : Entry = record entry { content_type = t; path = path } in
      let last = same_content_refl entry path t in
      record {
        claims = placed-AreClaims u c (candidate key n) entry n h free;
        held = ground (arith, any-append (λ e. same_content e entry) es (new ∷ []), last);
        more = new ∷ [];
        kept = refl;
        own = ground (arith, is_from_refl entry path t);
        counted = omega (arith, length-append es (new ∷ []));
        failures = refl;
      }

  deduplicated-Claimed :
      (c : Claims) (i : ℕ) (e : Entry)
      → AreClaims u c
      → get_elem? c.plan.entries i ≡ some e
      → same_content e entry ≡ true
      → Claimed u entry c (deduplicated c)
  deduplicated-Claimed c i e h at same = record {
    claims = record { by_key = h.by_key; by_place = h.by_place; unique = h.unique };
    held = any-get_elem? (λ d. same_content d entry) c.plan.entries i e at same;
    more = [];
    kept = sym (append-nil c.plan.entries);
    own = refl;
    counted = omega arith;
    failures = refl;
  }

  -- A round places the entry, finds its content, or finds another content under the candidate.
  pub claim_round-cases :
      (n : ℕ) (c : Claims) (h : AreClaims u c)
      → ((d : Claims) × (claim_round u key entry n c ≡ some (some d)) × Claimed u entry c d)
        ⊎ ((claim_round u key entry n c ≡ none)
            × (contains_path (u.lowercase (candidate key n)) (folded_keys u c.plan.entries) ≡ true))
  unfolding claim_round
  claim_round-cases n c h = elim (holder_of-cases u c (candidate key n) h) [
    | inl (a, free) ↦
        inl (placed u (candidate key n) entry n c, rw a refl, placed-Claimed n c h free)
    | inr (i, e, a, at, q) ↦ elim (Bool-cases (same_content e entry)) [
      | inl same ↦ inl (deduplicated c, rw (a, same) refl, deduplicated-Claimed c i e h at same)
      | inr other ↦ inr (
        rw (a, other) refl,
        subst (λ f. contains_path f (folded_keys u c.plan.entries) ≡ true) q
            (taken-get_elem? u c.plan.entries i e at),
      )
    ]
  ]

  -- The loop, where it ends.
  pub claim_loop-Claimed :
      (fuel n : ℕ) (c d : Claims)
      → AreClaims u c
      → claim_loop u fuel key entry n c ≡ some d
      → Claimed u entry c d
  unfolding claim_loop
  claim_loop-Claimed zero n c d h e = absurd (cc)
  claim_loop-Claimed (suc fuel) n c d h e = elim (claim_round-cases n c h) [
    | inl (d', a, ends) ↦
        subst (Claimed u entry c) (some-injective d' d (rw (a, claim_loop) at e)) ends
    | inr (a, taken) ↦ claim_loop-Claimed fuel (suc n) c d h (rw (a, claim_loop) at e)
  ]

  pub claim-Claimed :
      (c d : Claims) → AreClaims u c → claim u key entry c ≡ some d → Claimed u entry c d
  unfolding claim
  claim-Claimed c d = claim_loop-Claimed (suc (suc (length c.plan.entries))) 1 c d

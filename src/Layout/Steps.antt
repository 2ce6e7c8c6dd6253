-- ===== src/Layout/Steps.antt =====
-- src/stable_layout.rs: what a part of a run of `plan_resources` adds to the plan.
use mathlib.Core.List.{append_assoc, append-nil}
use sirius_asset_updater.Base.{
  ℕ, suc, ◌+◌, ◌==◌, Text, text_eq, Bool, true, ◌&&◌, List, [], ◌∷◌, ◌++◌, ◌≡◌, refl, sym, ap,
  subst, ◌∙◌, arith, length, any, all, any-append, all-append,
}
use sirius_asset_updater.Layout.Chars.{Unicode}
use sirius_asset_updater.Layout.Types.{Entry}
use sirius_asset_updater.Layout.Claim.{Claims}
use sirius_asset_updater.Layout.Taken.{AreClaims}
use sirius_asset_updater.Layout.Claims.{Claimed, has_content, is_from}

-- Whether the plan holds the content of each output, and each entry is of one of the outputs.
abbrev pub holds_all : List Entry → List Entry → Bool
holds_all wanted entries = all (λ w. has_content w entries) wanted

abbrev pub is_from_any : List Entry → Entry → Bool
is_from_any wanted e = any (λ w. is_from w e) wanted

-- From `c` to `d` with `n` claims, for the outputs `wanted` and past the failed resources.
pub record Adds (u : Unicode) (n : ℕ) (failures : List Text) (wanted : List Entry) (c d : Claims)
    : Type 0 where
  pub claims : AreClaims u d
  pub more : List Entry
  pub kept : d.plan.entries ≡ c.plan.entries ++ more
  pub held : holds_all wanted d.plan.entries ≡ true
  pub own : all (is_from_any wanted) more ≡ true
  pub counted :
      length d.plan.entries + d.plan.deduplicated
      ≡ n + (length c.plan.entries + c.plan.deduplicated)
  pub failed : d.plan.failed_sources ≡ c.plan.failed_sources ++ failures

holds_all-append :
    (wanted es more : List Entry)
    → holds_all wanted es ≡ true
    → holds_all wanted (es ++ more) ≡ true
holds_all-append [] es more h = refl
holds_all-append (w ∷ ws) es more h = ground (
  arith,
  holds_all-append ws es more,
  any-append (λ e. text_eq e.sha256 w.sha256 && e.bytes == w.bytes) es more,
)

is_from_any-more :
    (ws vs es : List Entry)
    → all (is_from_any ws) es ≡ true
    → all (is_from_any (ws ++ vs)) es ≡ true
is_from_any-more ws vs [] h = refl
is_from_any-more ws vs (e ∷ es) h =
    ground (arith, is_from_any-more ws vs es, any-append (λ w. is_from w e) ws vs)

is_from_any-before :
    (ws vs es : List Entry)
    → all (is_from_any vs) es ≡ true
    → all (is_from_any (ws ++ vs)) es ≡ true
is_from_any-before ws vs [] h = refl
is_from_any-before ws vs (e ∷ es) h =
    ground (arith, is_from_any-before ws vs es, any-append (λ w. is_from w e) ws vs)

is_from_any-one :
    (w : Entry) (es : List Entry) → all (is_from w) es ≡ true → all (is_from_any (w ∷ [])) es ≡ true
is_from_any-one w [] h = refl
is_from_any-one w (e ∷ es) h = ground (arith, is_from_any-one w es)

module _ (u : Unicode) where
  pub Adds_refl : (c : Claims) → AreClaims u c → Adds u 0 [] [] c c
  Adds_refl c h = record {
    claims = h;
    more = [];
    kept = sym (append-nil c.plan.entries);
    held = refl;
    own = refl;
    counted = omega arith;
    failed = sym (append-nil c.plan.failed_sources);
  }

  pub Adds_trans :
      (m n : ℕ) (f g : List Text) (ws vs : List Entry) (a b c : Claims)
      → Adds u m f ws a b
      → Adds u n g vs b c
      → Adds u (m + n) (f ++ g) (ws ++ vs) a c
  Adds_trans m n f g ws vs a b c h k = record {
    claims = k.claims;
    more = h.more ++ k.more;
    kept = k.kept ∙ ap (λ es. es ++ k.more) h.kept ∙ append_assoc a.plan.entries h.more k.more;
    held =
        all-append (λ w. has_content w c.plan.entries) ws vs
          (subst (λ es. holds_all ws es ≡ true) (sym k.kept)
            (holds_all-append ws b.plan.entries k.more h.held))
          k.held;
    own =
        all-append (is_from_any (ws ++ vs)) h.more k.more (is_from_any-more ws vs h.more h.own)
          (is_from_any-before ws vs k.more k.own);
    counted = omega (arith, h.counted, k.counted);
    failed = k.failed ∙ ap (λ s. s ++ g) h.failed ∙ append_assoc a.plan.failed_sources f g;
  }

  -- The first claim of an output, and the further ones, which have the same content.
  pub Adds_claimed : (e : Entry) (c d : Claims) → Claimed u e c d → Adds u 1 [] (e ∷ []) c d
  Adds_claimed e c d h = record {
    claims = h.claims;
    more = h.more;
    kept = h.kept;
    held = ground (arith, h.held);
    own = is_from_any-one e h.more h.own;
    counted = omega (arith, h.counted);
    failed = h.failures ∙ sym (append-nil c.plan.failed_sources);
  }

  pub Adds_again :
      (n : ℕ) (e : Entry) (a b c : Claims)
      → Adds u 1 [] (e ∷ []) a b
      → Adds u n [] (e ∷ []) b c
      → Adds u (suc n) [] (e ∷ []) a c
  unfolding Adds_trans
  Adds_again n e a b c h k =
      let both = Adds_trans 1 n [] [] (e ∷ []) (e ∷ []) a b c h k in
      record {
        claims = both.claims;
        more = both.more;
        kept = both.kept;
        held = k.held;
        own = all-append (is_from_any (e ∷ [])) h.more k.more h.own k.own;
        counted = omega (arith, both.counted);
        failed = both.failed;
      }

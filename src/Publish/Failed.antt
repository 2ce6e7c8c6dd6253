-- ===== src/Publish/Failed.antt =====
-- src/storage.rs: a publication of a stable layout that fails, of which the version is the last object.
use sirius_asset_updater.Base.{
  Text, utf8, text_eq, text_eq_iff, Bool, true, false, not, Option, none, some, List, [], ◌∷◌, ◌++◌,
  ◌≡◌, refl, sym, ap, subst, ◌∙◌, arith, all, map, Bool-cases, inl, inr,
}
use sirius_asset_updater.Base.Maps.{lookup}
use sirius_asset_updater.Base.Texts.{contains_path, text_eq_sym}
use sirius_asset_updater.Fault.{Error, Result, ok, err}
use sirius_asset_updater.Layout.Chars.{Unicode}
use sirius_asset_updater.Layout.Types.{Options, Entry, Plan}
use sirius_asset_updater.Publish.Types.{
  StableCounts, Object, manifest, summary, version, Remote, Outcome, finished, Outside, files_key,
  summary_key, version_key,
}
use sirius_asset_updater.Publish.Stable.{
  Previous, pending, keys, values, carried, stale, cleared, write_one, upload_all, delete_all,
  then_with, differs, read_error, version_of, write_own, counts_of, publish_after, publish_stable,
}
use sirius_asset_updater.Publish.Held.{apart-write_one, apart-upload_all, apart-delete_all}
use sirius_asset_updater.Publish.Manifests.{
  is_own, is_keyed, IsPublished, KeepsAll, all-implies, all-same_any, all-filter_of,
}
use sirius_asset_updater.Publish.Renewed.{previous-read}

-- A chain that fails keeps what its parts keep until one of them fails.
failed-then_with {ℓ} :
    {A : Type ℓ} (k : Text) (o : Option Object) (run : Result (Unit {0}) × Remote)
    (next : Remote → Result A × Remote) (e : Error) (s : Remote)
    → lookup text_eq k run.1 ≡ o
    → ((t : Remote) → lookup text_eq k t ≡ o → next t ≡ (err e, s) → lookup text_eq k s ≡ o)
    → then_with run next ≡ (err e, s)
    → lookup text_eq k s ≡ o
failed-then_with k o (err x, t) next e s h f p = ap (λ z. lookup text_eq k z.1) (sym p) ∙ h
failed-then_with k o (ok u, t) next e s h f p = f t h p

version-apart : (text_eq version_key files_key ≡ false) × (text_eq version_key summary_key ≡ false)
unfolding utf8 text_eq
version-apart = (refl, refl)

module _ (u : Unicode) (out : Outside) (options : Options) (plan : Plan) (id : Text) where
  read_error-same : (x : Option Error) (r : Remote) → (read_error u out options plan id x r).1 ≡ r
  read_error-same none r = refl
  read_error-same (some e) r = refl

  failed-write_own :
      (current : List Entry) (counts : StableCounts) (e : Error) (r s : Remote)
      → out.write version_key ≡ finished
      → write_own u out options plan id current counts r ≡ (err e, s)
      → lookup text_eq version_key s ≡ lookup text_eq version_key r
  failed-write_own current counts e r s w p =
      let o = lookup text_eq version_key r in
      let v = version (version_of u out options plan id current counts) in
      let last : Remote → Result StableCounts × Remote =
        λ c. then_with (write_one version_key v (out.write version_key) c) (λ d. (ok counts, d)) in
      let small : Remote → Result (Unit {0}) × Remote =
        λ b. write_one summary_key summary (out.write summary_key) b in
      let read : Remote → Result (Unit {0}) × Remote =
        λ a. read_error u out options plan id out.read_summary a in
      let list = manifest (map cleared current) in
      let (f, m) = version-apart in
      failed-then_with version_key o (write_one files_key list (out.write files_key) r)
        (λ a. then_with (read a) (λ b. then_with (small b) last)) e s
        (apart-write_one version_key files_key list (out.write files_key) r f)
        (λ a qa.
          failed-then_with version_key o (read a) (λ b. then_with (small b) last) e s
            (ap (lookup text_eq version_key) (read_error-same out.read_summary a) ∙ qa)
            (λ b qb.
              failed-then_with version_key o (small b) last e s
                (apart-write_one version_key summary_key summary (out.write summary_key) b m ∙ qb)
                (λ c qc pc.
                  let fails : Outcome → Type 0 = λ x.
                    then_with (write_one version_key v x c) (λ d. (ok counts, d)) ≡ (err e, s) in
                  let succeeds : fails finished = subst fails w pc in absurd (ground arith))))
        p

own-apart :
    (es : List Entry)
    → all (λ e. not (is_own e.path)) es ≡ true
    → all (λ e. not (text_eq version_key e.path)) es ≡ true
own-apart es h =
    all-implies (λ e. not (is_own e.path)) (λ e. not (text_eq version_key e.path)) es
      (λ e f. ground (arith, text_eq_sym version_key e.path)) h

keys-own :
    (m : Previous)
    → is_keyed m ≡ true
    → all (λ e. not (is_own e.path)) (values m) ≡ true
    → all (λ k. not (text_eq version_key k)) (keys m) ≡ true
keys-own [] h f = refl
keys-own ((p, e) ∷ m) h f =
    let q = (text_eq_iff p e.path).0 (ground arith) in
    let head : not (text_eq version_key p) ≡ true =
      subst (λ z. not (text_eq version_key z) ≡ true) (sym q)
        (ground (arith, text_eq_sym version_key e.path)) in
    ground (arith, keys-own m, head)

pending-apart :
    (m : Previous) (es : List Entry)
    → all (λ e. not (is_own e.path)) es ≡ true
    → all (λ e. not (text_eq version_key e.path)) (pending m es) ≡ true
unfolding pending
pending-apart m es f =
    all-filter_of (λ e. not (text_eq version_key e.path)) (λ e. differs (lookup text_eq e.path m) e)
      es (own-apart es f)

stale-apart :
    (options : Options) (m : Previous) (current : List Entry)
    → all (λ k. not (text_eq version_key k)) (keys m) ≡ true
    → all (λ k. not (text_eq version_key k)) (stale options m current) ≡ true
unfolding stale
stale-apart options m current h = elim (Bool-cases options.prune) [
  | inr e ↦ rw e refl
  | inl e ↦ rw e (
      all-filter_of (λ k. not (text_eq version_key k))
        (λ k. not (contains_path k (map (λ e. e.path) current))) (keys m) h)
]

module _ (u : Unicode) (out : Outside) (order : KeepsAll out) (options : Options) (plan : Plan)
    (id : Text) (r s : Remote) (previous : Previous) (e : Error) where
  failed-publish_after :
      IsPublished r previous
      → all (λ x. not (is_own x.path)) plan.entries ≡ true
      → out.write version_key ≡ finished
      → publish_after u out options plan id r (ok previous) ≡ (err e, s)
      → lookup text_eq version_key s ≡ lookup text_eq version_key r
  failed-publish_after h f w p =
      let o = lookup text_eq version_key r in
      let current : List Entry = plan.entries ++ carried u plan previous in
      let gone = stale options previous current in
      let counts = counts_of u out options plan id previous gone in
      let ps = pending previous plan.entries in
      let q : Text → Bool = λ k. text_eq version_key k in
      let uploads =
        all-same_any (λ x. not (q x.path)) ps (out.upload_order ps)
          (order.uploads (λ x. not (not (q x.path))) ps) (pending-apart previous plan.entries f) in
      let deletes =
        all-same_any (λ k. not (q k)) gone (out.delete_order gone)
          (order.deletes (λ k. not (not (q k))) gone)
          (stale-apart options previous current (keys-own previous h.keyed h.free)) in
      let own : Remote → Result StableCounts × Remote =
        λ b. write_own u out options plan id current counts b in
      let del : Remote → Result (Unit {0}) × Remote =
        λ a. delete_all out (out.delete_order gone) a in
      failed-then_with version_key o (upload_all out (out.upload_order ps) r)
        (λ a. then_with (del a) own) e s
        (apart-upload_all out version_key (out.upload_order ps) r uploads)
        (λ a qa.
          failed-then_with version_key o (del a) own e s
            (apart-delete_all out version_key (out.delete_order gone) a deletes ∙ qa)
            (λ b qb pb. failed-write_own u out options plan id current counts e b s w pb ∙ qb))
        p

  -- Where the manifest of the tree is true, uploads and deletions only change order, no planned path is
  -- of the publication itself and the write of the version does not fail, a publication that fails
  -- leaves the version of the tree as it was.
  pub publish_stable-version_last :
      IsPublished r previous
      → all (λ x. not (is_own x.path)) plan.entries ≡ true
      → out.write version_key ≡ finished
      → publish_stable u out options plan id r ≡ (err e, s)
      → lookup text_eq version_key s ≡ lookup text_eq version_key r
  unfolding publish_stable
  publish_stable-version_last h f w p =
      let after : Result Previous → Type 0 =
        λ z. publish_after u out options plan id r z ≡ (err e, s) in
      elim (previous-read out r previous h) [
        | inl q ↦ failed-publish_after h f w (subst after q p)
        | inr (x, q) ↦
            let same : after (err x) = subst after q p in
            ap (λ z. lookup text_eq version_key z.1) (sym same)
      ]

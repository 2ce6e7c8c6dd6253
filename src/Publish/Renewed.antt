-- ===== src/Publish/Renewed.antt =====
-- src/storage.rs: the tree behind a publication of a stable layout.
use sirius_asset_updater.Base.{
  Text, text_eq, text_eq_refl, true, not, some, List, [], ◌++◌, ◌≡◌, sym, ap, subst, ◌∙◌, arith,
  all, all-append, map, Option-cases, ◌⊎◌, inl, inr,
}
use sirius_asset_updater.Base.Maps.{lookup, insert, lookup-insert}
use sirius_asset_updater.Base.Texts.{distinct}
use sirius_asset_updater.Fault.{Error, Result, ok, err}
use sirius_asset_updater.Layout.Chars.{Unicode}
use sirius_asset_updater.Layout.Types.{Options, Entry, Plan}
use sirius_asset_updater.Publish.Types.{
  StableCounts, manifest, summary, version, Remote, Outside, files_key, summary_key, version_key,
}
use sirius_asset_updater.Publish.Stable.{
  Previous, by_path, previous_manifest, pending, carried, stale, cleared, upload_all, delete_all,
  then_with, write_own, publish_after, publish_stable, version_of, counts_of, read_or,
}
use sirius_asset_updater.Publish.Held.{holds}
use sirius_asset_updater.Publish.Manifests.{is_own, IsPublished, KeepsAll, all-implies, paths}
use sirius_asset_updater.Publish.Published.{
  planned-held, is_kept, carried-kept, carried-held, deleted-held,
}
use sirius_asset_updater.Publish.Written.{then_with-ok, write_own-written, written-IsPublished}

pub previous-read :
    (out : Outside) (r : Remote) (previous : Previous)
    → IsPublished r previous
    → (previous_manifest out r ≡ ok previous) ⊎ ((e : Error) × (previous_manifest out r ≡ err e))
unfolding previous_manifest
previous-read out r previous h = elim (Option-cases out.read_manifest) [
  | inl e ↦ inl (ap (λ z. read_or z r) e ∙ h.read)
  | inr (x, e) ↦ inr (x, ap (λ z. read_or z r) e)
]

module _ (u : Unicode) (out : Outside) (order : KeepsAll out) (options : Options) (plan : Plan)
    (id : Text) (r s : Remote) (previous : Previous) (c : StableCounts) where
  -- The entries of the manifest that is written.
  abbrev pub current : List Entry
  current = plan.entries ++ carried u plan previous

  read-previous :
      IsPublished r previous
      → publish_stable u out options plan id r ≡ (ok c, s)
      → publish_after u out options plan id r (ok previous) ≡ (ok c, s)
  unfolding publish_stable
  read-previous h p =
      let after : Result Previous → Type 0 =
        λ z. publish_after u out options plan id r z ≡ (ok c, s) in
      elim (previous-read out r previous h) [
        | inl q ↦ subst after q p
        | inr (e, q) ↦ let broken_off : after (err e) = subst after q p in absurd (ground arith)
      ]

  current-free :
      IsPublished r previous
      → all (λ e. not (is_own e.path)) plan.entries ≡ true
      → all (λ e. not (is_own e.path)) current ≡ true
  current-free h f =
      all-append (λ e. not (is_own e.path)) plan.entries (carried u plan previous) f
        (all-implies (is_kept u out order options plan id r previous) (λ e. not (is_own e.path))
          (carried u plan previous) (λ e kept. ground arith)
          (carried-kept u out order options plan id r previous h))

  -- Where the manifest of the tree is true (each listed object is there with its bytes), uploads and
  -- deletions only change order, and the planned paths are distinct and none of the publication itself,
  -- a publication that succeeds leaves a true manifest that lists the planned and the carried entries,
  -- and a version with its counts.
  pub publish_stable-IsPublished :
      IsPublished r previous
      → distinct (paths plan.entries) ≡ true
      → all (λ e. not (is_own e.path)) plan.entries ≡ true
      → publish_stable u out options plan id r ≡ (ok c, s)
      → IsPublished s (by_path (map cleared current) [])
        × (lookup text_eq version_key s
            ≡ some (version (version_of u out options plan id current c)))
  publish_stable-IsPublished h d f p =
      let gone = stale options previous current in
      let counts = counts_of u out options plan id previous gone in
      let up = upload_all out (out.upload_order (pending previous plan.entries)) r in
      let del : Remote → Result (Unit {0}) × Remote =
        λ a. delete_all out (out.delete_order gone) a in
      let own : Remote → Result StableCounts × Remote =
        λ b. write_own u out options plan id current counts b in
      let (k1, h1) = then_with-ok up (λ a. then_with (del a) own) c s (read-previous h p) in
      let (k2, h2) = then_with-ok (del up.1) own c s h1 in
      let (e, q) = write_own-written u out options plan id current counts c (del up.1).1 s h2 in
      let held : all (holds up.1) current ≡ true =
        all-append (holds up.1) plan.entries (carried u plan previous)
          (planned-held u out order options plan id r previous h d k1)
          (carried-held u out order options plan id r previous h k1) in
      let left : all (holds (del up.1).1) current ≡ true =
        deleted-held u out order options plan id r previous current up.1 held in
      let v = version_of u out options plan id current counts in
      let a = insert text_eq files_key (manifest (map cleared current)) (del up.1).1 in
      let renewed = written-IsPublished current v (del up.1).1 left (current-free h f) in
      (
        subst (λ z. IsPublished z (by_path (map cleared current) [])) (sym e) renewed,
        ap (lookup text_eq version_key) e
            ∙ lookup-insert text_eq text_eq_refl version_key (version v)
                (insert text_eq summary_key summary a)
            ∙ ap (λ z. some (version (version_of u out options plan id current z))) (sym q),
      )

-- ===== src/Publish/Published.antt =====
-- src/storage.rs: a publication of a stable layout on a tree whose manifest is true.
use sirius_asset_updater.Base.{
  Text, text_eq, text_eq_iff, text_eq_refl, Bool, true, false, not, ◌&&◌, ◌||◌, Option, none, some,
  List, [], ◌∷◌, ◌≡◌, refl, sym, ap, subst, ◌∙◌, arith, any, all, filter, ◌==◌, length, sort,
  any-sort, Bool-cases, Option-cases, inl, inr,
}
use sirius_asset_updater.Base.Maps.{lookup}
use sirius_asset_updater.Base.Texts.{contains_path, distinct}
use sirius_asset_updater.Fault.{ok}
use sirius_asset_updater.Layout.Chars.{Unicode}
use sirius_asset_updater.Layout.Types.{Options, Entry, Plan}
use sirius_asset_updater.Publish.Types.{
  Object, file, manifest, summary, version, other, Remote, Outside,
}
use sirius_asset_updater.Publish.Stable.{
  Previous, differs, pending, values, keys, carried, is_carried, folded_paths, path_leb, stale,
  upload_all, delete_all,
}
use sirius_asset_updater.Publish.Held.{held_by, holds, agrees, apart-delete_all, upload_all-holds}
use sirius_asset_updater.Publish.Manifests.{
  is_own, IsPublished, KeepsAll, all-both, all-implies, all-same_any, all-kept, all-filter_of,
  lookup-entry, paths, distinct-agree, gone-apart,
}

held_by-same :
    (p x : Entry) (o : Option Object)
    → (p.bytes == x.bytes) ≡ true
    → text_eq p.sha256 x.sha256 ≡ true
    → held_by p o ≡ true
    → held_by x o ≡ true
held_by-same p x none b t h = absurd (cc)
held_by-same p x (some (file n s c)) b t h =
    let q = (text_eq_iff p.sha256 x.sha256).0 t in
    let q' : text_eq s x.sha256 ≡ true = subst (λ z. text_eq s z ≡ true) q (ground arith) in
    ground arith
held_by-same p x (some (manifest es)) b t h = absurd (cc)
held_by-same p x (some summary) b t h = absurd (cc)
held_by-same p x (some (version v)) b t h = absurd (cc)
held_by-same p x (some (other s)) b t h = absurd (cc)

-- An entry that the manifest already has is held.
unchanged-held :
    (r : Remote) (previous : Previous) (x : Entry)
    → IsPublished r previous
    → differs (lookup text_eq x.path previous) x ≡ false
    → holds r x ≡ true
unchanged-held r previous x h same = elim (Option-cases (lookup text_eq x.path previous)) [
  | inl e ↦ absurd (ground arith)
  | inr (p, e) ↦
      let (path, held) = lookup-entry (holds r) x.path previous p h.keyed h.held e in
      let f = rw e at same in
      let at = subst (λ k. held_by p (lookup text_eq k r) ≡ true) path held in
      held_by-same p x (lookup text_eq x.path r) (ground arith) (ground arith) at
]

all-passed : {A : Type 0} (q : A → Bool) (xs : List A) → all q (filter q xs) ≡ true
all-passed q [] = refl
all-passed q (x ∷ xs) = ground (arith, all-passed q xs)

-- An entry whose folded path is of no planned entry agrees with all of them.
agrees-folded :
    (u : Unicode) (x : Entry) (es : List Entry)
    → contains_path (u.lowercase x.path) (folded_paths u es) ≡ false
    → all (λ e. agrees e x) es ≡ true
agrees-folded u x [] h = refl
agrees-folded u x (e ∷ es) h = elim (Bool-cases (text_eq e.path x.path)) [
  | inr apart ↦ ground (arith, agrees-folded u x es)
  | inl same ↦
      let q = ap u.lowercase ((text_eq_iff e.path x.path).0 same) in
      let clash = (text_eq_iff (u.lowercase x.path) (u.lowercase e.path)).1 (sym q) in
      absurd (ground arith)
]

module _ (u : Unicode) (out : Outside) (order : KeepsAll out) (options : Options) (plan : Plan)
    (id : Text) (r : Remote) (previous : Previous) where
  -- Behind the uploads, each planned entry is held.
  pub planned-held :
      IsPublished r previous
      → distinct (paths plan.entries) ≡ true
      → (upload_all out (out.upload_order (pending previous plan.entries)) r).0 ≡ ok tt
      → all
          (holds (upload_all out (out.upload_order (pending previous plan.entries)) r).1)
          plan.entries
        ≡ true
  unfolding pending
  planned-held h d k =
      let es = plan.entries in
      let ps = pending previous es in
      let q : Entry → Bool = λ e. differs (lookup text_eq e.path previous) e in
      let agree = distinct-agree es d in
      let member = all-kept q (λ e x. text_eq e.path x.path) (λ x. text_eq_refl x.path) es in
      all-implies
        (λ x. all (λ e. agrees e x) es && (not (q x) || any (λ e. text_eq e.path x.path) ps))
        (holds (upload_all out (out.upload_order ps) r).1) es
        (λ x both.
          let a =
            all-same_any (λ e. agrees e x) ps (out.upload_order ps)
              (order.uploads (λ e. not (agrees e x)) ps)
              (all-filter_of (λ e. agrees e x) q es (ground arith)) in
          upload_all-holds out x (out.upload_order ps) r a k (elim (Bool-cases (q x)) [
            | inl new ↦ inl (order.uploads (λ e. text_eq e.path x.path) ps ∙ ground arith)
            | inr old ↦ inr (unchanged-held r previous x h old)
          ]))
        (all-both (λ x. all (λ e. agrees e x) es)
          (λ x. not (q x) || any (λ e. text_eq e.path x.path) ps) es agree member)

  -- What is known of an entry that is carried.
  abbrev pub is_kept : Entry → Bool
  is_kept x = (holds r x && not (is_own x.path)) && is_carried u plan x

  pub carried-kept : IsPublished r previous → all is_kept (carried u plan previous) ≡ true
  unfolding carried
  carried-kept h =
      let vs = values previous in
      let fs = filter (is_carried u plan) vs in
      let both =
        all-both (λ x. holds r x && not (is_own x.path)) (is_carried u plan) fs
          (all-filter_of (λ x. holds r x && not (is_own x.path)) (is_carried u plan) vs
            (all-both (holds r) (λ x. not (is_own x.path)) vs h.held h.free))
          (all-passed (is_carried u plan) vs) in
      elim (Bool-cases (length plan.failed_sources == 0)) [
        | inl e ↦ rw e refl
        | inr e ↦ rw e (
            all-same_any is_kept fs (sort path_leb fs) (any-sort path_leb (λ x. not (is_kept x)) fs)
              both)
      ]

  pub carried-held :
      IsPublished r previous
      → (upload_all out (out.upload_order (pending previous plan.entries)) r).0 ≡ ok tt
      → all
          (holds (upload_all out (out.upload_order (pending previous plan.entries)) r).1)
          (carried u plan previous)
        ≡ true
  unfolding pending
  carried-held h k =
      let ps = pending previous plan.entries in
      let q : Entry → Bool = λ e. differs (lookup text_eq e.path previous) e in
      all-implies is_kept (holds (upload_all out (out.upload_order ps) r).1)
        (carried u plan previous)
        (λ x kept.
          let a =
            all-same_any (λ e. agrees e x) ps (out.upload_order ps)
              (order.uploads (λ e. not (agrees e x)) ps)
              (all-filter_of (λ e. agrees e x) q plan.entries
                (agrees-folded u x plan.entries (ground arith))) in
          upload_all-holds out x (out.upload_order ps) r a k (inr (ground arith)))
        (carried-kept h)

  stale-gone :
      (current : List Entry)
      → all (λ k. not (contains_path k (paths current))) (stale options previous current) ≡ true
  unfolding stale
  stale-gone current = elim (Bool-cases options.prune) [
    | inl e ↦ rw e (all-passed (λ k. not (contains_path k (paths current))) (keys previous))
    | inr e ↦ rw e refl
  ]

  -- The deletions leave the entries of the new manifest.
  pub deleted-held :
      (current : List Entry) (a : Remote)
      → all (holds a) current ≡ true
      → all (holds (delete_all out (out.delete_order (stale options previous current)) a).1) current
        ≡ true
  deleted-held current a h =
      let gone = stale options previous current in
      let ks = out.delete_order gone in
      let apart = gone-apart current ks (
        all-same_any (λ k. not (contains_path k (paths current))) gone ks
          (order.deletes (λ k. not (not (contains_path k (paths current)))) gone)
          (stale-gone current)) in
      all-implies (λ x. holds a x && all (λ k. not (text_eq x.path k)) ks)
        (holds (delete_all out ks a).1) current
        (λ x both. ap (held_by x) (apart-delete_all out x.path ks a (ground arith)) ∙ ground arith)
        (all-both (holds a) (λ x. all (λ k. not (text_eq x.path k)) ks) current h apart)

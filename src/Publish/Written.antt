-- ===== src/Publish/Written.antt =====
-- src/storage.rs: the manifest, the summary and the version that a publication writes.
use sirius_asset_updater.Base.{
  Text, text_eq, text_eq_refl, Bool, true, false, not, ◌&&◌, Option, none, some, List, [], ◌∷◌, ◌≡◌,
  refl, sym, ap, ◌∙◌, arith, utf8, all, map,
}
use sirius_asset_updater.Base.Maps.{lookup, insert, lookup-insert}
use sirius_asset_updater.Fault.{Error, Result, ok, err}
use sirius_asset_updater.Layout.Chars.{Unicode}
use sirius_asset_updater.Layout.Types.{Options, Entry, Plan}
use sirius_asset_updater.Publish.Types.{
  StableCounts, StableVersion, Object, manifest, summary, version, Remote, Outcome, finished,
  broken, Outside, files_key, summary_key, version_key,
}
use sirius_asset_updater.Publish.Stable.{
  by_path, parse_manifest, cleared, write_one, then_with, write_own, version_of, read_error,
}
use sirius_asset_updater.Publish.Held.{held_by, holds, apart-insert}
use sirius_asset_updater.Publish.Manifests.{
  is_own, IsPublished, all-both, all-implies, values-by_path, keyed-by_path,
}

-- A chain that succeeds, in its two parts.
pub then_with-ok {ℓ} :
    {A : Type ℓ} (run : Result (Unit {0}) × Remote) (next : Remote → Result A × Remote) (a : A)
    (r : Remote)
    → then_with run next ≡ (ok a, r)
    → (run.0 ≡ ok tt) × (next run.1 ≡ (ok a, r))
then_with-ok (err e, s) next a r h = absurd (ground arith)
then_with-ok (ok u, s) next a r h = (refl, h)

write_one-ok :
    (k : Text) (o : Object) (out : Outcome) (r : Remote)
    → (write_one k o out r).0 ≡ ok tt
    → (write_one k o out r).1 ≡ insert text_eq k o r
write_one-ok k o finished r h = refl
write_one-ok k o (broken e left) r h = absurd (ground arith)

apart-own :
    (k : Text)
    → is_own k ≡ false
    → (text_eq k files_key ≡ false)
      × (text_eq k summary_key ≡ false)
      × (text_eq k version_key ≡ false)
apart-own k h = (ground arith, ground arith, ground arith)

files-apart : (text_eq files_key summary_key ≡ false) × (text_eq files_key version_key ≡ false)
unfolding utf8 text_eq
files-apart = (refl, refl)

-- The three objects that a publication writes of itself, the version last.
abbrev pub written : List Entry → StableVersion → Remote → Remote
written current v r = insert text_eq version_key (version v) (
    insert text_eq summary_key summary
      (insert text_eq files_key (manifest (map cleared current)) r))

written-apart :
    (current : List Entry) (v : StableVersion) (k : Text) (r : Remote)
    → is_own k ≡ false
    → lookup text_eq k (written current v r) ≡ lookup text_eq k r
written-apart current v k r h =
    let (f, s, w) = apart-own k h in
    let a = insert text_eq files_key (manifest (map cleared current)) r in
    let b = insert text_eq summary_key summary a in
    apart-insert k version_key (version v) b w
    ∙ apart-insert k summary_key summary a s
    ∙ apart-insert k files_key (manifest (map cleared current)) r f

written-manifest :
    (current : List Entry) (v : StableVersion) (r : Remote)
    → lookup text_eq files_key (written current v r) ≡ some (manifest (map cleared current))
written-manifest current v r =
    let (s, w) = files-apart in
    let a = insert text_eq files_key (manifest (map cleared current)) r in
    let b = insert text_eq summary_key summary a in
    apart-insert files_key version_key (version v) b w
    ∙ apart-insert files_key summary_key summary a s
    ∙ lookup-insert text_eq text_eq_refl files_key (manifest (map cleared current)) r

module _ (u : Unicode) (out : Outside) (options : Options) (plan : Plan) (id : Text) where
  read_error-ok :
      (e : Option Error) (r : Remote)
      → (read_error u out options plan id e r).0 ≡ ok tt
      → (read_error u out options plan id e r).1 ≡ r
  read_error-ok none r h = refl
  read_error-ok (some e) r h = absurd (ground arith)

  pub write_own-written :
      (current : List Entry) (counts c : StableCounts) (r s : Remote)
      → write_own u out options plan id current counts r ≡ (ok c, s)
      → (s ≡ written current (version_of u out options plan id current counts) r) × (c ≡ counts)
  write_own-written current counts c r s h =
      let v = version_of u out options plan id current counts in
      let list = manifest (map cleared current) in
      let run4 : Remote → Result (Unit {0}) × Remote =
        λ z. write_one version_key (version v) (out.write version_key) z in
      let next4 : Remote → Result StableCounts × Remote = λ d. (ok counts, d) in
      let run3 : Remote → Result (Unit {0}) × Remote =
        λ b. write_one summary_key summary (out.write summary_key) b in
      let next3 : Remote → Result StableCounts × Remote = λ z. then_with (run4 z) next4 in
      let run2 : Remote → Result (Unit {0}) × Remote =
        λ a. read_error u out options plan id out.read_summary a in
      let next2 : Remote → Result StableCounts × Remote = λ b. then_with (run3 b) next3 in
      let run1 : Result (Unit {0}) × Remote = write_one files_key list (out.write files_key) r in
      let next1 : Remote → Result StableCounts × Remote = λ a. then_with (run2 a) next2 in
      let (k1, h1) = then_with-ok run1 next1 c s h in
      let (k2, h2) = then_with-ok (run2 run1.1) next2 c s h1 in
      let (k3, h3) = then_with-ok (run3 (run2 run1.1).1) next3 c s h2 in
      let (k4, h4) = then_with-ok (run4 (run3 (run2 run1.1).1).1) next4 c s h3 in
      let e1 : run1.1 ≡ insert text_eq files_key list r =
        write_one-ok files_key list (out.write files_key) r k1 in
      let e2 : (run2 run1.1).1 ≡ insert text_eq files_key list r =
        read_error-ok out.read_summary run1.1 k2 ∙ e1 in
      let e3 : (run3 (run2 run1.1).1).1
          ≡ insert text_eq summary_key summary (insert text_eq files_key list r) =
        write_one-ok summary_key summary (out.write summary_key) (run2 run1.1).1 k3
        ∙ ap (insert text_eq summary_key summary) e2 in
      let e4 =
        write_one-ok version_key (version v) (out.write version_key) (run3 (run2 run1.1).1).1 k4
        ∙ ap (insert text_eq version_key (version v)) e3 in
      (sym (ap (λ z. z.1) h4) ∙ e4, cc)

all-map-cleared :
    (p : Entry → Bool) (es : List Entry)
    → all (λ e. p (cleared e)) es ≡ true
    → all p (map cleared es) ≡ true
all-map-cleared p [] h = refl
all-map-cleared p (e ∷ es) h = ground (arith, all-map-cleared p es)

-- The manifest of entries that are held and not of the publication itself is true once it is written.
pub written-IsPublished :
    (current : List Entry) (v : StableVersion) (r : Remote)
    → all (holds r) current ≡ true
    → all (λ e. not (is_own e.path)) current ≡ true
    → IsPublished (written current v r) (by_path (map cleared current) [])
written-IsPublished current v r h f =
    let held : all (holds (written current v r)) (map cleared current) ≡ true =
      all-map-cleared (holds (written current v r)) current (
        all-implies (λ e. holds r e && not (is_own e.path)) (holds (written current v r)) current
          (λ e both.
            ap (held_by e) (written-apart current v e.path r (ground arith)) ∙ ground arith)
          (all-both (holds r) (λ e. not (is_own e.path)) current h f)) in
    let free = all-map-cleared (λ e. not (is_own e.path)) current f in
    record {
      read = ap parse_manifest (written-manifest current v r);
      held = values-by_path (holds (written current v r)) (map cleared current) [] held refl;
      free = values-by_path (λ e. not (is_own e.path)) (map cleared current) [] free refl;
      keyed = keyed-by_path (map cleared current) [] refl;
    }

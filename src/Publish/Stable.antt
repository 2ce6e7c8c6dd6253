-- ===== src/Publish/Stable.antt =====
-- src/storage.rs: `previous_manifest` and `publish_stable`. The progress that is shown and the choice of
-- the operator with public access are left out.
use sirius_asset_updater.Base.{
  ℕ, ◌+◌, ◌-◌, Text, text_eq, text_leb, Bool, true, not, ◌&&◌, Option, none, some, List, [], ◌∷◌,
  ◌++◌, ◌==◌, length, filter, map, sort, if◌then◌else◌,
}
use sirius_asset_updater.Base.Maps.{lookup, insert}
use sirius_asset_updater.Base.Texts.{contains_path}
use sirius_asset_updater.Fault.{Error, Result, ok, err, verification}
use sirius_asset_updater.Layout.Chars.{Unicode}
use sirius_asset_updater.Layout.Types.{Options, Entry, Plan}
use sirius_asset_updater.Layout.Claim.{content_type}
use sirius_asset_updater.Publish.Types.{
  StableCounts, StableVersion, Object, file, manifest, summary, version, Remote, Outcome, finished,
  broken, Outside, files_key, summary_key, version_key,
}

-- `HashMap::insert` of each line of the manifest: a later line of a path replaces an earlier one.
abbrev pub Previous : Type 0
Previous = List (Text × Entry)

unfoldable pub by_path : List Entry → Previous → Previous
unfolding insert
by_path [] m = m
by_path (e ∷ es) m = by_path es (insert text_eq e.path e m)

abbrev pub parse_manifest : Option Object → Result Previous
parse_manifest none = ok []
parse_manifest (some (manifest es)) = ok (by_path es [])
parse_manifest (some o) = err verification

abbrev pub read_or : Option Error → Remote → Result Previous
read_or (some e) r = err e
read_or none r = parse_manifest (lookup text_eq files_key r)

unfoldable pub previous_manifest : Outside → Remote → Result Previous
unfolding by_path lookup
previous_manifest out r = read_or out.read_manifest r

abbrev pub differs : Option Entry → Entry → Bool
differs none e = true
differs (some p) e =
    not (p.bytes == e.bytes && text_eq p.sha256 e.sha256 && text_eq p.content_type e.content_type)

-- The entries to upload: new ones, and those that the manifest has otherwise.
unfoldable pub pending : Previous → List Entry → List Entry
unfolding lookup
pending previous = filter (λ e. differs (lookup text_eq e.path previous) e)

abbrev pub values : Previous → List Entry
values [] = []
values ((p, e) ∷ m) = e ∷ values m

abbrev pub keys : Previous → List Text
keys [] = []
keys ((p, e) ∷ m) = p ∷ keys m

abbrev pub path_leb : Entry → Entry → Bool
path_leb a b = text_leb a.path b.path

abbrev pub folded_paths : Unicode → List Entry → List Text
folded_paths u = map (λ e. u.lowercase e.path)

-- What failed resources keep of the previous publication.
abbrev pub is_carried : Unicode → Plan → Entry → Bool
is_carried u plan e =
    contains_path e.source plan.failed_sources
    && not (contains_path (u.lowercase e.path) (folded_paths u plan.entries))

unfoldable pub carried : Unicode → Plan → Previous → List Entry
unfolding sort
carried u plan previous =
    if length plan.failed_sources == 0
    then []
    else sort path_leb (filter (is_carried u plan) (values previous))

-- What a write that ended leaves under a key.
abbrev pub leave : Text → Option Object → Remote → Remote
leave key none r = r
leave key (some o) r = insert text_eq key o r

abbrev pub remove : Text → Remote → Remote
remove key = filter (λ o. not (text_eq o.0 key))

abbrev pub uploaded_as : Entry → Object
uploaded_as e = file e.bytes e.sha256 (content_type e.path)

abbrev pub write_one : Text → Object → Outcome → Remote → Result (Unit {0}) × Remote
write_one key o finished r = (ok tt, insert text_eq key o r)
write_one key o (broken e left) r = (err e, leave key left r)

-- All uploads that were started are drained, and the first error is reported.
abbrev pub first_error : Result (Unit {0}) → Result (Unit {0}) → Result (Unit {0})
first_error (err e) later = err e
first_error (ok u) later = later

abbrev pub after_upload :
    Result (Unit {0}) × Remote → (Remote → Result (Unit {0}) × Remote) → Result (Unit {0}) × Remote
after_upload (r, remote) next =
    let rest : Result (Unit {0}) × Remote = next remote in (first_error r rest.0, rest.1)

unfoldable pub upload_all : Outside → List Entry → Remote → Result (Unit {0}) × Remote
unfolding insert content_type
upload_all out [] r = (ok tt, r)
upload_all out (e ∷ es) r =
    after_upload (write_one e.path (uploaded_as e) (out.upload e.path) r) (λ s. upload_all out es s)

-- A chain that ends with the first error.
abbrev pub then_with {ℓ} :
    {A : Type ℓ} → Result (Unit {0}) × Remote → (Remote → Result A × Remote) → Result A × Remote
then_with (err e, r) next = (err e, r)
then_with (ok u, r) next = next r

abbrev pub delete_one : Text → Outcome → Remote → Result (Unit {0}) × Remote
delete_one key finished r = (ok tt, remove key r)
delete_one key (broken e none) r = (err e, remove key r)
delete_one key (broken e (some o)) r = (err e, insert text_eq key o r)

unfoldable pub delete_all : Outside → List Text → Remote → Result (Unit {0}) × Remote
unfolding insert
delete_all out [] r = (ok tt, r)
delete_all out (k ∷ ks) r = then_with (delete_one k (out.delete k) r) (λ s. delete_all out ks s)

-- The keys that the export no longer produces, where they are pruned.
unfoldable pub stale : Options → Previous → List Entry → List Text
stale options previous current =
    if options.prune
    then filter (λ k. not (contains_path k (map (λ e. e.path) current))) (keys previous)
    else []

abbrev pub cleared : Entry → Entry
cleared e = record e { local = [] }

abbrev pub sum_bytes : List Entry → ℕ
sum_bytes [] = 0
sum_bytes (e ∷ es) = e.bytes + sum_bytes es

module _ (u : Unicode) (out : Outside) (options : Options) (plan : Plan) (id : Text) where
  abbrev pub counts_of : Previous → List Text → StableCounts
  counts_of previous gone = record {
    files = length plan.entries;
    uploaded = length (pending previous plan.entries);
    unchanged = length plan.entries - length (pending previous plan.entries);
    pruned = length gone;
    deduplicated = plan.deduplicated;
    renamed = plan.renamed;
    failed_resources = length plan.failed_sources;
    carried_forward = length (carried u plan previous);
  }

  abbrev pub version_of : List Entry → StableCounts → StableVersion
  version_of current counts = record {
    publication_id = id;
    files = counts.files + counts.carried_forward;
    bytes = sum_bytes current;
    counts = counts;
  }

  abbrev pub read_error : Option Error → Remote → Result (Unit {0}) × Remote
  read_error none r = (ok tt, r)
  read_error (some e) r = (err e, r)

  -- The manifest, the summary and, as the last object, the version.
  abbrev pub write_own : List Entry → StableCounts → Remote → Result StableCounts × Remote
  write_own current counts r =
      then_with (write_one files_key (manifest (map cleared current)) (out.write files_key) r) (λ a.
        then_with (read_error out.read_summary a) (λ b.
          then_with (write_one summary_key summary (out.write summary_key) b) (λ c.
            then_with
              (write_one version_key (version (version_of current counts)) (out.write version_key)
                c)
              (λ d. (ok counts, d)))))

  abbrev pub publish_after : Remote → Result Previous → Result StableCounts × Remote
  publish_after r (err e) = (err e, r)
  publish_after r (ok previous) =
      let current : List Entry = plan.entries ++ carried u plan previous in
      let gone : List Text = stale options previous current in
      then_with (upload_all out (out.upload_order (pending previous plan.entries)) r) (λ a.
        then_with (delete_all out (out.delete_order gone) a)
          (λ b. write_own current (counts_of previous gone) b))

  unfoldable pub publish_stable : Remote → Result StableCounts × Remote
  unfolding previous_manifest pending carried upload_all delete_all stale insert
  publish_stable r = publish_after r (previous_manifest out r)

-- ===== src/Tests/Publish.antt =====
-- src/storage.rs: a publication of a sound and a picture over one that had the picture otherwise, and
-- the resource of a text that failed.
use sirius_asset_updater.Base.{
  Text, utf8, text_eq, text_leb, true, none, some, [], ◌∷◌, ◌++◌, String, ◌≡◌, refl, map, sort,
  if◌then◌else◌,
}
use sirius_asset_updater.Base.Strings.{to_lower}
use sirius_asset_updater.Base.Maps.{lookup, insert}
use sirius_asset_updater.Fault.{storage, ok, err}
use sirius_asset_updater.Layout.Chars.{Unicode, last_part, rsplit_once}
use sirius_asset_updater.Layout.Types.{Options, default_options, Entry, Plan}
use sirius_asset_updater.Layout.Claim.{content_type, type_in}
use sirius_asset_updater.Publish.Types.{
  StableCounts, Object, file, manifest, summary, version, Remote, finished, broken, other, Outside,
  files_key, summary_key, version_key,
}
use sirius_asset_updater.Publish.Stable.{
  by_path, cleared, previous_manifest, pending, carried, upload_all, delete_all, stale, version_of,
  publish_stable,
}
use sirius_asset_updater.Publish.Manifests.{IsPublished, KeepsAll}
use sirius_asset_updater.Publish.Failed.{publish_stable-version_last}
use sirius_asset_updater.Publish.Renewed.{publish_stable-IsPublished}

abbrev ascii : Unicode
ascii = record { lowercase = map to_lower; lower_char = λ c. to_lower c ∷ [] }

abbrev entry : String → String → String → String → Entry
entry path sha type source = record {
  path = utf8 path;
  local = [];
  bytes = 1;
  sha256 = utf8 sha;
  content_type = utf8 type;
  source = utf8 source;
  kind = [];
  class_id = none;
  container = none;
  name = none;
}

abbrev old_picture : Entry
old_picture = entry "a.png" "1" "image/png" "pictures"

abbrev new_picture : Entry
new_picture = entry "a.png" "2" "image/png" "pictures"

abbrev text : Entry
text = entry "t.txt" "3" "text/plain; charset=utf-8" "texts"

abbrev sound : Entry
sound = entry "b.wav" "4" "audio/wav" "sounds"

abbrev gone : Entry
gone = entry "c.wav" "5" "audio/wav" "sounds"

abbrev object : Entry → Text × Object
object e = (e.path, file e.bytes e.sha256 e.content_type)

abbrev before : Remote
before =
    object old_picture
    ∷ object text
    ∷ object gone
    ∷ (files_key, manifest (old_picture ∷ text ∷ gone ∷ []))
    ∷ []

abbrev plan : Plan
plan = record {
  entries = new_picture ∷ sound ∷ [];
  deduplicated = 0;
  renamed = 0;
  failed_sources = utf8 "texts" ∷ [];
}

abbrev calm : Outside
calm = record {
  read_manifest = none;
  upload = λ path. finished;
  upload_order = λ es. es;
  delete = λ path. finished;
  delete_order = λ ks. ks;
  write = λ path. finished;
  read_summary = none;
}

abbrev pruning : Options
pruning = record default_options { prune = true }

abbrev counts : StableCounts
counts = record {
  files = 2;
  uploaded = 2;
  unchanged = 0;
  pruned = 1;
  deduplicated = 0;
  renamed = 0;
  failed_resources = 1;
  carried_forward = 1;
}

abbrev after : Remote
after =
    object new_picture
    ∷ object text
    ∷ (files_key, manifest (new_picture ∷ sound ∷ text ∷ []))
    ∷ object sound
    ∷ (summary_key, summary)
    ∷ (
      version_key,
      version (record { publication_id = utf8 "p"; files = 3; bytes = 3; counts = counts }),
    )
    ∷ []

runs : publish_stable ascii calm pruning plan (utf8 "p") before ≡ (ok counts, after)
unfolding publish_stable previous_manifest pending carried upload_all delete_all stale insert lookup
    by_path sort text_leb text_eq utf8 content_type type_in last_part rsplit_once to_lower
runs = refl

before-IsPublished : IsPublished before (by_path (old_picture ∷ text ∷ gone ∷ []) [])
unfolding by_path insert lookup text_eq utf8
before-IsPublished = record { read = refl; held = refl; free = refl; keyed = refl }

calm-KeepsAll : KeepsAll calm
calm-KeepsAll = record { uploads = λ p es. refl; deletes = λ p ks. refl }

publish_stable-IsPublished_example :
    IsPublished after (
      by_path
        (map cleared
          (plan.entries ++ carried ascii plan (by_path (old_picture ∷ text ∷ gone ∷ []) [])))
        [])
    × (lookup text_eq version_key after
        ≡ some (
            version (
              version_of ascii calm pruning plan
                (utf8 "p")
                (plan.entries ++ carried ascii plan (by_path (old_picture ∷ text ∷ gone ∷ []) []))
                counts)))
unfolding text_eq utf8
publish_stable-IsPublished_example =
    publish_stable-IsPublished ascii calm calm-KeepsAll pruning plan (utf8 "p") before after
      (by_path (old_picture ∷ text ∷ gone ∷ []) []) counts before-IsPublished refl refl runs

-- A publication that fails behind its uploads leaves a manifest that is no longer true, and the next one
-- takes the picture of that manifest for unchanged.
abbrev cut_off : Outside
cut_off = record calm {
  write = λ key. if text_eq key version_key then finished else broken storage none;
}

cut_off-KeepsAll : KeepsAll cut_off
cut_off-KeepsAll = record { uploads = λ p es. refl; deletes = λ p ks. refl }

abbrev published : Remote
published =
    object old_picture
    ∷ (files_key, manifest (old_picture ∷ []))
    ∷ (version_key, other (utf8 "before"))
    ∷ []

abbrev forward : Plan
forward = record plan { entries = new_picture ∷ []; failed_sources = [] }

abbrev back : Plan
back = record plan { entries = old_picture ∷ []; failed_sources = [] }

abbrev left_over : Remote
left_over =
    object new_picture
    ∷ (files_key, manifest (old_picture ∷ []))
    ∷ (version_key, other (utf8 "before"))
    ∷ []

fails : publish_stable ascii cut_off pruning forward (utf8 "p") published ≡ (err storage, left_over)
unfolding publish_stable previous_manifest pending carried upload_all delete_all stale insert lookup
    by_path text_eq utf8 content_type type_in last_part rsplit_once to_lower
fails = refl

skips :
    lookup text_eq old_picture.path (publish_stable ascii calm pruning back (utf8 "q") left_over).1
    ≡ some (file 1 (utf8 "2") (utf8 "image/png"))
unfolding publish_stable previous_manifest pending carried upload_all delete_all stale insert lookup
    by_path text_eq utf8
skips = refl

published-IsPublished : IsPublished published (by_path (old_picture ∷ []) [])
unfolding by_path insert lookup text_eq utf8
published-IsPublished = record { read = refl; held = refl; free = refl; keyed = refl }

publish_stable-version_last_example :
    lookup text_eq version_key left_over ≡ lookup text_eq version_key published
unfolding text_eq utf8
publish_stable-version_last_example =
    publish_stable-version_last ascii cut_off cut_off-KeepsAll pruning forward (utf8 "p") published
      left_over (by_path (old_picture ∷ []) []) storage published-IsPublished refl refl fails

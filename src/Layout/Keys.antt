-- ===== src/Layout/Keys.antt =====
-- src/stable_layout.rs: `Context`, which names the objects of bundles and the CRI resources.
use sirius_asset_updater.Base.{
  ℕ, zero, suc, ◌+◌, Text, utf8, text_eq, Bool, false, not, ◌&&◌, ◌||◌, Option, none, some, List,
  [], ◌∷◌, ◌++◌, ◌==◌, length, all, if◌then◌else◌,
}
use sirius_asset_updater.Base.Strings.{starts_with, strip_suffix, is_digit}
use sirius_asset_updater.Base.Maps.{lookup, insert}
use sirius_asset_updater.Layout.Chars.{
  Unicode, is_whitespace, len, is_empty, trim, rsplit_once, first_part, rest_or,
  eq_ignore_ascii_case, pop, decimal,
}
use sirius_asset_updater.Layout.Types.{
  ℤ, pos, ℤ_eq, show_ℤ, Options, ObjectIdentity, OutputRecord, ResourceReport,
}
use sirius_asset_updater.Layout.Classes.{class_name, semantic_dir}
use sirius_asset_updater.Layout.Names.{
  fix_file_name, loose, strip_container, split_ext, join_ext, with_extension, cri_location,
  output_file, output_ext, container_key,
}

-- The keys of the maps: a file and the id of an object in it, a scope and a class.
abbrev pub object_eq : Text × ℤ → Text × ℤ → Bool
object_eq (f, i) (g, j) = text_eq f g && ℤ_eq i j

-- What `Context` changes: the counters of unnamed objects and the stems chosen for them.
pub record Names : Type 0 where
  pub unnamed : List ((Text × ℤ) × ℕ)
  pub stems : List ((Text × ℤ) × Text)

-- What it reads: for each container the number of its textures, and whether the single one is
-- named like it.
pub record Context : Type 0 where
  pub unicode : Unicode
  pub options : Options
  pub textures : List (Text × (ℕ × Bool))

abbrev pub or_zero : Option ℕ → ℕ
or_zero none = 0
or_zero (some n) = n

abbrev pub fixed_name : Option Text → Option Text
fixed_name none = none
fixed_name (some name) =
    let fixed = fix_file_name name in if is_empty fixed then none else some fixed

abbrev pub fresh_stem : Text × ℤ → Text × ℤ → Text → Names → Text × Names
fresh_stem identity counter class names =
    let n = or_zero (lookup object_eq counter names.unnamed) in
    let stem = class ++ b'_' ∷ decimal n in
    (
      stem,
      record {
        unnamed = insert object_eq counter (n + 1) names.unnamed;
        stems = insert object_eq identity stem names.stems;
      },
    )

abbrev pub known_stem : Text × ℤ → Text × ℤ → Text → Names → Option Text → Text × Names
known_stem identity counter class names (some stem) = (stem, names)
known_stem identity counter class names none = fresh_stem identity counter class names

abbrev pub named_stem : ObjectIdentity → Text → Text → Names → Option Text → Text × Names
named_stem object scope class names (some name) = (name, names)
named_stem object scope class names none =
    known_stem (object.source_file, object.path_id) (scope, object.class_id) class names
      (lookup object_eq (object.source_file, object.path_id) names.stems)

unfoldable pub object_stem : ObjectIdentity → Text → Text → Names → Text × Names
unfolding lookup insert
object_stem object scope class names = named_stem object scope class names (fixed_name object.name)

abbrev pub class_of : ObjectIdentity → Text
class_of object = elim (class_name object.class_id) [
  | none ↦ utf8 "ClassID" ++ show_ℤ object.class_id
  | some class ↦ class
]

abbrev pub has_class : ObjectIdentity → ℕ → Bool
has_class object n = ℤ_eq object.class_id (pos n)

-- `trim_end_matches(".bundle")`.
abbrev without_bundle : Text → ℕ → Text
without_bundle s zero = s
without_bundle s (suc fuel) = elim (strip_suffix s (utf8 ".bundle")) [
  | none ↦ s
  | some rest ↦ without_bundle rest fuel
]

-- The container of an object, where it is not blank.
abbrev pub container_of : Option Text → Option Text
container_of none = none
container_of (some c) = if is_empty (trim is_whitespace c) then none else some c

-- Whether the object has a name that is like the stem of its container, and one that is not.
abbrev is_like : Unicode → Text → Option Text → Bool
is_like u stem none = false
is_like u stem (some name) = text_eq (loose u (fix_file_name name)) (loose u stem)

abbrev is_unlike : Unicode → Text → Option Text → Bool
is_unlike u stem none = false
is_unlike u stem (some name) = not (text_eq (loose u (fix_file_name name)) (loose u stem))

-- An object without a container.
abbrev in_bundle : ObjectIdentity → Text → Text → Text × Names → List Text × Names
in_bundle object ext bundle (stem, names) =
    (utf8 "_bundles" ∷ bundle ∷ semantic_dir (class_of object) ∷ join_ext stem ext ∷ [], names)

-- An object in the directory of its container, and one next to its container.
abbrev in_assets : List Text → Text → Text → Text → Text × Names → List Text × Names
in_assets parts container_stem dir ext (stem, names) =
    (parts ++ (container_stem ++ utf8 ".assets") ∷ dir ∷ join_ext stem ext ∷ [], names)

abbrev beside : List Text → Text → Text × Names → List Text × Names
beside parts ext (stem, names) = (parts ++ join_ext stem ext ∷ [], names)

abbrev is_single : Option (ℕ × Bool) → Bool
is_single none = false
is_single (some (n, named_like)) = n == 1 && named_like

module _ (c : Context) (object : ObjectIdentity) (kind ext : Text) where
  -- The arms of the match on the class, for a container `parts`/`file`.
  unfoldable pub contained : List Text → Text → Names → List Text × Names
  unfolding object_stem loose split_ext with_extension container_key semantic_dir class_name lookup
  contained parts file names =
      let scope = container_key c.unicode parts file in
      let container_stem = (split_ext file).0 in
      let container_ext = (split_ext file).1 in
      let class = class_of object in
      let stem = object_stem object scope class names in
      let flat : List Text × Names = (parts ++ with_extension file ext ∷ [], names) in
      let nested : Text → List Text × Names = λ dir. in_assets parts container_stem dir ext stem in
      if text_eq kind (utf8 "playable_json")
      then flat
      else if has_class object 49
      then (if is_unlike c.unicode container_stem object.name
            && not (eq_ignore_ascii_case container_ext (utf8 "bytes"))
          then nested (utf8 "text_asset")
          else if eq_ignore_ascii_case container_ext (utf8 "bytes")
          then (parts ++ container_stem ∷ [], names)
          else if is_empty container_ext
          then flat
          else (parts ++ file ∷ [], names))
      else if has_class object 114 && is_like c.unicode container_stem object.name
      then flat
      else if has_class object 28
      then (if is_single (lookup text_eq scope c.textures) then flat else nested (utf8 "texture2d"))
      else if has_class object 128
      then beside parts ext stem
      else if has_class object 83
          || has_class object 329
          || has_class object 152
          || has_class object 687078895
      then flat
      else elim (class_name object.class_id) [
        | some known ↦ nested (semantic_dir class)
        | none ↦ flat
      ]

  abbrev popped : Option (List Text × Text) → Names → List Text × Names
  popped none names = (join_ext (fix_file_name (class_of object)) ext ∷ [], names)
  popped (some (parts, file)) names = contained parts file names

  abbrev placed : ResourceReport → Option Text → Names → List Text × Names
  placed resource none names =
      let source = resource.source in
      let bundle = (cri_location (without_bundle source (length source))).1 in
      in_bundle object ext bundle
        (object_stem object (utf8 "_bundles/" ++ bundle) (class_of object) names)
  placed resource (some container) names =
      popped (pop (strip_container container c.options.strip_prefixes)) names

unfoldable pub object_key :
    Context → ResourceReport → OutputRecord → ObjectIdentity → Names → List Text × Names
unfolding output_ext contained cri_location fix_file_name strip_container pop object_stem
object_key c resource output object names =
    placed c object output.kind (output_ext output) resource (container_of object.container) names

-- The layer of a texture array, as `layer_NNNN`.
abbrev is_layer : Text → Bool
is_layer l = len l == 4 && all is_digit l

abbrev stem_last : Option (List Text × Text) → List Text
stem_last none = []
stem_last (some (parts, last)) = parts ++ (split_ext last).0 ∷ []

abbrev layered : Text → Option (Text × Text) → List Text × Names → List Text × Names
layered ext none (parts, names) = (parts, names)
layered ext (some (stem, layer)) (parts, names) =
    if is_layer layer
    then (stem_last (pop parts) ++ join_ext (utf8 "layer_" ++ layer) ext ∷ [], names)
    else (parts, names)

unfoldable pub unity_key :
    Context → ResourceReport → OutputRecord → ObjectIdentity → Names → List Text × Names
unfolding object_key split_ext output_file rsplit_once join_ext pop
unity_key c resource output object names =
    let key = object_key c resource output object names in
    let file = split_ext (output_file output) in
    if has_class object 187 then layered file.1 (rsplit_once (utf8 "_layer_") file.0) key else key

abbrev pub is_index : Text → Bool
is_index s = len s == 5 && all is_digit s

unfoldable pub cri_key : ResourceReport → OutputRecord → Option Text → List Text
unfolding cri_location output_file split_ext join_ext
cri_key resource output cue =
    let location = cri_location resource.source in
    let parts = location.0 in
    let stem = location.1 in
    let file = output_file output in
    let base = (split_ext file).0 in
    let ext = (split_ext file).1 in
    let name_stem =
      if starts_with output.path (utf8 "alpha/") then stem ++ utf8 ".alpha" else stem in
    let rest = rest_or ext (utf8 ".") file in
    elim cue [
      | some name ↦ parts ++ stem ∷ join_ext name rest ∷ []
      | none ↦
          let name =
            if is_index (first_part (utf8 ".") file)
            then join_ext name_stem rest
            else if text_eq base (utf8 "movie")
            then join_ext name_stem ext
            else name_stem ++ b'.' ∷ file in
          parts ++ stem ∷ name ∷ []
    ]

-- ===== src/Layout/Textures.antt =====
-- src/stable_layout.rs: the count of the textures of each container in `plan_resources`.
use sirius_asset_updater.Base.{
  ℕ, ◌+◌, Text, text_eq, Bool, false, not, ◌&&◌, ◌||◌, Option, none, some, List, [], ◌∷◌, ◌==◌,
  length, any, if◌then◌else◌,
}
use sirius_asset_updater.Base.Maps.{lookup, insert}
use sirius_asset_updater.Layout.Chars.{Unicode, pop}
use sirius_asset_updater.Layout.Types.{ℤ, Options, ObjectIdentity, OutputRecord, ResourceReport}
use sirius_asset_updater.Layout.Names.{fix_file_name, strip_container, split_ext, container_key}
use sirius_asset_updater.Layout.Keys.{object_eq, has_class, container_of}

abbrev pub Textures : Type 0
Textures = List (Text × (ℕ × Bool))

abbrev or_none_yet : Option (ℕ × Bool) → ℕ × Bool
or_none_yet none = (0, false)
or_none_yet (some t) = t

abbrev one_more : Bool → ℕ × Bool → ℕ × Bool
one_more named_like (n, b) = (n + 1, n + 1 == 1 && named_like)

abbrev named_like_file : Text → Option Text → Bool
named_like_file file none = false
named_like_file file (some name) = text_eq (fix_file_name name) (fix_file_name (split_ext file).0)

module _ (u : Unicode) (options : Options) where
  abbrev count_in : ObjectIdentity → Textures → Option (List Text × Text) → Textures
  count_in object textures none = textures
  count_in object textures (some (parts, file)) =
      let key = container_key u parts file in
      insert text_eq key
        (one_more (named_like_file file object.name) (or_none_yet (lookup text_eq key textures)))
        textures

  abbrev count_texture : ObjectIdentity → Textures → Option Text → Textures
  count_texture object textures none = textures
  count_texture object textures (some container) =
      count_in object textures (pop (strip_container container options.strip_prefixes))

  -- The objects that were seen, in front of the textures of the containers.
  abbrev count_object :
      List (Text × ℤ) → Textures → Option ObjectIdentity → List (Text × ℤ) × Textures
  count_object seen textures none = (seen, textures)
  count_object seen textures (some object) =
      let identity : Text × ℤ = (object.source_file, object.path_id) in
      if not (has_class object 28) || any (object_eq identity) seen
      then (seen, textures)
      else (identity ∷ seen, count_texture object textures (container_of object.container))

  unfoldable pub count_outputs : List OutputRecord → List (Text × ℤ) × Textures → Textures
  unfolding strip_container split_ext fix_file_name container_key insert lookup pop
  count_outputs [] (seen, textures) = textures
  count_outputs (o ∷ os) (seen, textures) = count_outputs os (count_object seen textures o.object)

  unfoldable pub count_textures : List ResourceReport → Textures → Textures
  unfolding count_outputs
  count_textures [] textures = textures
  count_textures (r ∷ rs) textures =
      if length r.errors == 0
      then count_textures rs (count_outputs r.outputs ([], textures))
      else count_textures rs textures

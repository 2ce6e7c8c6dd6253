-- ===== src/Layout/Classes.antt =====
-- src/stable_layout.rs: `class_name`, `semantic_dir` and `snake_case`.
use sirius_asset_updater.Base.{
  ℕ, Text, utf8, text_eq, Bool, false, ◌&&◌, ◌||◌, Option, none, some, List, [], ◌∷◌, String, ◌==◌,
  any, map, if◌then◌else◌,
}
use sirius_asset_updater.Base.Strings.{is_upper, is_lower, is_digit, to_lower}
use sirius_asset_updater.Base.Maps.{lookup}
use sirius_asset_updater.Layout.Types.{ℤ, pos, negsuc}

abbrev known_classes : List (ℕ × String)
known_classes =
    (1, "GameObject")
    ∷ (2, "Component")
    ∷ (4, "Transform")
    ∷ (8, "Behaviour")
    ∷ (20, "Camera")
    ∷ (21, "Material")
    ∷ (23, "MeshRenderer")
    ∷ (25, "Renderer")
    ∷ (28, "Texture2D")
    ∷ (33, "MeshFilter")
    ∷ (43, "Mesh")
    ∷ (48, "Shader")
    ∷ (49, "TextAsset")
    ∷ (50, "Rigidbody2D")
    ∷ (54, "Rigidbody")
    ∷ (56, "Collider")
    ∷ (61, "BoxCollider2D")
    ∷ (64, "MeshCollider")
    ∷ (65, "BoxCollider")
    ∷ (74, "AnimationClip")
    ∷ (81, "AudioListener")
    ∷ (82, "AudioSource")
    ∷ (83, "AudioClip")
    ∷ (84, "RenderTexture")
    ∷ (89, "Cubemap")
    ∷ (90, "Avatar")
    ∷ (91, "AnimatorController")
    ∷ (95, "Animator")
    ∷ (96, "TrailRenderer")
    ∷ (102, "TextMesh")
    ∷ (108, "Light")
    ∷ (111, "Animation")
    ∷ (114, "MonoBehaviour")
    ∷ (115, "MonoScript")
    ∷ (117, "Texture3D")
    ∷ (120, "LineRenderer")
    ∷ (128, "Font")
    ∷ (135, "SphereCollider")
    ∷ (136, "CapsuleCollider")
    ∷ (137, "SkinnedMeshRenderer")
    ∷ (142, "AssetBundle")
    ∷ (152, "MovieTexture")
    ∷ (187, "Texture2DArray")
    ∷ (198, "ParticleSystem")
    ∷ (199, "ParticleSystemRenderer")
    ∷ (205, "LODGroup")
    ∷ (210, "SortingGroup")
    ∷ (212, "SpriteRenderer")
    ∷ (213, "Sprite")
    ∷ (221, "AnimatorOverrideController")
    ∷ (222, "CanvasRenderer")
    ∷ (223, "Canvas")
    ∷ (224, "RectTransform")
    ∷ (225, "CanvasGroup")
    ∷ (290, "AssetBundleManifest")
    ∷ (320, "PlayableDirector")
    ∷ (328, "VideoPlayer")
    ∷ (329, "VideoClip")
    ∷ (331, "SpriteMask")
    ∷ (687078895, "SpriteAtlas")
    ∷ []

abbrev literal : Option String → Option Text
literal none = none
literal (some s) = some (utf8 s)

unfoldable pub class_name : ℤ → Option Text
unfolding lookup
class_name (pos id) = literal (lookup (λ a b. a == b) id known_classes)
class_name (negsuc n) = none

-- A character in uppercase starts a word behind a lowercase letter or a digit, and as the last of a
-- run of uppercase letters in front of a lowercase one.
abbrev starts_lower : Text → Bool
starts_lower [] = false
starts_lower (c ∷ s) = is_lower c

abbrev starts_word : Option ℕ → Text → Bool
starts_word none next = false
starts_word (some prev) next = is_lower prev || is_digit prev || starts_lower next && is_upper prev

-- The rest of the name behind the character `prev`.
unfoldable pub snake_from : Option ℕ → Text → Text
snake_from prev [] = []
snake_from prev (c ∷ s) =
    let rest = snake_from (some c) s in
    if is_upper c
    then (if starts_word prev s then b'_' ∷ to_lower c ∷ rest else to_lower c ∷ rest)
    else c ∷ rest

unfoldable pub snake_case : Text → Text
unfolding snake_from
snake_case name = snake_from none name

abbrev kept_dirs : List String
kept_dirs =
    "sprite" ∷ "mesh" ∷ "animator" ∷ "monobehaviour" ∷ "monoscript" ∷ "gameobject" ∷ "material"
    ∷ "transform" ∷ "recttransform" ∷ "canvas" ∷ "camera" ∷ "avatar" ∷ "animation" ∷ "cubemap"
    ∷ "texture3d" ∷ "shader" ∷ "texture2d" ∷ []

unfoldable pub semantic_dir : Text → Text
unfolding snake_case
semantic_dir class =
    let lower = map to_lower class in
    if text_eq lower (utf8 "texture2darray")
    then utf8 "texture2d_array"
    else if text_eq lower (utf8 "shadervariantcollection")
    then utf8 "shader"
    else if any (λ d. text_eq lower (utf8 d)) kept_dirs
    then lower
    else snake_case class

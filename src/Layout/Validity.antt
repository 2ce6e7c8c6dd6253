-- ===== src/Layout/Validity.antt =====
-- src/stable_layout.rs: whether the keys of the outputs are valid, without what was claimed.
use sirius_asset_updater.Base.{
  Text, Bool, true, ◌&&◌, List, [], ◌∷◌, ◌==◌, length, all, if◌then◌else◌,
}
use sirius_asset_updater.Layout.Types.{OutputRecord, ResourceReport}
use sirius_asset_updater.Layout.Keys.{Names, Context}
use sirius_asset_updater.Layout.Tracks.{CueFiles}
use sirius_asset_updater.Layout.Claim.{valid_key}
use sirius_asset_updater.Layout.Plan.{key_parts, key_of, aliased}

module _ (c : Context) where
  abbrev pub all_valid_keys : List (List Text) → Bool
  all_valid_keys = all (λ parts. valid_key (key_of c parts))

  module _ (files : CueFiles) where
    abbrev pub output_valid : ResourceReport → OutputRecord → Names → Bool
    output_valid r o names = all_valid_keys (aliased o.kind (key_parts c files r o names).0)

    -- The names behind the outputs of a resource, and whether their keys are valid.
    abbrev pub outputs_names : ResourceReport → List OutputRecord → Names → Names
    outputs_names r [] names = names
    outputs_names r (o ∷ os) names = outputs_names r os (key_parts c files r o names).1

    abbrev pub outputs_valid : ResourceReport → List OutputRecord → Names → Bool
    outputs_valid r [] names = true
    outputs_valid r (o ∷ os) names =
        output_valid r o names && outputs_valid r os (key_parts c files r o names).1

    -- The same of a resource, of which only one without errors has keys.
    abbrev pub resource_names : ResourceReport → Names → Names
    resource_names r names = if length r.errors == 0 then outputs_names r r.outputs names else names

    abbrev pub resource_valid : ResourceReport → Names → Bool
    resource_valid r names = if length r.errors == 0 then outputs_valid r r.outputs names else true

    abbrev pub all_valid : List ResourceReport → Names → Bool
    all_valid [] names = true
    all_valid (r ∷ rs) names = resource_valid r names && all_valid rs (resource_names r names)

    abbrev pub all_names : List ResourceReport → Names → Names
    all_names [] names = names
    all_names (r ∷ rs) names = all_names rs (resource_names r names)

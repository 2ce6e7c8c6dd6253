-- ===== src/Layout/Tracks.antt =====
-- src/stable_layout.rs: `acb_track`, the names of the cues that play a track.
use sirius_asset_updater.Base.{
  ◌*◌, Text, utf8, text_eq, Bool, true, false, ◌&&◌, Option, none, some, List, [], ◌∷◌, ◌++◌, leb,
  length, any, if◌then◌else◌,
}
use sirius_asset_updater.Layout.Chars.{rsplit_once, first_part, eq_ignore_ascii_case}
use sirius_asset_updater.Layout.Types.{OutputRecord, ResourceReport}
use sirius_asset_updater.Layout.Names.{fix_file_name}
use sirius_asset_updater.Layout.Keys.{fixed_name, is_index}

-- The files of the export that name the cues of a track: what reading one at this path gives, and
-- the first element of each row, where it is a string, if the bytes parse as rows.
pub record CueFiles : Type 0 where
  pub read : Text → Option Text
  pub rows : Text → Option (List (Option Text))

abbrev small_rows : CueFiles → Option Text → Option (List (Option Text))
small_rows files none = none
small_rows files (some bytes) = if leb (length bytes) (1024 * 1024) then files.rows bytes else none

abbrev add_cue : List Text → Option Text → List Text
add_cue names none = names
add_cue names (some name) =
    if any (λ n. eq_ignore_ascii_case n name) names then names else names ++ name ∷ []

unfoldable pub cue_names : List Text → List (Option Text) → List Text
unfolding fix_file_name eq_ignore_ascii_case
cue_names names [] = names
cue_names names (row ∷ rows) = cue_names (add_cue names (fixed_name row)) rows

abbrev listed : Option (List (Option Text)) → List Text
listed none = []
listed (some rows) = cue_names [] rows

abbrev pub or_index : Text → List Text → List Text
or_index index [] = index ∷ []
or_index index (n ∷ ns) = n ∷ ns

-- The names where the output is a track, which has the index as its name if it has no cue.
abbrev pub track_names : Bool → Text → List Text → Option (List Text)
track_names false index names = none
track_names true index names = some (or_index index names)

-- The directory of an output, with its slash, and the file in it.
abbrev in_dir : Text → Option (Text × Text) → Text × Text
in_dir path none = ([], path)
in_dir path (some (dir, file)) = (dir ++ b'/' ∷ [], file)

module _ (files : CueFiles) (resource : ResourceReport) where
  abbrev track : Text × Text → Option (List Text)
  track (dir, file) =
      let index = first_part (utf8 ".") file in
      let cues = dir ++ index ++ utf8 ".cues.json" in
      track_names
        (is_index index
          && any (λ o. text_eq o.kind (utf8 "cue_metadata") && text_eq o.path cues)
              resource.outputs)
        index (listed (small_rows files (files.read (resource.output_directory ++ b'/' ∷ cues))))

  unfoldable pub acb_track : OutputRecord → Option (List Text)
  unfolding cue_names first_part rsplit_once
  acb_track output = track (in_dir output.path (rsplit_once (utf8 "/") output.path))

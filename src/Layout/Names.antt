-- ===== src/Layout/Names.antt =====
-- src/stable_layout.rs: the names that come from the game's data and the parts of a key.
use sirius_asset_updater.Base.{
  ℕ, zero, suc, ◌-◌, Text, utf8, text_eq, Bool, not, ◌&&◌, ◌||◌, Option, none, some, List, [], ◌∷◌,
  ◌++◌, leb, ◌==◌, length, take, filter, all, map, elem, if◌then◌else◌,
}
use sirius_asset_updater.Base.Strings.{
  strip_prefix, strip_suffix, starts_with, split, is_lower_hex, to_lower,
}
use sirius_asset_updater.Layout.Chars.{
  Unicode, is_control, is_whitespace, len, is_empty, trim_start, trim_end, trim, is_slash,
  split_once, rsplit_once, last_part, join, pop, decimal,
}
use sirius_asset_updater.Layout.Types.{OutputRecord}

abbrev pub max_stem_chars : ℕ
max_stem_chars = 220

abbrev pub clone_marker : Text
clone_marker = utf8 "(Clone)"

abbrev pub stripped_or : Text × ℕ → (Text → Text × ℕ) → Option Text → Text × ℕ
stripped_or found next none = found
stripped_or found next (some rest) = next rest

-- The loop of `compress_clone_suffixes`: what stands in front of the markers, and their count.
unfoldable pub strip_clones : ℕ → Text → ℕ → Text × ℕ
unfolding strip_suffix
strip_clones zero value count = (value, count)
strip_clones (suc fuel) value count =
    stripped_or (value, count) (λ rest. strip_clones fuel rest (suc count))
      (strip_suffix value clone_marker)

abbrev pub compressed : Text → Text × ℕ → Text
compressed value (front, count) =
    if leb count 1 then value else trim_end is_whitespace front ++ utf8 "__clone" ++ decimal count

unfoldable pub compress_clone_suffixes : Text → Text
unfolding strip_clones
compress_clone_suffixes value = compressed value (strip_clones (length value) value 0)

-- The characters that a file name may not hold, and `#` and `%`.
abbrev pub reserved_chars : List ℕ
reserved_chars = b'<' ∷ b'>' ∷ b':' ∷ b'"' ∷ b'/' ∷ b'\\' ∷ b'|' ∷ b'?' ∷ b'*' ∷ b'#' ∷ b'%' ∷ []

abbrev pub safe_char : ℕ → ℕ
safe_char c = if elem c reserved_chars || is_control c then b'_' else c

unfoldable pub shorten : Text → Text
shorten safe =
    if leb (length safe) max_stem_chars
    then safe
    else take (max_stem_chars - length (utf8 "__truncated")) safe ++ utf8 "__truncated"

unfoldable pub fix_file_name : Text → Text
unfolding shorten compress_clone_suffixes
fix_file_name value = shorten (compress_clone_suffixes (trim is_whitespace (map safe_char value)))

-- `flat_map`.
abbrev flat_map : (ℕ → Text) → Text → Text
flat_map f [] = []
flat_map f (c ∷ s) = f c ++ flat_map f s

unfoldable pub loose : Unicode → Text → Text
loose u value = flat_map u.lower_char (
    filter (λ c. not (c == b'_') && not (c == b'-') && not (is_whitespace c))
      (trim is_whitespace value))

-- One of the components that a path keeps.
abbrev pub normal_part : Text → Bool
normal_part c = not (is_empty c) && not (text_eq c (utf8 ".")) && not (text_eq c (utf8 ".."))

abbrev or_whole : Text → Option Text → Text
or_whole s none = s
or_whole s (some rest) = rest

-- What one prefix of the options leaves of a container, where it is a directory of it.
abbrev rest_behind : Option Text → Option Text
rest_behind none = none
rest_behind (some rest) =
    if starts_with rest (utf8 "/") && not (is_empty (trim_start is_slash rest))
    then some (trim_start is_slash rest)
    else none

abbrev or_later : Option Text → Option Text → Option Text
or_later none later = later
or_later (some rest) later = some rest

unfoldable pub strip_first : Text → List Text → Option Text
strip_first s [] = none
strip_first s (p ∷ ps) =
    or_later (rest_behind (strip_prefix s (trim is_slash p))) (strip_first s ps)

abbrev pub no_control : ℕ → ℕ
no_control c = if is_control c then b'_' else c

abbrev forward : ℕ → ℕ
forward c = if c == b'\\' then b'/' else c

unfoldable pub strip_container : Text → List Text → List Text
unfolding strip_first
strip_container container prefixes =
    let normalized = trim_start is_slash (map forward container) in
    map (map no_control)
      (filter normal_part (split b'/' (or_whole normalized (strip_first normalized prefixes))))

-- `rfind('.')`: no extension of a name that only starts with the dot.
abbrev around_dot : Text → Option (Text × Text) → Text × Text
around_dot file none = (file, [])
around_dot file (some ([], ext)) = (file, [])
around_dot file (some (c ∷ stem, ext)) = (c ∷ stem, ext)

unfoldable pub split_ext : Text → Text × Text
unfolding rsplit_once
split_ext file = around_dot file (rsplit_once (utf8 ".") file)

unfoldable pub join_ext : Text → Text → Text
join_ext stem ext = if is_empty ext then stem else stem ++ b'.' ∷ ext

abbrev joined : Text → Text × Text → Text
joined ext (stem, old) = join_ext stem ext

unfoldable pub with_extension : Text → Text → Text
unfolding split_ext join_ext
with_extension file ext = joined ext (split_ext file)

abbrev pub is_hex : ℕ → Bool
is_hex c = is_lower_hex (to_lower c)

-- `x_assets_x` in front of other parts is `x`.
abbrev plain_group : Text → Option (Text × Text) → Text
plain_group part none = part
plain_group part (some (group, rest)) =
    if text_eq group rest && not (is_empty group) then group else part

abbrev plain_first : List Text → List Text
plain_first [] = []
plain_first (p ∷ []) = p ∷ []
plain_first (p ∷ q ∷ ps) = plain_group p (split_once (utf8 "_assets_") p) ∷ q ∷ ps

abbrev without_hash : Text → Option (Text × Text) → Text
without_hash last none = last
without_hash last (some (stem, hash)) =
    if not (is_empty stem) && len hash == 32 && all is_hex hash then stem else last

abbrev located : Option (List Text × Text) → List Text × Text
located none = ([], without_hash (utf8 "resource") (rsplit_once (utf8 "_") (utf8 "resource")))
located (some (parts, last)) = (parts, without_hash last (rsplit_once (utf8 "_") last))

unfoldable pub cri_location : Text → List Text × Text
unfolding fix_file_name split_once rsplit_once pop
cri_location source =
    located (pop (plain_first (map fix_file_name (filter normal_part (split b'/' source)))))

unfoldable pub output_file : OutputRecord → Text
unfolding last_part
output_file output = last_part (utf8 "/") output.path

unfoldable pub output_ext : OutputRecord → Text
unfolding output_file split_ext
output_ext output = (split_ext (output_file output)).1

unfoldable pub container_key : Unicode → List Text → Text → Text
unfolding join
container_key u parts file =
    let dir = join parts in u.lowercase (if is_empty dir then file else dir ++ b'/' ∷ file)

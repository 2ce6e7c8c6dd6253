-- ===== src/Layout/Claim.antt =====
-- src/stable_layout.rs: `valid_key` and `claim`, and `content_type` of src/storage.rs.
use sirius_asset_updater.Base.{
  ℕ, zero, suc, ◌+◌, Text, utf8, text_eq, Bool, not, ◌&&◌, ◌||◌, Option, none, some, List, [], ◌∷◌,
  ◌++◌, String, ltb, leb, ◌==◌, length, any, all, map, if◌then◌else◌,
}
use sirius_asset_updater.Base.Strings.{split, to_lower}
use sirius_asset_updater.Base.Maps.{lookup, insert}
use sirius_asset_updater.Layout.Chars.{
  Unicode, is_control, len, is_empty, rsplit_once, last_part, decimal,
}
use sirius_asset_updater.Layout.Types.{Entry, Plan, default_plan}
use sirius_asset_updater.Layout.Names.{split_ext, join_ext}

abbrev valid_part : Text → Bool
valid_part part =
    not (is_empty part)
    && not (text_eq part (utf8 "."))
    && not (text_eq part (utf8 ".."))
    && leb (len part) 255

unfoldable pub valid_key : Text → Bool
unfolding is_control len
valid_key key =
    not (is_empty key)
    && leb (len key) 1024
    && not (any (λ c. c == b'\\' || c == 0) key)
    && not (any is_control key)
    && all valid_part (split b'/' key)

abbrev content_types : List (String × String)
content_types =
    ("png", "image/png")
    ∷ ("jpg", "image/jpeg")
    ∷ ("jpeg", "image/jpeg")
    ∷ ("webp", "image/webp")
    ∷ ("json", "application/json")
    ∷ ("jsonl", "application/x-ndjson")
    ∷ ("txt", "text/plain; charset=utf-8")
    ∷ ("shader", "text/plain; charset=utf-8")
    ∷ ("obj", "text/plain; charset=utf-8")
    ∷ ("csv", "text/plain; charset=utf-8")
    ∷ ("wav", "audio/wav")
    ∷ ("flac", "audio/flac")
    ∷ ("mp3", "audio/mpeg")
    ∷ ("ogg", "audio/ogg")
    ∷ ("mp4", "video/mp4")
    ∷ ("mkv", "video/x-matroska")
    ∷ ("m2v", "video/mpeg")
    ∷ ("ivf", "video/x-ivf")
    ∷ ("webm", "video/webm")
    ∷ ("ttf", "font/ttf")
    ∷ ("otf", "font/otf")
    ∷ []

unfoldable pub type_in : List (String × String) → Text → Text
type_in [] ext = utf8 "application/octet-stream"
type_in ((e, t) ∷ table) ext =
    let rest = type_in table ext in if text_eq ext (utf8 e) then utf8 t else rest

abbrev extension_of : Option (Text × Text) → Text
extension_of none = []
extension_of (some (stem, ext)) = ext

unfoldable pub content_type : Text → Text
unfolding last_part rsplit_once type_in
content_type key =
    let name = map to_lower (last_part (utf8 "/") key) in
    let ext = extension_of (rsplit_once (utf8 ".") name) in type_in content_types ext

-- What `claim` changes: the plan, the place of each key in it, and the key of each folded key.
pub record Claims : Type 0 where
  pub plan : Plan
  pub claimed : List (Text × ℕ)
  pub lowered : List (Text × Text)

abbrev pub no_claims : Claims
no_claims = record { plan = default_plan; claimed = []; lowered = [] }

-- Indexing, which panics out of range (`none`).
abbrev pub get_elem? {ℓ} : {A : Type ℓ} → List A → ℕ → Option A
get_elem? [] n = none
get_elem? (x ∷ xs) zero = some x
get_elem? (x ∷ xs) (suc n) = get_elem? xs n

abbrev entry_at : List Entry → Option ℕ → Option Entry
entry_at entries none = none
entry_at entries (some index) = get_elem? entries index

-- The stem that a suffix is put behind, and the extension.
abbrev stem_in : Text → Text × Text → Text × Text
stem_in dir (s, e) = (dir ++ b'/' ∷ s, e)

abbrev stem_of : Text → Option (Text × Text) → Text × Text
stem_of key none = split_ext key
stem_of key (some (dir, file)) = stem_in dir (split_ext file)

unfoldable pub key_stem : Text → Text × Text
unfolding rsplit_once split_ext
key_stem key = stem_of key (rsplit_once (utf8 "/") key)

abbrev pub suffixed : ℕ → Text × Text → Text
suffixed n (stem, ext) = join_ext (stem ++ utf8 "__dup" ++ decimal n) ext

-- The candidate of round `n`, of which the first is the key itself.
unfoldable pub candidate : Text → ℕ → Text
unfolding key_stem join_ext decimal
candidate key n = if leb n 1 then key else suffixed n (key_stem key)

abbrev pub same_content : Entry → Entry → Bool
same_content a b = text_eq a.sha256 b.sha256 && a.bytes == b.bytes

-- The key of a new entry.
abbrev pub placed : Unicode → Text → Entry → ℕ → Claims → Claims
placed u key entry n c = record {
  plan = record c.plan {
    entries = c.plan.entries ++ record entry { content_type = content_type key; path = key } ∷ [];
    renamed = if ltb 1 n then c.plan.renamed + 1 else c.plan.renamed;
  };
  claimed = insert text_eq key (length c.plan.entries) c.claimed;
  lowered = insert text_eq (u.lowercase key) key c.lowered;
}

abbrev pub deduplicated : Claims → Claims
deduplicated c = record c { plan = record c.plan { deduplicated = c.plan.deduplicated + 1 } }

-- The entry that holds a folded key: `none` where nothing does, `some none` where the maps do not
-- agree and the code panics.
abbrev holder : Claims → Option Text → Option (Option Entry)
holder c none = none
holder c (some existing) = some (entry_at c.plan.entries (lookup text_eq existing c.claimed))

unfoldable pub holder_of : Unicode → Claims → Text → Option (Option Entry)
unfolding lookup
holder_of u c key = holder c (lookup text_eq (u.lowercase key) c.lowered)

-- One round of the loop in `claim`: a result, `some none` for a panic, or `none` for another round.
abbrev round : Unicode → Text → Entry → ℕ → Claims → Option (Option Entry) → Option (Option Claims)
round u key entry n c none = some (some (placed u key entry n c))
round u key entry n c (some none) = some none
round u key entry n c (some (some e)) =
    if same_content e entry then some (some (deduplicated c)) else none

unfoldable pub claim_round : Unicode → Text → Entry → ℕ → Claims → Option (Option Claims)
unfolding candidate content_type insert holder_of
claim_round u key entry n c = round u (candidate key n) entry n c (holder_of u c (candidate key n))

unfoldable pub claim_loop : Unicode → ℕ → Text → Entry → ℕ → Claims → Option Claims
unfolding claim_round
claim_loop u zero key entry n c = none
claim_loop u (suc fuel) key entry n c =
    let rest = claim_loop u fuel key entry (suc n) c in
    elim (claim_round u key entry n c) [ none ↦ rest | some result ↦ result ]

-- One round for the key and one more than the keys that are taken.
unfoldable pub claim : Unicode → Text → Entry → Claims → Option Claims
unfolding claim_loop
claim u key entry c = claim_loop u (suc (suc (length c.plan.entries))) key entry 1 c

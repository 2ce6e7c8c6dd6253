-- ===== src/Layout/Aliases.antt =====
-- src/stable_layout.rs: how many keys an output gets.
use sirius_asset_updater.Base.{
  ℕ, suc, Text, utf8, text_eq, Bool, true, false, Option, none, some, List, [], ◌∷◌, ◌≡◌, refl, ap,
  subst, length, length-map, map, Bool-cases, ◌⊎◌, inl, inr, if◌then◌else◌,
}
use sirius_asset_updater.Base.Strings.{contains}
use sirius_asset_updater.Layout.Chars.{rest_or, pop}
use sirius_asset_updater.Layout.Names.{output_file}
use sirius_asset_updater.Layout.Types.{ObjectIdentity, OutputRecord, ResourceReport}
use sirius_asset_updater.Layout.Keys.{Names, Context, cri_key, unity_key}
use sirius_asset_updater.Layout.Tracks.{CueFiles, acb_track, or_index, track_names}
use sirius_asset_updater.Layout.Plan.{key_parts, object_keys, alias, aliased}

-- One key, or one for each cue of a track.
abbrev track_count : Option (List Text) → ℕ
track_count none = 1
track_count (some tracks) = length tracks

-- An object next to the bundle's own outputs has one key.
abbrev key_count : Option ObjectIdentity → Bool → ℕ → ℕ
key_count none nested n = n
key_count (some object) nested n = if nested then n else 1

-- Only a track has a key for each cue: its metadata, and whatever is no track, has one.
abbrev pub alias_count : CueFiles → ResourceReport → OutputRecord → ℕ
alias_count files r o =
    if text_eq o.kind (utf8 "cue_metadata")
    then 1
    else key_count o.object (contains o.path (utf8 "/")) (track_count (acb_track files r o))

or_index-cases :
    (index : Text) (names : List Text)
    → (t : Text) × (ts : List Text) × (or_index index names ≡ t ∷ ts)
or_index-cases index [] = (index, [], refl)
or_index-cases index (n ∷ ns) = (n, ns, refl)

track_names-cases :
    (b : Bool) (index : Text) (names : List Text)
    → (track_names b index names ≡ none)
      ⊎ ((t : Text) × (ts : List Text) × (track_names b index names ≡ some (t ∷ ts)))
track_names-cases false index names = inl refl
track_names-cases true index names =
    let (t, ts, e) = or_index-cases index names in inr (t, ts, ap some e)

-- A track has a name.
acb_track-cases :
    (files : CueFiles) (r : ResourceReport) (o : OutputRecord)
    → (acb_track files r o ≡ none)
      ⊎ ((t : Text) × (ts : List Text) × (acb_track files r o ≡ some (t ∷ ts)))
unfolding acb_track
acb_track-cases files r o = track_names-cases _ _ _

-- The keys of an output are so many, and there is one.
abbrev pub Counted : List (List Text) → ℕ → Type 0
Counted keys n = (k : List Text) × (ks : List (List Text)) × (keys ≡ k ∷ ks) × (suc (length ks) ≡ n)

one_key : (k : List Text) → Counted (k ∷ []) 1
one_key k = (k, [], refl, refl)

map-Counted :
    (f : Text → List Text) (t : Text) (ts : List Text) → Counted (map f (t ∷ ts)) (suc (length ts))
map-Counted f t ts = (f t, map f ts, refl, ap suc (length-map f ts))

aliased-Counted :
    (kind : Text) (k : List Text) (ks : List (List Text))
    → Counted
        (aliased kind (k ∷ ks))
        (if text_eq kind (utf8 "cue_metadata") then 1 else suc (length ks))
unfolding aliased
aliased-Counted kind k ks = elim (Bool-cases (text_eq kind (utf8 "cue_metadata"))) [
  | inl e ↦ rw e (k, [], refl, refl)
  | inr e ↦ rw e (k, ks, refl, refl)
]

module _ (c : Context) (files : CueFiles) (r : ResourceReport) (o : OutputRecord) where
  object_keys-Counted :
      (object : Option ObjectIdentity) (names : Names)
      → Counted
          (object_keys c files r o object names).0
          (key_count object (contains o.path (utf8 "/")) (track_count (acb_track files r o)))
  object_keys-Counted none names = elim (acb_track-cases files r o) [
    | inl e ↦ rw e (one_key _)
    | inr (t, ts, e) ↦ rw e (map-Counted (λ n. cri_key r o (some n)) t ts)
  ]
  object_keys-Counted (some object) names = elim (Bool-cases (contains o.path (utf8 "/"))) [
    | inr alone ↦ rw alone (one_key _)
    | inl below ↦ elim (acb_track-cases files r o) [
      | inl e ↦ rw (below, e) (one_key _)
      | inr (t, ts, e) ↦
          rw (below, e)
            (map-Counted
              (λ n.
                alias n (rest_or [] (utf8 ".") (output_file o))
                  (pop (unity_key c r o object names).0))
              t ts)
    ]
  ]

  -- The keys that an output claims are counted by `alias_count`, whatever was named before it.
  pub key_parts-Counted :
      (names : Names)
      → Counted (aliased o.kind (key_parts c files r o names).0) (alias_count files r o)
  unfolding key_parts
  key_parts-Counted names =
      let (k, ks, e, n) = object_keys-Counted o.object names in
      rw e (
        subst
          (λ m.
            Counted (aliased o.kind (k ∷ ks))
              (if text_eq o.kind (utf8 "cue_metadata") then 1 else m))
          n (aliased-Counted o.kind k ks))

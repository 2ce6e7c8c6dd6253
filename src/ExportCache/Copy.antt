-- ===== src/ExportCache/Copy.antt =====
-- src/export_cache.rs: `Cache::copy_outputs`, of which a source that is no directory has no files.
use sirius_asset_updater.Base.{
  ℕ, suc, Text, text_eq, not, ◌||◌, Option, none, some, List, [], ◌∷◌, ◌++◌, ltb, ◌==◌, length,
  if◌then◌else◌,
}
use sirius_asset_updater.Base.Maps.{lookup}
use sirius_asset_updater.Base.Texts.{contains_path}
use sirius_asset_updater.Fault.{Error, Result, ok, err, size}
use sirius_asset_updater.Layout.Types.{OutputRecord, ResourceReport}
use sirius_asset_updater.ExportCache.Types.{Files, Library, checked_add, safe_path, digest}

-- The errors of the output with this number: found cancelled before it, or cancelled or failed while
-- it is read and written.
pub record CopyOutside : Type 0 where
  pub before : ℕ → Option Error
  pub during : ℕ → Option Error

-- What the loop over the outputs keeps: the number, the sum of the bytes, the paths and the copies.
pub record Copied : Type 0 where
  pub number : ℕ
  pub sum : ℕ
  pub paths : List Text
  pub files : Files

abbrev pub next_copy : OutputRecord → Text → ℕ → Copied → Copied
next_copy o content sum s = record {
  number = suc s.number;
  sum = sum;
  paths = o.path ∷ s.paths;
  files = s.files ++ (o.path, content) ∷ [];
}

-- An output that is copied gives the next state, and one that is refused `none`.
module _ (lib : Library) (limit : ℕ) (out : CopyOutside) where
  abbrev pub copied : OutputRecord → ℕ → Copied → Text → Option Error → Result (Option Copied)
  copied o sum s content (some e) = err e
  copied o sum s content none =
      if text_eq (lib.sha256_hex content) o.sha256
      then ok (some (next_copy o content sum s))
      else ok none

  abbrev pub read_output : OutputRecord → ℕ → Copied → Option Text → Result (Option Copied)
  read_output o sum s none = ok none
  read_output o sum s (some content) =
      if length content == o.bytes then copied o sum s content (out.during s.number) else ok none

  abbrev pub bounded : Files → OutputRecord → Copied → Option ℕ → Result (Option Copied)
  bounded source o s none = err size
  bounded source o s (some sum) =
      if ltb limit sum then ok none else read_output o sum s (lookup text_eq o.path source)

  abbrev pub checked : Files → OutputRecord → Copied → Option Error → Result (Option Copied)
  checked source o s (some e) = err e
  checked source o s none =
      if not (safe_path o.path) || contains_path o.path s.paths || not (digest o.sha256)
      then ok none
      else bounded source o s (checked_add s.sum o.bytes)

  unfoldable pub copy_output : Files → OutputRecord → Copied → Result (Option Copied)
  unfolding lookup safe_path digest
  copy_output source o s = checked source o s (out.before s.number)

  abbrev pub copy_next :
      Result (Option Copied) → (Copied → Result (Option Files)) → Result (Option Files)
  copy_next (err e) next = err e
  copy_next (ok none) next = ok none
  copy_next (ok (some s)) next = next s

  unfoldable pub copy_loop : Files → List OutputRecord → Copied → Result (Option Files)
  unfolding copy_output
  copy_loop source [] s = ok (some s.files)
  copy_loop source (o ∷ os) s =
      copy_next (copy_output source o s) (λ next. copy_loop source os next)

  abbrev pub no_copies : Copied
  no_copies = record { number = 0; sum = 0; paths = []; files = [] }

  abbrev copy_from : Option Files → List OutputRecord → Result (Option Files)
  copy_from none os = ok none
  copy_from (some source) os = copy_loop source os no_copies

  unfoldable pub copy_outputs : Option Files → ResourceReport → Result (Option Files)
  unfolding copy_loop
  copy_outputs source report = copy_from source report.outputs

-- ===== src/ExportCache/Copies.antt =====
-- src/export_cache.rs: outputs that were copied once can be copied from there.
use mathlib.Core.List.{append_assoc, append-nil}
use sirius_asset_updater.Base.{
  ℕ, Text, text_eq, text_eq_refl, true, false, not, ◌||◌, none, some, List, [], ◌∷◌, ◌++◌, ◌≡◌,
  refl, sym, ap, subst, ◌∙◌, arith, length, ltb, ◌==◌, Bool-cases, Option-cases, inl, inr,
}
use sirius_asset_updater.Base.Maps.{lookup}
use sirius_asset_updater.Base.Texts.{contains_path}
use sirius_asset_updater.Fault.{ok, Result-cases}
use sirius_asset_updater.Layout.Types.{OutputRecord}
use sirius_asset_updater.ExportCache.Types.{Files, Library, checked_add, safe_path, digest}
use sirius_asset_updater.ExportCache.Copy.{CopyOutside, Copied, next_copy, copy_output, copy_loop}

abbrev pub paths_of : Files → List Text
paths_of [] = []
paths_of ((p, c) ∷ fs) = p ∷ paths_of fs

-- No error and no cancellation.
abbrev pub calm : CopyOutside
calm = record { before = λ n. none; during = λ n. none }

-- What is known of an output that was copied.
record Takes (lib : Library) (limit : ℕ) (o : OutputRecord) (s next : Copied) : Type 0 where
  content : Text
  sum : ℕ
  good : (not (safe_path o.path) || contains_path o.path s.paths || not (digest o.sha256)) ≡ false
  added : checked_add s.sum o.bytes ≡ some sum
  small : ltb limit sum ≡ false
  size : (length content == o.bytes) ≡ true
  hash : text_eq (lib.sha256_hex content) o.sha256 ≡ true
  next_is : next ≡ next_copy o content sum s

module _ (lib : Library) (limit : ℕ) where
  copy_output-Takes :
      (out : CopyOutside) (source : Files) (o : OutputRecord) (s next : Copied)
      → copy_output lib limit out source o s ≡ ok (some next)
      → Takes lib limit o s next
  unfolding copy_output
  copy_output-Takes out source o s next h = elim (Option-cases (out.before s.number)) [
    | inr (x, e) ↦ absurd (ground arith)
    | inl e ↦
        elim (Bool-cases
          (not (safe_path o.path) || contains_path o.path s.paths || not (digest o.sha256))) [
            | inl bad ↦ absurd (ground arith)
            | inr good ↦ elim (Option-cases (checked_add s.sum o.bytes)) [
              | inl q ↦ absurd (ground arith)
              | inr (sum, q) ↦ elim (Bool-cases (ltb limit sum)) [
                | inl large ↦ absurd (ground arith)
                | inr small ↦ elim (Option-cases (lookup text_eq o.path source)) [
                  | inl l ↦ absurd (ground arith)
                  | inr (content, l) ↦ elim (Bool-cases (length content == o.bytes)) [
                    | inr other ↦ absurd (ground arith)
                    | inl size ↦ elim (Option-cases (out.during s.number)) [
                      | inr (x, d) ↦ absurd (ground arith)
                      | inl d ↦ elim (Bool-cases (text_eq (lib.sha256_hex content) o.sha256)) [
                        | inr wrong ↦ absurd (ground arith)
                        | inl hash ↦ record {
                          content = content;
                          sum = sum;
                          good = good;
                          added = q;
                          small = small;
                          size = size;
                          hash = hash;
                          next_is = ground arith;
                        }
                      ]
                    ]
                  ]
                ]
              ]
            ]
          ]
  ]

  -- The same output from a place that holds its content.
  Takes-calm :
      (source : Files) (o : OutputRecord) (s next : Copied)
      → (t : Takes lib limit o s next) → lookup text_eq o.path source ≡ some t.content
      → copy_output lib limit calm source o s ≡ ok (some next)
  unfolding copy_output
  Takes-calm source o s next t h =
      rw (t.good, t.added, t.small, h, t.size, t.hash) (ap (λ z. ok (some z)) (sym t.next_is))

  -- The paths that were seen are those of the copies.
  abbrev pub Keyed : Copied → Type 0
  Keyed s = (p : Text) → contains_path p s.paths ≡ contains_path p (paths_of s.files)

  paths_of-append :
      (p q c : Text) (fs : Files)
      → contains_path p (paths_of (fs ++ (q, c) ∷ []))
        ≡ (text_eq p q || contains_path p (paths_of fs))
  paths_of-append p q c [] = refl
  paths_of-append p q c ((r, d) ∷ fs) = ground (arith, paths_of-append p q c fs)

  lookup-behind :
      (p c : Text) (fs more : Files)
      → contains_path p (paths_of fs) ≡ false
      → lookup text_eq p (fs ++ (p, c) ∷ more) ≡ some c
  unfolding lookup
  lookup-behind p c [] more h = ground (arith, text_eq_refl p)
  lookup-behind p c ((q, d) ∷ fs) more h = ground (arith, lookup-behind p c fs more)

  Takes-Keyed :
      (o : OutputRecord) (s next : Copied) → Takes lib limit o s next → Keyed s → Keyed next
  Takes-Keyed o s next t k = subst Keyed (sym t.next_is) (λ p.
      ap (λ b. text_eq p o.path || b) (k p) ∙ sym (paths_of-append p o.path t.content s.files))

  module _ (out : CopyOutside) (source : Files) where
    -- One output of the loop.
    copied_one :
        (o : OutputRecord) (os : List OutputRecord) (s : Copied) (full : Files)
        → copy_loop lib limit out source (o ∷ os) s ≡ ok (some full)
        → (next : Copied) × Takes lib limit o s next
          × (copy_loop lib limit out source os next ≡ ok (some full))
    unfolding copy_loop
    copied_one o os s full h = elim (Result-cases (copy_output lib limit out source o s)) [
      | inl (x, e) ↦ absurd (ground arith)
      | inr (r, e) ↦ elim (Option-cases r) [
        | inl q ↦ absurd (ground arith)
        | inr (next, q) ↦
            let e' = e ∙ ap ok q in
            (next, copy_output-Takes out source o s next e', rw (e', copy_loop) at h)
      ]
    ]

    copy_loop-more :
        (os : List OutputRecord) (s : Copied) (full : Files)
        → copy_loop lib limit out source os s ≡ ok (some full)
        → (more : Files) × (full ≡ s.files ++ more)
    unfolding copy_loop
    copy_loop-more [] s full h = ([], ground (arith, append-nil s.files))
    copy_loop-more (o ∷ os) s full h =
        let (next, t, rest) = copied_one o os s full h in
        let (more, e) = copy_loop-more os next full rest in
        (
          (o.path, t.content) ∷ more,
          e
              ∙ ap (λ z. z.files ++ more) t.next_is
              ∙ append_assoc s.files ((o.path, t.content) ∷ []) more,
        )

    pub copy_loop-again :
        (os : List OutputRecord) (s : Copied) (full : Files)
        → Keyed s
        → copy_loop lib limit out source os s ≡ ok (some full)
        → copy_loop lib limit calm full os s ≡ ok (some full)
    unfolding copy_loop
    copy_loop-again [] s full k h = h
    copy_loop-again (o ∷ os) s full k h =
        let (next, t, rest) = copied_one o os s full h in
        let (more, e) = copy_loop-more os next full rest in
        let whole =
          e
          ∙ ap (λ z. z.files ++ more) t.next_is
          ∙ append_assoc s.files ((o.path, t.content) ∷ []) more in
        let new : contains_path o.path (paths_of s.files) ≡ false =
          sym (k o.path) ∙ ground (arith, t.good) in
        let at =
          ap (lookup text_eq o.path) whole ∙ lookup-behind o.path t.content s.files more new in
        rw (Takes-calm full o s next t at, copy_loop)
          (copy_loop-again os next full (Takes-Keyed o s next t k) rest)

-- ===== src/Layout/Safe.antt =====
-- src/stable_layout.rs: the characters and the length of a name that `fix_file_name` made.
use sirius_asset_updater.Base.{
  ℕ, zero, suc, ◌+◌, ◌-◌, ◌/◌, ◌%◌, ◌≤◌, ◌<◌, Text, utf8, Bool, true, not, ◌||◌, [], ◌∷◌, ◌++◌, ◌≡◌,
  refl, subst, arith, length, length-append, length-take-le, take, all, all-append, all-before,
  all-take, map, elem, leb, ltb, Bool-cases, Option-cases, inl, inr,
}
use sirius_asset_updater.Base.Strings.{strip_suffix, strip_suffix-whole}
use sirius_asset_updater.Layout.Chars.{
  is_control, is_whitespace, trim_start, trim_end, trim, digits, decimal,
}
use sirius_asset_updater.Layout.Names.{
  max_stem_chars, clone_marker, strip_clones, compressed, compress_clone_suffixes, reserved_chars,
  safe_char, shorten, fix_file_name,
}

-- A character that no path, URL or terminal reads as anything but itself.
abbrev pub is_safe : ℕ → Bool
is_safe c = not (elem c reserved_chars || is_control c)

safe_char-is_safe : (c : ℕ) → is_safe (safe_char c) ≡ true
unfolding is_control
safe_char-is_safe c = elim (Bool-cases (elem c reserved_chars || is_control c)) [
  | inl bad ↦ rw bad refl
  | inr good ↦ rw good (ground arith)
]

map-safe_char : (s : Text) → all is_safe (map safe_char s) ≡ true
map-safe_char [] = refl
map-safe_char (c ∷ s) = rw (safe_char-is_safe c) (map-safe_char s)

digit-is_safe : (n : ℕ) → n < 10 → is_safe (48 + n) ≡ true
unfolding is_control
digit-is_safe n h = ground arith

module _ (p : ℕ → Bool) where
  all-trim_start : (q : ℕ → Bool) (s : Text) → all p s ≡ true → all p (trim_start q s) ≡ true
  unfolding trim_start
  all-trim_start q [] h = refl
  all-trim_start q (c ∷ s) h = ground (arith, all-trim_start q s)

  all-trim_end : (q : ℕ → Bool) (s : Text) → all p s ≡ true → all p (trim_end q s) ≡ true
  unfolding trim_end
  all-trim_end q [] h = refl
  all-trim_end q (c ∷ s) h = ground (arith, all-trim_end q s)

all-digits :
    (fuel n : ℕ) (acc : Text) → all is_safe acc ≡ true → all is_safe (digits fuel n acc) ≡ true
unfolding digits
all-digits zero n acc h = h
all-digits (suc fuel) n acc h = elim (Bool-cases (ltb n 10)) [
  | inl small ↦ rw (small, digit-is_safe n (ground arith)) h
  | inr large ↦
      rw large (
        all-digits fuel (n / 10) ((48 + n % 10) ∷ acc)
          (rw (digit-is_safe (n % 10) (omega arith)) h))
]

decimal-is_safe : (n : ℕ) → all is_safe (decimal n) ≡ true
unfolding decimal
decimal-is_safe n = all-digits (suc n) n [] refl

strip_clones-is_safe :
    (fuel : ℕ) (s : Text) (n : ℕ)
    → all is_safe s ≡ true
    → all is_safe (strip_clones fuel s n).0 ≡ true
unfolding strip_clones
strip_clones-is_safe zero s n h = h
strip_clones-is_safe (suc fuel) s n h = elim (Option-cases (strip_suffix s clone_marker)) [
  | inl e ↦ rw (e, strip_clones, all) h
  | inr (r, e) ↦
      let whole = subst (λ t. all is_safe t ≡ true) (strip_suffix-whole s clone_marker r e) h in
      rw (e, strip_clones, all)
        (strip_clones-is_safe fuel r (suc n) (all-before is_safe r clone_marker whole))
]

compressed-is_safe :
    (s front : Text) (n : ℕ)
    → all is_safe s ≡ true
    → all is_safe front ≡ true
    → all is_safe (compressed s (front, n)) ≡ true
unfolding is_control utf8
compressed-is_safe s front n h k = elim (Bool-cases (leb n 1)) [
  | inl e ↦ rw e h
  | inr e ↦ rw e (
      all-append is_safe (trim_end is_whitespace front ++ utf8 "__clone") (decimal n)
        (all-append is_safe (trim_end is_whitespace front) (utf8 "__clone")
          (all-trim_end is_safe is_whitespace front k) refl)
        (decimal-is_safe n))
]

shorten-is_safe : (s : Text) → all is_safe s ≡ true → all is_safe (shorten s) ≡ true
unfolding shorten is_control utf8
shorten-is_safe s h = elim (Bool-cases (leb (length s) max_stem_chars)) [
  | inl e ↦ rw e h
  | inr e ↦ rw e (
      all-append is_safe (take (max_stem_chars - length (utf8 "__truncated")) s)
        (utf8 "__truncated") (all-take is_safe (max_stem_chars - length (utf8 "__truncated")) s h)
        refl)
]

length-shorten : (s : Text) → length (shorten s) ≤ max_stem_chars
unfolding shorten utf8
length-shorten s = elim (Bool-cases (leb (length s) max_stem_chars)) [
  | inl e ↦ rw e (ground arith)
  | inr e ↦
      let keep = max_stem_chars - length (utf8 "__truncated") in
      rw e (omega (arith, length-append (take keep s) (utf8 "__truncated"), length-take-le keep s))
]

-- A name from the game's data has no separator, no reserved character and no control character, and at
-- most 220 characters.
pub fix_file_name-is_safe :
    (value : Text)
    → (all is_safe (fix_file_name value) ≡ true) × (length (fix_file_name value) ≤ max_stem_chars)
unfolding fix_file_name trim compress_clone_suffixes
fix_file_name-is_safe value =
    let s = trim is_whitespace (map safe_char value) in
    let safe =
      all-trim_end is_safe is_whitespace (trim_start is_whitespace (map safe_char value))
        (all-trim_start is_safe is_whitespace (map safe_char value) (map-safe_char value)) in
    (
      shorten-is_safe (compress_clone_suffixes s) (
          compressed-is_safe s (strip_clones (length s) s 0).0 (strip_clones (length s) s 0).1 safe
            (strip_clones-is_safe (length s) s 0 safe)),
      length-shorten (compress_clone_suffixes s),
    )

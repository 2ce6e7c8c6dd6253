-- ===== src/Layout/Chars.antt =====
-- The string functions of Rust that src/stable_layout.rs calls, on the characters of a string.
use sirius_asset_updater.Base.{
  ℕ, zero, suc, ◌+◌, ◌/◌, ◌%◌, Text, text_eq, Bool, true, false, ◌&&◌, ◌||◌, Option, none, some,
  List, [], ◌∷◌, ◌++◌, ltb, leb, ◌==◌, map, if◌then◌else◌,
}
use sirius_asset_updater.Base.Strings.{strip_prefix, to_lower}

-- Unicode's case mapping, a table outside the program: `str::to_lowercase` and `char::to_lowercase`.
pub record Unicode : Type 0 where
  pub lowercase : Text → Text
  pub lower_char : ℕ → Text

-- `char::is_control` (the general category Cc) and `char::is_whitespace` (White_Space).
unfoldable pub is_control : ℕ → Bool
is_control c = ltb c 32 || leb 127 c && leb c 159

unfoldable pub is_whitespace : ℕ → Bool
is_whitespace c =
    leb 9 c && leb c 13
    || c == 32
    || c == 133
    || c == 160
    || c == 5760
    || leb 8192 c && leb c 8202
    || c == 8232
    || c == 8233
    || c == 8239
    || c == 8287
    || c == 12288

-- `char::len_utf8`, and the bytes of a string.
unfoldable pub len_utf8 : ℕ → ℕ
len_utf8 c = if ltb c 128 then 1 else if ltb c 2048 then 2 else if ltb c 65536 then 3 else 4

unfoldable pub len : Text → ℕ
unfolding len_utf8
len [] = 0
len (c ∷ s) = len_utf8 c + len s

unfoldable pub is_empty : Text → Bool
is_empty [] = true
is_empty (c ∷ s) = false

-- `trim_start_matches`, `trim_end_matches` and `trim_matches`, by a test on a character.
unfoldable pub trim_start : (ℕ → Bool) → Text → Text
trim_start p [] = []
trim_start p (c ∷ s) = let rest = trim_start p s in if p c then rest else c ∷ s

unfoldable pub trim_end : (ℕ → Bool) → Text → Text
unfolding is_empty
trim_end p [] = []
trim_end p (c ∷ s) = let rest = trim_end p s in if p c && is_empty rest then [] else c ∷ rest

unfoldable pub trim : (ℕ → Bool) → Text → Text
unfolding trim_start trim_end
trim p s = trim_end p (trim_start p s)

abbrev pub is_slash : ℕ → Bool
is_slash c = c == b'/'

-- `split_once`, at the first place of a pattern, and `rsplit_once`, at the last.
abbrev before_first : ℕ → Option Text → Option (Text × Text) → Option (Text × Text)
before_first c (some rest) later = some ([], rest)
before_first c none none = none
before_first c none (some (a, b)) = some (c ∷ a, b)

unfoldable pub split_once : Text → Text → Option (Text × Text)
unfolding strip_prefix
split_once p [] = none
split_once p (c ∷ s) = before_first c (strip_prefix (c ∷ s) p) (split_once p s)

abbrev before_last : ℕ → Option Text → Option (Text × Text) → Option (Text × Text)
before_last c here (some (a, b)) = some (c ∷ a, b)
before_last c none none = none
before_last c (some rest) none = some ([], rest)

unfoldable pub rsplit_once : Text → Text → Option (Text × Text)
unfolding strip_prefix
rsplit_once p [] = none
rsplit_once p (c ∷ s) = before_last c (strip_prefix (c ∷ s) p) (rsplit_once p s)

-- `rsplit(p).next().unwrap_or(s)`, and `split(p).next().unwrap_or(s)`.
abbrev second_or : Text → Option (Text × Text) → Text
second_or s none = s
second_or s (some (a, b)) = b

abbrev first_or : Text → Option (Text × Text) → Text
first_or s none = s
first_or s (some (a, b)) = a

unfoldable pub last_part : Text → Text → Text
unfolding rsplit_once
last_part p s = second_or s (rsplit_once p s)

unfoldable pub first_part : Text → Text → Text
unfolding split_once
first_part p s = first_or s (split_once p s)

-- `split_once(p).map_or(default, |x| x.1)`.
unfoldable pub rest_or : Text → Text → Text → Text
unfolding split_once
rest_or default p s = second_or default (split_once p s)

-- `eq_ignore_ascii_case`.
unfoldable pub eq_ignore_ascii_case : Text → Text → Bool
unfolding text_eq
eq_ignore_ascii_case s t = text_eq (map to_lower s) (map to_lower t)

-- `[String]::join("/")`.
unfoldable pub join : List Text → Text
join [] = []
join (p ∷ []) = p
join (p ∷ q ∷ ps) = p ++ b'/' ∷ join (q ∷ ps)

-- `Vec::pop`: what stands before the last element, and the last.
abbrev pop_onto {ℓ} : {A : Type ℓ} → A → Option (List A × A) → Option (List A × A)
pop_onto x none = some ([], x)
pop_onto x (some (xs, last)) = some (x ∷ xs, last)

unfoldable pub pop {ℓ} : {A : Type ℓ} → List A → Option (List A × A)
pop [] = none
pop (x ∷ xs) = pop_onto x (pop xs)

-- A number in decimal, as `format!` writes it: the last digit of `n` in front of `acc`.
unfoldable pub digits : ℕ → ℕ → Text → Text
digits zero n acc = acc
digits (suc fuel) n acc =
    let more = digits fuel (n / 10) ((48 + n % 10) ∷ acc) in
    if ltb n 10 then (48 + n) ∷ acc else more

unfoldable pub decimal : ℕ → Text
unfolding digits
decimal n = digits (suc n) n []

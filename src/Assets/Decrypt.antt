-- ===== src/Assets/Decrypt.antt =====
-- src/assets.rs: `BundleKey`, which decrypts the first 16384 bytes of a Unity bundle in place.
use sirius_asset_updater.Base.{
  ℕ, Text, Bool, true, false, not, ◌||◌, Option, none, some, [], ◌∷◌, ◌++◌, ◌==◌, length, any, take,
  drop, min, if◌then◌else◌,
}
use sirius_asset_updater.Base.Strings.{starts_with}
use sirius_asset_updater.Fault.{Result, ok, err, asset_path, bundle, io, secret, ◌>>=◌, ok_or}
use sirius_asset_updater.Assets.Plan.{safe_relative}

-- The crates' work: `hex::decode_to_slice` into so many bytes, SHA-256, and AES-128 in counter
-- mode on a key, a counter block and the bytes.
pub record Crypto : Type 0 where
  pub decode_hex : ℕ → Text → Option Text
  pub sha256 : Text → Text
  pub apply_keystream : Text → Text → Text → Text

pub record BundleKey : Type 0 where
  pub key : Text
  pub seed : Text

abbrev pub unity_magic : Text
unity_magic = 85 ∷ 110 ∷ 105 ∷ 116 ∷ 121 ∷ 70 ∷ 83 ∷ 0 ∷ []

abbrev pub prefix_len : ℕ
prefix_len = 16384

-- How the calls of the file system end: opening the file, reading its first bytes (in as many reads as
-- it takes), seeking, and writing and syncing them, where `some n` is an error that leaves the first `n`
-- bytes written.
pub record FileOutside : Type 0 where
  pub open_fails : Bool
  pub read_fails : Bool
  pub seek_fails : Bool
  pub write : Option ℕ
  pub sync : Option ℕ

-- The prefix of a file is written over what it was read from. An error leaves some of it written.
abbrev pub over : Text → Text → Text
over front content = front ++ drop (length front) content

abbrev pub written : Option ℕ → Option ℕ → Text → Text → Result Bool × Text
written (some n) sync plain content = (err io, over (take n plain) content)
written none (some n) plain content = (err io, over (take n plain) content)
written none none plain content = (ok true, over plain content)

module _ (crypto : Crypto) where
  unfoldable pub from_hex : Text → Text → Result BundleKey
  from_hex key seed = do
    k ← ok_or (crypto.decode_hex 16 key) secret
    s ← ok_or (crypto.decode_hex 8 seed) secret
    ok (record { key = k; seed = s })

  -- The counter block: eight bytes of the digest, then eight zeros.
  unfoldable pub counter_block : BundleKey → Text → Text
  counter_block k basename =
      take 8 (crypto.sha256 (k.seed ++ basename)) ++ 0 ∷ 0 ∷ 0 ∷ 0 ∷ 0 ∷ 0 ∷ 0 ∷ 0 ∷ []

  -- `apply_keystream` on `bytes[..len]`.
  unfoldable pub decrypted : BundleKey → Text → Text → Text
  decrypted k basename bytes =
      let len = min (length bytes) prefix_len in
      crypto.apply_keystream k.key (counter_block k basename) (take len bytes) ++ drop len bytes

  -- The result, and the bytes as the call leaves them.
  unfoldable pub decrypt_prefix : BundleKey → Text → Text → Result (Unit {0}) × Text
  decrypt_prefix k bytes basename =
      if not (safe_relative basename) || any (λ c. c == b'/') basename
      then (err asset_path, bytes)
      else if starts_with bytes unity_magic
      then (ok tt, bytes)
      else let plain = decrypted k basename bytes in
        if not (starts_with plain unity_magic) then (err bundle, plain) else (ok tt, plain)

  -- What `decrypt_file` does with what `decrypt_prefix` did to the prefix.
  abbrev pub write_back : FileOutside → Text → Result (Unit {0}) × Text → Result Bool × Text
  write_back out content (err e, plain) = (err e, content)
  write_back out content (ok _, plain) =
      if starts_with (take prefix_len content) unity_magic
      then (ok false, content)
      else if out.seek_fails
      then (err io, content)
      else written out.write out.sync plain content

  -- The result, and what `decrypt_file` leaves in the file: `Ok(true)` where it decrypted.
  unfoldable pub decrypt_file : FileOutside → BundleKey → Text → Text → Result Bool × Text
  decrypt_file out k content basename =
      if out.open_fails || out.read_fails
      then (err io, content)
      else write_back out content (decrypt_prefix k (take prefix_len content) basename)

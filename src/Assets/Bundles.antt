-- ===== src/Assets/Bundles.antt =====
-- src/assets.rs: what `decrypt_file` leaves in a file.
use sirius_asset_updater.Base.{
  ℕ, Text, Bool, true, false, not, ◌||◌, arith, ◌≡◌, refl, ap, sym, subst, ◌∙◌, length, take, drop,
  Bool-cases, Option, none, some, ◌⊎◌, inl, inr,
}
use sirius_asset_updater.Base.Strings.{starts_with}
use sirius_asset_updater.Fault.{Error, io, Result, ok, err}
use sirius_asset_updater.Assets.Decrypt.{
  Crypto, FileOutside, over, written, BundleKey, unity_magic, prefix_len, decrypt_prefix,
  write_back, decrypt_file,
}
use sirius_asset_updater.Assets.Prefix.{
  take-over, drop-over, length-over, length-torn, KeepsLength, prefix-accepted,
}

module _ (crypto : Crypto) (out : FileOutside) (k : BundleKey) where
  -- What an accepted file has.
  abbrev pub IsDecrypted : Text → Text → Bool → Text → Type 0
  IsDecrypted basename content done content' =
      (decrypt_prefix crypto k (take prefix_len content) basename
        ≡ (ok tt, take prefix_len content'))
      × (done ≡ not (starts_with (take prefix_len content) unity_magic))
      × (starts_with (take prefix_len content') unity_magic ≡ true)
      × (length content' ≡ length content)
      × (drop prefix_len content' ≡ drop prefix_len content)
      × (decrypt_file crypto out k content' basename ≡ (ok false, content'))

  -- An error that leaves the file as it was: of opening, reading or seeking, or of the prefix.
  abbrev pub IsUntouched : Text → Text → Error → Text → Type 0
  IsUntouched basename content e content' =
      (content' ≡ content)
      × ((((out.open_fails || out.read_fails || out.seek_fails) ≡ true) × (e ≡ io))
          ⊎ ((decrypt_prefix crypto k (take prefix_len content) basename).0 ≡ err e))

  -- An error of writing or syncing leaves the first `n` of the bytes that were to be written: the
  -- decrypted prefix, which is a Unity bundle's.
  abbrev pub IsTorn : Text → Text → Error → Text → Type 0
  IsTorn basename content e content' =
      (n : ℕ) × (plain : Text) × (e ≡ io)
      × ((out.write ≡ some n) ⊎ (out.sync ≡ some n))
      × (decrypt_prefix crypto k (take prefix_len content) basename ≡ (ok tt, plain))
      × (content' ≡ over (take n plain) content)
      × (length content' ≡ length content)
      × (drop prefix_len content' ≡ drop prefix_len content)

  abbrev pub IsOutcome : Text → Text → Result Bool → Text → Type 0
  IsOutcome basename content (err e) content' =
      IsUntouched basename content e content' ⊎ IsTorn basename content e content'
  IsOutcome basename content (ok done) content' = IsDecrypted basename content done content'

  -- `decrypt_file` on a file whose prefix is a bundle already.
  plain-file :
      (content basename : Text)
      → (out.open_fails || out.read_fails) ≡ false
      → starts_with (take prefix_len content) unity_magic ≡ true
      → decrypt_prefix crypto k (take prefix_len content) basename
        ≡ (ok tt, take prefix_len content)
      → decrypt_file crypto out k content basename ≡ (ok false, content)
  unfolding decrypt_file
  plain-file content basename r e q = rw r (ap (write_back crypto out content) q ∙ rw e refl)

  IsTorn-file :
      (n : ℕ) (content basename plain : Text)
      → ((out.write ≡ some n) ⊎ (out.sync ≡ some n))
      → length plain ≡ length (take prefix_len content)
      → decrypt_prefix crypto k (take prefix_len content) basename ≡ (ok tt, plain)
      → IsTorn basename content io (over (take n plain) content)
  IsTorn-file n content basename plain w l q =
      let (a, b) = length-torn prefix_len n content plain l in (n, plain, refl, w, q, refl, a, b)

  abbrev Fits : Text → Text → Result Bool × Text → Type 0
  Fits basename content run = IsOutcome basename content run.0 run.1

  written-file :
      KeepsLength crypto k
      → (content basename plain : Text) (w y : Option ℕ) → out.write ≡ w
      → out.sync ≡ y
      → (out.open_fails || out.read_fails) ≡ false
      → starts_with (take prefix_len content) unity_magic ≡ false
      → decrypt_prefix crypto k (take prefix_len content) basename ≡ (ok tt, plain)
      → Fits basename content (written w y plain content)
  written-file keeps content basename plain (some n) y e f r m q =
      let (s, l, a, i) =
        prefix-accepted crypto k keeps (take prefix_len content) basename plain q in
      inr (IsTorn-file n content basename plain (inl e) l q)
  written-file keeps content basename plain none (some n) e f r m q =
      let (s, l, a, i) =
        prefix-accepted crypto k keeps (take prefix_len content) basename plain q in
      inr (IsTorn-file n content basename plain (inr f) l q)
  written-file keeps content basename plain none none e f r m q =
      let (s, l, a, i) =
        prefix-accepted crypto k keeps (take prefix_len content) basename plain q in
      let t = take-over prefix_len content plain l in
      (
        rw t q,
        ap not (sym m),
        rw t s,
        length-over prefix_len content plain l,
        drop-over prefix_len content plain l,
        plain-file (over plain content) basename r (rw t s) (rw t a),
      )

  accepted-file :
      KeepsLength crypto k
      → (content basename plain : Text) → (out.open_fails || out.read_fails) ≡ false
      → decrypt_prefix crypto k (take prefix_len content) basename ≡ (ok tt, plain)
      → Fits basename content (write_back crypto out content (ok tt, plain))
  accepted-file keeps content basename plain r q =
      let (s, l, a, i) =
        prefix-accepted crypto k keeps (take prefix_len content) basename plain q in
      elim (Bool-cases (starts_with (take prefix_len content) unity_magic)) [
        | inl e ↦
            let q' = q ∙ ap (λ z. (ok tt, z)) (i e) in
            rw e (q', ap not (sym e), e, refl, refl, plain-file content basename r e q')
        | inr e ↦ elim (Bool-cases out.seek_fails) [
          | inl f ↦
              let run : write_back crypto out content (ok tt, plain) ≡ (err io, content) =
                rw (e, f) refl in
              subst (Fits basename content) (sym run) (inl (refl, inl (ground (arith, f), refl)))
          | inr f ↦
              let run : write_back crypto out content (ok tt, plain)
                  ≡ written out.write out.sync plain content =
                rw (e, f) refl in
              subst (Fits basename content) (sym run)
                (written-file keeps content basename plain out.write out.sync refl refl r e q)
        ]
      ]

  read-file :
      KeepsLength crypto k
      → (content basename : Text) (run : Result (Unit {0}) × Text)
      → (out.open_fails || out.read_fails) ≡ false
      → decrypt_prefix crypto k (take prefix_len content) basename ≡ run
      → Fits basename content (write_back crypto out content run)
  read-file keeps content basename (err e, plain) r q = inl (refl, inr (ap (λ z. z.0) q))
  read-file keeps content basename (ok _, plain) r q =
      accepted-file keeps content basename plain r q

  -- Where the cipher keeps the length, an accepting `decrypt_file` leaves the accepted decrypted prefix, a
  -- Unity bundle's, in front of the old bytes from 16384 on, of the same length, says whether it was not
  -- one already, and a second call accepts the file as it is. A failing one leaves the file as it was,
  -- where opening, reading or seeking fails or the prefix is refused with that error; or, where writing or
  -- syncing fails, with the first bytes of the accepted decrypted prefix in their place, of the same length
  -- and with the old bytes from 16384 on.
  pub decrypt_file_lem :
      KeepsLength crypto k
      → (content basename : Text)
      → IsOutcome basename content
          (decrypt_file crypto out k content basename).0
          (decrypt_file crypto out k content basename).1
  unfolding decrypt_file
  decrypt_file_lem keeps content basename = elim (Bool-cases (out.open_fails || out.read_fails)) [
    | inl f ↦
        let run : decrypt_file crypto out k content basename ≡ (err io, content) = rw f refl in
        subst (Fits basename content) (sym run) (inl (refl, inl (ground (arith, f), refl)))
    | inr f ↦
        let prefix = decrypt_prefix crypto k (take prefix_len content) basename in
        let run : decrypt_file crypto out k content basename
            ≡ write_back crypto out content prefix =
          rw f refl in
        subst (Fits basename content) (sym run) (read-file keeps content basename prefix f refl)
  ]

-- ===== src/Publish/Held.antt =====
-- src/storage.rs: the objects that uploads, deletions and writes leave under the other keys.
use sirius_asset_updater.Base.{
  Text, text_eq, text_eq_iff, text_eq_refl, Bool, true, false, not, ◌&&◌, ◌||◌, Option, none, some,
  List, [], ◌∷◌, ◌≡◌, refl, sym, ap, subst, ◌∙◌, arith, any, all, ◌==◌, Bool-cases, ◌⊎◌, inl, inr,
}
use sirius_asset_updater.Base.Maps.{lookup, insert, lookup-insert}
use sirius_asset_updater.Base.Texts.{text_eq_sym}
use sirius_asset_updater.Fault.{Error, Result, ok, err}
use sirius_asset_updater.Layout.Types.{Entry}
use sirius_asset_updater.Publish.Types.{Object, file, Remote, Outcome, finished, broken, Outside}
use sirius_asset_updater.Publish.Stable.{
  leave, remove, uploaded_as, write_one, upload_all, then_with, delete_one, delete_all,
}

-- Whether the object of an entry has its bytes.
abbrev pub held_by : Entry → Option Object → Bool
held_by e (some (file b s t)) = b == e.bytes && text_eq s e.sha256
held_by e o = false

abbrev pub holds : Remote → Entry → Bool
holds r e = held_by e (lookup text_eq e.path r)

-- Two entries are of different keys or have the same bytes.
abbrev pub agrees : Entry → Entry → Bool
agrees e x = not (text_eq e.path x.path) || e.bytes == x.bytes && text_eq e.sha256 x.sha256

pub apart-insert :
    (k j : Text) (o : Object) (r : Remote)
    → text_eq k j ≡ false
    → lookup text_eq k (insert text_eq j o r) ≡ lookup text_eq k r
unfolding lookup insert
apart-insert k j o [] h = rw h refl
apart-insert k j o ((i, v) ∷ r) h = elim (Bool-cases (text_eq j i)) [
  | inl e ↦
      let k≠i : text_eq k i ≡ false = subst (λ z. text_eq k z ≡ false) ((text_eq_iff j i).0 e) h in
      rw (e, k≠i) refl
  | inr e ↦ rw e (ground (arith, apart-insert k j o r h))
]

apart-remove :
    (k j : Text) (r : Remote)
    → text_eq k j ≡ false
    → lookup text_eq k (remove j r) ≡ lookup text_eq k r
unfolding lookup
apart-remove k j [] h = refl
apart-remove k j ((i, v) ∷ r) h = elim (Bool-cases (text_eq i j)) [
  | inl e ↦
      let k≠i : text_eq k i ≡ false =
        subst (λ z. text_eq k z ≡ false) (sym ((text_eq_iff i j).0 e)) h in
      rw (e, k≠i) (apart-remove k j r h)
  | inr e ↦ rw e (ground (arith, apart-remove k j r h))
]

apart-leave :
    (k j : Text) (o : Option Object) (r : Remote)
    → text_eq k j ≡ false
    → lookup text_eq k (leave j o r) ≡ lookup text_eq k r
apart-leave k j none r h = refl
apart-leave k j (some o) r h = apart-insert k j o r h

-- A write or a deletion touches no other key, however it ends.
pub apart-write_one :
    (k j : Text) (o : Object) (out : Outcome) (r : Remote)
    → text_eq k j ≡ false
    → lookup text_eq k (write_one j o out r).1 ≡ lookup text_eq k r
apart-write_one k j o finished r h = apart-insert k j o r h
apart-write_one k j o (broken e left) r h = apart-leave k j left r h

apart-delete_one :
    (k j : Text) (out : Outcome) (r : Remote)
    → text_eq k j ≡ false
    → lookup text_eq k (delete_one j out r).1 ≡ lookup text_eq k r
apart-delete_one k j finished r h = apart-remove k j r h
apart-delete_one k j (broken e none) r h = apart-remove k j r h
apart-delete_one k j (broken e (some o)) r h = apart-insert k j o r h

-- A chain keeps what each of its parts keeps.
pub kept-then_with {ℓ} :
    {A : Type ℓ} (k : Text) (o : Option Object) (run : Result (Unit {0}) × Remote)
    (next : Remote → Result A × Remote)
    → lookup text_eq k run.1 ≡ o
    → ((s : Remote) → lookup text_eq k s ≡ o → lookup text_eq k (next s).1 ≡ o)
    → lookup text_eq k (then_with run next).1 ≡ o
kept-then_with k o (err e, r) next h f = h
kept-then_with k o (ok u, r) next h f = f r h

Outcome-cases :
    (o : Outcome) → (o ≡ finished) ⊎ ((e : Error) × (left : Option Object) × (o ≡ broken e left))
Outcome-cases finished = inl refl
Outcome-cases (broken e left) = inr (e, left, refl)

-- An uploaded entry holds the bytes of one that agrees with it.
held-same :
    (e x : Entry) (r : Remote)
    → agrees e x ≡ true
    → text_eq e.path x.path ≡ true
    → holds (insert text_eq e.path (uploaded_as e) r) x ≡ true
held-same e x r a h =
    let q : e.path ≡ x.path = (text_eq_iff e.path x.path).0 h in
    let at : lookup text_eq x.path (insert text_eq e.path (uploaded_as e) r)
        ≡ some (uploaded_as e) =
      subst (λ z. lookup text_eq z (insert text_eq e.path (uploaded_as e) r) ≡ some (uploaded_as e))
        q (lookup-insert text_eq text_eq_refl e.path (uploaded_as e) r) in
    rw at (ground arith)

held-insert :
    (e x : Entry) (r : Remote)
    → agrees e x ≡ true
    → holds r x ≡ true
    → holds (insert text_eq e.path (uploaded_as e) r) x ≡ true
held-insert e x r a h = elim (Bool-cases (text_eq e.path x.path)) [
  | inl here ↦ held-same e x r a here
  | inr there ↦
      ap (held_by x)
        (apart-insert x.path e.path (uploaded_as e) r (text_eq_sym x.path e.path ∙ there))
      ∙ h
]

module _ (out : Outside) where
  pub apart-upload_all :
      (k : Text) (es : List Entry) (r : Remote)
      → all (λ x. not (text_eq k x.path)) es ≡ true
      → lookup text_eq k (upload_all out es r).1 ≡ lookup text_eq k r
  unfolding upload_all
  apart-upload_all k [] r h = refl
  apart-upload_all k (e ∷ es) r h =
      apart-upload_all k es (write_one e.path (uploaded_as e) (out.upload e.path) r).1
        (ground arith)
      ∙ apart-write_one k e.path (uploaded_as e) (out.upload e.path) r (ground arith)

  pub apart-delete_all :
      (k : Text) (ks : List Text) (r : Remote)
      → all (λ j. not (text_eq k j)) ks ≡ true
      → lookup text_eq k (delete_all out ks r).1 ≡ lookup text_eq k r
  unfolding delete_all
  apart-delete_all k [] r h = refl
  apart-delete_all k (j ∷ ks) r h =
      kept-then_with k (lookup text_eq k r) (delete_one j (out.delete j) r)
        (λ s. delete_all out ks s) (apart-delete_one k j (out.delete j) r (ground arith))
        (λ s q. apart-delete_all k ks s (ground arith) ∙ q)

  -- The key of an uploaded entry holds its bytes, where the other uploads agree with it.
  upload_all-keeps :
      (x : Entry) (es : List Entry) (r : Remote)
      → all (λ e. agrees e x) es ≡ true
      → (upload_all out es r).0 ≡ ok tt
      → holds r x ≡ true
      → holds (upload_all out es r).1 x ≡ true
  unfolding upload_all
  upload_all-keeps x [] r a k h = h
  upload_all-keeps x (e ∷ es) r a k h = elim (Outcome-cases (out.upload e.path)) [
    | inr (y, left, q) ↦ absurd (ground (arith, rw (q, upload_all) at k))
    | inl q ↦
        rw (q, upload_all)
          (upload_all-keeps x es (insert text_eq e.path (uploaded_as e) r) (ground arith)
            (rw (q, upload_all) at k) (held-insert e x r (ground arith) h))
  ]

  pub upload_all-holds :
      (x : Entry) (es : List Entry) (r : Remote)
      → all (λ e. agrees e x) es ≡ true
      → (upload_all out es r).0 ≡ ok tt
      → (any (λ e. text_eq e.path x.path) es ≡ true) ⊎ (holds r x ≡ true)
      → holds (upload_all out es r).1 x ≡ true
  unfolding upload_all
  upload_all-holds x [] r a k (inl t) = absurd (cc)
  upload_all-holds x [] r a k (inr h) = h
  upload_all-holds x (e ∷ es) r a k t = elim (Outcome-cases (out.upload e.path)) [
    | inr (y, left, q) ↦ absurd (ground (arith, rw (q, upload_all) at k))
    | inl q ↦
        let next = insert text_eq e.path (uploaded_as e) r in
        let k' = rw (q, upload_all) at k in
        rw (q, upload_all)
          (elim (Bool-cases (text_eq e.path x.path)) [
            | inl here ↦
                upload_all-keeps x es next (ground arith) k' (held-same e x r (ground arith) here)
            | inr there ↦ elim t [
              | inl later ↦ upload_all-holds x es next (ground arith) k' (inl (ground arith))
              | inr h ↦
                  upload_all-keeps x es next (ground arith) k' (held-insert e x r (ground arith) h)
            ]
          ])
  ]

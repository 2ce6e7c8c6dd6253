-- ===== src/Layout/Stems.antt =====
-- src/stable_layout.rs: the stems that `Context::object_stem` chooses for unnamed objects.
use sirius_asset_updater.Base.{
  Text, text_eq_refl, true, none, some, List, [], ◌∷◌, ◌++◌, ◌≡◌, refl, sym, ap, subst, arith,
  Option-cases, inl, inr,
}
use sirius_asset_updater.Base.Maps.{lookup, lookup-insert, insert-new}
use sirius_asset_updater.Layout.Types.{ℤ, pos, negsuc, ℤ_eq, ObjectIdentity}
use sirius_asset_updater.Layout.Keys.{
  Names, object_eq, fixed_name, fresh_stem, known_stem, named_stem, object_stem,
}

-- A call of `object_stem`: the object, its scope and its class.
pub record Call : Type 0 where
  pub object : ObjectIdentity
  pub scope : Text
  pub class : Text

abbrev pub call_stem : Call → Names → Text × Names
call_stem a names = object_stem a.object a.scope a.class names

abbrev pub later : List Call → Names → Names
later [] names = names
later (a ∷ calls) names = later calls (call_stem a names).1

ℤ_eq_refl : (i : ℤ) → ℤ_eq i i ≡ true
ℤ_eq_refl (pos n) = ground arith
ℤ_eq_refl (negsuc n) = ground arith

object_eq_refl : (k : Text × ℤ) → object_eq k k ≡ true
object_eq_refl (f, i) = ground (arith, text_eq_refl f, ℤ_eq_refl i)

abbrev identity_of : ObjectIdentity → Text × ℤ
identity_of object = (object.source_file, object.path_id)

lookup-append :
    (k j : Text × ℤ) (s t : Text) (m : List ((Text × ℤ) × Text))
    → lookup object_eq k m ≡ some s
    → lookup object_eq k (m ++ (j, t) ∷ []) ≡ some s
unfolding lookup
lookup-append k j s t [] h = absurd (cc)
lookup-append k j s t ((i, v) ∷ m) h = ground (arith, lookup-append k j s t m)

-- A stem that was chosen stays.
stem-kept :
    (a : Call) (names : Names) (k : Text × ℤ) (s : Text)
    → lookup object_eq k names.stems ≡ some s
    → lookup object_eq k (call_stem a names).1.stems ≡ some s
unfolding object_stem
stem-kept a names k s h = elim (Option-cases (fixed_name a.object.name)) [
  | inr (n, e) ↦ rw e h
  | inl e ↦ elim (Option-cases (lookup object_eq (identity_of a.object) names.stems)) [
    | inr (t, q) ↦ rw (e, q) h
    | inl q ↦
        let new = fresh_stem (identity_of a.object) (a.scope, a.object.class_id) a.class names in
        rw (e, q, insert-new object_eq (identity_of a.object) new.0 names.stems q)
          (lookup-append k (identity_of a.object) s new.0 names.stems h)
  ]
]

stem-kept_later :
    (calls : List Call) (names : Names) (k : Text × ℤ) (s : Text)
    → lookup object_eq k names.stems ≡ some s
    → lookup object_eq k (later calls names).stems ≡ some s
stem-kept_later [] names k s h = h
stem-kept_later (a ∷ calls) names k s h =
    stem-kept_later calls (call_stem a names).1 k s (stem-kept a names k s h)

-- The stem of an unnamed object is kept for it.
stem-stored :
    (a : Call) (names : Names)
    → fixed_name a.object.name ≡ none
    → lookup object_eq (identity_of a.object) (call_stem a names).1.stems
      ≡ some (call_stem a names).0
unfolding object_stem
stem-stored a names e = elim (Option-cases (lookup object_eq (identity_of a.object) names.stems)) [
  | inr (t, q) ↦ rw (e, q) q
  | inl q ↦
      let new = fresh_stem (identity_of a.object) (a.scope, a.object.class_id) a.class names in
      rw (e, q) (lookup-insert object_eq object_eq_refl (identity_of a.object) new.0 names.stems)
]

-- All outputs of an object agree: after any further calls it has the stem that it had, in whatever
-- scope and class it is named again.
pub object_stem-again :
    (object : ObjectIdentity) (scope scope' class class' : Text) (calls : List Call) (names : Names)
    → (object_stem object scope' class' (later calls (object_stem object scope class names).1)).0
      ≡ (object_stem object scope class names).0
unfolding object_stem
object_stem-again object scope scope' class class' calls names =
    let a : Call = record { object = object; scope = scope; class = class } in
    elim (Option-cases (fixed_name object.name)) [
      | inr (n, e) ↦ rw e refl
      | inl e ↦
          let k =
            stem-kept_later calls (call_stem a names).1 (identity_of object) (call_stem a names).0
              (stem-stored a names e) in
          subst
            (λ z.
              (named_stem object scope' class' (later calls (call_stem a names).1) z).0
              ≡ (call_stem a names).0)
            (sym e)
            (ap
              (λ z.
                (known_stem (identity_of object) (scope', object.class_id) class'
                  (later calls (call_stem a names).1) z).0)
              k)
    ]

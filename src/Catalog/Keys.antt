-- ===== src/Catalog/Keys.antt =====
-- src/catalog.rs: the key table of `Catalog::parse`, against the locations that are read.
use mathlib.Core.List.{reverse}
use sirius_asset_updater.Base.{
  ℕ, ◌+◌, Text, text_eq, text_leb, true, Option, none, some, List, [], ◌∷◌, ◌++◌, ◌≡◌, ◌≢◌, refl,
  subst, arith, ltb, length, elem, All, All-mono, All-append, Bool-cases, inl, inr,
}
use sirius_asset_updater.Fault.{Result, ok, err, Result-cases, ok-injective}
use sirius_asset_updater.Catalog.Types.{max_links, Location, Catalog}
use sirius_asset_updater.Catalog.Reader.{read_ids, read_array, read_u32, words}
use sirius_asset_updater.Catalog.Parse.{
  Keys, has_location, read_locations, extend_key, index_key, read_key, read_keys, key_name,
  read_table, parse, parse_fuel, no_keys, rows, check_header, finished,
}
use sirius_asset_updater.Catalog.Closure.{elem-pushed, elems, Named, read_locations-Covered}

-- Every id that the index lists satisfies a predicate.
abbrev pub Listed : (ℕ → Type 0) → List (Text × List ℕ) → Type 0
Listed P = All (λ k. All P k.1)

Listed-extend_key :
    (P : ℕ → Type 0) (name : Text) (ids : List ℕ) (index : List (Text × List ℕ))
    → All P ids
    → Listed P index
    → Listed P (extend_key name ids index)
unfolding extend_key
Listed-extend_key P name ids [] h k = (h, tt)
Listed-extend_key P name ids ((n, old) ∷ rest) h (k, ks) = elim (Bool-cases (text_eq n name)) [
  | inl e ↦ rw e (All-append P old ids k h, ks)
  | inr e ↦ elim (Bool-cases (text_leb name n)) [
    | inl f ↦ rw (e, f) (h, (k, ks))
    | inr f ↦ rw (e, f) (k, Listed-extend_key P name ids rest h ks)
  ]
]

Listed-index_key :
    (P : ℕ → Type 0) (name : Option Text) (ids : List ℕ) (index : List (Text × List ℕ))
    → All P ids
    → Listed P index
    → Listed P (index_key name ids index)
Listed-index_key P none ids index h k = k
Listed-index_key P (some n) ids index h k = Listed-extend_key P n ids index h k

-- A catalog that names nothing outside it.
pub record IsClosed (c : Catalog) : Type 0 where
  pub dependencies :
      All (λ l. All (λ d. has_location d c.locations ≡ true) l.dependencies) c.locations
  pub keys : Listed (λ d. has_location d c.locations ≡ true) c.keys
  pub inhabited : c.locations ≢ []

module _ (file : Text) where
  -- The index lists pending locations.
  abbrev Pending : Keys → Type 0
  Pending k = Listed (λ d. elem d k.pending ≡ true) k.index

  pushed : (ids pending : List ℕ) → All (λ d. elem d (reverse ids ++ pending) ≡ true) ids
  pushed ids pending =
      All-mono (λ d. elem d ids ≡ true) _ (λ d h. rw (elem-pushed d ids pending) (ground arith)) ids
        (elems ids)

  still :
      (ids pending : List ℕ) (d : ℕ)
      → elem d pending ≡ true
      → elem d (reverse ids ++ pending) ≡ true
  still ids pending d h = rw (elem-pushed d ids pending) (ground arith)

  read_key-Pending : (r : ℕ × ℕ) (k k' : Keys) → Pending k → read_key file r k ≡ ok k' → Pending k'
  unfolding read_key
  read_key-Pending (object, pointer) k k' c h = elim (Result-cases (read_ids file pointer)) [
    | inl (e, q) ↦ absurd (ground arith)
    | inr (ids, q) ↦ elim (Bool-cases (ltb max_links (k.links + length ids))) [
      | inl many ↦ absurd (ground arith)
      | inr fits ↦ elim (Result-cases (key_name file object k.budget)) [
        | inl (e, n) ↦ absurd (ground arith)
        | inr ((name, left), n) ↦
            subst Pending
              {x = record {
                index = index_key name ids k.index;
                pending = reverse ids ++ k.pending;
                links = k.links + length ids;
                budget = left;
              }}
              {y = k'} (ground arith)
              (Listed-index_key (λ d. elem d (reverse ids ++ k.pending) ≡ true) name ids k.index
                (pushed ids k.pending)
                (All-mono _ _ (λ x. All-mono _ _ (still ids k.pending) x.1) k.index c))
      ]
    ]
  ]

  read_keys-Pending :
      (rs : List (ℕ × ℕ)) (k k' : Keys) → Pending k → read_keys file rs k ≡ ok k' → Pending k'
  unfolding read_keys
  read_keys-Pending [] k k' c h = subst Pending (ok-injective h) c
  read_keys-Pending (r ∷ rs) k k' c h = elim (Result-cases (read_key file r k)) [
    | inl (e, q) ↦ absurd (ground arith)
    | inr (m, q) ↦ read_keys-Pending rs m k' (read_key-Pending r k m c q) (ground arith)
  ]

  read_table-Pending : (k : Keys) → read_table file ≡ ok k → Pending k
  unfolding read_table
  read_table-Pending k h = elim (Result-cases (read_u32 file 8)) [
    | inl (e, q) ↦ absurd (ground arith)
    | inr (pointer, q) ↦ elim (Result-cases (read_array file pointer 8)) [
      | inl (e, r) ↦ absurd (ground arith)
      | inr (table, r) ↦ read_keys-Pending (rows (words table)) no_keys k tt (ground arith)
    ]
  ]

  seeded : (k : Keys) (d : ℕ) → elem d k.pending ≡ true → Named [] k.pending d
  unfolding has_location
  seeded k d n = n

  finished-IsClosed :
      (k : Keys) (r : Option (Result (List Location))) (c : Catalog)
      → Pending k
      → read_locations file parse_fuel k.pending [] k.links k.budget ≡ r
      → finished k.index r ≡ ok c
      → IsClosed c
  finished-IsClosed k none c p e h = absurd (cc)
  finished-IsClosed k (some (err x)) c p e h = absurd (cc)
  finished-IsClosed k (some (ok [])) c p e h = absurd (cc)
  finished-IsClosed k (some (ok (l ∷ ls))) c p e h =
      let (covered, held) =
        read_locations-Covered file parse_fuel k.pending [] k.links k.budget (l ∷ ls) tt e in
      subst IsClosed (ok-injective h) (record {
        dependencies =
            All-mono _ _ (λ m. All-mono _ _ (λ d n. ground arith) m.dependencies) (l ∷ ls) covered;
        keys = All-mono _ _ (λ x. All-mono _ _ (λ d n. held d (seeded k d n)) x.1) k.index p;
        inhabited = λ q. cc;
      })

  -- A catalog that parses holds each location that a location depends on and each that a key names,
  -- and at least one.
  pub parse-IsClosed : (c : Catalog) → parse file ≡ ok c → IsClosed c
  unfolding parse
  parse-IsClosed c h = elim (Bool-cases (ltb 67108864 (length file))) [
    | inl long ↦ absurd (ground arith)
    | inr fits ↦ elim (Result-cases (check_header file)) [
      | inl (e, q) ↦ absurd (ground arith)
      | inr (u, q) ↦ elim (Result-cases (read_table file)) [
        | inl (e, r) ↦ absurd (ground arith)
        | inr (k, r) ↦ finished-IsClosed k _ c (read_table-Pending k r) refl (ground arith)
      ]
    ]
  ]

-- ===== src/ExportCache/Evictions.antt =====
-- src/export_cache.rs: how `make_room` ends.
use sirius_asset_updater.Base.{
  ℕ, zero, suc, ◌+◌, ◌<◌, not, Text, text_eq, Bool, true, false, ◌&&◌, Option, none, some, List, [],
  ◌∷◌, ◌≡◌, refl, sym, ap, subst, arith, length, Bool-cases, Option-cases, ◌⊎◌, inl, inr,
}
use sirius_asset_updater.Base.Maps.{insert}
use sirius_asset_updater.Fault.{Error, Result, ok, err, size, cancelled}
use sirius_asset_updater.ExportCache.Types.{Item, Budget, Directory, Cache}
use sirius_asset_updater.ExportCache.Room.{
  Removal, removed, left, Outside, find_old, within, desired_bytes, desired_count, victim,
  remove_dir, Round, budget_without, evicted, ended, again, room_round, room_loop, make_room,
}
use sirius_asset_updater.ExportCache.Oldest.{
  IsAccounted, victim-IsVictim, remove-one, budget_without-IsAccounted,
}

-- The entries `gone` were evicted one by one, each the victim of its round.
pub data Evicts (replacing : Option Text) : List Item → Budget → Budget → Type 0 where
  none_gone : {b : Budget} → Evicts replacing [] b b
  one_gone :
      {i : Item} {gone : List Item} {b d : Budget}
      → victim replacing b.entries ≡ some i
      → Evicts replacing gone (budget_without i b) d
      → Evicts replacing (i ∷ gone) b d

removal-cases : (r : Removal) → (r ≡ removed) ⊎ ((e : Error) × (d : Directory) × (r ≡ left e d))
removal-cases removed = inl refl
removal-cases (left e d) = inr (e, d, refl)

module _ (replacing : Option Text) (bytes count : ℕ) where
  -- Whether the cache has room for an entry of so many bytes.
  abbrev has_bytes : Cache → Option ℕ → Bool
  has_bytes c none = false
  has_bytes c (some n) = within c.max_bytes n

  abbrev pub has_room : Cache → Bool
  has_room c =
      has_bytes c (desired_bytes c.budget (find_old replacing c.budget.entries) bytes)
      && within c.max_entries (desired_count c.budget (find_old replacing c.budget.entries) count)

abbrev is_removed : Removal → Bool
is_removed removed = true
is_removed (left e d) = false

-- The directories without the evicted ones.
abbrev pub without : List Item → List (Text × Directory) → List (Text × Directory)
without [] disk = disk
without (i ∷ gone) disk = without gone (remove_dir i.id disk)

module _ (out : Outside) (replacing : Option Text) (bytes count : ℕ) where
  -- The rounds from `n` on that evicted these entries were short of room, were not stopped, and removed
  -- them from the disk.
  abbrev pub went_on : ℕ → Cache → List Item → Bool
  went_on n c [] = true
  went_on n c (i ∷ gone) =
      not (has_room replacing bytes count c)
      && not (out.stop n)
      && is_removed (out.removal n)
      && went_on (suc n) (evicted i c) gone

  -- How the loop ends in round `n`, which it enters with the cache `c`: with room, for a size that is no
  -- `u64`, with nothing left to evict, by the cancellation, or by the removal of the victim that failed and
  -- left some of it.
  pub data Outcome (n : ℕ) (c : Cache) : Cache → Result (Unit {0}) → Type 0 where
    roomy : has_room replacing bytes count c ≡ true → Outcome n c c (ok tt)
    overflow :
        desired_bytes c.budget (find_old replacing c.budget.entries) bytes ≡ none
        → Outcome n c c (err size)
    stopped :
        has_room replacing bytes count c ≡ false → out.stop n ≡ true → Outcome n c c (err cancelled)
    too_large :
        has_room replacing bytes count c ≡ false
        → out.stop n ≡ false
        → victim replacing c.budget.entries ≡ none
        → Outcome n c c (err size)
    kept :
        {i : Item} {e : Error} {d : Directory}
        → has_room replacing bytes count c ≡ false
        → out.stop n ≡ false
        → victim replacing c.budget.entries ≡ some i
        → out.removal n ≡ left e d
        → Outcome n c (record c { disk = insert text_eq i.id d c.disk }) (err e)

  -- The last round.
  record Last (n : ℕ) (c : Cache) (run : Round) : Type 0 where
    result : Result (Unit {0})
    cache : Cache
    is_last : run ≡ ended result cache
    same_budget : cache.budget ≡ c.budget
    same_bytes : cache.max_bytes ≡ c.max_bytes
    same_entries : cache.max_entries ≡ c.max_entries
    outcome : Outcome n c cache result

  last :
      {n : ℕ} {c : Cache} {run : Round} (r : Result (Unit {0}))
      → run ≡ ended r c
      → Outcome n c c r
      → Last n c run
  last {c} r e o = record {
    result = r;
    cache = c;
    is_last = e;
    same_budget = refl;
    same_bytes = refl;
    same_entries = refl;
    outcome = o;
  }

  -- One round ends, or evicts the victim.
  module _ (n : ℕ) (c : Cache) where
    -- A round that has not enough room.
    full-cases :
        has_room replacing bytes count c ≡ false
        → (m : ℕ) → desired_bytes c.budget (find_old replacing c.budget.entries) bytes ≡ some m
        → Last n c (room_round out n replacing bytes count c)
          ⊎ ((i : Item) × (room_round out n replacing bytes count c ≡ again (evicted i c))
              × (victim replacing c.budget.entries ≡ some i)
              × (has_room replacing bytes count c ≡ false)
              × (out.stop n ≡ false)
              × (out.removal n ≡ removed))
    unfolding room_round
    full-cases h m e =
        let t = rw e at h in
        elim (Bool-cases (out.stop n)) [
          | inl s ↦ inl (last (err cancelled) (rw (e, t, s) refl) (stopped h s))
          | inr s ↦ elim (Option-cases (victim replacing c.budget.entries)) [
            | inl v ↦ inl (last (err size) (rw (e, t, s, v) refl) (too_large h s v))
            | inr (i, v) ↦ elim (removal-cases (out.removal n)) [
              | inl q ↦ inr (i, rw (e, t, s, v, q) refl, v, h, s, q)
              | inr (x, left', q) ↦ inl (record {
                result = err x;
                cache = record c { disk = insert text_eq i.id left' c.disk };
                is_last = rw (e, t, s, v, q) refl;
                same_budget = refl;
                same_bytes = refl;
                same_entries = refl;
                outcome = kept h s v q;
              })
            ]
          ]
        ]

    round-cases :
        Last n c (room_round out n replacing bytes count c)
        ⊎ ((i : Item) × (room_round out n replacing bytes count c ≡ again (evicted i c))
            × (victim replacing c.budget.entries ≡ some i)
            × (has_room replacing bytes count c ≡ false)
            × (out.stop n ≡ false)
            × (out.removal n ≡ removed))
    unfolding room_round
    round-cases =
        elim (Option-cases (desired_bytes c.budget (find_old replacing c.budget.entries) bytes)) [
          | inl e ↦ inl (last (err size) (rw e refl) (overflow e))
          | inr (m, e) ↦ elim (Bool-cases (has_room replacing bytes count c)) [
            | inl h ↦ let t = rw e at h in inl (last (ok tt) (rw (e, t) refl) (roomy h))
            | inr h ↦ full-cases h m e
          ]
        ]

  -- What the loop leaves, from `c` in round `n`.
  pub record Ends (n : ℕ) (c : Cache) (run : Option (Result (Unit {0}) × Cache)) : Type 0 where
    pub result : Result (Unit {0})
    pub cache : Cache
    pub gone : List Item
    pub before : Cache
    pub ends : run ≡ some (result, cache)
    pub evicts : Evicts replacing gone c.budget cache.budget
    pub went : went_on n c gone ≡ true
    pub disk : before.disk ≡ without gone c.disk
    pub budget : before.budget ≡ cache.budget
    pub accounted : IsAccounted cache.budget
    pub same_bytes : cache.max_bytes ≡ c.max_bytes
    pub same_entries : cache.max_entries ≡ c.max_entries
    pub outcome : Outcome (n + length gone) before cache result

  room_loop-Ends :
      (fuel n : ℕ) (c : Cache)
      → IsAccounted c.budget
      → length c.budget.entries < fuel
      → Ends n c (room_loop out fuel n replacing bytes count c)
  unfolding room_loop
  room_loop-Ends zero n c h room = absurd (omega arith)
  room_loop-Ends (suc fuel) n c h room = elim (round-cases n c) [
    | inl l ↦ record {
      result = l.result;
      cache = l.cache;
      gone = [];
      before = c;
      ends = rw (l.is_last, room_loop) refl;
      evicts = subst (Evicts replacing [] c.budget) (sym l.same_budget) none_gone;
      went = refl;
      disk = refl;
      budget = sym l.same_budget;
      accounted = subst IsAccounted (sym l.same_budget) h;
      same_bytes = l.same_bytes;
      same_entries = l.same_entries;
      outcome =
          subst (λ m. Outcome m c l.cache l.result) {x = n} {y = n + 0} (omega arith) l.outcome;
    }
    | inr (i, e, v, h', s, q) ↦
        let found = victim-IsVictim replacing i c.budget.entries v in
        let ih =
          room_loop-Ends fuel (suc n) (evicted i c)
            (budget_without-IsAccounted i c.budget h found.found)
            (omega (arith, (remove-one i c.budget.entries h.unique found.found).1)) in
        record {
          result = ih.result;
          cache = ih.cache;
          gone = i ∷ ih.gone;
          before = ih.before;
          ends = rw (e, room_loop) ih.ends;
          evicts = one_gone v ih.evicts;
          went = ground (arith, h', s, ih.went, ap is_removed q);
          disk = ih.disk;
          budget = ih.budget;
          accounted = ih.accounted;
          same_bytes = ih.same_bytes;
          same_entries = ih.same_entries;
          outcome =
              subst (λ m. Outcome m ih.before ih.cache ih.result) {x = suc n + length ih.gone}
                {y = n + suc (length ih.gone)} (omega arith) ih.outcome;
        }
  ]

  -- Where the bytes of the budget are the sum of its entries, `make_room` ends: it evicts the victims of
  -- its rounds one by one, in the budget and on the disk, only in rounds that are short of room and not
  -- stopped, and it keeps the sum. It ends with room; or, short of room, with an error: for a size that is no `u64`, with nothing left
  -- to evict, by the cancellation in that round, or by the error of the removal of that round's victim, of
  -- which the disk keeps what the removal left.
  pub make_room-Ends :
      (c : Cache) → IsAccounted c.budget → Ends 0 c (make_room out replacing bytes count c)
  unfolding make_room
  make_room-Ends c h = room_loop-Ends (suc (length c.budget.entries)) 0 c h (omega arith)

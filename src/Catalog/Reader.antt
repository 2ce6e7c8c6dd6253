-- ===== src/Catalog/Reader.antt =====
-- src/catalog.rs: `Reader`. Reads are checked against the file's end; strings draw on a budget, which
-- the string reads take and give back.
use sirius_asset_updater.Base.{
  ◌≤◌, ◌<◌, ◌≢◌, inl, inr, arith, Bool-cases, ℕ, zero, suc, ◌+◌, ◌-◌, ◌*◌, ◌/◌, ◌%◌, ◌^◌, Text,
  Bool, true, false, not, ◌&&◌, ◌||◌, Option, none, some, List, [], ◌∷◌, ◌++◌, ltb, leb, ◌==◌,
  length, take, drop, any, all, if◌then◌else◌,
}
use sirius_asset_updater.Fault.{Result, ok, err, catalog, ◌>>=◌, ok_or, Result-cases}
use sirius_asset_updater.Catalog.Types.{none_pointer, mask_size, max_links}
use sirius_asset_updater.Catalog.Utf16.{from_utf16}

-- `usize::checked_add` and `checked_sub`, on 64 bits.
unfoldable pub checked_add : ℕ → ℕ → Option ℕ
checked_add a b = if ltb (a + b) (2 ^ 64) then some (a + b) else none

unfoldable pub checked_sub : ℕ → ℕ → Option ℕ
checked_sub a b = if leb b a then some (a - b) else none

-- `slice.get(start..end)`.
unfoldable pub get_range : Text → ℕ → ℕ → Option Text
get_range file start end =
    if leb start end && leb end (length file)
    then some (take (end - start) (drop start file))
    else none

-- `u32::from_le_bytes` of the four bytes.
unfoldable pub from_le : Text → ℕ
from_le [] = 0
from_le (b ∷ bs) = b + 256 * from_le bs

-- `as_chunks::<2>` and `<4>`, each chunk read as a little-endian number.
unfoldable pub units : Text → List ℕ
units (a ∷ b ∷ rest) = (a + 256 * b) ∷ units rest
units _ = []

unfoldable pub words : Text → List ℕ
words (a ∷ b ∷ c ∷ d ∷ rest) = (a + 256 * (b + 256 * (c + 256 * d))) ∷ words rest
words _ = []

unfoldable pub is_ascii : ℕ → Bool
is_ascii b = ltb b 128

-- `slice::join`.
unfoldable pub join : Text → List Text → Text
join sep [] = []
join sep (w ∷ []) = w
join sep (w ∷ v ∷ ws) = w ++ (sep ++ join sep (v ∷ ws))

abbrev guard : Bool → Result (Unit {0})
guard true = ok tt
guard false = err catalog

module _ (file : Text) where
  unfoldable pub read_bytes : ℕ → ℕ → Result Text
  unfolding checked_add get_range
  read_bytes offset len = do
    end ← ok_or (checked_add offset len) catalog
    ok_or (get_range file offset end) catalog

  unfoldable pub read_u32 : ℕ → Result ℕ
  unfolding from_le
  read_u32 offset = do b ← read_bytes offset 4; ok (from_le b)

  unfoldable pub read_array : ℕ → ℕ → Result Text
  unfolding checked_sub
  read_array id stride = if id == none_pointer then ok [] else do
    at ← ok_or (checked_sub id 4) catalog
    size ← read_u32 at
    if not (size % stride == 0) || ltb max_links (size / stride)
        then err catalog
        else read_bytes id size

  -- The text of the bytes, UTF-16 where the pointer's top bit is set.
  unfoldable pub decode_string : Bool → Text → Result Text
  unfolding units is_ascii
  decode_string true bytes =
      if not (length bytes % 2 == 0) then err catalog else ok_or (from_utf16 (units bytes)) catalog
  decode_string false bytes = if not (all is_ascii bytes) then err catalog else ok bytes

  -- The string and the budget that is left. `id & MASK` is the remainder by `MASK + 1`; the
  -- `UNICODE` bit is set where `id` is at least 2^31.
  unfoldable pub plain_string : ℕ → ℕ → Result (Text × ℕ)
  unfolding checked_sub
  plain_string id budget = if id == none_pointer then ok ([], budget) else do
    at ← ok_or (checked_sub (id % mask_size) 4) catalog
    len ← read_u32 at
    if ltb 65536 len then err catalog else do
      left ← ok_or (checked_sub budget len) catalog
      bytes ← read_bytes (id % mask_size) len
      text ← decode_string (leb (2 ^ 31) id) bytes
      ok (text, left)

  unfoldable pub read_part : ℕ → ℕ → Result (Text × ℕ)
  read_part offset budget = do id ← read_u32 offset; plain_string id budget

  -- The loop of `string`, which collects the parts last first; `none` where the fuel runs out.
  unfoldable pub string_parts :
      ℕ → Text → ℕ → List ℕ → ℕ → List Text → ℕ → Option (Result (List Text × ℕ))
  string_parts zero sep next seen len parts budget = none
  string_parts (suc fuel) sep next seen len parts budget =
      let offset = next % mask_size in
      if next == none_pointer
      then some (ok (parts, budget))
      else if any (◌==◌ offset) seen || leb 256 (length seen)
      then some (err catalog)
      else elim (read_part offset budget) [
        | err e ↦ some (err e)
        | ok (part, left) ↦ elim (ltb 65536 (len + (length part + length sep))) [
          | true ↦ some (err catalog)
          | false ↦ elim (read_u32 (offset + 4)) [
            | err e ↦ some (err e)
            | ok following ↦
                string_parts fuel sep following (offset ∷ seen) (len + (length part + length sep))
                  (part ∷ parts) left
          ]
        ]
      ]

  -- Fuel for one round more than the 256 links that the loop follows.
  abbrev pub string_fuel : ℕ
  string_fuel = 258

  abbrev joined : Text → Option (Result (List Text × ℕ)) → Result (Text × ℕ)
  joined sep none = err catalog
  joined sep (some (err e)) = err e
  joined sep (some (ok (parts, left))) = ok (join sep parts, left)

  unfoldable pub read_string : Text → ℕ → ℕ → Result (Text × ℕ)
  read_string sep id budget =
      if id == none_pointer || id / mask_size % 2 == 0
      then plain_string id budget
      else joined sep (string_parts string_fuel sep id [] 0 [] budget)

  unfoldable pub read_ids : ℕ → Result (List ℕ)
  unfolding words
  read_ids id = do bytes ← read_array id 4; ok (words bytes)

  -- Enough fuel: each round adds a link to the 256 at most that `seen` may hold.
  string_parts-ne-none :
      (fuel : ℕ) (sep : Text) (next : ℕ) (seen : List ℕ) (len : ℕ) (parts : List Text) (budget : ℕ)
      → length seen ≤ 256
      → 256 < fuel + length seen
      → string_parts fuel sep next seen len parts budget ≢ none
  unfolding string_parts
  string_parts-ne-none zero sep next seen len parts budget few h = λ e. absurd (omega arith)
  string_parts-ne-none (suc fuel) sep next seen len parts budget few h =
      elim (Bool-cases (next == none_pointer)) [
        | inl end ↦ rw end (λ e. cc)
        | inr more ↦
            elim (Bool-cases (any (◌==◌ (next % mask_size)) seen || leb 256 (length seen))) [
              | inl bad ↦ rw (more, bad) (λ e. cc)
              | inr good ↦ elim (Result-cases (read_part (next % mask_size) budget)) [
                | inl (x, r) ↦ rw (more, good, r) (λ e. cc)
                | inr ((part, left), r) ↦
                    elim (Bool-cases (ltb 65536 (len + (length part + length sep)))) [
                      | inl long ↦ rw (more, good, r) (rw long (λ e. cc))
                      | inr fits ↦ elim (Result-cases (read_u32 (next % mask_size + 4))) [
                        | inl (x, q) ↦ rw (more, good, r) (rw fits (rw q (λ e. cc)))
                        | inr (following, q) ↦
                            rw (more, good, r)
                              (rw fits (
                                rw q (
                                  string_parts-ne-none fuel sep following (next % mask_size ∷ seen)
                                    (len + (length part + length sep)) (part ∷ parts) left
                                    (ground arith) (omega arith))))
                      ]
                    ]
              ]
            ]
      ]

  -- A dynamic string never runs out of fuel, cycles included.
  pub string_fuel_enough :
      (sep : Text) (id budget : ℕ) → string_parts string_fuel sep id [] 0 [] budget ≢ none
  string_fuel_enough sep id budget =
      string_parts-ne-none string_fuel sep id [] 0 [] budget (omega arith) (omega arith)

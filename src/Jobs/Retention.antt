-- ===== src/Jobs/Retention.antt =====
-- src/jobs.rs: which terminal jobs a commit drops under `retain_terminal`.
use sirius_asset_updater.Base.{
  ℕ, zero, suc, ◌-◌, ◌≤◌, ◌<◌, Text, text_eq, text_eq_iff, text_eq_refl, Bool, true, false, not,
  ◌&&◌, List, [], ◌∷◌, ◌≡◌, refl, sym, ◌∙◌, arith, any, All, All-mono, All-of_any-false, any-sort,
  any-take, count_if, count_if-sort, count_if-take_none, length, map, filter,
}
use sirius_asset_updater.Jobs.Types.{Job, terminal}
use sirius_asset_updater.Jobs.Ledger.{
  retain_jobs, terminal_stamps, stamp, stamped, oldest, stamp_leb,
}
use sirius_asset_updater.Jobs.Store.{by_id}

abbrev is_terminal : Job → Bool
is_terminal j = terminal j.status

-- No two jobs share an id.
abbrev pub IsUnique : List Job → Type 0
IsUnique [] = Unit
IsUnique (j ∷ js) = (any (by_id j.id) js ≡ false) × IsUnique js

-- A stamp is that of a terminal job.
stamped-terminal :
    (id : Text) (jobs : List Job)
    → stamped id (map stamp (filter is_terminal jobs))
      ≡ any (λ (j : Job). terminal j.status && text_eq j.id id) jobs
stamped-terminal id [] = refl
stamped-terminal id (j ∷ js) = ground (arith, stamped-terminal id js)

pub stamped-oldest :
    (id : Text) (n : ℕ) (jobs : List Job)
    → stamped id (oldest n (terminal_stamps jobs)) ≡ true
    → any (λ (j : Job). terminal j.status && text_eq j.id id) jobs ≡ true
unfolding terminal_stamps
stamped-oldest id n jobs h =
    sym (stamped-terminal id jobs)
    ∙ sym (
        any-sort stamp_leb (λ (p : ℕ × Text). text_eq p.1 id) (map stamp (filter is_terminal jobs)))
    ∙ any-take (λ (p : ℕ × Text). text_eq p.1 id) _ (terminal_stamps jobs) h

pub unstamped :
    (id : Text) (n : ℕ) (jobs : List Job)
    → any (λ (j : Job). terminal j.status && text_eq j.id id) jobs ≡ false
    → not (stamped id (oldest n (terminal_stamps jobs))) ≡ true
unstamped id n jobs h = ground (arith, stamped-oldest id n jobs)

-- An unfinished job shares its id with no terminal one.
abbrev Apart : List Job → Job → Type 0
Apart jobs j =
    terminal j.status ≡ false
    → any (λ (k : Job). terminal k.status && text_eq k.id j.id) jobs ≡ false

no_terminal :
    (id : Text) (jobs : List Job)
    → any (by_id id) jobs ≡ false
    → any (λ (k : Job). terminal k.status && text_eq k.id id) jobs ≡ false
no_terminal id [] h = refl
no_terminal id (j ∷ js) h = ground (arith, no_terminal id js)

pub text_eq_sym : (a b : Text) → text_eq a b ≡ text_eq b a
text_eq_sym a b = ground (arith, text_eq_iff a b, text_eq_iff b a)

unique-Apart : (jobs : List Job) → IsUnique jobs → All (Apart jobs) jobs
unique-Apart [] u = tt
unique-Apart (j ∷ js) (new, u) = (
  (λ h. ground (arith, no_terminal j.id js)),
  All-mono (λ k. Apart js k × (text_eq k.id j.id ≡ false)) (Apart (j ∷ js))
      (λ k p h. ground (arith, p.0 h, text_eq_sym j.id k.id)) js
      (both js (unique-Apart js u) (All-of_any-false (by_id j.id) js new)),
)
  where
    both :
        (ks : List Job)
        → All (Apart js) ks
        → All (λ k. text_eq k.id j.id ≡ false) ks
        → All (λ k. Apart js k × (text_eq k.id j.id ≡ false)) ks
    both [] a b = tt
    both (k ∷ ks) (a, as') (b, bs) = ((a, b), both ks as' bs)

abbrev unfinished : Job → Bool
unfinished j = not (terminal j.status)

filter_keeps :
    (q : Job → Bool) (xs : List Job)
    → All (λ j. terminal j.status ≡ false → q j ≡ true) xs
    → filter unfinished (filter q xs) ≡ filter unfinished xs
filter_keeps q [] h = refl
filter_keeps q (x ∷ xs) (h, hs) = ground (arith, filter_keeps q xs hs)

-- Where no two jobs share an id, dropping old terminal jobs leaves the unfinished ones, in order.
pub unfinished-retain_jobs :
    (n : ℕ) (jobs : List Job)
    → IsUnique jobs
    → filter (λ (j : Job). not (terminal j.status)) (retain_jobs n jobs)
      ≡ filter (λ (j : Job). not (terminal j.status)) jobs
unfolding retain_jobs
unfinished-retain_jobs zero jobs u = refl
unfinished-retain_jobs (suc n) jobs u = filter_keeps _ jobs (
    All-mono (Apart jobs) _ (λ j a h. unstamped j.id (suc n) jobs (a h)) jobs (unique-Apart jobs u))

abbrev outside : List (ℕ × Text) → ℕ × Text → Bool
outside ids p = not (stamped p.1 ids)

count_terminal :
    (ids : List (ℕ × Text)) (jobs : List Job)
    → count_if is_terminal (filter (λ (j : Job). not (stamped j.id ids)) jobs)
      ≡ count_if (outside ids) (map stamp (filter is_terminal jobs))
count_terminal ids [] = refl
count_terminal ids (j ∷ js) = ground (arith, count_terminal ids js)

count_inside :
    (ids xs : List (ℕ × Text))
    → ((id : Text) → stamped id xs ≡ true → stamped id ids ≡ true)
    → count_if (outside ids) xs ≡ 0
count_inside ids [] h = refl
count_inside ids ((t, id) ∷ xs) h =
    let rest = count_inside ids xs (λ i e. h i (ground arith)) in
    ground (arith, h id, text_eq_refl id)

-- At most `retain_terminal` terminal jobs stay, unless it is 0.
pub terminal-retain_jobs-le :
    (n : ℕ) (jobs : List Job)
    → 0 < n
    → count_if (λ (j : Job). terminal j.status) (retain_jobs n jobs) ≤ n
unfolding retain_jobs terminal_stamps
terminal-retain_jobs-le zero jobs h = absurd (omega arith)
terminal-retain_jobs-le (suc n) jobs h =
    let stamps = terminal_stamps jobs in
    omega (
      arith,
      count_terminal (oldest (suc n) stamps) jobs,
      count_if-sort stamp_leb (outside (oldest (suc n) stamps))
          (map stamp (filter is_terminal jobs)),
      count_if-take_none (outside (oldest (suc n) stamps)) (length stamps - suc n) stamps
          (count_inside (oldest (suc n) stamps) (oldest (suc n) stamps) (λ id e. e)),
    )

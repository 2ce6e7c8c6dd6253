-- ===== src/Fault.antt =====
-- src/lib.rs: `Error`, with the code and the HTTP status that it reports, and `Result<T, Error>`.
use sirius_asset_updater.Base.{ℕ, Text, utf8, Option, none, some, ◌≡◌, refl, ◌⊎◌, inl, inr}

pub data Error : Type 0 where
  storage selection reserved_region : Error
  export : Text → Error
  verification busy preflight unavailable job_timeout cancelled provider asset_path bundle : Error
  config secret snapshot transport : Error
  status : ℕ → Error
  size catalog io remote_config : Error

unfoldable pub code : Error → Text
code storage = utf8 "storage_failed"
code selection = utf8 "invalid_selection"
code reserved_region = utf8 "reserved_region"
code (export _) = utf8 "export_failed"
code verification = utf8 "verification_failed"
code busy = utf8 "cache_busy"
code preflight = utf8 "preflight_failed"
code unavailable = utf8 "upstream_unavailable"
code job_timeout = utf8 "job_timeout"
code cancelled = utf8 "cancelled"
code provider = utf8 "unsupported_provider"
code asset_path = utf8 "invalid_asset_path"
code bundle = utf8 "invalid_bundle"
code config = utf8 "invalid_config"
code secret = utf8 "secret_unavailable"
code snapshot = utf8 "invalid_snapshot"
code transport = utf8 "transport_failed"
code (status _) = utf8 "upstream_http_status"
code size = utf8 "size_limit"
code catalog = utf8 "invalid_catalog"
code io = utf8 "io_failed"
code remote_config = utf8 "remote_config_unavailable"

unfoldable pub http_status : Error → Option ℕ
http_status (status n) = some n
http_status _ = none

pub data Result {ℓ} (A : Type ℓ) : Type ℓ where
  err : Error → Result A
  ok : A → Result A

-- The operator `?`: the first error ends the chain.
module _ {ℓ κ} {A : Type ℓ} {B : Type κ} where
  infixl 5 ◌>>=◌
  abbrev pub ◌>>=◌ : Result A → (A → Result B) → Result B
  err x >>= next = err x
  ok value >>= next = next value

-- `Option::ok_or`.
abbrev pub ok_or {ℓ} : {A : Type ℓ} → Option A → Error → Result A
ok_or none e = err e
ok_or (some a) e = ok a

-- To split on a computed result and keep the equation.
pub Result-cases {ℓ} :
    {A : Type ℓ} (r : Result A) → ((e : Error) × (r ≡ err e)) ⊎ ((a : A) × (r ≡ ok a))
Result-cases (ok a) = inr (a, refl)
Result-cases (err e) = inl (e, refl)

pub ok-injective {ℓ} : {A : Type ℓ} {a b : A} → ok a ≡ ok b → a ≡ b
ok-injective h = cc

pub err-injective {ℓ} : {A : Type ℓ} {e f : Error} → ◌≡◌ {A = Result A} (err e) (err f) → e ≡ f
err-injective h = cc

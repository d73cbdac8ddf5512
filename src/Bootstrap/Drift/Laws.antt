-- ===== src/Bootstrap/Drift/Laws.antt =====
-- What an answer of no drift rests on.
use climate_chain.Shared.{ℕ, ◌+◌, ◌<◌, String, ◌≡◌, Option, none, some, List}
use mathlib.Core.List.{Memᴰ}
use climate_chain.Js.{Value, Result, ok}
use climate_chain.Registry.Load.{Registry}
use climate_chain.Bootstrap.{ChainVerification, Bootstrap}
use climate_chain.Bootstrap.Drift.{identity_recheck_ttl_ms, check_drift}
use climate_chain.Bootstrap.Drift.Intact.{IsIntact}

-- A time, and what the node answered to the check that started then.
abbrev pub Check : Type 0
Check = ℕ × (String → Result String)

module _ (keccak256 : String → String) (registry : Registry) (string_of : Value → String) where
  -- What the cache holds is the result of one of the checks.
  abbrev Cached : ChainVerification → List Check → Option ℕ → Option String → Type 0
  Cached v checks none reason = Unit
  Cached v checks (some t) reason =
      (code : String → Result String) × Memᴰ (t, code) checks
      × (check_drift keccak256 string_of registry v code ≡ ok reason)

  abbrev Rests : ChainVerification → List Check → Bootstrap → Type 0
  Rests v checks b =
      (b.verification ≡ some v) × Cached v checks b.drift_checked_at b.last_drift_reason

  -- A completed check that started less than the limit before, and found every contract intact.
  abbrev pub IsFresh : ChainVerification → ℕ → List Check → Type 0
  IsFresh v now checks =
      (t : ℕ) × (code : String → Result String) × Memᴰ (t, code) checks
      × (now < t + identity_recheck_ttl_ms)
      × IsIntact keccak256 registry v code

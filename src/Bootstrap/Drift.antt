-- ===== src/Bootstrap/Drift.antt =====
-- `detectDeploymentDrift` of chain-bootstrap.service.ts. A probe answers from the cache or starts a check;
-- the check reads the node and later records its result under the time at which it started, so
-- checks may overlap. `code` is what the node answers to the reads of one check.
pub mod Intact
pub mod Laws
use climate_chain.Shared.{
  ℕ, ◌-◌, String, Bool, true, false, not, ◌&&◌, Option, none, some, List, [], ◌∷◌, ltb,
  if◌then◌else◌, truthy, or_else,
}
use climate_chain.Shared.Text.{join}
use climate_chain.Js.{Value, is_truthy, Result, ok, throw, ◌>>=◌}
use climate_chain.Registry.Json.{is_text, message_of}
use climate_chain.Registry.Load.{Registry, provider_manifest_key}
use climate_chain.Registry.Accessors.{get_manifest}
use climate_chain.Bootstrap.{
  ChainVerification, Bootstrap, is_empty_code, recorded_hash, resolve_oracle_manifest_key,
}

abbrev pub identity_recheck_ttl_ms : ℕ
identity_recheck_ttl_ms = 30000

-- An address, its label and its manifest key.
pub record Target : Type 0 where
  pub address : String
  pub label : String
  pub key : String

abbrev provider_target : ChainVerification → Target
provider_target v = record {
  address = v.provider_address;
  label = "InsuranceProvider";
  key = provider_manifest_key;
}

unfoldable pub targets : Registry → ChainVerification → Result (List Target)
targets registry v = if not (truthy v.oracle_address) then ok (provider_target v ∷ []) else do
  key ← resolve_oracle_manifest_key registry
  ok (
      provider_target v
      ∷ record { address = or_else v.oracle_address ""; label = "weather oracle"; key = key }
      ∷ [])

abbrev pub no_verification : String
no_verification = "Chain verification did not complete at startup"

-- The answer where the cache has none: a check needs the verification of the boot.
abbrev unverified_answer : Option ChainVerification → Option (Option String)
unverified_answer none = some (some no_verification)
unverified_answer (some v) = none

-- The difference of two times is negative where the clock went back, and then it is below the limit, as it
-- is here where it stops at 0.
abbrev answer_at : ℕ → Option ℕ → Option String → Option (Option String) → Option (Option String)
answer_at now none reason unchecked = unchecked
answer_at now (some checked_at) reason unchecked =
    if ltb (now - checked_at) identity_recheck_ttl_ms then some reason else unchecked

-- The answer of a probe that needs no check.
unfoldable pub cached_answer : ℕ → Bootstrap → Option (Option String)
cached_answer now b =
    answer_at now b.drift_checked_at b.last_drift_reason (unverified_answer b.verification)

-- `break` with a reason, or the rest of the loop.
abbrev stop_or : Option String → Result (Option String) → Result (Option String)
stop_or (some reason) rest = ok (some reason)
stop_or none rest = rest

module _ (keccak256 : String → String) (string_of : Value → String) (registry : Registry) where
  -- What is wrong with the code of one target.
  unfoldable pub target_reason : Value → Target → String → Option String
  target_reason expected t code =
      if is_truthy expected && not (is_text expected (keccak256 code))
      then some (
          join "" (
            t.label ∷ " at " ∷ t.address
            ∷ " holds different bytecode than at startup. The endpoint points at a different deployment."
            ∷ []))
      else none

  -- The loop, which stops at the first reason.
  unfoldable pub drift_reason : (String → Result String) → List Target → Result (Option String)
  unfolding target_reason
  drift_reason code [] = ok none
  drift_reason code (t ∷ ts) = do
    found ← code t.address
    if is_empty_code found
        then ok (
            some (
              join "" (
                t.label ∷ " at " ∷ t.address
                ∷ " no longer holds any code. The node was reset or replaced since startup." ∷ [])))
        else do
          manifest ← get_manifest registry
          stop_or (target_reason (recorded_hash manifest t.key) t found) (drift_reason code ts)

  -- The `try` block up to the reason.
  unfoldable pub check_drift : ChainVerification → (String → Result String) → Result (Option String)
  unfolding targets
  check_drift v code = do listed ← targets registry v; drift_reason code listed

  -- A check that completed is cached; one that could not is a reason, and is not cached.
  unfoldable pub finish_check : ℕ → Result (Option String) → Bootstrap → Option String × Bootstrap
  finish_check now (ok reason) b =
      (reason, record b { drift_checked_at = some now; last_drift_reason = reason })
  finish_check now (throw thrown) b = (
    some (join "" ("Could not re-verify the deployment: " ∷ message_of string_of thrown ∷ [])),
    b,
  )

  complete_with :
      ℕ
      → (String → Result String)
      → Option ChainVerification
      → Bootstrap
      → Option String × Bootstrap
  unfolding finish_check check_drift
  complete_with now code none b = (some no_verification, b)
  complete_with now code (some v) b = finish_check now (check_drift v code) b

  -- A check that started at `now` ends, whatever the state has become meanwhile.
  unfoldable pub complete_check :
      ℕ → (String → Result String) → Bootstrap → Option String × Bootstrap
  unfolding complete_with
  complete_check now code b = complete_with now code b.verification b

  proceed :
      ℕ → (String → Result String) → Option (Option String) → Bootstrap → Option String × Bootstrap
  proceed now code (some answer) b = (answer, b)
  proceed now code none b = complete_check now code b

  -- A probe whose check nothing overlaps.
  unfoldable pub detect_deployment_drift :
      ℕ → (String → Result String) → Bootstrap → Option String × Bootstrap
  unfolding cached_answer proceed
  detect_deployment_drift now code b = proceed now code (cached_answer now b) b

  -- The checks that ended, in the order in which they ended, with the times at which they started.
  unfoldable pub run_checks : List (ℕ × (String → Result String)) → Bootstrap → Bootstrap
  unfolding complete_check
  run_checks [] b = b
  run_checks ((now, code) ∷ checks) b = run_checks checks (complete_check now code b).1

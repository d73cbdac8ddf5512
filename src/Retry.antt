-- ===== src/Retry.antt =====
-- backend/src/modules/blockchain/chain-retry.util.ts: which failures are worth retrying, and the
-- retry loop with its jittered exponential backoff. `Math.random` gives `k / scale` with `k < scale`,
-- and the delay is computed exactly; the rounding of a double is not modelled.
pub mod Laws
pub mod Backoff
use climate_chain.Shared.{
  ℕ, zero, suc, ◌+◌, ◌-◌, ◌*◌, ◌/◌, ◌^◌, String, Bool, true, false, not, ◌||◌, Option, none, some,
  List, [], ◌∷◌, ◌==◌, includes, if◌then◌else◌,
}
use climate_chain.Js.{Value, undefined, null, prop, as_string, Result, ok, throw}

-- Error codes ethers surfaces for conditions that may succeed on a retry.
abbrev pub transient_ethers_codes : List String
transient_ethers_codes = "NETWORK_ERROR" ∷ "SERVER_ERROR" ∷ "TIMEOUT" ∷ "UNKNOWN_ERROR" ∷ []

-- Socket failures that never reached the endpoint.
abbrev pub transient_system_codes : List String
transient_system_codes =
    "ECONNRESET" ∷ "ECONNREFUSED" ∷ "ENOTFOUND" ∷ "EAI_AGAIN" ∷ "EPIPE" ∷ "ETIMEDOUT"
    ∷ "EHOSTUNREACH" ∷ "ENETUNREACH" ∷ []

-- Deterministic ethers codes.
abbrev pub permanent_ethers_codes : List String
permanent_ethers_codes =
    "CALL_EXCEPTION" ∷ "INSUFFICIENT_FUNDS" ∷ "NONCE_EXPIRED" ∷ "REPLACEMENT_UNDERPRICED"
    ∷ "TRANSACTION_REPLACED" ∷ "UNPREDICTABLE_GAS_LIMIT" ∷ "INVALID_ARGUMENT" ∷ "MISSING_ARGUMENT"
    ∷ "UNEXPECTED_ARGUMENT" ∷ "VALUE_MISMATCH" ∷ "ACTION_REJECTED" ∷ "NOT_IMPLEMENTED"
    ∷ "UNSUPPORTED_OPERATION" ∷ "BAD_DATA" ∷ []

unfoldable pub read_code : Value → Option String
read_code thrown = as_string (prop "code" thrown)

-- The cause chain is followed once, and only for socket failures.
is_transient_cause : Value → Bool
unfolding read_code
is_transient_cause undefined = false
is_transient_cause null = false
is_transient_cause cause = elim (read_code cause) [
  | none ↦ false
  | some code ↦ includes transient_system_codes code
]

unfoldable pub is_transient_rpc_error : Value → Bool
unfolding is_transient_cause
is_transient_rpc_error thrown = elim (read_code thrown) [
  | none ↦ is_transient_cause (prop "cause" thrown)
  | some code ↦
      if includes permanent_ethers_codes code
      then false
      else if includes transient_ethers_codes code || includes transient_system_codes code
      then true
      else is_transient_cause (prop "cause" thrown)
]

-- `Math.round(exponential * (0.5 + random() * 0.5))` with `random() = k / scale`.
unfoldable pub jittered_delay : (scale base_delay_ms attempt k : ℕ) → ℕ
jittered_delay scale base_delay_ms attempt k =
    let exponential = base_delay_ms * 2 ^ (attempt - 1) in
    (exponential * (scale + k) + scale) / (2 * scale)

-- The effects that the loop has besides its operation. `random` gives `k`.
pub record Pauses {ℓ} (S : Type ℓ) : Type ℓ where
  pub random : S → ℕ × S
  pub on_retry : ℕ → ℕ → Value → S → S
  pub sleep : ℕ → S → S

-- What happens between two attempts: the jitter, the log line and the wait.
unfoldable pub pause {ℓ} :
    {S : Type ℓ} → Pauses S → (scale base_delay_ms attempt : ℕ) → Value → S → S
pause pauses scale base_delay_ms attempt thrown s =
    let (k, s') = pauses.random s in
    let delay_ms = jittered_delay scale base_delay_ms attempt k in
    pauses.sleep delay_ms (pauses.on_retry attempt delay_ms thrown s')

module _ {ℓ} {S T : Type ℓ} (pauses : Pauses S) (scale attempts base_delay_ms : ℕ)
    (operation : S → Result T × S) where
  -- `for (attempt = 1; attempt <= attempts; attempt += 1)`: the first argument counts the rounds
  -- that are left, so it is `attempts - attempt + 1`.
  attempt_from : (rounds attempt : ℕ) → Value → S → Result T × S
  attempt_from zero attempt last_error s = (throw last_error, s)
  attempt_from (suc rounds) attempt last_error s =
      let (result, s') = operation s in
      elim result [
        | ok a ↦ (ok a, s')
        | throw thrown ↦ elim (not (is_transient_rpc_error thrown) || attempt == attempts) [
          | true ↦ (throw thrown, s')
          | false ↦
              attempt_from rounds (attempt + 1) thrown
                (pause pauses scale base_delay_ms attempt thrown s')
        ]
      ]

  unfoldable pub with_rpc_retry : S → Result T × S
  unfolding attempt_from
  with_rpc_retry s = attempt_from attempts 1 undefined s

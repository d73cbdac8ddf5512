-- ===== src/Policy/Chain/Writes/Sent.antt =====
-- What a creation that has sent something did, whether it answers or fails.
use climate_chain.Shared.{ℕ, String, ◌≡◌, inl, inr, Bool, true, false, Option, List, [], ◌∷◌}
use climate_chain.Config.Types.{BlockchainConfig}
use climate_chain.RegionCode.{Bytes32}
use climate_chain.Js.{Value, ◌>>◌, Result-cases}
use climate_chain.ErrorMapper.{ParsedError}
use climate_chain.ChainProvider.{Connection, Effect, announced, nonce_increment, broadcast}
use climate_chain.ChainProvider.Trace.{submit_signed_transaction-InOrder}
use climate_chain.Policy.Chain.Types.{CreatePolicyDto, CreateArgs}
use climate_chain.Policy.Chain.Writes.{Chain, submit, rehearse, attempt, amounts, create_policy}

-- The hash was announced, the nonce taken, and the payload sent, in this order and once.
abbrev pub IsBroadcastOnce : List Effect → Type 0
IsBroadcastOnce trace =
    (raw : String) × (transaction_hash : String) × (nonce : ℕ) × (trace
      ≡ announced transaction_hash nonce ∷ nonce_increment ∷ broadcast raw ∷ [])

-- Whether a payload was sent.
abbrev pub is_sent : List Effect → Bool
is_sent [] = false
is_sent (broadcast raw ∷ effects) = true
is_sent (effect ∷ effects) = is_sent effects

module _ {Request Prepared Response Log : Type 0} (config : BlockchainConfig)
    (string_of : Value → String) (codec : Bytes32) (chain : Chain Request Prepared Response Log)
    (dto : CreatePolicyDto) where
  submit_sent :
      (premium_wei : ℕ) (args : CreateArgs) (c : Connection)
      → is_sent (submit config string_of codec chain dto premium_wei args c).2 ≡ true
      → IsBroadcastOnce (submit config string_of codec chain dto premium_wei args c).2
  unfolding submit
  submit_sent premium_wei args c sent =
      elim (submit_signed_transaction-InOrder config (chain.network args premium_wei) c) [
        | inl (thrown, inl trace) ↦ let wrong : false ≡ true = rw trace at sent in cc
        | inl (thrown, inr trace) ↦ let wrong : false ≡ true = rw trace at sent in cc
        | inr (raw, transaction_hash, nonce, known, trace) ↦ (raw, transaction_hash, nonce, trace)
      ]

  attempt_sent :
      (coverage_wei premium_wei : ℕ) (c : Connection)
      → is_sent (attempt config string_of codec chain dto coverage_wei premium_wei c).2 ≡ true
      → IsBroadcastOnce (attempt config string_of codec chain dto coverage_wei premium_wei c).2
  unfolding attempt
  attempt_sent coverage_wei premium_wei c sent =
      elim (Result-cases (
        (chain.writer c).0 >> rehearse config string_of codec chain dto coverage_wei premium_wei)) [
          | inl (args, ready) ↦
              rw (ready, attempt)
                (submit_sent premium_wei args (chain.writer c).1 (rw (ready, attempt) at sent))
          | inr (thrown, failed) ↦ let wrong : false ≡ true = rw (failed, attempt) at sent in cc
        ]

  module _ {Interface : Type 0} (parse_error : Interface → String → Option ParsedError)
      (interfaces : List Interface) where
    pub create_policy_sent :
        (c : Connection)
        → is_sent (create_policy config string_of codec chain dto parse_error interfaces c).2 ≡ true
        → IsBroadcastOnce
            (create_policy config string_of codec chain dto parse_error interfaces c).2
    unfolding create_policy
    create_policy_sent c sent = elim (Result-cases (amounts config string_of codec chain dto)) [
      | inr (thrown, failed) ↦ let wrong : false ≡ true = rw (failed, create_policy) at sent in cc
      | inl ((coverage_wei, premium_wei), funded) ↦
          rw (funded, create_policy)
            (attempt_sent coverage_wei premium_wei c (rw (funded, create_policy) at sent))
    ]

-- ===== src/Policy/Creation/Once.antt =====
-- A policy whose creation was broadcast is not created again under its key.
use climate_chain.Shared.{ℕ, String, ◌≡◌, ◌≢◌, true, Option, some, List, [], ◌∷◌}
use climate_chain.Config.Types.{BlockchainConfig}
use climate_chain.RegionCode.{Bytes32}
use climate_chain.Js.{Value, throw}
use climate_chain.ErrorMapper.{ParsedError}
use climate_chain.ChainProvider.{Connection}
use climate_chain.Idempotency.{
  Invocation, Server, Event, arrive, mark, settle, scoped_key, take_out, step, run,
}
use climate_chain.Idempotency.Exclusion.{IsExclusive}
use climate_chain.Idempotency.Retention.{IsRefusal, unresolved_never_restarts}
use climate_chain.Idempotency.Handover.{failed_after_mark-IsUnresolved}
use climate_chain.Policy.Chain.Types.{ChainWriteResult, CreatePolicyDto}
use climate_chain.Policy.Chain.Writes.{Chain, create_policy}
use climate_chain.Policy.Chain.Writes.Sent.{is_sent, create_policy_sent}
use climate_chain.Policy.Creation.{creation_events, marks, handle_of}

module _ {Request Prepared Response Log : Type 0} (config : BlockchainConfig)
    (string_of : Value → String) (codec : Bytes32) (chain : Chain Request Prepared Response Log)
    (dto : CreatePolicyDto) where
  module _ {Interface : Type 0} (parse_error : Interface → String → Option ParsedError)
      (interfaces : List Interface) where
    -- When a running creation of an exclusive server has broadcast its payload and then fails, however it
    -- fails and with no other event between its announcement and its failure, every later request of that
    -- actor with that key is refused with a 409 and starts no operation, whatever its body and whatever
    -- happened since.
    pub broadcast_never_repeated :
        (c : Connection) (thrown : Value) (s : Server ChainWriteResult) (now later id : ℕ)
        (i : Invocation) (others : List Invocation) (es : List (Event ChainWriteResult)) (at : ℕ)
        (actor key hash : String)
        → IsExclusive s
        → take_out id s.running ≡ some (i, others)
        → scoped_key actor key ≡ i.scoped
        → key ≢ ""
        → (create_policy config string_of codec chain dto parse_error interfaces c).0 ≡ throw thrown
        → is_sent (create_policy config string_of codec chain dto parse_error interfaces c).2 ≡ true
        → let (result, c', trace) =
            create_policy config string_of codec chain dto parse_error interfaces c in
          let s' = run s (creation_events config now id later result trace) in
          IsRefusal (step (run s' es) (arrive at actor (some key) hash)).1
    unfolding creation_events marks
    broadcast_never_repeated c thrown s now later id i others es at actor key hash x found scoped
          keyed failed sent =
        let (raw, transaction_hash, nonce, trace) =
          create_policy_sent config string_of codec chain dto parse_error interfaces c sent in
        let handle = handle_of config transaction_hash nonce in
        let unresolved =
          failed_after_mark-IsUnresolved s now later id handle thrown i others x found in
        rw (failed, trace)
          (unresolved_never_restarts i.scoped i.request_hash now handle
            (run s (mark now id handle ∷ settle later id (throw thrown) ∷ [])) es at actor key hash
            unresolved scoped keyed)

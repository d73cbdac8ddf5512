-- ===== src/Policy/Creation.antt =====
-- backend/src/modules/policies/policies.controller.ts `create`, with policies.service.ts `create`: the
-- key, the actor, and a creation as the events that the idempotency store sees of it.
pub mod Once
use climate_chain.Shared.{
  ℕ, String, Bool, true, false, Option, none, some, List, [], ◌∷◌, ◌++◌, str_eq, or_else,
  if◌then◌else◌,
}
use climate_chain.Shared.Text.{append, show, trim}
use climate_chain.Config.Types.{BlockchainConfig}
use climate_chain.Js.{Value, undefined, str, http, ExceptionClass, Result, ok, throw}
use climate_chain.ChainProvider.{Effect, announced}
use climate_chain.Idempotency.{SubmissionHandle, Event, mark, settle}

-- An absent, empty or blank header is a 400.
unfoldable pub required_key : Option String → Result String
required_key header =
    let key = or_else header "" in
    if str_eq (trim key) ""
    then throw (
        http ExceptionClass.bad_request
          (str (
            append "An Idempotency-Key header is required for policy creation. Send a "
              "unique value per logical request and reuse it when retrying."))
          undefined)
    else ok key

unfoldable pub actor_of : Option String → String
actor_of user_id = or_else user_id "anonymous"

-- `onSubmitted`: the handle that an announced hash becomes.
unfoldable pub handle_of : BlockchainConfig → String → ℕ → SubmissionHandle
handle_of config transaction_hash nonce = record {
  transaction_hash = transaction_hash;
  chain_id = elim config.chain_id [ none ↦ none | some id ↦ some (show id) ];
  nonce = some nonce;
}

module _ {T : Type 0} (config : BlockchainConfig) (now id : ℕ) where
  pub marks : List Effect → List (Event T)
  unfolding handle_of
  marks [] = []
  marks (announced transaction_hash nonce ∷ effects) =
      mark now id (handle_of config transaction_hash nonce) ∷ marks effects
  marks (effect ∷ effects) = marks effects

  -- What the store sees of one operation: the callback, and then the end.
  pub creation_events : ℕ → Result T → List Effect → List (Event T)
  unfolding marks
  creation_events later result trace = marks trace ++ settle later id result ∷ []

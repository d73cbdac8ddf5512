-- ===== src/Health.antt =====
-- backend/src/modules/health: the indicators of the readiness probe. The node's answers to one probe are
-- `Probe`; the drift check of a probe is taken to run without another one in between.
pub mod Laws
use climate_chain.Shared.{
  ℕ, String, Bool, true, false, not, ◌&&◌, Option, none, some, List, [], ◌∷◌, ◌++◌, str_eq, truthy,
  or_else, if◌then◌else◌,
}
use climate_chain.Shared.Text.{join, show}
use climate_chain.Config.Types.{RootConfig}
use climate_chain.ChainProvider.{is_enabled, has_signer}
use climate_chain.Js.{
  Value, undefined, bool, num, str, arr, Items, nil, cons, Result, ok, throw, ◌>>=◌,
}
use climate_chain.Registry.Json.{message_of}
use climate_chain.Registry.Load.{Registry, AddressSource, config_override, manifest_entry}
use climate_chain.Registry.Accessors.{get_snapshot}
use climate_chain.Bootstrap.{ChainVerification, Bootstrap}
use climate_chain.Bootstrap.Drift.{detect_deployment_drift, no_verification}

abbrev pub Details : Type 0
Details = List (String × Value)

-- `indicator.up(details)` and `indicator.down(details)`.
pub data Indicator : Type 0 where
  up : Details → Indicator
  down : Details → Indicator

abbrev pub optional : Option String → Value
optional none = undefined
optional (some s) = str s

abbrev texts : List String → Items
texts [] = nil
texts (s ∷ ss) = cons (str s) (texts ss)

abbrev pub because : String → Indicator
because reason = down (("reason", str reason) ∷ [])

-- `isHealthy` of config.health.ts.
unfoldable pub config_health : RootConfig → Indicator
config_health config =
    if config.app.is_deployed_profile && not (truthy config.blockchain.rpc_url)
    then down (
        ("profile", str config.app.node_env)
        ∷ ("reason", str "RPC_URL must be configured for deployed profiles")
        ∷ [])
    else if config.app.is_deployed_profile
    then up (("profile", str config.app.node_env) ∷ [])
    else up (
        ("profile", str config.app.node_env)
        ∷ ("blockchainNetwork", str config.blockchain.network)
        ∷ ("rpcConfigured", bool (truthy config.blockchain.rpc_url))
        ∷ ("signerConfigured", bool (truthy config.blockchain.private_key))
        ∷ ("mlServiceConfigured", bool (not (str_eq config.ml_service.base_url "")))
        ∷ ("adminTokenEndpointEnabled", bool (truthy config.auth.admin_api_key))
        ∷ [])

abbrev source_text : AddressSource → String
source_text config_override = "config-override"
source_text manifest_entry = "manifest"

-- `isHealthy` of contract-registry.health.ts.
unfoldable pub registry_health : RootConfig → Registry → Result Indicator
registry_health config registry =
    if not registry.ready
    then ok (
        because
          "Contract registry metadata is not loaded; check ABI and deployment manifest configuration")
    else do
      snapshot ← get_snapshot registry
      let public : Details =
          ("network", str snapshot.network) ∷ ("chainId", str snapshot.chain_id) ∷ []
      ok (
          if config.app.is_deployed_profile
          then up public
          else up (
              public
              ++ ("providerAddress", str snapshot.provider_address)
                ∷ ("providerAddressSource", str (source_text snapshot.provider_address_source))
                ∷ ("loadedContracts", arr (texts snapshot.loaded_contracts))
                ∷ []))

-- What the node answers to one probe; `pick` is the rejection that `Promise.all` gives.
pub record Probe : Type 0 where
  pub now_ms : ℕ
  pub chain_id : Result String
  pub block_number : Result ℕ
  pub pick : Value → Value → Value
  pub code : String → Result String

abbrev both : {A B : Type 0} → (Value → Value → Value) → Result A → Result B → Result (A × B)
both pick (ok a) (ok b) = ok (a, b)
both pick (ok a) (throw e) = throw e
both pick (throw e) (ok b) = throw e
both pick (throw e) (throw e') = throw (pick e e')

-- Deployed profiles get the chain id and no more.
unfoldable pub chain_details : RootConfig → ChainVerification → ℕ → Details
chain_details config v block_number =
    if config.app.is_deployed_profile
    then ("chainId", str v.chain_id) ∷ []
    else ("chainId", str v.chain_id)
      ∷ ("blockNumber", num block_number)
      ∷ ("providerAddress", str v.provider_address)
      ∷ ("oracleAddress", optional v.oracle_address)
      ∷ ("signerAddress", optional v.signer_address)
      ∷ ("signerConfigured", bool (has_signer config.blockchain))
      ∷ ("coverageReserveWei", str (show v.coverage_reserve_wei))
      ∷ ("verifiedAt", str v.verified_at)
      ∷ []

module _ (config : RootConfig) (keccak256 : String → String) (string_of : Value → String)
    (registry : Registry) where
  conclude : ChainVerification → ℕ → Option String × Bootstrap → Indicator × Bootstrap
  conclude v block_number (drift, b) =
      if truthy drift
      then (because (or_else drift ""), b)
      else (up (chain_details config v block_number), b)

  -- The `try` block, and its `catch`.
  compare_chain :
      Probe → ChainVerification → Result (String × ℕ) → Bootstrap → Indicator × Bootstrap
  unfolding conclude
  compare_chain probe v (throw thrown) b =
      (because (join "" ("RPC endpoint is not responding: " ∷ message_of string_of thrown ∷ [])), b)
  compare_chain probe v (ok (chain_id, block_number)) b =
      if not (str_eq chain_id v.chain_id)
      then (
        because (
            join "" (
              "The node now reports chainId=" ∷ chain_id
              ∷ " but this service was verified against chainId=" ∷ v.chain_id
              ∷ " at startup. The RPC endpoint points at a different chain than the deployed contracts."
              ∷ [])),
        b,
      )
      else conclude v block_number
          (detect_deployment_drift keccak256 string_of registry probe.now_ms probe.code b)

  check_verified : Probe → Option ChainVerification → Bootstrap → Indicator × Bootstrap
  unfolding compare_chain
  check_verified probe none b = (because no_verification, b)
  check_verified probe (some v) b =
      compare_chain probe v (both probe.pick probe.chain_id probe.block_number) b

  -- `isHealthy` of chain.health.ts.
  unfoldable pub chain_health : Probe → Bootstrap → Indicator × Bootstrap
  unfolding check_verified
  chain_health probe b =
      if not (is_enabled config.blockchain)
      then (
        because
            "No RPC endpoint configured; policy operations are unavailable. Set RPC_URL to enable chain access.",
        b,
      )
      else check_verified probe b.verification b

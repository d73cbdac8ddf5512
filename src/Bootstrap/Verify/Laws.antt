-- ===== src/Bootstrap/Verify/Laws.antt =====
-- What a completed boot guarantees.
use climate_chain.Shared.{ℕ, String, ◌≡◌, ◌⊎◌, Option, none, some, List}
use climate_chain.Config.Types.{RootConfig}
use climate_chain.Policy.Constants.{
  max_duration_days, min_premium_bps, basis_points_denominator, min_policy_start_lead_time_seconds,
  max_policy_start_lead_time_seconds,
}
use climate_chain.ChainProvider.{Connection}
use climate_chain.Js.{Value, Result, ok, throw}
use climate_chain.Registry.Load.{Registry, provider_manifest_key}
use climate_chain.Registry.Accessors.{get_provider_address, get_oracle_address, get_chain_id}
use climate_chain.Bootstrap.{ChainVerification, Bootstrap, Node, resolve_oracle_manifest_key}
use climate_chain.Bootstrap.Identity.{IsContractAt}
use climate_chain.Bootstrap.Verify.{Ambient}
use climate_chain.Bootstrap.Verify.Steps.{HasRegion}

module _ (config : RootConfig) (keccak256 : String → String) where
  -- The oracle's code is checked like the provider's, under the key that its address stands under.
  abbrev pub OracleChecked : Registry → Node → Option String → Option ℕ → Type 0
  OracleChecked registry node none size = size ≡ none
  OracleChecked registry node (some address) size =
      ((address ≡ "") × (size ≡ none))
      ⊎ ((key : String) × (bytes : ℕ) × (resolve_oracle_manifest_key registry ≡ ok key)
          × IsContractAt config keccak256 registry node address key bytes
          × (size ≡ some bytes))

  pub record IsVerified (registry : Registry) (node : Node) (legacy chain_id provider : String)
      (provider_size : ℕ) (oracle : Option String) (oracle_size : Option ℕ) : Type 0 where
    pub chain_id_read : node.chain_id ≡ ok chain_id
    pub chain_id_declared : get_chain_id registry ≡ ok chain_id
    pub provider_declared : get_provider_address registry ≡ ok provider
    pub provider_checked :
        IsContractAt config keccak256 registry node provider provider_manifest_key provider_size
    pub oracle_declared : get_oracle_address registry ≡ ok oracle
    pub oracle_checked : OracleChecked registry node oracle oracle_size
    pub max_duration : node.constant "MAX_DURATION_DAYS" ≡ ok max_duration_days
    pub min_premium : node.constant "MIN_PREMIUM_BPS" ≡ ok min_premium_bps
    pub denominator : node.constant "BASIS_POINTS_DENOMINATOR" ≡ ok basis_points_denominator
    pub min_lead :
        node.constant "MIN_POLICY_START_LEAD_TIME_SECONDS" ≡ ok min_policy_start_lead_time_seconds
    pub max_lead :
        node.constant "MAX_POLICY_START_LEAD_TIME_SECONDS" ≡ ok max_policy_start_lead_time_seconds
    pub region : HasRegion node legacy

  abbrev pub Verifies : Registry → Node → String → ChainVerification → Type 0
  Verifies registry node legacy v =
      IsVerified registry node legacy v.chain_id v.provider_address v.provider_code_size
        v.oracle_address v.oracle_code_size

  module _ (string_of : Value → String) (ambient : Ambient) (pick : List Value → Value)
      (registry : Registry) (node : Node) where
    -- Boot completed and recorded a verification that holds, or it failed and recorded nothing.
    abbrev pub Ends : Bootstrap → Result (Unit {0}) × Bootstrap × Connection → Type 0
    Ends b outcome =
        ((v : ChainVerification) × (outcome.0 ≡ ok tt)
          × (outcome.1 ≡ record b { verification = some v })
          × Verifies registry node ambient.legacy_region_code v)
        ⊎ ((thrown : Value) × (outcome.0 ≡ throw thrown) × (outcome.1 ≡ b))

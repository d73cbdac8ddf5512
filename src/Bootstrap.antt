-- ===== src/Bootstrap.antt =====
-- backend/src/modules/blockchain/chain-bootstrap.service.ts: the verification of the deployment at boot.
-- Node holds what the node answers to the calls of one verification; `keccak256` and the date are
-- parameters. Sizes of code are in whole bytes, as the node writes code as pairs of digits.
pub mod Identity
pub mod Verify
pub mod Drift
use climate_chain.Shared.{
  ℕ, ◌-◌, ◌/◌, ◌==◌, String, Bool, true, false, not, ◌&&◌, ◌||◌, Option, none, some, List, [], ◌∷◌,
  ◌++◌, str_eq, truthy, or_else, length, if◌then◌else◌,
}
use climate_chain.Shared.Text.{append, codes, join, show, to_lower}
use climate_chain.Config.Types.{RootConfig}
use climate_chain.Js.{Value, undefined, prop, as_string, is_truthy, Result, ok, throw, ◌>>=◌, ◌>>◌}
use climate_chain.Policy.Constants.{
  max_duration_days, min_premium_bps, basis_points_denominator, min_policy_start_lead_time_seconds,
  max_policy_start_lead_time_seconds,
}
use climate_chain.Registry.Json.{error, is_text, message_of}
use climate_chain.Registry.Load.{Manifest, Registry, provider_manifest_key, oracle_manifest_keys}
use climate_chain.Registry.Accessors.{
  get_abi, get_provider_address, get_oracle_address, get_chain_id, get_manifest,
}

-- Amounts are kept as numbers, not as decimal texts.
pub record ChainVerification : Type 0 where
  pub verified_at : String
  pub chain_id : String
  pub block_number : ℕ
  pub provider_address : String
  pub provider_code_size : ℕ
  pub oracle_address : Option String
  pub oracle_code_size : Option ℕ
  pub signer_address : Option String
  pub signer_balance_wei : Option ℕ
  pub coverage_reserve_wei : ℕ
  pub premium_balance_wei : ℕ

-- `verification`, `driftCheckedAt` and `lastDriftReason`.
pub record Bootstrap : Type 0 where
  pub verification : Option ChainVerification
  pub drift_checked_at : Option ℕ
  pub last_drift_reason : Option String

abbrev pub unverified : Bootstrap
unverified = record { verification = none; drift_checked_at = none; last_drift_reason = none }

pub record Node : Type 0 where
  pub chain_id : Result String
  pub code : (address : String) → Result String
  pub constant : (name : String) → Result ℕ
  pub legacy_region_code : Result String
  pub block_number : Result ℕ
  pub coverage_reserve_wei : Result ℕ
  pub premium_balance_wei : Result ℕ
  pub balance : (address : String) → Result ℕ

abbrev pub mirrored_constants : List (String × ℕ)
mirrored_constants =
    ("MAX_DURATION_DAYS", max_duration_days)
    ∷ ("MIN_PREMIUM_BPS", min_premium_bps)
    ∷ ("BASIS_POINTS_DENOMINATOR", basis_points_denominator)
    ∷ ("MIN_POLICY_START_LEAD_TIME_SECONDS", min_policy_start_lead_time_seconds)
    ∷ ("MAX_POLICY_START_LEAD_TIME_SECONDS", max_policy_start_lead_time_seconds)
    ∷ []

-- `!code || code === "0x"`
abbrev pub is_empty_code : String → Bool
is_empty_code code = str_eq code "" || str_eq code "0x"

-- `getManifest().runtimeBytecodeHashes?.[manifestKey]`
abbrev pub recorded_hash : Manifest → String → Value
recorded_hash manifest key = prop key manifest.runtime_bytecode_hashes

-- `manifest.contracts[key] === oracleAddress`
abbrev is_entry : Option String → Value → Bool
is_entry (some address) v = is_text v address
is_entry none undefined = true
is_entry none v = false

abbrev find_key : Manifest → Option String → List String → Option String
find_key manifest address [] = none
find_key manifest address (key ∷ keys) =
    if is_entry address (prop key manifest.contracts)
    then some key
    else find_key manifest address keys

-- The keys are searched in their order, and the first one is the default.
unfoldable pub resolve_oracle_manifest_key : Registry → Result String
resolve_oracle_manifest_key registry = do
  manifest ← get_manifest registry
  address ← get_oracle_address registry
  ok (or_else (find_key manifest address oracle_manifest_keys) "weatherOracle")

-- `contracts.getProviderReader()`, once the provider exists.
unfoldable pub get_provider_reader : Registry → Result (Unit {0})
get_provider_reader registry = do
  address ← get_provider_address registry
  abi ← get_abi registry "InsuranceProvider"
  ok tt

module _ (config : RootConfig) (keccak256 : String → String) (string_of : Value → String) where
  -- Deployed profiles need a recorded hash; the others are warned.
  pub check_identity : Value → (address label key code : String) → Result (Unit {0})
  check_identity expected address label key code =
      if not (is_truthy expected)
      then (if config.app.is_deployed_profile
          then throw (
              error (
                "No runtime bytecode hash recorded for \"" ∷ key
                ∷ "\" in the deployment manifest, so " ∷ label ∷ " at " ∷ address
                ∷ " can only be verified to hold *some* code. Redeploy to record it."
                ∷ " Deployed profiles require it: without a recorded hash the address is not verified to hold the expected contract."
                ∷ []))
          else ok tt)
      else if not (is_text expected (keccak256 code))
      then throw (
          error (
            "Bytecode at "
            ∷ address
            ∷ " does not match the deployment manifest for "
            ∷ label
            ∷ ": expected "
            ∷ string_of expected
            ∷ ", found "
            ∷ keccak256 code
            ∷ ". The address holds a different contract than the one deployed; redeploy and regenerate contracts/deployments/"
            ∷ config.blockchain.network
            ∷ ".json."
            ∷ []))
      else ok tt

  unfoldable pub assert_bytecode_identity :
      Registry → (address label key code : String) → Result (Unit {0})
  unfolding check_identity
  assert_bytecode_identity registry address label key code = do
    manifest ← get_manifest registry
    check_identity (recorded_hash manifest key) address label key code

  unfoldable pub assert_contract_deployed :
      Registry → Node → (address label key : String) → Result ℕ
  unfolding assert_bytecode_identity
  assert_contract_deployed registry node address label key = do
    code ← node.code address
    if is_empty_code code
        then throw (
            error (
              "No contract code found at " ∷ address ∷ " for " ∷ label
              ∷ ". The deployment manifest is stale or points at a different chain; redeploy and regenerate contracts/deployments/"
              ∷ config.blockchain.network ∷ ".json." ∷ []))
        else do
          identified ← assert_bytecode_identity registry address label key code
          ok ((length (codes code) - 2) / 2)

-- The loop collects every mismatch before it fails.
collect_mismatches : Node → List (String × ℕ) → List String → Result (List String)
collect_mismatches node [] mismatches = ok mismatches
collect_mismatches node ((name, expected) ∷ constants) mismatches = do
  value ← node.constant name
  collect_mismatches node constants (
      if value == expected
      then mismatches
      else mismatches
        ++ join "" (name ∷ ": chain=" ∷ show value ∷ " backend=" ∷ show expected ∷ []) ∷ [])

report_mismatches : List String → Result (Unit {0})
report_mismatches [] = ok tt
report_mismatches (m ∷ ms) = throw (
    error (
      "Deployed contract constants do not match POLICY_DOMAIN, so request validation would disagree with what the chain enforces: "
      ∷ join "; " (m ∷ ms)
      ∷ ". Redeploy the current contracts or update POLICY_DOMAIN to match the deployed build."
      ∷ []))

unfoldable pub assert_constants_match : Registry → Node → Result (Unit {0})
unfolding collect_mismatches report_mismatches
assert_constants_match registry node = do
  reader ← get_provider_reader registry
  mismatches ← collect_mismatches node mirrored_constants []
  report_mismatches mismatches

unfoldable pub assert_legacy_region_code_matches : String → Registry → Node → Result (Unit {0})
assert_legacy_region_code_matches legacy registry node = do
  reader ← get_provider_reader registry
  on_chain ← node.legacy_region_code
  if str_eq (to_lower on_chain) (to_lower legacy)
      then ok tt
      else throw (
          error (
            "Deployed LEGACY_REGION_CODE is " ∷ on_chain ∷ " but the backend mirrors " ∷ legacy
            ∷ ". Policies created without an explicit region would be filed under a code the contract does not use."
            ∷ []))

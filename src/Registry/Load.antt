-- ===== src/Registry/Load.antt =====
-- `load` of contract-registry.service.ts.
pub mod Laws
use climate_chain.Shared.{
  ℕ, ◌==◌, String, Bool, true, false, not, Option, none, some, List, [], ◌∷◌, map, str_eq, truthy,
  is_some, or_else, if◌then◌else◌,
}
use climate_chain.Shared.Dict.{Dict, get, set, keys}
use climate_chain.Shared.Text.{append, join, show, trim}
use climate_chain.Config.Types.{BlockchainConfig}
use climate_chain.EvmAddress.{assert_usable_address}
use climate_chain.Js.{
  Value, undefined, null, bool, num, str, arr, obj, error_object, http, Items, nil, cons, end, prop,
  as_string, as_number, Result, ok, throw, ◌>>=◌, ◌>>◌,
}
use climate_chain.Registry.Json.{
  Disk, error, message_of, member, is_text, as_items, is_object, read_json,
}
use climate_chain.Registry.Abis.{load_abis}

abbrev pub provider_manifest_key : String
provider_manifest_key = "insuranceProvider"

abbrev pub oracle_manifest_keys : List String
oracle_manifest_keys = "weatherOracle" ∷ "mockWeatherOracle" ∷ []

-- A manifest that passed the checks: `network` and `chainId` are texts, and `contracts` is an object.
-- `runtimeBytecodeHashes` is whatever the file holds.
pub record Manifest : Type 0 where
  pub network : String
  pub chain_id : String
  pub contracts : Value
  pub runtime_bytecode_hashes : Value

pub data AddressSource : Type 0 where
  config_override : AddressSource
  manifest_entry : AddressSource

pub record Snapshot : Type 0 where
  pub network : String
  pub chain_id : String
  pub provider_address : String
  pub oracle_address : Option String
  pub provider_address_source : AddressSource
  pub loaded_contracts : List String
  pub shared_abi_dir : String
  pub deployments_dir : String
  pub manifest_file : String

pub record Registry : Type 0 where
  pub abis : Dict Items
  pub manifest : Option Manifest
  pub snapshot : Option Snapshot
  pub ready : Bool

abbrev pub unloaded : Registry
unloaded = record { abis = []; manifest = none; snapshot = none; ready = false }

module _ (disk : Disk) (string_of : Value → String) where
  -- The checks of the manifest, in their order.
  check_fields : String → String → Value → Bool → Result Manifest
  check_fields file network manifest versioned =
      let chain_id = prop "chainId" manifest in
      let contracts = prop "contracts" manifest in
      if not versioned
      then throw
          (error ("Malformed deployment manifest at " ∷ file ∷ " (missing schemaVersion)" ∷ []))
      else if str_eq (or_else (as_string chain_id) "") ""
      then throw (error ("Deployment manifest " ∷ file ∷ " is missing a string chainId" ∷ []))
      else if not (is_object contracts)
      then throw (error ("Deployment manifest " ∷ file ∷ " is missing a contracts map" ∷ []))
      else if not (is_text (prop "network" manifest) network)
      then throw (
          error (
            "Deployment manifest "
            ∷ file
            ∷ " declares network \""
            ∷ string_of (prop "network" manifest)
            ∷ "\" but was loaded for \""
            ∷ network
            ∷ "\""
            ∷ []))
      else ok (record {
        network = network;
        chain_id = or_else (as_string chain_id) "";
        contracts = contracts;
        runtime_bytecode_hashes = prop "runtimeBytecodeHashes" manifest;
      })

  check_manifest : String → String → Value → Result Manifest
  check_manifest file network manifest = do
    version ← member manifest "schemaVersion"
    check_fields file network manifest (is_some (as_number version))

  load_manifest : String → String → Result (Manifest × String)
  load_manifest deployments_dir network = do
    file ← disk.path deployments_dir (str (append network ".json"))
    manifest ←
        read_json disk string_of file
          (join "" ("deployment manifest for network \"" ∷ network ∷ "\"" ∷ []))
    checked ← check_manifest file network manifest
    ok (checked, file)

  -- Absent and blank candidates are passed over; any other must be usable.
  resolve_oracle : Manifest → String → List String → Result (Option String)
  resolve_oracle manifest file [] = ok none
  resolve_oracle manifest file (key ∷ keys) =
      let rest = resolve_oracle manifest file keys in
      elim (as_string (prop key manifest.contracts)) [
        | none ↦ rest
        | some candidate ↦ if str_eq (trim candidate) "" then rest else do
          address ←
              assert_usable_address string_of (str candidate)
                (join "" ("manifest oracle address \"" ∷ key ∷ "\" in " ∷ file ∷ []))
          ok (some address)
      ]

  check_chain_id : Option ℕ → Manifest → Result (Unit {0})
  check_chain_id none manifest = ok tt
  check_chain_id (some chain_id) manifest =
      if str_eq (show chain_id) manifest.chain_id
      then ok tt
      else throw (
          error (
            "Configured CHAIN_ID="
            ∷ show chain_id
            ∷ " does not match manifest chainId="
            ∷ manifest.chain_id
            ∷ " for network \""
            ∷ manifest.network
            ∷ "\""
            ∷ []))

  -- `factoryAddress ?? manifest.contracts[...]`, where an empty override is still taken.
  provider_address : Option String → Manifest → Result String
  provider_address override manifest =
      assert_usable_address string_of
        (elim override [
          | some address ↦ str address
          | none ↦ prop provider_manifest_key manifest.contracts
        ])
        (if truthy override
          then "FACTORY_ADDRESS override"
          else "manifest contract \"insuranceProvider\"")

  -- What the `try` block of `load` computes once the ABIs are loaded.
  pub load_snapshot : BlockchainConfig → Dict Items → Result (Manifest × Snapshot)
  load_snapshot config abis = do
    found ← load_manifest config.deployments_dir config.network
    agreed ← check_chain_id config.chain_id found.0
    provider ← provider_address config.factory_address found.0
    oracle ← resolve_oracle found.0 found.1 oracle_manifest_keys
    ok (
      found.0,
      record {
        network = found.0.network;
        chain_id = found.0.chain_id;
        provider_address = provider;
        oracle_address = oracle;
        provider_address_source =
            if truthy config.factory_address then config_override else manifest_entry;
        loaded_contracts = keys abis;
        shared_abi_dir = config.shared_abi_dir;
        deployments_dir = config.deployments_dir;
        manifest_file = found.1;
      },
    )

  load_failure : BlockchainConfig → Value → Value
  load_failure config thrown = error (
      "Failed to load blockchain integration metadata. "
      ∷ message_of string_of thrown
      ∷ ". Verify SHARED_ABI_DIR ("
      ∷ config.shared_abi_dir
      ∷ ") and CONTRACTS_DEPLOYMENTS_DIR ("
      ∷ config.deployments_dir
      ∷ ") point to Stage 04 outputs and that BLOCKCHAIN_NETWORK=\""
      ∷ config.network
      ∷ "\" has a deployment manifest."
      ∷ [])

  failed_load : BlockchainConfig → Dict Items → Value → Result (Unit {0}) × Registry
  failed_load config abis thrown = (
    throw (load_failure config thrown),
    record { abis = abis; manifest = none; snapshot = none; ready = false },
  )

  finish_load :
      BlockchainConfig → Dict Items → Result (Manifest × Snapshot) → Result (Unit {0}) × Registry
  finish_load config abis (throw thrown) = failed_load config abis thrown
  finish_load config abis (ok (manifest, snapshot)) = (
    ok tt,
    record { abis = abis; manifest = some manifest; snapshot = some snapshot; ready = true },
  )

  -- Nothing of the registry's earlier state is kept, whichever way it ends.
  pub load : BlockchainConfig → Registry → Result (Unit {0}) × Registry
  unfolding finish_load load_snapshot failed_load
  load config registry =
      let (loaded, abis) = load_abis disk string_of config.shared_abi_dir in
      finish_load config abis (loaded >> load_snapshot config abis)

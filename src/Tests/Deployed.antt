-- ===== src/Tests/Deployed.antt =====
-- Boot, drift and readiness of a deployment on a small node.
use climate_chain.Shared.{
  ℕ, String, ◌≡◌, refl, ◌↔◌, true, false, none, some, List, [], ◌∷◌, str_eq, if◌then◌else◌,
}
use climate_chain.Shared.Text.{append, join, to_lower}
use climate_chain.Shared.Dict.{get}
use climate_chain.Config.Types.{RootConfig}
use climate_chain.ChainProvider.{disconnected, is_enabled, get_provider}
use climate_chain.ChainProvider.Node.{get_signer_address}
use climate_chain.Js.{Value, str, obj, field, end, nil, Result, ok, throw}
use climate_chain.Registry.Load.{Registry, Manifest, manifest_entry}
use climate_chain.Registry.Accessors.{
  get_manifest, get_oracle_address, get_chain_id, get_provider_address, get_abi,
}
use climate_chain.Bootstrap.{
  ChainVerification, Node, unverified, assert_contract_deployed, resolve_oracle_manifest_key,
  assert_constants_match, get_provider_reader, assert_legacy_region_code_matches,
}
use climate_chain.Bootstrap.Identity.{IsContractAt, assert_contract_deployed_iff}
use climate_chain.Bootstrap.Verify.{
  Ambient, check_chain, check_oracle, check_deployment, all_three, on_application_bootstrap,
}
use climate_chain.Bootstrap.Drift.{
  detect_deployment_drift, run_checks, complete_check, drift_reason,
}
use climate_chain.Health.{Probe, up, chain_health, chain_details}
use climate_chain.Health.Laws.{IsUp, chain_health_iff}
use climate_chain.Tests.Data.{test_config, no_text, odd_error}

abbrev root : RootConfig
root = record {
  app = record {
    node_env = "production";
    port = 3000;
    is_deployed_profile = true;
    cors_origins = [];
    swagger_enabled = false;
    max_request_body_size = "100kb";
    trust_proxy = none;
  };
  blockchain = test_config;
  ml_service = record { base_url = ""; timeout_ms = 1000 };
  auth = record {
    jwt_secret = "s";
    jwt_expires_in = "1h";
    admin_api_key = none;
    rate_limit_ttl_seconds = 60;
    rate_limit_max = 10;
  };
  logging = record { level = "info"; pretty = false };
  persistence = record { database_url = none };
}

abbrev test_manifest : Manifest
test_manifest = record {
  network = "localhost";
  chain_id = "31337";
  contracts = obj (field "insuranceProvider" (str "0xaa") (field "weatherOracle" (str "0xbb") end));
  runtime_bytecode_hashes =
      obj (field "insuranceProvider" (str "h0x6001") (field "weatherOracle" (str "h0x6001") end));
}

abbrev test_registry : Registry
test_registry = record {
  abis = ("InsuranceProvider", nil) ∷ [];
  manifest = some test_manifest;
  snapshot = some (record {
    network = "localhost";
    chain_id = "31337";
    provider_address = "0xaa";
    oracle_address = some "0xbb";
    provider_address_source = manifest_entry;
    loaded_contracts = "InsuranceProvider" ∷ [];
    shared_abi_dir = "abi";
    deployments_dir = "deployments";
    manifest_file = "deployments/localhost.json";
  });
  ready = true;
}

abbrev hash : String → String
hash code = append "h" code

abbrev constant_of : String → Result ℕ
constant_of name =
    if str_eq name "MAX_DURATION_DAYS"
    then ok 365
    else if str_eq name "MIN_PREMIUM_BPS"
    then ok 100
    else if str_eq name "BASIS_POINTS_DENOMINATOR"
    then ok 10000
    else if str_eq name "MIN_POLICY_START_LEAD_TIME_SECONDS"
    then ok 60
    else ok 31536000

abbrev deployed_code : String → Result String
deployed_code address = ok "0x6001"

abbrev test_node : Node
test_node = record {
  chain_id = ok "31337";
  code = deployed_code;
  constant = constant_of;
  legacy_region_code = ok "0xAB";
  block_number = ok 4;
  coverage_reserve_wei = ok 10;
  premium_balance_wei = ok 0;
  balance = λ address. ok 7;
}

abbrev test_ambient : Ambient
test_ambient = record { verified_at = "now"; wallet_address = "0xcc"; legacy_region_code = "0xab" }

abbrev first_of : List Value → Value
first_of [] = odd_error
first_of (e ∷ es) = e

deployed :
    assert_contract_deployed root hash no_text test_registry test_node "0xaa" "provider"
      "insuranceProvider"
    ≡ ok 2
unfolding assert_contract_deployed get_manifest
deployed = refl

assert_contract_deployed_iff_example :
    (assert_contract_deployed root hash no_text test_registry test_node "0xaa" "provider"
        "insuranceProvider"
      ≡ ok 2)
    ↔ IsContractAt root hash test_registry test_node "0xaa" "insuranceProvider" 2
assert_contract_deployed_iff_example =
    assert_contract_deployed_iff root hash no_text test_registry test_node "0xaa" "provider"
      "insuranceProvider" 2

abbrev verified : ChainVerification
verified = record {
  verified_at = "now";
  chain_id = "31337";
  block_number = 4;
  provider_address = "0xaa";
  provider_code_size = 2;
  oracle_address = some "0xbb";
  oracle_code_size = some 2;
  signer_address = some "0xcc";
  signer_balance_wei = some 7;
  coverage_reserve_wei = 10;
  premium_balance_wei = 0;
}

booted :
    (on_application_bootstrap root hash no_text test_ambient first_of test_registry test_node
      unverified disconnected).1
    ≡ record unverified { verification = some verified }
unfolding on_application_bootstrap is_enabled get_provider check_deployment check_chain get_chain_id
    get_provider_address assert_contract_deployed get_manifest get_oracle_address check_oracle
    resolve_oracle_manifest_key assert_constants_match get_provider_reader get_abi
    assert_legacy_region_code_matches to_lower all_three get_signer_address get
booted = refl

abbrev past : List (ℕ × (String → Result String))
past = (1000, deployed_code) ∷ (1500, λ address. throw odd_error) ∷ []

-- The limit has passed, and the code is gone.
drifted :
    (detect_deployment_drift hash no_text test_registry 31000
      (λ address. ok "0x")
      (run_checks hash no_text test_registry past
        (record unverified { verification = some verified }))).0
    ≡ some
        "InsuranceProvider at 0xaa no longer holds any code. The node was reset or replaced since startup."
unfolding detect_deployment_drift run_checks resolve_oracle_manifest_key get_manifest
    get_oracle_address drift_reason join
drifted = refl

abbrev test_probe : Probe
test_probe = record {
  now_ms = 9;
  chain_id = ok "31337";
  block_number = ok 5;
  pick = λ e e'. e;
  code = deployed_code;
}

chain_health_iff_example :
    ((chain_health root hash no_text test_registry test_probe
        (record unverified { verification = some verified })).0
      ≡ up (("chainId", str "31337") ∷ []))
    ↔ ((is_enabled root.blockchain ≡ true)
        × ((v : ChainVerification) × (some verified ≡ some v)
            × IsUp root hash no_text test_registry test_probe v
                (record unverified { verification = some verified })
                (("chainId", str "31337") ∷ [])))
chain_health_iff_example =
    chain_health_iff root hash no_text test_registry test_probe
      (record unverified { verification = some verified }) (("chainId", str "31337") ∷ [])

ready :
    (chain_health root hash no_text test_registry test_probe
      (record unverified { verification = some verified })).0
    ≡ up (("chainId", str "31337") ∷ [])
unfolding chain_health is_enabled detect_deployment_drift complete_check resolve_oracle_manifest_key
    get_manifest get_oracle_address drift_reason chain_details
ready = refl

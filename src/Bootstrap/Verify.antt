-- ===== src/Bootstrap/Verify.antt =====
-- `verify` and `onApplicationBootstrap` of chain-bootstrap.service.ts. `Promise.all` rejects with one
-- of the rejections of its three reads; which one is up to their timing and is `pick`.
pub mod Steps
pub mod Laws
use climate_chain.Shared.{
  ℕ, String, true, false, not, Option, none, some, List, [], ◌∷◌, ◌++◌, str_eq, if◌then◌else◌,
}
use climate_chain.Shared.Text.{append, join}
use climate_chain.Config.Types.{RootConfig}
use climate_chain.ChainProvider.{Connection, is_enabled, get_provider}
use climate_chain.ChainProvider.Node.{get_signer_address}
use climate_chain.Js.{Value, Result, ok, throw, ◌>>=◌, ◌>>◌}
use climate_chain.Registry.Json.{error, message_of}
use climate_chain.Registry.Load.{Registry, provider_manifest_key}
use climate_chain.Registry.Accessors.{get_provider_address, get_oracle_address, get_chain_id}
use climate_chain.Bootstrap.{
  ChainVerification, Bootstrap, Node, assert_contract_deployed, assert_constants_match,
  assert_legacy_region_code_matches, resolve_oracle_manifest_key, get_provider_reader,
}

-- What `verify` has found when it comes to the signer.
pub record Found : Type 0 where
  pub chain_id : String
  pub provider_address : String
  pub provider_code_size : ℕ
  pub oracle_address : Option String
  pub oracle_code_size : Option ℕ
  pub block_number : ℕ
  pub coverage_reserve_wei : ℕ
  pub premium_balance_wei : ℕ

-- `verifiedAt`, the wallet's address and the placeholder region.
pub record Ambient : Type 0 where
  pub verified_at : String
  pub wallet_address : String
  pub legacy_region_code : String

unfoldable pub check_chain : Registry → Node → Result String
check_chain registry node = do
  expected ← get_chain_id registry
  actual ← node.chain_id
  if str_eq actual expected
      then ok actual
      else throw (
          error (
            "The node reports chainId=" ∷ actual ∷ " but the deployment manifest declares chainId="
            ∷ expected
            ∷ ". RPC_URL points at a different chain than the one the contracts were deployed to."
            ∷ []))

thrown_of : {A : Type 0} → Result A → List Value
thrown_of (ok a) = []
thrown_of (throw e) = e ∷ []

-- `Promise.all` of three reads.
unfoldable pub all_three :
    {A B C : Type 0} → (List Value → Value) → Result A → Result B → Result C → Result (A × B × C)
unfolding thrown_of
all_three pick (ok a) (ok b) (ok c) = ok (a, b, c)
all_three pick a b c = throw (pick (thrown_of a ++ thrown_of b ++ thrown_of c))

module _ (config : RootConfig) (keccak256 : String → String) (string_of : Value → String)
    (ambient : Ambient) (pick : List Value → Value) where
  unfoldable pub check_oracle : Registry → Node → Option String → Result (Option ℕ)
  check_oracle registry node none = ok none
  check_oracle registry node (some address) = if str_eq address "" then ok none else do
    key ← resolve_oracle_manifest_key registry
    size ←
        assert_contract_deployed config keccak256 string_of registry node address
          "weather oracle (manifest oracle key)" key
    ok (some size)

  -- From the chain id to the three reads.
  unfoldable pub check_deployment : Registry → Node → Result Found
  unfolding check_oracle
  check_deployment registry node = do
    chain_id ← check_chain registry node
    provider_address ← get_provider_address registry
    provider_code_size ←
        assert_contract_deployed config keccak256 string_of registry node provider_address
          "InsuranceProvider (manifest key insuranceProvider)" provider_manifest_key
    oracle_address ← get_oracle_address registry
    oracle_code_size ← check_oracle registry node oracle_address
    constants ← assert_constants_match registry node
    region ← assert_legacy_region_code_matches ambient.legacy_region_code registry node
    reader ← get_provider_reader registry
    read ← all_three pick node.block_number node.coverage_reserve_wei node.premium_balance_wei
    ok (record {
      chain_id = chain_id;
      provider_address = provider_address;
      provider_code_size = provider_code_size;
      oracle_address = oracle_address;
      oracle_code_size = oracle_code_size;
      block_number = read.0;
      coverage_reserve_wei = read.1;
      premium_balance_wei = read.2;
    })

  read_balance : Node → Option String → Result (Option ℕ)
  read_balance node none = ok none
  read_balance node (some address) =
      if str_eq address "" then ok none else do balance ← node.balance address; ok (some balance)

  complete : Node → Found → Option String → Result ChainVerification
  complete node found signer_address = do
    signer_balance_wei ← read_balance node signer_address
    ok (record {
      verified_at = ambient.verified_at;
      chain_id = found.chain_id;
      block_number = found.block_number;
      provider_address = found.provider_address;
      provider_code_size = found.provider_code_size;
      oracle_address = found.oracle_address;
      oracle_code_size = found.oracle_code_size;
      signer_address = signer_address;
      signer_balance_wei = signer_balance_wei;
      coverage_reserve_wei = found.coverage_reserve_wei;
      premium_balance_wei = found.premium_balance_wei;
    })

  sign_and_complete : Node → Connection → Result Found → Result ChainVerification × Connection
  sign_and_complete node c (throw thrown) = (throw thrown, c)
  sign_and_complete node c (ok found) =
      let (signer, c') = get_signer_address config.blockchain ambient.wallet_address c in
      (signer >>= complete node found, c')

  unfoldable pub verify : Registry → Node → Connection → Result ChainVerification × Connection
  unfolding sign_and_complete complete read_balance
  verify registry node c =
      let (provider, c') = get_provider config.blockchain c in
      sign_and_complete node c' (provider >> check_deployment registry node)

  boot_failure : Value → Value
  boot_failure thrown = error (
      "Chain verification failed against RPC_URL for network \""
      ∷ config.blockchain.network
      ∷ "\". "
      ∷ message_of string_of thrown
      ∷ [])

  conclude :
      Bootstrap → Result ChainVerification × Connection → Result (Unit {0}) × Bootstrap × Connection
  conclude b (ok verification, c) = (ok tt, record b { verification = some verification }, c)
  conclude b (throw thrown, c) = (throw (boot_failure thrown), b, c)

  unfoldable pub on_application_bootstrap :
      Registry → Node → Bootstrap → Connection → Result (Unit {0}) × Bootstrap × Connection
  unfolding verify conclude boot_failure
  on_application_bootstrap registry node b c =
      if not (is_enabled config.blockchain)
      then (ok tt, b, c)
      else conclude b (verify registry node c)

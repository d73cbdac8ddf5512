-- ===== src/Policy/Chain/Writes.antt =====
-- The write of policy-chain.service.ts: `createPolicy` and what it calls. `Chain` holds what ethers and
-- the node answer; what the creation does to the outside is the trace of its submission.
pub mod Event
pub mod Requested
pub mod Sent
pub mod Laws
pub mod Start
use climate_chain.Shared.{
  ℕ, ◌+◌, ◌==◌, String, Bool, Option, none, some, List, [], ◌∷◌, str_eq, not, truthy, or_else,
  if◌then◌else◌,
}
use climate_chain.Shared.Text.{show, append, join}
use climate_chain.Config.Types.{BlockchainConfig}
use climate_chain.EthAmount.{parse_eth_to_wei}
use climate_chain.EvmAddress.{normalize_evm_address}
use climate_chain.RegionCode.{Bytes32, encode_region_code}
use climate_chain.Js.{
  Value, undefined, str, http, error_object, end, ExceptionClass, Result, ok, throw, ◌>>=◌, ◌>>◌,
}
use climate_chain.ErrorMapper.{ParsedError, to_http_exception}
use climate_chain.ChainProvider.{
  BlockRead, Connection, Effect, Network, unavailable, has_signer, get_next_block_timestamp,
  submit_signed_transaction,
}
use climate_chain.Policy.Constants.{PolicyStatus}
use climate_chain.Policy.Chain.Types.{ChainWriteResult, CreatePolicyDto, CreateArgs}
use climate_chain.Policy.Chain.Reads.{assert_enabled, catching}

-- The lead of a start that the request leaves out.
abbrev pub default_start_lead_seconds : ℕ
default_start_lead_seconds = 300

-- A log of the receipt as `parseLog` reads it: the event's name, and its `policyAddress`.
pub record ParsedLog : Type 0 where
  pub name : String
  pub policy_address : String

pub record Receipt (Log : Type 0) : Type 0 where
  pub hash : String
  pub status : Option ℕ
  pub block_number : ℕ
  pub gas_used : ℕ
  pub logs : List Log

-- An encoder's error is the client's: its message goes into a 400. `String(error)` of another value is
-- `string_of`.
as_bad_request : (Value → String) → Result String → Result String
as_bad_request string_of (ok code) = ok code
as_bad_request string_of (throw (error_object message fields)) =
    throw (http ExceptionClass.bad_request (str message) undefined)
as_bad_request string_of (throw thrown) =
    throw (http ExceptionClass.bad_request (str (string_of thrown)) undefined)

unfoldable pub encode_region : (Value → String) → Bytes32 → String → Result String
unfolding as_bad_request
encode_region string_of codec region = as_bad_request string_of (encode_region_code codec region)

region_code_of : (Value → String) → Bytes32 → String → Option String → Result String
unfolding encode_region
region_code_of string_of codec legacy none = ok legacy
region_code_of string_of codec legacy (some region) = encode_region string_of codec region

-- The start is computed before the parameters, so the region is encoded after it; `baseline` is
-- `getNextBlockTimestamp`.
unfoldable pub build_create_args :
    (Value → String)
    → Bytes32
    → (legacy : String) → (baseline : ℕ) → CreatePolicyDto
    → ℕ
    → Result CreateArgs
unfolding region_code_of
build_create_args string_of codec legacy baseline dto coverage_wei = do
  let requested_start =
      or_else dto.requested_start_timestamp (baseline + default_start_lead_seconds)
  region_code ← region_code_of string_of codec legacy dto.region
  ok (record {
    coverage_wei = coverage_wei;
    rainfall_threshold_mm = dto.rainfall_threshold_mm;
    duration_days = dto.duration_days;
    region_code = region_code;
    requested_start = requested_start;
    insured = dto.insured;
  })

module _ {Log : Type 0} where
  -- What `tx.wait` gave: a receipt, or none in time.
  pub checked_receipt : BlockchainConfig → String → Option (Receipt Log) → Result (Receipt Log)
  checked_receipt config hash none = throw (
      unavailable (
        join "" (
          "Transaction "
          ∷ hash
          ∷ " was not mined within "
          ∷ show config.tx_timeout_ms
          ∷ "ms. It may still confirm later; check the transaction hash before resubmitting."
          ∷ [])))
  checked_receipt config hash (some receipt) =
      if or_else receipt.status 1 == 0
      then throw (
          unavailable (
            join "" (
              "Transaction "
              ∷ hash
              ∷ " reverted on chain at block "
              ∷ show receipt.block_number
              ∷ [])))
      else ok receipt

  -- The first `PolicyCreated` of the logs.
  pub created_address : (Log → Option ParsedLog) → List Log → Option String
  created_address parse_log [] = none
  created_address parse_log (log ∷ logs) =
      let rest = created_address parse_log logs in
      elim (parse_log log) [
        | none ↦ rest
        | some parsed ↦
            if str_eq parsed.name "PolicyCreated"
            then some (normalize_evm_address parsed.policy_address)
            else rest
      ]

  pub extract_policy_address : (Log → Option ParsedLog) → Receipt Log → Result String
  unfolding created_address
  extract_policy_address parse_log receipt = elim (created_address parse_log receipt.logs) [
    | some address ↦ ok address
    | none ↦ throw (
        error_object
          (join "" (
            "Transaction " ∷ receipt.hash ∷ " mined successfully but emitted no "
            ∷ "PolicyCreated event; the deployed provider ABI may not match "
            ∷ "shared/abi/InsuranceProvider.json" ∷ []))
          end)
  ]

-- The outside of one creation: `getProviderWriter`, the baseline's block reads, the dry run, the
-- submission, what `tx.wait` gives, and the hash of `LEGACY_UNSPECIFIED`.
pub record Chain (Request Prepared Response Log : Type 0) : Type 0 where
  pub writer : Connection → Result (Unit {0}) × Connection
  pub now_ms : ℕ
  pub pending_block : BlockRead
  pub latest_block : BlockRead
  pub static_call : CreateArgs → (premium_wei : ℕ) → Result String
  pub network : CreateArgs → (premium_wei : ℕ) → Network Request Prepared Response
  pub hash : Response → String
  pub wait : Response → Result (Option (Receipt Log))
  pub parse_log : Log → Option ParsedLog
  pub legacy_region_code : String

abbrev pub no_signer_configured : Value
no_signer_configured = unavailable (
    append "Policy creation requires a configured signer; set PRIVATE_KEY to "
      "enable on-chain writes")

-- A step of the creation: its result, the connection, and what it did to the outside.
abbrev pub Creation : Type 0 → Type 0
Creation A = Result A × Connection × List Effect

module _ {Request Prepared Response Log : Type 0} (config : BlockchainConfig)
    (string_of : Value → String) (codec : Bytes32) (chain : Chain Request Prepared Response Log)
    (dto : CreatePolicyDto) where
  -- From the response on: the wait, the address, and the answer.
  pub confirm : Response → Result ChainWriteResult
  unfolding checked_receipt extract_policy_address
  confirm response = do
    mined ← chain.wait response
    receipt ← checked_receipt config (chain.hash response) mined
    address ← extract_policy_address chain.parse_log receipt
    ok (record {
      address = address;
      transaction_hash = receipt.hash;
      block_number = receipt.block_number;
      gas_used = receipt.gas_used;
      insured = dto.insured;
      status = PolicyStatus.active;
    })

  pub submit : ℕ → CreateArgs → Connection → Creation ChainWriteResult
  unfolding confirm
  submit premium_wei args c =
      let (response, c', trace) =
        submit_signed_transaction config (chain.network args premium_wei) c in
      (response >>= confirm, c', trace)

  -- The arguments and the dry run.
  pub rehearse : ℕ → ℕ → Result CreateArgs
  unfolding build_create_args get_next_block_timestamp
  rehearse coverage_wei premium_wei = do
    args ←
        build_create_args string_of codec chain.legacy_region_code
          (get_next_block_timestamp chain.now_ms chain.pending_block chain.latest_block) dto
          coverage_wei
    address ← chain.static_call args premium_wei
    ok args

  -- The `try` block of `createPolicy`.
  pub attempt : ℕ → ℕ → Connection → Creation ChainWriteResult
  unfolding submit rehearse
  attempt coverage_wei premium_wei c =
      let (writer, c') = chain.writer c in
      elim (writer >> rehearse coverage_wei premium_wei) [
        | throw thrown ↦ (throw thrown, c', [])
        | ok args ↦ submit premium_wei args c'
      ]

  -- The two `parseEthToWei` stand outside the `try` block.
  both_amounts : Result (ℕ × ℕ)
  both_amounts = do
    coverage_wei ← parse_eth_to_wei dto.coverage_eth
    premium_wei ← parse_eth_to_wei dto.premium_eth
    ok (coverage_wei, premium_wei)

  -- What comes before it.
  unfoldable pub amounts : Result (ℕ × ℕ)
  unfolding assert_enabled has_signer both_amounts
  amounts =
      assert_enabled config
      >> (if has_signer config then ok tt else throw no_signer_configured)
      >> both_amounts

  module _ {Interface : Type 0} (parse_error : Interface → String → Option ParsedError)
      (interfaces : List Interface) where
    unfoldable pub create_policy : Connection → Creation ChainWriteResult
    unfolding amounts attempt
    create_policy c = elim amounts [
      | throw thrown ↦ (throw thrown, c, [])
      | ok (coverage_wei, premium_wei) ↦
          let (result, c', trace) = attempt coverage_wei premium_wei c in
          (
            catching
                (λ thrown. to_http_exception parse_error string_of thrown interfaces "createPolicy")
                result,
            c',
            trace,
          )
    ]

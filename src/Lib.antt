-- ===== src/Lib.antt =====
-- A model of ClimateChain's backend (backend/src), the NestJS service that sells parametric rainfall
-- policies: it reads policies from a chain and creates them by signed transactions; and of the checks that
-- the build runs on the contracts (contracts/scripts). The paths below are under backend/src, except those.
--
-- A request to create a policy (modules/policies/policies.controller.ts) goes through the idempotency
-- store (common/idempotency) to the chain access (modules/policies/policy-chain.service.ts), which builds
-- the arguments, runs them without effect, and hands a signed payload to the node through the provider
-- service (modules/blockchain/chain-provider.service.ts). The provider reports the payload's hash to the
-- store by a callback. Thrown values of the chain go through modules/blockchain/chain-error.mapper.ts.
--
-- Shared: names of the library, tests, lists, a dictionary and texts. Js: thrown values and parsed JSON,
-- and the result of an async function, a value or a thrown value.
-- Idempotency: IdempotencyService (common/idempotency/idempotency.service.ts). `execute` is split where it
-- waits into the events arrive, mark and settle of a `Server`; `run` plays any sequence of them.
-- Retry: withRpcRetry (modules/blockchain/chain-retry.util.ts) on a state that the operation changes. Its
-- loop has as many rounds as attempts. The random factor is k / scale.
-- ErrorMapper: the tables and toHttpException. ErrorMapper/Tables and Failures hold the tables.
-- ChainProvider: ChainProviderService; what one submission does to the outside is a list of effects.
-- Auth: modules/auth, from the administrative key to the role guard.
-- Policy/Chain: PolicyChainService, in Reads and Writes. The batches have as many rounds as addresses, and
-- each round takes at least one. Policy/Creation: the controller's create. Policy/Listing: list and getByAddress,
-- over the paging of contracts/contracts/InsuranceProvider.sol. Policy/Constants and
-- Policy/Validators: modules/policies/policy.constants.ts, the enums and the validators.
-- EthAmount, EvmAddress, RegionCode: common/utils. Amounts are natural numbers of wei without a bound.
-- Config: config/configuration.ts. Registry:
-- modules/blockchain/contract-registry.service.ts, in Json, Abis, Load and Accessors.
-- Bootstrap: modules/blockchain/chain-bootstrap.service.ts; Verify is the check at boot, Drift the one that the
-- readiness probe repeats, which is split where it waits. Health: modules/health/indicators. Filter:
-- common/filters/all-exceptions.filter.ts. At boot the registry is loaded, then verified against the node;
-- a probe asks the node again, and the filter answers every thrown value.
-- Scripts/StaticAnalysis: contracts/scripts/static-analysis.ts; its Sanitize/Grammar says what a line of code
-- is apart from the loop. Scripts/ContractSize: contracts/scripts/report-contract-size.ts.
-- Scripts/Stress: contracts/scripts/stress-create-policies.ts, its options, bursts and provider. Tests: concrete inputs and runs.
--
-- Parameters: ethers (interfaces, codec, wallet, nonce manager), the node's answers, the file system,
-- JSON.parse, Number, path.resolve, SHA-256 hashes and clocks. Numbers of parsed JSON are natural.
-- Not modelled: the framework's wiring and decorators, logging, throttling, JWT verification, the
-- controllers of health and description, the deployment scripts, the Solidity contracts and the ML service.
pub mod Shared
pub mod Js
pub mod Retry
pub mod ErrorMapper
pub mod Idempotency
pub mod EthAmount
pub mod Policy
pub mod Config
pub mod ChainProvider
pub mod EvmAddress
pub mod RegionCode
pub mod Registry
pub mod Auth
pub mod Bootstrap
pub mod Health
pub mod Filter
pub mod Scripts
mod Tests

-- ===== src/Tests/Chain.antt =====
-- Reads and creations on a small chain.
use climate_chain.Shared.{
  ℕ, String, ◌≡◌, ◌↔◌, ◌⊎◌, refl, true, Option, none, some, List, [], ◌∷◌, ◌/◌, str_eq,
  if◌then◌else◌,
}
use climate_chain.Shared.Text.{to_lower}
use climate_chain.EthAmount.{parse_eth_to_wei}
use climate_chain.EthAmount.Digits.{all_digits, all_zeros}
use climate_chain.EvmAddress.{normalize_evm_address}
use climate_chain.Js.{Value, Result, ok, throw}
use climate_chain.ErrorMapper.{to_http_exception}
use climate_chain.ErrorMapper.Laws.{IsHttp}
use climate_chain.ChainProvider.{
  BlockRead, with_timeout, disconnected, Network, settled, get_signer, submit_signed_transaction,
  get_next_block_timestamp,
}
use climate_chain.ChainProvider.Trace.{InOrder, submit_signed_transaction-InOrder}
use climate_chain.ChainProvider.BlockTime.{IsLater, timestamp_of, get_next_block_timestamp_bounds}
use climate_chain.Idempotency.{arrive, step, run}
use climate_chain.Idempotency.Retention.{IsRefusal}
use climate_chain.Policy.Constants.{PolicyStatus}
use climate_chain.Policy.Chain.Types.{ChainWriteResult, CreatePolicyDto}
use climate_chain.Policy.Chain.Reads.{read_policies_bounded}
use climate_chain.Policy.Chain.Reads.Laws.{ReadsTo, read_policies_bounded_iff}
use climate_chain.Policy.Chain.Writes.{Chain, Receipt, ParsedLog, amounts, create_policy}
use climate_chain.Policy.Chain.Writes.Sent.{is_sent}
use climate_chain.Policy.Chain.Writes.Laws.{
  IsConfirmed, create_policy-IsConfirmed, create_policy-IsHttp,
}
use climate_chain.Policy.Creation.{creation_events}
use climate_chain.Policy.Creation.Once.{broadcast_never_repeated}
use climate_chain.Tests.Data.{
  test_config, test_invocation, waiting, no_errors, no_text, lost_response, odd_error, fixed_codec,
}
use climate_chain.Tests.Store.{is_waiting, found, scoped, keyed}

-- The same names, read back.
abbrev echo : String → Result String
echo address = if str_eq address "" then throw odd_error else ok address

pub first_thrown : Value → List Value → Value
first_thrown e es = e

abbrev six : List String
six = "a" ∷ "b" ∷ "c" ∷ "d" ∷ "e" ∷ "f" ∷ []

read_policies_bounded_iff_example :
    (read_policies_bounded first_thrown echo six ≡ ok six) ↔ ReadsTo echo six six
read_policies_bounded_iff_example = read_policies_bounded_iff echo first_thrown six six

six_read : read_policies_bounded first_thrown echo six ≡ ok six
unfolding read_policies_bounded
six_read = refl

get_next_block_timestamp_bounds_example :
    let time = get_next_block_timestamp 5000 (ok none) (ok (some 9)) in
    ((t : ℕ) × (◌≡◌ {A = BlockRead} (ok none) (ok (some t))) × (time ≡ t))
    ⊎ ((◌≡◌ {A = BlockRead} (ok none) (ok none))
        × IsLater (5000 / 1000) (timestamp_of (ok (some 9))) time)
    ⊎ ((thrown : Value) × (◌≡◌ {A = BlockRead} (ok none) (throw thrown)) × (time ≡ 5000 / 1000))
get_next_block_timestamp_bounds_example =
    get_next_block_timestamp_bounds 5000 (ok none) (ok (some 9))

-- A node that accepts what it is sent.
abbrev test_network : Network ℕ ℕ String
test_network = record {
  populate = ok 1;
  prepare = λ request. ok 2;
  nonce_of = λ prepared. 7;
  sign = λ prepared. ok "0xraw";
  hash_of = λ raw. some "0xabc";
  send = λ raw. settled (ok "0xabc");
}

submit_signed_transaction-InOrder_example :
    let (result, c, trace) = submit_signed_transaction test_config test_network disconnected in
    InOrder test_config test_network result trace
submit_signed_transaction-InOrder_example =
    submit_signed_transaction-InOrder test_config test_network disconnected

abbrev test_receipt : Receipt String
test_receipt = record {
  hash = "0xabc";
  status = some 1;
  block_number = 12;
  gas_used = 21000;
  logs = "other" ∷ "created" ∷ [];
}

parse_test_log : String → Option ParsedLog
parse_test_log log =
    if str_eq log "created"
    then some (record { name = "PolicyCreated"; policy_address = "0xAA" })
    else none

-- The chain, and what its node gives at the wait.
test_chain : Result (Option (Receipt String)) → Chain ℕ ℕ String String
test_chain mined = record {
  writer = λ c. get_signer test_config c;
  now_ms = 1000000;
  pending_block = ok (some 1005);
  latest_block = ok (some 1000);
  static_call = λ args premium_wei. ok "0xAA";
  network = λ args premium_wei. test_network;
  hash = λ response. response;
  wait = λ response. mined;
  parse_log = parse_test_log;
  legacy_region_code = "legacy";
}

abbrev pub test_dto : CreatePolicyDto
test_dto = record {
  insured = "0xbb";
  coverage_eth = "1.0";
  premium_eth = "0.05";
  rainfall_threshold_mm = 50;
  duration_days = 30;
  region = none;
  requested_start_timestamp = none;
}

abbrev test_answer : ChainWriteResult
test_answer = record {
  address = "0xaa";
  transaction_hash = "0xabc";
  block_number = 12;
  gas_used = 21000;
  insured = "0xbb";
  status = PolicyStatus.active;
}

created :
    (create_policy test_config no_text fixed_codec
      (test_chain (ok (some test_receipt)))
      test_dto
      no_errors
      (0 ∷ [])
      disconnected).0
    ≡ ok test_answer
unfolding parse_eth_to_wei all_digits all_zeros get_signer submit_signed_transaction
    normalize_evm_address to_lower create_policy test_chain with_timeout parse_test_log
created = refl

create_policy-IsConfirmed_example :
    IsConfirmed test_config no_text fixed_codec
      (test_chain (ok (some test_receipt)))
      test_dto
      test_answer
      (create_policy test_config no_text fixed_codec
        (test_chain (ok (some test_receipt)))
        test_dto
        no_errors
        (0 ∷ [])
        disconnected).2
create_policy-IsConfirmed_example =
    create_policy-IsConfirmed test_config no_text fixed_codec (test_chain (ok (some test_receipt)))
      test_dto no_errors (0 ∷ []) disconnected test_answer created

lost :
    (create_policy test_config no_text fixed_codec
      (test_chain (throw lost_response))
      test_dto
      no_errors
      (0 ∷ [])
      disconnected).0
    ≡ throw lost_response
unfolding parse_eth_to_wei all_digits all_zeros get_signer submit_signed_transaction
    normalize_evm_address to_lower create_policy test_chain with_timeout parse_test_log
    to_http_exception
lost = refl

sent :
    is_sent
      (create_policy test_config no_text fixed_codec
        (test_chain (throw lost_response))
        test_dto
        no_errors
        (0 ∷ [])
        disconnected).2
    ≡ true
unfolding parse_eth_to_wei all_digits all_zeros get_signer submit_signed_transaction
    normalize_evm_address to_lower create_policy test_chain with_timeout parse_test_log
sent = refl

read_amounts :
    amounts test_config no_text fixed_codec (test_chain (throw lost_response)) test_dto
    ≡ ok (1000000000000000000, 50000000000000000)
unfolding amounts parse_eth_to_wei all_digits all_zeros
read_amounts = refl

create_policy-IsHttp_example : IsHttp lost_response
create_policy-IsHttp_example =
    create_policy-IsHttp test_config no_text fixed_codec (test_chain (throw lost_response)) test_dto
      no_errors (0 ∷ []) disconnected (1000000000000000000, 50000000000000000) lost_response
      read_amounts lost

broadcast_never_repeated_example :
    let (result, c, trace) =
      create_policy test_config no_text fixed_codec
        (test_chain (throw lost_response))
        test_dto
        no_errors
        (0 ∷ [])
        disconnected in
    let s = run waiting (creation_events test_config 9 0 12 result trace) in
    IsRefusal (step (run s []) (arrive 99999999 "admin" (some "k") "g")).1
broadcast_never_repeated_example =
    broadcast_never_repeated test_config no_text fixed_codec (test_chain (throw lost_response))
      test_dto no_errors (0 ∷ []) disconnected lost_response waiting 9 12 0 test_invocation [] []
      99999999 "admin" "k" "g" is_waiting found scoped keyed lost sent

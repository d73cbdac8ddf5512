-- ===== src/Tests/Pages.antt =====
-- List and single reads of a small chain, and the start that a request leaves out.
use climate_chain.Shared.{ℕ, ◌≡◌, refl, true, false, none, some, [], ◌∷◌, arith}
use climate_chain.Shared.Text.{to_lower}
use climate_chain.EvmAddress.{normalize_evm_address}
use climate_chain.Js.{ok}
use climate_chain.Policy.Constants.{
  PolicyStatus, PolicySettlementType, policy_status_from_index, policy_settlement_from_index,
}
use climate_chain.Policy.Validators.Laws.{ContractWindow}
use climate_chain.RegionCode.{decode_region_code}
use climate_chain.Policy.Chain.Types.{ChainPolicy, PolicyPage, CreateArgs}
use climate_chain.Policy.Chain.Reads.{RawPolicy, Reader, get_policy}
use climate_chain.Policy.Chain.Reads.Pages.{Describes, get_policy_ok}
use climate_chain.Policy.Chain.Writes.{build_create_args}
use climate_chain.Policy.Chain.Writes.Start.{build_create_args-ContractWindow}
use climate_chain.Tests.Data.{test_config, no_errors, no_text, fixed_codec}
use climate_chain.Tests.Chain.{test_dto, first_thrown}

unfoldable pub test_raw : RawPolicy
test_raw = record {
  insured = "0xBB";
  oracle = "0xCC";
  status_index = 1;
  coverage_wei = 100;
  premium_wei = 5;
  rainfall_threshold_mm = 50;
  latest_rainfall_mm = 0;
  pending_payout_wei = 0;
  condition_met = false;
  region_code = "north";
  start_timestamp = 1300;
  end_timestamp = 2300;
  last_oracle_update_timestamp = 0;
  settlement_index = 0;
  settled_at = 0;
}

abbrev pub test_policy : ChainPolicy
test_policy = record {
  address = "0xaa";
  insured = "0xbb";
  oracle = "0xcc";
  status = PolicyStatus.active;
  coverage_wei = 100;
  premium_wei = 5;
  rainfall_threshold_mm = 50;
  latest_rainfall_mm = 0;
  pending_payout_wei = 0;
  condition_met = false;
  paid_out = false;
  region_code = "north";
  region = some "north";
  start_timestamp = 1300;
  end_timestamp = 2300;
  last_oracle_update_timestamp = 0;
  settlement_type = PolicySettlementType.unsettled;
  settled_at = none;
}

test_reader : Reader
test_reader = record {
  provider = ok tt;
  head = ok 7;
  is_policy_created = λ block address. ok true;
  all_page = λ block offset limit. ok ("0xAA" ∷ [], 1);
  insured_page = λ block insured offset limit. ok ([], 0);
  policy = λ block address. ok test_raw;
}

abbrev test_page : PolicyPage
test_page = record { items = test_policy ∷ []; total = 1; applied_limit = 50 }

got :
    get_policy no_errors no_text (0 ∷ []) test_config fixed_codec first_thrown test_reader "0xAA"
    ≡ ok (some test_policy)
unfolding get_policy test_reader test_raw normalize_evm_address to_lower decode_region_code
    policy_status_from_index policy_settlement_from_index
got = refl

get_policy_ok_example :
    (block : ℕ) × (test_reader.head ≡ ok block)
    × (test_reader.is_policy_created block (normalize_evm_address "0xAA") ≡ ok true)
    × ((raw : RawPolicy) × (test_reader.policy block (normalize_evm_address "0xAA") ≡ ok raw)
        × Describes fixed_codec (normalize_evm_address "0xAA") raw test_policy)
get_policy_ok_example =
    get_policy_ok no_errors no_text (0 ∷ []) test_config fixed_codec first_thrown test_reader "0xAA"
      test_policy got

abbrev test_args : CreateArgs
test_args = record {
  coverage_wei = 100;
  rainfall_threshold_mm = 50;
  duration_days = 30;
  region_code = "legacy";
  requested_start = 1300;
  insured = "0xbb";
}

args_built : build_create_args no_text fixed_codec "legacy" 1000 test_dto 100 ≡ ok test_args
unfolding build_create_args
args_built = refl

build_create_args-ContractWindow_example :
    ContractWindow 1100 1300
    × (test_args.insured ≡ test_dto.insured)
    × (test_args.coverage_wei ≡ 100)
build_create_args-ContractWindow_example =
    build_create_args-ContractWindow no_text fixed_codec "legacy" 1000 1100 100 test_dto test_args
      args_built refl (omega arith) (omega arith)

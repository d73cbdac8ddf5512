-- ===== src/Tests/Walks.antt =====
-- A client that reads two policies page by page.
use climate_chain.Shared.{suc, String, ◌≡◌, refl, true, List, [], ◌∷◌, map, length, arith}
use climate_chain.Shared.Text.{to_lower}
use climate_chain.ChainProvider.{is_enabled}
use climate_chain.EvmAddress.{normalize_evm_address}
use climate_chain.Js.{ok}
use climate_chain.Policy.Constants.{policy_status_from_index, policy_settlement_from_index}
use climate_chain.RegionCode.{decode_region_code}
use climate_chain.Policy.Chain.Types.{ChainPolicy}
use climate_chain.Policy.Chain.Reads.{Reader, read_policy}
use climate_chain.Policy.Chain.Reads.Laws.{ReadsTo}
use climate_chain.Policy.Listing.{to_policy_response}
use climate_chain.Policy.Listing.Walk.{paginate_policies, Serves, walk, walk-all}
use climate_chain.Tests.Data.{test_config, no_errors, no_text, fixed_codec}
use climate_chain.Tests.Chain.{first_thrown}
use climate_chain.Tests.Pages.{test_raw, test_policy}

abbrev two_addresses : List String
two_addresses = "0xAA" ∷ "0xDD" ∷ []

abbrev contract_reader : Reader
contract_reader = record {
  provider = ok tt;
  head = ok 7;
  is_policy_created = λ block address. ok true;
  all_page = λ block offset limit. ok (paginate_policies two_addresses offset limit, 2);
  insured_page = λ block insured offset limit. ok ([], 0);
  policy = λ block address. ok test_raw;
}

abbrev two_policies : List ChainPolicy
two_policies = test_policy ∷ record test_policy { address = "0xdd" } ∷ []

served : Serves contract_reader 7 two_addresses
served = record { connected = refl; pinned = refl; paged = λ offset limit. refl }

readable :
    ReadsTo
      (read_policy fixed_codec (contract_reader.policy 7))
      (map normalize_evm_address two_addresses)
      two_policies
unfolding read_policy normalize_evm_address to_lower decode_region_code policy_status_from_index
    policy_settlement_from_index test_raw
readable = (refl, (refl, tt))

walk-all_example :
    walk no_errors no_text
      (0 ∷ [])
      test_config
      fixed_codec
      first_thrown
      contract_reader
      (suc (length two_addresses))
      1
      0
    ≡ ok (map to_policy_response two_policies)
unfolding is_enabled
walk-all_example =
    walk-all no_errors no_text (0 ∷ []) test_config fixed_codec first_thrown contract_reader 7
      two_addresses two_policies 1 served readable refl (omega arith) (omega arith)

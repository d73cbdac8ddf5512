-- ===== src/Policy/Listing.antt =====
-- backend/src/modules/policies: `list` and `getByAddress` of policies.service.ts, which the controller's routes
-- return unchanged, and policy.mapper.ts.
pub mod Walk
use climate_chain.Shared.{ℕ, String, Bool, Option, none, some, List, [], ◌∷◌, map, length}
use climate_chain.Shared.Text.{append}
use climate_chain.Config.Types.{BlockchainConfig}
use climate_chain.Js.{ExceptionClass, Value, http, str, undefined, Result, ok, throw, ◌>>=◌}
use climate_chain.ErrorMapper.{ParsedError}
use climate_chain.RegionCode.{Bytes32}
use climate_chain.Policy.Constants.{PolicyStatus, PolicySettlementType}
use climate_chain.Policy.Chain.Types.{ChainPolicy, PolicyPage}
use climate_chain.Policy.Chain.Reads.{Reader, list_policies, get_policy}

-- The public form of a policy. Amounts are kept as numbers, not as decimal texts.
pub record PolicyResponse : Type 0 where
  pub address : String
  pub insured : String
  pub status : PolicyStatus
  pub coverage_wei : ℕ
  pub premium_wei : ℕ
  pub rainfall_threshold_mm : ℕ
  pub latest_rainfall_mm : ℕ
  pub condition_met : Bool
  pub pending_payout_wei : ℕ
  pub last_oracle_update_timestamp : ℕ
  pub oracle : String
  pub region_code : String
  pub region : Option String
  pub start_timestamp : ℕ
  pub end_timestamp : ℕ
  pub paid_out : Bool
  pub settlement_type : PolicySettlementType
  pub settled_at : Option ℕ

unfoldable pub to_policy_response : ChainPolicy → PolicyResponse
to_policy_response policy = record {
  address = policy.address;
  insured = policy.insured;
  status = policy.status;
  coverage_wei = policy.coverage_wei;
  premium_wei = policy.premium_wei;
  rainfall_threshold_mm = policy.rainfall_threshold_mm;
  latest_rainfall_mm = policy.latest_rainfall_mm;
  condition_met = policy.condition_met;
  pending_payout_wei = policy.pending_payout_wei;
  last_oracle_update_timestamp = policy.last_oracle_update_timestamp;
  oracle = policy.oracle;
  region_code = policy.region_code;
  region = policy.region;
  start_timestamp = policy.start_timestamp;
  end_timestamp = policy.end_timestamp;
  paid_out = policy.paid_out;
  settlement_type = policy.settlement_type;
  settled_at = policy.settled_at;
}

pub record ListPoliciesQuery : Type 0 where
  pub offset : ℕ
  pub limit : ℕ
  pub insured : Option String

-- `data` and `meta`; `limit` is the applied one.
pub record PolicyListResponse : Type 0 where
  pub items : List PolicyResponse
  pub total : ℕ
  pub offset : ℕ
  pub limit : ℕ
  pub count : ℕ

abbrev list_response : ListPoliciesQuery → PolicyPage → PolicyListResponse
list_response query page = record {
  items = map to_policy_response page.items;
  total = page.total;
  offset = query.offset;
  limit = page.applied_limit;
  count = length page.items;
}

abbrev not_found : String → Value
not_found address =
    http ExceptionClass.not_found
      (str (append "No policy created by this provider exists at address " address)) undefined

abbrev found_response : String → Option ChainPolicy → Result PolicyResponse
found_response address none = throw (not_found address)
found_response address (some policy) = ok (to_policy_response policy)

module _ {Interface : Type 0} (parse_error : Interface → String → Option ParsedError)
    (string_of : Value → String) (interfaces : List Interface) (config : BlockchainConfig)
    (codec : Bytes32) (pick : Value → List Value → Value) (reader : Reader) where
  unfoldable pub list : ListPoliciesQuery → Result PolicyListResponse
  list query = do
    page ←
        list_policies parse_error string_of interfaces config codec pick reader query.offset
          query.limit query.insured
    ok (list_response query page)

  unfoldable pub get_by_address : String → Result PolicyResponse
  get_by_address address = do
    policy ← get_policy parse_error string_of interfaces config codec pick reader address
    found_response address policy

-- ===== src/Policy/Chain/Types.antt =====
-- The types of policy-chain.service.ts, and the request body of create-policy.dto.ts.
use climate_chain.Shared.{ℕ, String, Bool, Option, List}
use climate_chain.Policy.Constants.{PolicyStatus, PolicySettlementType}

-- The normalized on-chain view of one policy. Amounts are kept as numbers, not as decimal texts.
pub record ChainPolicy : Type 0 where
  pub address : String
  pub insured : String
  pub oracle : String
  pub status : PolicyStatus
  pub coverage_wei : ℕ
  pub premium_wei : ℕ
  pub rainfall_threshold_mm : ℕ
  pub latest_rainfall_mm : ℕ
  pub pending_payout_wei : ℕ
  pub condition_met : Bool
  pub paid_out : Bool
  pub region_code : String
  pub region : Option String
  pub start_timestamp : ℕ
  pub end_timestamp : ℕ
  pub last_oracle_update_timestamp : ℕ
  pub settlement_type : PolicySettlementType
  pub settled_at : Option ℕ

pub record ChainWriteResult : Type 0 where
  pub address : String
  pub transaction_hash : String
  pub block_number : ℕ
  pub gas_used : ℕ
  pub insured : String
  pub status : PolicyStatus

pub record PolicyPage : Type 0 where
  pub items : List ChainPolicy
  pub total : ℕ
  pub applied_limit : ℕ

pub record CreatePolicyDto : Type 0 where
  pub insured : String
  pub coverage_eth : String
  pub premium_eth : String
  pub rainfall_threshold_mm : ℕ
  pub duration_days : ℕ
  pub region : Option String
  pub requested_start_timestamp : Option ℕ

-- The parameters of `createPolicyWithMetadata`.
pub record CreateArgs : Type 0 where
  pub coverage_wei : ℕ
  pub rainfall_threshold_mm : ℕ
  pub duration_days : ℕ
  pub region_code : String
  pub requested_start : ℕ
  pub insured : String

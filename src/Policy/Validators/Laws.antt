-- ===== src/Policy/Validators/Laws.antt =====
-- A request that the validators accept is one that the contract accepts, and the other way round.
use climate_chain.Shared.{ℕ, ◌+◌, ◌*◌, ◌/◌, ◌≤◌, String, ◌≡◌, ◌↔◌, true, arith}
use climate_chain.Js.{num, str, ok}
use climate_chain.EthAmount.{parse_eth_to_wei}
use climate_chain.Policy.Constants.{
  min_premium_bps, basis_points_denominator, min_policy_start_lead_time_seconds,
  max_policy_start_lead_time_seconds, start_lead_time_safety_margin_seconds,
}
use climate_chain.Policy.Validators.{is_at_least_min_premium, is_within_start_window}

-- For two amounts, the premium passes exactly when it is at least one percent of the coverage, with no
-- rounding: 100 basis points of the coverage are at most 10000 times the premium.
pub is_at_least_min_premium_iff :
    (premium coverage : String) (premium_wei coverage_wei : ℕ)
    → parse_eth_to_wei premium ≡ ok premium_wei
    → parse_eth_to_wei coverage ≡ ok coverage_wei
    → (is_at_least_min_premium (str premium) (str coverage) ≡ true)
      ↔ (coverage_wei * min_premium_bps ≤ premium_wei * basis_points_denominator)
unfolding is_at_least_min_premium
is_at_least_min_premium_iff premium coverage premium_wei coverage_wei p c =
    rw (p, c) ((λ h. ground arith), (λ h. ground arith))

-- The window that `InsuranceProvider` checks at the time of the block that mines the request.
abbrev pub ContractWindow : (block_timestamp start : ℕ) → Type 0
ContractWindow block_timestamp start =
    (block_timestamp + min_policy_start_lead_time_seconds ≤ start)
    × (start ≤ block_timestamp + max_policy_start_lead_time_seconds)

-- A start that the API accepts is accepted on chain if the request is mined no earlier than it was
-- validated and within the safety margin of 120 seconds.
pub is_within_start_window-ContractWindow :
    (now_ms start block_timestamp : ℕ)
    → is_within_start_window now_ms (num start) ≡ true
    → now_ms / 1000 ≤ block_timestamp
    → block_timestamp ≤ now_ms / 1000 + start_lead_time_safety_margin_seconds
    → ContractWindow block_timestamp start
unfolding is_within_start_window
is_within_start_window-ContractWindow now_ms start block_timestamp h early late = ground arith

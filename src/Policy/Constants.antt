-- ===== src/Policy/Constants.antt =====
-- backend/src/modules/policies/policy.constants.ts, policy-status.enum.ts, policy-settlement.enum.ts
-- and the defaults of validators/start-window.validator.ts.
use climate_chain.Shared.{ℕ, ◌+◌, ◌*◌, none, some, List, [], ◌∷◌, get_elem?}
use climate_chain.Shared.Text.{show, append}
use climate_chain.Js.{error_object, end, Result, ok, throw}

-- `POLICY_DOMAIN`
abbrev pub max_duration_days : ℕ
max_duration_days = 365

abbrev pub min_duration_days : ℕ
min_duration_days = 1

abbrev pub min_premium_bps : ℕ
min_premium_bps = 100

abbrev pub basis_points_denominator : ℕ
basis_points_denominator = 10000

abbrev pub min_policy_start_lead_time_seconds : ℕ
min_policy_start_lead_time_seconds = 60

abbrev pub max_policy_start_lead_time_seconds : ℕ
max_policy_start_lead_time_seconds = 365 * 24 * 60 * 60

abbrev pub start_lead_time_safety_margin_seconds : ℕ
start_lead_time_safety_margin_seconds = 120

abbrev pub max_region_code_length : ℕ
max_region_code_length = 31

abbrev pub required_start_lead_time_seconds : ℕ
required_start_lead_time_seconds =
    min_policy_start_lead_time_seconds + start_lead_time_safety_margin_seconds

abbrev pub max_start_lead_time_seconds : ℕ
max_start_lead_time_seconds = max_policy_start_lead_time_seconds

pub data PolicyStatus : Type 0 where
  created active triggered paid_out expired : PolicyStatus

abbrev pub policy_status_by_index : List PolicyStatus
policy_status_by_index =
    PolicyStatus.created ∷ PolicyStatus.active ∷ PolicyStatus.triggered ∷ PolicyStatus.paid_out
    ∷ PolicyStatus.expired ∷ []

unfoldable pub policy_status_from_index : ℕ → Result PolicyStatus
policy_status_from_index index = elim (get_elem? policy_status_by_index index) [
  | some status ↦ ok status
  | none ↦ throw (error_object (append "Unknown on-chain policy status index: " (show index)) end)
]

pub data PolicySettlementType : Type 0 where
  unsettled payout expiry : PolicySettlementType

abbrev pub policy_settlement_by_index : List PolicySettlementType
policy_settlement_by_index =
    PolicySettlementType.unsettled ∷ PolicySettlementType.payout ∷ PolicySettlementType.expiry ∷ []

unfoldable pub policy_settlement_from_index : ℕ → Result PolicySettlementType
policy_settlement_from_index index = elim (get_elem? policy_settlement_by_index index) [
  | some settlement ↦ ok settlement
  | none ↦ throw (error_object (append "Unknown on-chain settlement type index: " (show index)) end)
]

-- ===== src/Policy/Validators.antt =====
-- backend/src/modules/policies/validators: the relations between request fields that the contract
-- will check again. A bigint and a timestamp in seconds are natural numbers.
pub mod Laws
use climate_chain.Shared.{
  ℕ, zero, suc, ◌+◌, ◌-◌, ◌*◌, ◌/◌, ◌%◌, ◌^◌, ◌≤◌, ◌<◌, min, String, ◌≡◌, refl, sym, ap, ◌∙◌, ◌≢◌,
  ◌↔◌, ◌⊎◌, inl, inr, Bool, true, false, not, ◌&&◌, ◌||◌, Option, none, some, List, [], ◌∷◌, ◌++◌,
  map, arith, str_eq, eq_iff, eq_refl, ltb, leb, ◌==◌, if◌then◌else◌, Bool-cases, Option-cases,
  includes, or_else, is_some, length, take, drop, All, All-append, replicate, All-map, All-zip,
  length-append, take-append-drop, length-take, length-drop, leb→le,
}
use climate_chain.Js.{Value, num, as_string, Result, ok, throw}
use climate_chain.EthAmount.{parse_eth_to_wei}
use climate_chain.Policy.Constants.{
  min_premium_bps, basis_points_denominator, required_start_lead_time_seconds,
  max_start_lead_time_seconds,
}

-- The ceiling of `coverageWei * bps / denom`.
unfoldable pub min_premium_wei : ℕ → ℕ
min_premium_wei coverage_wei =
    (coverage_wei * min_premium_bps + basis_points_denominator - 1) / basis_points_denominator

premium_suffices : Result ℕ → Result ℕ → Bool
unfolding min_premium_wei
premium_suffices (ok premium_wei) (ok coverage_wei) = leb (min_premium_wei coverage_wei) premium_wei
premium_suffices premium coverage = true

-- Values that are no texts, and texts that are no amounts, are left to the other validators.
unfoldable pub is_at_least_min_premium : Value → Value → Bool
unfolding premium_suffices
is_at_least_min_premium value coverage = elim (as_string value) [
  | none ↦ true
  | some premium ↦ elim (as_string coverage) [
    | none ↦ true
    | some covered ↦ premium_suffices (parse_eth_to_wei premium) (parse_eth_to_wei covered)
  ]
]

-- `Date.now()` is an argument, in milliseconds.
unfoldable pub is_within_start_window : ℕ → Value → Bool
is_within_start_window now_ms (num value) =
    let now_seconds = now_ms / 1000 in
    leb (now_seconds + required_start_lead_time_seconds) value
    && leb value (now_seconds + max_start_lead_time_seconds)
is_within_start_window now_ms value = true

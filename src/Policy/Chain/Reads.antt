-- ===== src/Policy/Chain/Reads.antt =====
-- The reads of policy-chain.service.ts. One response is read at one pinned block, so what a call
-- answers is a function of the address; `Promise.all` rejects with one of the rejections, which one is
-- up to their timing and is `pick`.
pub mod Laws
pub mod Pages
use climate_chain.Shared.{
  ℕ, zero, suc, ◌+◌, ◌-◌, ◌*◌, ◌/◌, ◌%◌, ◌^◌, ◌≤◌, ◌<◌, min, max, String, ◌≡◌, refl, sym, ap, ◌∙◌,
  ◌≢◌, ◌↔◌, ◌⊎◌, inl, inr, Bool, true, false, not, ◌&&◌, ◌||◌, Option, none, some, List, [], ◌∷◌,
  ◌++◌, map, arith, str_eq, eq_iff, eq_refl, ltb, leb, ◌==◌, if◌then◌else◌, Bool-cases,
  Option-cases, includes, or_else, is_some, truthy, length, take, drop, All, All-append, get_elem?,
  replicate, All-map, All-zip, length-append, take-append-drop, length-take, length-drop, leb→le,
}
use climate_chain.EvmAddress.{normalize_evm_address}
use climate_chain.RegionCode.{Bytes32, decode_region_code}
use climate_chain.Shared.Text.{append}
use climate_chain.Config.Types.{BlockchainConfig}
use climate_chain.ChainProvider.{is_enabled}
use climate_chain.ErrorMapper.{ParsedError, to_http_exception}
use climate_chain.Js.{ExceptionClass, http, str, undefined, Value, Result, ok, throw, ◌>>=◌, ◌>>◌}
use climate_chain.Policy.Constants.{
  PolicyStatus, PolicySettlementType, policy_status_from_index, policy_settlement_from_index,
}
use climate_chain.Policy.Chain.Types.{ChainPolicy, PolicyPage}

-- What the fourteen calls of `readPolicy` give.
pub record RawPolicy : Type 0 where
  pub insured : String
  pub oracle : String
  pub status_index : ℕ
  pub coverage_wei : ℕ
  pub premium_wei : ℕ
  pub rainfall_threshold_mm : ℕ
  pub latest_rainfall_mm : ℕ
  pub pending_payout_wei : ℕ
  pub condition_met : Bool
  pub region_code : String
  pub start_timestamp : ℕ
  pub end_timestamp : ℕ
  pub last_oracle_update_timestamp : ℕ
  pub settlement_index : ℕ
  pub settled_at : ℕ

abbrev pub is_paid_out : PolicyStatus → Bool
is_paid_out PolicyStatus.paid_out = true
is_paid_out status = false

-- The literal that `readPolicy` returns. A settlement time of zero means unsettled.
unfoldable pub normalize_policy : Bytes32 → String → RawPolicy → Result ChainPolicy
unfolding normalize_evm_address
normalize_policy codec address raw = do
  status ← policy_status_from_index raw.status_index
  settlement_type ← policy_settlement_from_index raw.settlement_index
  ok (record {
    address = address;
    insured = normalize_evm_address raw.insured;
    oracle = normalize_evm_address raw.oracle;
    status = status;
    coverage_wei = raw.coverage_wei;
    premium_wei = raw.premium_wei;
    rainfall_threshold_mm = raw.rainfall_threshold_mm;
    latest_rainfall_mm = raw.latest_rainfall_mm;
    pending_payout_wei = raw.pending_payout_wei;
    condition_met = raw.condition_met;
    paid_out = is_paid_out status;
    region_code = raw.region_code;
    region = decode_region_code codec raw.region_code;
    start_timestamp = raw.start_timestamp;
    end_timestamp = raw.end_timestamp;
    last_oracle_update_timestamp = raw.last_oracle_update_timestamp;
    settlement_type = settlement_type;
    settled_at = if raw.settled_at == 0 then none else some raw.settled_at;
  })

unfoldable pub read_policy : Bytes32 → (String → Result RawPolicy) → String → Result ChainPolicy
unfolding normalize_policy
read_policy codec calls address = do raw ← calls address; normalize_policy codec address raw

-- The thrown values of a batch, and its values if there are none.
abbrev rejections {ℓ} : {A : Type ℓ} → List (Result A) → List Value
rejections [] = []
rejections (ok a ∷ rs) = rejections rs
rejections (throw e ∷ rs) = e ∷ rejections rs

abbrev fulfilled {ℓ} : {A : Type ℓ} → List (Result A) → List A
fulfilled [] = []
fulfilled (ok a ∷ rs) = a ∷ fulfilled rs
fulfilled (throw e ∷ rs) = fulfilled rs

unfoldable pub promise_all {ℓ} :
    {A : Type ℓ} → (Value → List Value → Value) → List (Result A) → Result (List A)
promise_all pick rs = elim (rejections rs) [ [] ↦ ok (fulfilled rs) | e ∷ es ↦ throw (pick e es) ]

abbrev pub policy_read_concurrency : ℕ
policy_read_concurrency = 5

module _ {ℓ} {A : Type ℓ} (pick : Value → List Value → Value) (read : String → Result A) where
  -- The `for` loop; each round takes at least one address, so as many rounds as addresses are enough.
  read_batches : ℕ → List String → Result (List A)
  read_batches zero addresses = ok []
  read_batches (suc rounds) [] = ok []
  read_batches (suc rounds) (a ∷ addresses) =
      let rest = read_batches rounds (drop policy_read_concurrency (a ∷ addresses)) in
      do
        batch ← promise_all pick (map read (take policy_read_concurrency (a ∷ addresses)))
        others ← rest
        ok (batch ++ others)

  unfoldable pub read_policies_bounded : List String → Result (List A)
  unfolding read_batches promise_all
  read_policies_bounded addresses = read_batches (length addresses) addresses

-- What the node answers to the reads of one response: whether a reader of the provider contract can
-- be made, the head, and the calls at the pinned block.
pub record Reader : Type 0 where
  pub provider : Result (Unit {0})
  pub head : Result ℕ
  pub is_policy_created : (block : ℕ) → String → Result Bool
  pub all_page : (block offset limit : ℕ) → Result (List String × ℕ)
  pub insured_page : (block : ℕ) → String → (offset limit : ℕ) → Result (List String × ℕ)
  pub policy : (block : ℕ) → String → Result RawPolicy

abbrev pub disabled : Value
disabled =
    http ExceptionClass.unavailable
      (str (
        append "Chain integration is disabled because no RPC endpoint is configured. "
          "Set RPC_URL to enable policy operations."))
      undefined

-- `assertEnabled`
unfoldable pub assert_enabled : BlockchainConfig → Result (Unit {0})
unfolding is_enabled
assert_enabled config = if is_enabled config then ok tt else throw disabled

-- `insured ? ... : ...`, where an empty text is no filter.
pub page_of : Reader → ℕ → Option String → (offset limit : ℕ) → Result (List String × ℕ)
page_of reader block none offset limit = reader.all_page block offset limit
page_of reader block (some insured) offset limit =
    if str_eq insured ""
    then reader.all_page block offset limit
    else reader.insured_page block (normalize_evm_address insured) offset limit

module _ (codec : Bytes32) (pick : Value → List Value → Value) (reader : Reader) where
  -- The `try` block of `listPolicies`.
  pub read_page : (offset limit : ℕ) → Option String → Result PolicyPage
  unfolding read_policies_bounded page_of read_policy
  read_page offset limit insured = do
    ready ← reader.provider
    block ← reader.head
    found ← page_of reader block insured offset limit
    items ←
        read_policies_bounded pick (read_policy codec (reader.policy block))
          (map normalize_evm_address found.0)
    ok (record { items = items; total = found.1; applied_limit = limit })

  -- The `try` block of `getPolicy`: `none` where the provider did not create that address.
  pub read_known : String → Result (Option ChainPolicy)
  unfolding read_policy
  read_known address = do
    ready ← reader.provider
    let normalized = normalize_evm_address address
    block ← reader.head
    known ← reader.is_policy_created block normalized
    if not known
        then ok none
        else do policy ← read_policy codec (reader.policy block) normalized; ok (some policy)

-- A `catch` block that throws what the error mapper makes of the thrown value.
abbrev pub catching {ℓ} : {A : Type ℓ} → (Value → Value) → Result A → Result A
catching translate (ok a) = ok a
catching translate (throw thrown) = throw (translate thrown)

module _ {Interface : Type 0} (parse_error : Interface → String → Option ParsedError)
    (string_of : Value → String) (interfaces : List Interface) (config : BlockchainConfig)
    (codec : Bytes32) (pick : Value → List Value → Value) (reader : Reader) where
  unfoldable pub list_policies : (offset limit : ℕ) → Option String → Result PolicyPage
  unfolding assert_enabled read_page
  list_policies offset limit insured =
      assert_enabled config
      >> catching
          (λ thrown. to_http_exception parse_error string_of thrown interfaces "listPolicies")
          (read_page codec pick reader offset (min limit config.max_page_size) insured)

  unfoldable pub get_policy : String → Result (Option ChainPolicy)
  unfolding assert_enabled read_known
  get_policy address =
      assert_enabled config
      >> catching
          (λ thrown.
            to_http_exception parse_error string_of thrown interfaces
              (append (append "getPolicy(" address) ")"))
          (read_known codec pick reader address)

-- ===== src/Policy/Chain/Reads/Pages.antt =====
-- A whole page, and one policy by its address.
use climate_chain.Shared.{
  ℕ, min, String, ◌≡◌, refl, sym, ap, ◌∙◌, Bool, true, false, not, Option, none, some, List, map,
  arith, if◌then◌else◌, Bool-cases, ◌<◌, ◌==◌, ◌↔◌, ◌⊎◌, inl, inr,
}
use climate_chain.Config.Types.{BlockchainConfig}
use climate_chain.RegionCode.{Bytes32, decode_region_code}
use climate_chain.ChainProvider.{is_enabled}
use climate_chain.Shared.Text.{append, to_lower}
use climate_chain.EvmAddress.{normalize_evm_address}
use climate_chain.Js.{Value, Result, ok, throw, ◌>>=◌, bind_ok, ok_inj, throw-ne-ok}
use climate_chain.ErrorMapper.{ParsedError, to_http_exception}
use climate_chain.Policy.Constants.{
  PolicyStatus, policy_status_from_index, policy_settlement_from_index,
}
use climate_chain.Policy.Chain.Types.{ChainPolicy, PolicyPage}
use climate_chain.Policy.Chain.Reads.{
  RawPolicy, Reader, normalize_policy, is_paid_out, read_policy, page_of, read_page, read_known,
  assert_enabled, catching, list_policies, get_policy,
}
use climate_chain.Policy.Chain.Reads.Laws.{ReadsTo, read_policies_bounded_iff}

pub caught_ok :
    {A : Type 0} (translate : Value → Value) (m : Result A) (a : A)
    → catching translate m ≡ ok a
    → m ≡ ok a
caught_ok translate (ok b) a done = done
caught_ok translate (throw thrown) a done = elim (throw-ne-ok done) [ ]

created_then_read :
    (known : Bool) (m : Result ChainPolicy) (policy : ChainPolicy)
    → (if not known then ok none else (m >>= λ p. ok (some p))) ≡ ok (some policy)
    → (known ≡ true) × (m ≡ ok policy)
created_then_read false m policy done = let wrong : none ≡ some policy = ok_inj done in cc
created_then_read true m policy done =
    let (p, read, same) = bind_ok m _ (some policy) done in (refl, read ∙ grind arith)

-- What the calls answered, as a policy.
pub record Describes (codec : Bytes32) (address : String) (raw : RawPolicy) (policy : ChainPolicy)
    : Type 0 where
  pub addressed : policy.address ≡ address
  pub insured : policy.insured ≡ to_lower raw.insured
  pub oracle : policy.oracle ≡ to_lower raw.oracle
  pub status : policy_status_from_index raw.status_index ≡ ok policy.status
  pub settlement_type :
      policy_settlement_from_index raw.settlement_index ≡ ok policy.settlement_type
  pub paid_out : (policy.paid_out ≡ true) ↔ (policy.status ≡ PolicyStatus.paid_out)
  pub region : policy.region ≡ decode_region_code codec raw.region_code
  pub settled_at :
      ((raw.settled_at ≡ 0) × (policy.settled_at ≡ none))
      ⊎ ((0 < raw.settled_at) × (policy.settled_at ≡ some raw.settled_at))
  pub coverage_wei : policy.coverage_wei ≡ raw.coverage_wei
  pub premium_wei : policy.premium_wei ≡ raw.premium_wei
  pub rainfall_threshold_mm : policy.rainfall_threshold_mm ≡ raw.rainfall_threshold_mm
  pub latest_rainfall_mm : policy.latest_rainfall_mm ≡ raw.latest_rainfall_mm
  pub pending_payout_wei : policy.pending_payout_wei ≡ raw.pending_payout_wei
  pub condition_met : policy.condition_met ≡ raw.condition_met
  pub region_code : policy.region_code ≡ raw.region_code
  pub start_timestamp : policy.start_timestamp ≡ raw.start_timestamp
  pub end_timestamp : policy.end_timestamp ≡ raw.end_timestamp
  pub last_oracle_update_timestamp :
      policy.last_oracle_update_timestamp ≡ raw.last_oracle_update_timestamp

is_paid_out_iff :
    (status : PolicyStatus) → (is_paid_out status ≡ true) ↔ (status ≡ PolicyStatus.paid_out)
is_paid_out_iff PolicyStatus.created = (λ h. cc, λ h. cc)
is_paid_out_iff PolicyStatus.active = (λ h. cc, λ h. cc)
is_paid_out_iff PolicyStatus.triggered = (λ h. cc, λ h. cc)
is_paid_out_iff PolicyStatus.paid_out = (λ h. cc, λ h. cc)
is_paid_out_iff PolicyStatus.expired = (λ h. cc, λ h. cc)

settled_time :
    (time : ℕ)
    → ((time ≡ 0) × ((if time == 0 then none else some time) ≡ none))
      ⊎ ((0 < time) × ((if time == 0 then none else some time) ≡ some time))
settled_time time = elim (Bool-cases (time == 0)) [
  | inl zero_time ↦ inl (ground arith, rw (zero_time) refl)
  | inr later ↦ inr (ground arith, rw (later) refl)
]

normalize_policy-Describes :
    (codec : Bytes32) (address : String) (raw : RawPolicy) (policy : ChainPolicy)
    → normalize_policy codec address raw ≡ ok policy
    → Describes codec address raw policy
unfolding normalize_policy normalize_evm_address
normalize_policy-Describes codec address raw policy done =
    let (status, known, more) = bind_ok (policy_status_from_index raw.status_index) _ policy done in
    let (settlement, named, same) =
      bind_ok (policy_settlement_from_index raw.settlement_index) _ policy more in
    rw (sym (ok_inj same)) (record {
      addressed = refl;
      insured = refl;
      oracle = refl;
      status = known;
      settlement_type = named;
      paid_out = is_paid_out_iff status;
      region = refl;
      settled_at = settled_time raw.settled_at;
      coverage_wei = refl;
      premium_wei = refl;
      rainfall_threshold_mm = refl;
      latest_rainfall_mm = refl;
      pending_payout_wei = refl;
      condition_met = refl;
      region_code = refl;
      start_timestamp = refl;
      end_timestamp = refl;
      last_oracle_update_timestamp = refl;
    })

module _ (codec : Bytes32) (pick : Value → List Value → Value) (reader : Reader) where
  -- The page that the contract answers at the pinned head, each address read at that block.
  pub record IsPageOf (offset limit : ℕ) (insured : Option String) (page : PolicyPage)
      : Type 0 where
    pub block : ℕ
    pub addresses : List String
    pub pinned : reader.head ≡ ok block
    pub answered : page_of reader block insured offset limit ≡ ok (addresses, page.total)
    pub in_order :
        ReadsTo
          (read_policy codec (reader.policy block))
          (map normalize_evm_address addresses)
          page.items
    pub capped : page.applied_limit ≡ limit

  read_known_ok :
      (address : String) (policy : ChainPolicy)
      → read_known codec pick reader address ≡ ok (some policy)
      → (block : ℕ) × (reader.head ≡ ok block)
        × (reader.is_policy_created block (normalize_evm_address address) ≡ ok true)
        × (read_policy codec (reader.policy block) (normalize_evm_address address) ≡ ok policy)
  unfolding read_known
  read_known_ok address policy done =
      let (ready, made, more) = bind_ok reader.provider _ (some policy) done in
      let (block, pinned, rest) = bind_ok reader.head _ (some policy) more in
      let (known, asked, last) =
        bind_ok (reader.is_policy_created block (normalize_evm_address address)) _ (some policy)
          rest in
      let (known_one, read) =
        created_then_read known
          (read_policy codec (reader.policy block) (normalize_evm_address address)) policy last in
      (block, pinned, asked ∙ ap ok known_one, read)

module _ {Interface : Type 0} (parse_error : Interface → String → Option ParsedError)
    (string_of : Value → String) (interfaces : List Interface) (config : BlockchainConfig)
    (codec : Bytes32) (pick : Value → List Value → Value) (reader : Reader) where
  -- Where the node answers, a list request without a filter gives the policies of the contract's page.
  pub list_policies-all_page :
      (offset limit block : ℕ) (found : List String × ℕ) (items : List ChainPolicy)
      → is_enabled config ≡ true
      → reader.provider ≡ ok tt
      → reader.head ≡ ok block
      → reader.all_page block offset (min limit config.max_page_size) ≡ ok found
      → ReadsTo (read_policy codec (reader.policy block)) (map normalize_evm_address found.0) items
      → list_policies parse_error string_of interfaces config codec pick reader offset limit none
        ≡ ok (record {
          items = items;
          total = found.1;
          applied_limit = min limit config.max_page_size;
        })
  unfolding list_policies assert_enabled read_page page_of
  list_policies-all_page offset limit block found items enabled connected pinned paged reads =
      rw
        (
          enabled,
          connected,
          pinned,
          paged,
          (read_policies_bounded_iff (read_policy codec (reader.policy block)) pick
                (map normalize_evm_address found.0) items).1
              reads,
        )
        refl

  -- A policy that `getPolicy` gives is one that the provider says it created, at the pinned head, and at that
  -- same block its fields are read: it carries the normalized address that was asked for and what those
  -- reads answered, with the indices decoded and no settlement time for zero.
  pub get_policy_ok :
      (address : String) (policy : ChainPolicy)
      → get_policy parse_error string_of interfaces config codec pick reader address
        ≡ ok (some policy)
      → (block : ℕ) × (reader.head ≡ ok block)
        × (reader.is_policy_created block (normalize_evm_address address) ≡ ok true)
        × ((raw : RawPolicy) × (reader.policy block (normalize_evm_address address) ≡ ok raw)
            × Describes codec (normalize_evm_address address) raw policy)
  unfolding get_policy read_policy
  get_policy_ok address policy done =
      let (u, enabled, caught) = bind_ok (assert_enabled config) _ (some policy) done in
      let (block, pinned, created, read) = read_known_ok codec pick reader address policy (
        caught_ok
          (λ thrown.
            to_http_exception parse_error string_of thrown interfaces
              (append (append "getPolicy(" address) ")"))
          _ (some policy) caught) in
      let (raw, called, normalized) =
        bind_ok (reader.policy block (normalize_evm_address address)) _ policy read in
      (
        block,
        pinned,
        created,
        (
          raw,
          called,
          normalize_policy-Describes codec (normalize_evm_address address) raw policy normalized,
        ),
      )

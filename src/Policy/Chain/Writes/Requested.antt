-- ===== src/Policy/Chain/Writes/Requested.antt =====
-- What a dry run that passed was given: the arguments and the amounts of the request.
use climate_chain.Shared.{
  ℕ, String, ◌≡◌, refl, sym, ap, ◌∙◌, inl, inr, Option, none, some, ◌+◌, ◌⊎◌, if◌then◌else◌,
  or_else,
}
use climate_chain.Config.Types.{BlockchainConfig}
use climate_chain.RegionCode.{Bytes32, encode_region_code}
use climate_chain.EthAmount.{parse_eth_to_wei}
use mathlib.Core.Path.{subst}
use climate_chain.Js.{Value, error_object, Result, ok, throw, ◌>>◌, bind_ok, ok_inj, throw-ne-ok}
use climate_chain.ChainProvider.{get_next_block_timestamp, has_signer}
use climate_chain.Policy.Chain.Types.{CreatePolicyDto, CreateArgs}
use climate_chain.Policy.Chain.Reads.{assert_enabled}
use climate_chain.Policy.Chain.Writes.{
  Chain, as_bad_request, region_code_of, encode_region, both_amounts, build_create_args,
  no_signer_configured, rehearse, amounts,
}

as_bad_request_ok :
    (string_of : Value → String) (m : Result String) (code : String)
    → as_bad_request string_of m ≡ ok code
    → m ≡ ok code
unfolding as_bad_request
as_bad_request_ok string_of (ok s) code done = done
as_bad_request_ok string_of (throw (error_object message fields)) code done =
    elim (throw-ne-ok done) [ ]
as_bad_request_ok string_of (throw thrown) code done = elim (throw-ne-ok done) [ ]

module _ {Request Prepared Response Log : Type 0} (config : BlockchainConfig)
    (string_of : Value → String) (codec : Bytes32) (chain : Chain Request Prepared Response Log)
    (dto : CreatePolicyDto) where
  -- The arguments are the request's: an absent start is the default lead after the next block's time, and an
  -- absent region is the placeholder.
  pub record IsRequested (coverage_wei : ℕ) (args : CreateArgs) : Type 0 where
    pub coverage : args.coverage_wei ≡ coverage_wei
    pub rainfall : args.rainfall_threshold_mm ≡ dto.rainfall_threshold_mm
    pub duration : args.duration_days ≡ dto.duration_days
    pub insured : args.insured ≡ dto.insured
    pub timely :
        args.requested_start
        ≡ or_else dto.requested_start_timestamp
            (get_next_block_timestamp chain.now_ms chain.pending_block chain.latest_block + 300)
    pub region :
        ((dto.region ≡ none) × (args.region_code ≡ chain.legacy_region_code))
        ⊎ ((region : String) × (dto.region ≡ some region)
            × (encode_region_code codec region ≡ ok args.region_code))

  pub amounts_ok :
      (coverage_wei premium_wei : ℕ)
      → amounts config string_of codec chain dto ≡ ok (coverage_wei, premium_wei)
      → (parse_eth_to_wei dto.coverage_eth ≡ ok coverage_wei)
        × (parse_eth_to_wei dto.premium_eth ≡ ok premium_wei)
  unfolding amounts both_amounts
  amounts_ok coverage_wei premium_wei done =
      let (u, allowed, d2) =
        bind_ok
          (assert_enabled config
            >> (if has_signer config then ok tt else throw no_signer_configured))
          _ (coverage_wei, premium_wei) done in
      let (coverage, parsed, d3) =
        bind_ok (parse_eth_to_wei dto.coverage_eth) _ (coverage_wei, premium_wei) d2 in
      let (premium, parsed', same) =
        bind_ok (parse_eth_to_wei dto.premium_eth) _ (coverage_wei, premium_wei) d3 in
      (parsed ∙ ap (λ x. ok x.0) (ok_inj same), parsed' ∙ ap (λ x. ok x.1) (ok_inj same))

  region_code_ok :
      (region : Option String) (code : String)
      → region_code_of string_of codec chain.legacy_region_code region ≡ ok code
      → ((region ≡ none) × (code ≡ chain.legacy_region_code))
        ⊎ ((text : String) × (region ≡ some text) × (encode_region_code codec text ≡ ok code))
  unfolding region_code_of encode_region as_bad_request
  region_code_ok none code done = inl (refl, sym (ok_inj done))
  region_code_ok (some text) code done =
      inr (text, refl, as_bad_request_ok string_of (encode_region_code codec text) code done)

  pub rehearse_ok :
      (coverage_wei premium_wei : ℕ) (args : CreateArgs)
      → rehearse config string_of codec chain dto coverage_wei premium_wei ≡ ok args
      → IsRequested coverage_wei args
        × (address : String) × (chain.static_call args premium_wei ≡ ok address)
  unfolding rehearse build_create_args
  rehearse_ok coverage_wei premium_wei args done =
      let baseline = get_next_block_timestamp chain.now_ms chain.pending_block chain.latest_block in
      let (built, made, d1) =
        bind_ok
          (build_create_args string_of codec chain.legacy_region_code baseline dto coverage_wei) _
          args done in
      let (address, called, same) = bind_ok (chain.static_call built premium_wei) _ args d1 in
      let (code, encoded, these) =
        bind_ok (region_code_of string_of codec chain.legacy_region_code dto.region) _ built made in
      let requested : IsRequested coverage_wei built = rw (sym (ok_inj these)) (record {
        coverage = refl;
        rainfall = refl;
        duration = refl;
        insured = refl;
        timely = refl;
        region = region_code_ok dto.region code encoded;
      }) in
      subst
        (λ x. IsRequested coverage_wei x × (a : String) × (chain.static_call x premium_wei ≡ ok a))
        (ok_inj same) (requested, address, called)

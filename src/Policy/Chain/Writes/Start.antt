-- ===== src/Policy/Chain/Writes/Start.antt =====
-- The start of a policy whose request leaves it out.
use climate_chain.Shared.{ℕ, ◌+◌, ◌≤◌, String, ◌≡◌, refl, sym, ap, ◌∙◌, none, arith}
use climate_chain.RegionCode.{Bytes32}
use climate_chain.Js.{Value, ok, bind_ok, ok_inj}
use climate_chain.Policy.Validators.Laws.{ContractWindow}
use climate_chain.Policy.Chain.Types.{CreatePolicyDto, CreateArgs}
use climate_chain.Policy.Chain.Writes.{region_code_of, build_create_args}

-- A request without a start gets one that the contract accepts at every block from the baseline on to 240
-- seconds after it; and the arguments carry the request's insured and the parsed coverage.
pub build_create_args-ContractWindow :
    (string_of : Value → String) (codec : Bytes32) (legacy : String)
    (baseline block_timestamp coverage_wei : ℕ) (dto : CreatePolicyDto) (args : CreateArgs)
    → build_create_args string_of codec legacy baseline dto coverage_wei ≡ ok args
    → dto.requested_start_timestamp ≡ none
    → baseline ≤ block_timestamp
    → block_timestamp ≤ baseline + 240
    → ContractWindow block_timestamp args.requested_start
      × (args.insured ≡ dto.insured)
      × (args.coverage_wei ≡ coverage_wei)
unfolding build_create_args
build_create_args-ContractWindow string_of codec legacy baseline block_timestamp coverage_wei dto
      args done absent early late =
    let (code, encoded, same) =
      bind_ok (region_code_of string_of codec legacy dto.region) _ args done in
    let start : args.requested_start ≡ baseline + 300 =
      sym (ap (λ a. a.requested_start) (ok_inj same)) ∙ rw (absent) refl in
    (
      (omega arith, omega arith),
      sym (ap (λ a. a.insured) (ok_inj same)),
      sym (ap (λ a. a.coverage_wei) (ok_inj same)),
    )

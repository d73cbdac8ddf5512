-- ===== src/Policy/Chain/Writes/Laws.antt =====
-- What a creation that succeeds did, and what one that fails can have done.
use climate_chain.Shared.{
  ℕ, ◌==◌, String, ◌≡◌, refl, sym, ap, ◌∙◌, inl, inr, Bool, true, Option, none, some, List, arith,
  Bool-cases, or_else, not,
}
use climate_chain.Config.Types.{BlockchainConfig}
use climate_chain.RegionCode.{Bytes32}
use climate_chain.EthAmount.{parse_eth_to_wei}
use climate_chain.Shared.Text.{to_lower}
use mathlib.Core.List.{Memᴰ}
use climate_chain.Js.{Value, Result, ok, throw, ◌>>◌, Result-cases, bind_ok, ok_inj, throw-ne-ok}
use climate_chain.ErrorMapper.{ParsedError, to_http_exception}
use climate_chain.ErrorMapper.Laws.{IsHttp, to_http_exception-IsHttp}
use climate_chain.ChainProvider.{Connection, Effect, submit_signed_transaction}
use climate_chain.ChainProvider.Trace.{IsSent, submit_signed_transaction_ok}
use climate_chain.Policy.Constants.{PolicyStatus}
use climate_chain.Policy.Chain.Types.{ChainWriteResult, CreatePolicyDto, CreateArgs}
use climate_chain.Policy.Chain.Reads.{catching}
use climate_chain.Policy.Chain.Reads.Pages.{caught_ok}
use climate_chain.Policy.Chain.Writes.Event.{extract_policy_address_ok}
use climate_chain.Policy.Chain.Writes.Requested.{IsRequested, amounts_ok, rehearse_ok}
use climate_chain.Policy.Chain.Writes.{
  Receipt, ParsedLog, Chain, checked_receipt, extract_policy_address, confirm, submit, rehearse,
  attempt, amounts, create_policy,
}

abbrev receipt_succeeded : {Log : Type 0} → Receipt Log → Bool
receipt_succeeded receipt = not (or_else receipt.status 1 == 0)

caught_thrown :
    {A : Type 0} (translate : Value → Value) (m : Result A) (e : Value)
    → catching translate m ≡ throw e
    → (thrown : Value) × (m ≡ throw thrown) × (e ≡ translate thrown)
caught_thrown translate (ok b) e failed = elim (throw-ne-ok (sym failed)) [ ]
caught_thrown translate (throw thrown) e failed = (thrown, refl, grind arith)

checked_receipt_ok :
    {Log : Type 0} (config : BlockchainConfig) (hash : String) (mined : Option (Receipt Log))
    (receipt : Receipt Log)
    → checked_receipt config hash mined ≡ ok receipt
    → (mined ≡ some receipt) × (receipt_succeeded receipt ≡ true)
unfolding checked_receipt
checked_receipt_ok config hash none receipt done = let absurd : ⊥ = grind arith in elim absurd [ ]
checked_receipt_ok config hash (some other) receipt done =
    elim (Bool-cases (or_else other.status 1 == 0)) [
      | inl reverted ↦ let absurd : ⊥ = grind arith in elim absurd [ ]
      | inr fine ↦ ground arith
    ]

module _ {Request Prepared Response Log : Type 0} (config : BlockchainConfig)
    (string_of : Value → String) (codec : Bytes32) (chain : Chain Request Prepared Response Log)
    (dto : CreatePolicyDto) where
  -- What stands behind a successful answer, and what was done to the outside for it.
  pub record IsConfirmed (r : ChainWriteResult) (trace : List Effect) : Type 0 where
    pub coverage_wei : ℕ
    pub premium_wei : ℕ
    pub args : CreateArgs
    pub response : Response
    pub receipt : Receipt Log
    pub log : Log
    pub event : ParsedLog
    pub coverage : parse_eth_to_wei dto.coverage_eth ≡ ok coverage_wei
    pub premium : parse_eth_to_wei dto.premium_eth ≡ ok premium_wei
    pub requested : IsRequested config string_of codec chain dto coverage_wei args
    pub expected_address : String
    pub rehearsed : chain.static_call args premium_wei ≡ ok expected_address
    pub sent : IsSent config (chain.network args premium_wei) response trace
    pub mined : chain.wait response ≡ ok (some receipt)
    pub succeeded : receipt_succeeded receipt ≡ true
    pub logged : Memᴰ log receipt.logs
    pub parsed : chain.parse_log log ≡ some event
    pub created : event.name ≡ "PolicyCreated"
    pub located : r.address ≡ to_lower event.policy_address
    pub named : r.transaction_hash ≡ receipt.hash
    pub block : r.block_number ≡ receipt.block_number
    pub gas : r.gas_used ≡ receipt.gas_used
    pub beneficiary : r.insured ≡ dto.insured
    pub active : r.status ≡ PolicyStatus.active

  confirm_ok :
      (response : Response) (r : ChainWriteResult)
      → confirm config string_of codec chain dto response ≡ ok r
      → (receipt : Receipt Log) × (chain.wait response ≡ ok (some receipt))
        × (receipt_succeeded receipt ≡ true)
        × (extract_policy_address chain.parse_log receipt ≡ ok r.address)
        × (r.transaction_hash ≡ receipt.hash)
        × (r.block_number ≡ receipt.block_number)
        × (r.gas_used ≡ receipt.gas_used)
        × (r.insured ≡ dto.insured)
        × (r.status ≡ PolicyStatus.active)
  unfolding confirm
  confirm_ok response r done =
      let (mined, waited, more) = bind_ok (chain.wait response) _ r done in
      let (receipt, checked, last) =
        bind_ok (checked_receipt config (chain.hash response) mined) _ r more in
      let (address, located, made) =
        bind_ok (extract_policy_address chain.parse_log receipt) _ r last in
      let (present, fine) = checked_receipt_ok config (chain.hash response) mined receipt checked in
      let same = ok_inj made in
      (
        receipt,
        waited ∙ ap ok present,
        fine,
        located ∙ ap (λ x. ok x.address) same,
        sym (ap (λ x. x.transaction_hash) same),
        sym (ap (λ x. x.block_number) same),
        sym (ap (λ x. x.gas_used) same),
        sym (ap (λ x. x.insured) same),
        sym (ap (λ x. x.status) same),
      )

  submit_ok :
      (premium_wei : ℕ) (args : CreateArgs) (c : Connection) (r : ChainWriteResult)
      → (submit config string_of codec chain dto premium_wei args c).0 ≡ ok r
      → (response : Response) × (confirm config string_of codec chain dto response ≡ ok r)
        × IsSent config
            (chain.network args premium_wei)
            response
            (submit config string_of codec chain dto premium_wei args c).2
  unfolding submit
  submit_ok premium_wei args c r done =
      let (response, sent, confirmed) =
        bind_ok (submit_signed_transaction config (chain.network args premium_wei) c).0 _ r done in
      (
        response,
        confirmed,
        submit_signed_transaction_ok config (chain.network args premium_wei) c response sent,
      )

  attempt_ok :
      (coverage_wei premium_wei : ℕ) (c : Connection) (r : ChainWriteResult)
      → (attempt config string_of codec chain dto coverage_wei premium_wei c).0 ≡ ok r
      → (args : CreateArgs) × (response : Response) × (rehearse config string_of codec chain dto
            coverage_wei premium_wei
          ≡ ok args)
        × (confirm config string_of codec chain dto response ≡ ok r)
        × IsSent config
            (chain.network args premium_wei)
            response
            (attempt config string_of codec chain dto coverage_wei premium_wei c).2
  unfolding attempt
  attempt_ok coverage_wei premium_wei c r done =
      elim (Result-cases (
        (chain.writer c).0 >> rehearse config string_of codec chain dto coverage_wei premium_wei)) [
          | inl (args, ready) ↦
              let (u, written, rehearsed) = bind_ok (chain.writer c).0 _ args ready in
              let (response, confirmed, once) =
                submit_ok premium_wei args (chain.writer c).1 r (rw (ready, attempt) at done) in
              rw (ready, attempt) (args, response, rehearsed, confirmed, once)
          | inr (thrown, failed) ↦ elim (throw-ne-ok (rw (failed, attempt) at done)) [ ]
        ]

  module _ {Interface : Type 0} (parse_error : Interface → String → Option ParsedError)
      (interfaces : List Interface) where
    -- A creation that answers with a result parsed both amounts of the request, and passed the dry run with
    -- the arguments of the request and its premium. With these arguments and this premium it was populated,
    -- prepared and signed into one payload, whose hash it announced before it sent the payload, once; the
    -- node answered that payload with a response, and what was awaited of this response is a receipt that
    -- did not revert and holds a log PolicyCreated. The answer's address is that log's, in lower case; its
    -- hash, block and gas are the receipt's, the insured is the request's, and the status is active.
    pub create_policy-IsConfirmed :
        (c : Connection) (r : ChainWriteResult)
        → (create_policy config string_of codec chain dto parse_error interfaces c).0 ≡ ok r
        → IsConfirmed r (create_policy config string_of codec chain dto parse_error interfaces c).2
    unfolding create_policy
    create_policy-IsConfirmed c r done =
        elim (Result-cases (amounts config string_of codec chain dto)) [
          | inr (thrown, failed) ↦ elim (throw-ne-ok (rw (failed, create_policy) at done)) [ ]
          | inl ((coverage_wei, premium_wei), funded) ↦
              let translate : Value → Value = λ thrown.
                to_http_exception parse_error string_of thrown interfaces "createPolicy" in
              let (args, response, rehearsed, confirmed, once) =
                attempt_ok coverage_wei premium_wei c r (
                  caught_ok translate
                    (attempt config string_of codec chain dto coverage_wei premium_wei c).0 r
                    (rw (funded, create_policy) at done)) in
              let (receipt, mined, succeeded, found, named, block, gas, beneficiary, active) =
                confirm_ok response r confirmed in
              let (coverage, premium) =
                amounts_ok config string_of codec chain dto coverage_wei premium_wei funded in
              let (requested, expected_address, dry_run) =
                rehearse_ok config string_of codec chain dto coverage_wei premium_wei args
                  rehearsed in
              let (log, event, logged, parsed, created, located) =
                extract_policy_address_ok chain.parse_log receipt r.address found in
              rw (funded, create_policy)
                (record {
                  log = log;
                  event = event;
                  coverage = coverage;
                  premium = premium;
                  requested = requested;
                  expected_address = expected_address;
                  sent = once;
                  logged = logged;
                  parsed = parsed;
                  created = created;
                  block = block;
                  gas = gas;
                  coverage_wei = coverage_wei;
                  premium_wei = premium_wei;
                  args = args;
                  response = response;
                  receipt = receipt;
                  rehearsed = dry_run;
                  mined = mined;
                  succeeded = succeeded;
                  located = located;
                  named = named;
                  beneficiary = beneficiary;
                  active = active;
                })
        ]

    -- Every failure after the request's amounts were read is an `HttpException`.
    pub create_policy-IsHttp :
        (c : Connection) (amounts_wei : ℕ × ℕ) (thrown : Value)
        → amounts config string_of codec chain dto ≡ ok amounts_wei
        → (create_policy config string_of codec chain dto parse_error interfaces c).0 ≡ throw thrown
        → IsHttp thrown
    unfolding create_policy
    create_policy-IsHttp c amounts_wei thrown funded failed =
        let translate : Value → Value =
          λ e. to_http_exception parse_error string_of e interfaces "createPolicy" in
        let (inner, own, same) =
          caught_thrown translate
            (attempt config string_of codec chain dto amounts_wei.0 amounts_wei.1 c).0 thrown
            (rw (funded, create_policy) at failed) in
        rw same (to_http_exception-IsHttp parse_error string_of inner interfaces "createPolicy")

-- ===== src/Scripts/Stress.antt =====
-- contracts/scripts/stress-create-policies.ts: the options, the choice of the provider, the bursts and what is
-- read from the receipts. The node, `Number`, `ethers.parseEther` and the environment are parameters.
pub mod Provider
pub mod Laws
use climate_chain.Shared.{
  ℕ, zero, suc, ◌+◌, ◌-◌, ◌*◌, ◌/◌, ◌==◌, min, max, Bool, true, false, not, ◌&&◌, ◌||◌, Option,
  none, some, String, List, [], ◌∷◌, str_eq, ltb, includes, or_else, length, take, drop,
  if◌then◌else◌,
}
use climate_chain.Shared.Text.{codes, show, to_lower, trim}
use climate_chain.Js.{
  ℤ, pos, Number, whole, Value, as_string, is_truthy, Result, ok, throw, ◌>>=◌, ◌>>◌,
}
use climate_chain.Registry.Json.{error}
use climate_chain.EvmAddress.{zero_address}

pub record HarnessOptions : Type 0 where
  pub total_policies : ℕ
  pub burst_size : ℕ
  pub insured_accounts : ℕ
  pub coverage_wei : ℤ
  pub premium_bps : ℕ
  pub rainfall_threshold_mm : ℕ
  pub duration_days : ℕ
  pub region_code : String
  pub requested_start_offset_seconds : ℕ
  pub force_fresh_deployment : Bool

-- `!Number.isInteger(n) || n <= 0`
unfoldable pub positive : String → Number → Result ℕ
positive option_name (whole (pos (suc n))) = ok (suc n)
positive option_name parsed = throw (error (option_name ∷ " must be a positive integer." ∷ []))

-- `number_of` is `Number(text)`.
unfoldable pub parse_positive_integer : (String → Number) → Option String → ℕ → String → Result ℕ
unfolding positive
parse_positive_integer number_of raw fallback option_name =
    positive option_name (number_of (or_else raw (show fallback)))

unfoldable pub parse_boolean : Option String → Bool → String → Result Bool
parse_boolean none fallback option_name = ok fallback
parse_boolean (some raw) fallback option_name =
    if str_eq raw "true"
    then ok true
    else if str_eq raw "false"
    then ok false
    else throw (error (option_name ∷ " must be either 'true' or 'false'." ∷ []))

-- `parse_ether` is `ethers.parseEther`: `none` where it throws.
unfoldable pub parse_coverage_wei : (String → Option ℤ) → Option String → Result ℤ
parse_coverage_wei parse_ether raw = elim (parse_ether (or_else raw "0.2")) [
  | none ↦ throw (
      error
        ("STRESS_COVERAGE_ETH must be a valid decimal ETH value (for example: 0.2, 1, 2.5)." ∷ []))
  | some (pos zero) ↦
      throw (error ("STRESS_COVERAGE_ETH must be greater than zero (value cannot be 0)." ∷ []))
  | some wei ↦ ok wei
]

-- `text.length`: a character above U+FFFF is two code units.
unfoldable pub code_units : List ℕ → ℕ
code_units [] = 0
code_units (c ∷ cs) = (if ltb 65535 c then 2 else 1) + code_units cs

-- The two checks between the options, and the record.
unfoldable pub checked_options : HarnessOptions → Result HarnessOptions
unfolding code_units
checked_options options =
    let units = code_units (codes options.region_code) in
    if units == 0 || ltb 31 units
    then throw (error ("STRESS_REGION_CODE must contain between 1 and 31 ASCII characters." ∷ []))
    else if ltb options.insured_accounts options.burst_size
    then throw (
        error (
          "STRESS_BURST_SIZE must be less than or equal to STRESS_INSURED_ACCOUNTS to avoid signer nonce contention in a burst."
          ∷ []))
    else ok options

-- The option of a name, with its fallback.
abbrev pub positive_option : (String → Number) → (String → Option String) → ℕ → String → Result ℕ
positive_option number_of env fallback name =
    parse_positive_integer number_of (env name) fallback name

unfoldable pub load_harness_options :
    (String → Number) → (String → Option ℤ) → (String → Option String) → Result HarnessOptions
unfolding parse_boolean parse_coverage_wei checked_options
load_harness_options number_of parse_ether env = do
  total ← positive_option number_of env 20 "STRESS_POLICIES_COUNT"
  burst ← positive_option number_of env 5 "STRESS_BURST_SIZE"
  insured ← positive_option number_of env 5 "STRESS_INSURED_ACCOUNTS"
  coverage ← parse_coverage_wei parse_ether (env "STRESS_COVERAGE_ETH")
  premium ← positive_option number_of env 125 "STRESS_PREMIUM_BPS"
  rainfall ← positive_option number_of env 30 "STRESS_RAINFALL_THRESHOLD_MM"
  days ← positive_option number_of env 14 "STRESS_DURATION_DAYS"
  fresh ← parse_boolean (env "STRESS_FORCE_DEPLOY") false "STRESS_FORCE_DEPLOY"
  offset ← positive_option number_of env 300 "STRESS_START_OFFSET_SECONDS"
  checked_options (record {
    total_policies = total;
    burst_size = burst;
    insured_accounts = insured;
    coverage_wei = coverage;
    premium_bps = premium;
    rainfall_threshold_mm = rainfall;
    duration_days = days;
    region_code = trim (or_else (env "STRESS_REGION_CODE") "STRESS");
    requested_start_offset_seconds = offset;
    force_fresh_deployment = fresh;
  })

-- The first signer deploys; the next ones are insured.
unfoldable pub insured_signers {ℓ} : {A : Type ℓ} → HarnessOptions → List A → Result (List A)
insured_signers options signers =
    if ltb (length signers) (options.insured_accounts + 1)
    then throw (
        error (
          "Not enough local signers. Need at least "
          ∷ show (options.insured_accounts + 1)
          ∷ ", found "
          ∷ show (length signers)
          ∷ "."
          ∷ []))
    else ok (take options.insured_accounts (drop 1 signers))

-- The loop over the bursts from index `i` on, with the number of bursts left; `burstSigners` of each.
unfoldable pub bursts_from {ℓ} : {A : Type ℓ} → ℕ → ℕ → ℕ → ℕ → List A → List (List A)
bursts_from zero i total size insured = []
bursts_from (suc left) i total size insured =
    take (min size (total - i * size)) insured ∷ bursts_from left (suc i) total size insured

unfoldable pub total_bursts : ℕ → ℕ → ℕ
total_bursts total size = (total + size - 1) / size

unfoldable pub bursts {ℓ} : {A : Type ℓ} → HarnessOptions → List A → List (List A)
unfolding bursts_from total_bursts
bursts options insured =
    bursts_from (total_bursts options.total_policies options.burst_size) 0 options.total_policies
      options.burst_size insured

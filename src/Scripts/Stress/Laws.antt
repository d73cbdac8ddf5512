-- ===== src/Scripts/Stress/Laws.antt =====
-- The bursts that the stress script plans from the options it accepts.
use climate_chain.Shared.{
  ℕ, zero, suc, ◌+◌, ◌-◌, ◌*◌, ◌/◌, ◌≤◌, ◌<◌, min, ◌≡◌, sym, ap, ◌∙◌, Option, String, List, [],
  false, ltb, ◌∷◌, ◌++◌, length, take, drop, take-append-drop, length-take, length-drop, All, arith,
  Bool-cases, or_else, inl, inr,
}
use climate_chain.Shared.Text.{trim}
use climate_chain.Js.{
  ℤ, pos, negsuc, Number, not_finite, fraction, whole, ok, bind_ok, ok_inj, throw-ne-ok,
}
use climate_chain.Scripts.Stress.{
  HarnessOptions, load_harness_options, insured_signers, bursts, bursts_from, total_bursts,
  checked_options, positive, parse_positive_integer, positive_option, parse_coverage_wei,
  parse_boolean,
}
use native.Mathlib.Omega.{div_any}
use native.Mathlib.Nat.{mod-lt}

abbrev pub creations {ℓ} : {A : Type ℓ} → List (List A) → ℕ
creations [] = 0
creations (burst ∷ later) = length burst + creations later

-- A burst has a policy, at most as many as a burst holds, and is of different insured signers: it is a beginning
-- of their list.
abbrev pub IsBurst {ℓ} : {A : Type ℓ} → ℕ → List A → List A → Type ℓ
IsBurst {A} size insured burst =
    (0 < length burst) × (length burst ≤ size) × (rest : List A) × (burst ++ rest ≡ insured)

total_bursts_enough : (total size : ℕ) → 0 < size → total ≤ total_bursts total size * size
unfolding total_bursts
total_bursts_enough total size some_size =
    let whole = div_any (total + size - 1) size in
    let left_over = mod-lt (total + size - 1) some_size in
    let turned : (total + size - 1) / size * size ≡ size * ((total + size - 1) / size) =
      omega arith in
    omega arith

total_bursts_tight : (total size : ℕ) → 0 < size → total_bursts total size * size < total + size
unfolding total_bursts
total_bursts_tight total size some_size =
    let whole = div_any (total + size - 1) size in
    let turned : (total + size - 1) / size * size ≡ size * ((total + size - 1) / size) =
      omega arith in
    omega arith

module _ {ℓ} {A : Type ℓ} (total size : ℕ) (insured : List A) (enough : size ≤ length insured) where
  length-burst :
      (i : ℕ) → length (take (min size (total - i * size)) insured) ≡ min size (total - i * size)
  length-burst i = length-take (min size (total - i * size)) insured ∙ omega arith

  creations-bursts_from :
      (left i : ℕ)
      → total - i * size ≤ left * size
      → creations (bursts_from left i total size insured) ≡ total - i * size
  unfolding bursts_from
  creations-bursts_from zero i covered = omega arith
  creations-bursts_from (suc left) i covered =
      let later : suc i * size ≡ i * size + size = omega arith in
      let more : suc left * size ≡ left * size + size = omega arith in
      let here = length-burst i in
      let rest = creations-bursts_from left (suc i) (omega arith) in omega arith

  bursts_from-IsBurst :
      0 < size
      → (left i : ℕ) → left * size < total - i * size + size
      → All (IsBurst size insured) (bursts_from left i total size insured)
  unfolding bursts_from
  bursts_from-IsBurst some_size zero i tight = record {}
  bursts_from-IsBurst some_size (suc left) i tight =
      let later : suc i * size ≡ i * size + size = omega arith in
      let more : suc left * size ≡ left * size + size = omega arith in
      let here = length-burst i in
      (
        (
          omega arith,
          omega arith,
          drop (min size (total - i * size)) insured,
          take-append-drop (min size (total - i * size)) insured,
        ),
        bursts_from-IsBurst some_size left (suc i) (omega arith),
      )

-- What the checks leave of the accepted options.
abbrev IsPlannable : HarnessOptions → Type 0
IsPlannable options = (0 < options.burst_size) × (options.burst_size ≤ options.insured_accounts)

positive_ok : (name : String) (parsed : Number) (m : ℕ) → positive name parsed ≡ ok m → 0 < m
unfolding positive
positive_ok name (whole (pos (suc n))) m done = let same : suc n ≡ m = ok_inj done in omega arith
positive_ok name (whole (pos zero)) m done = elim (throw-ne-ok done) [ ]
positive_ok name (whole (negsuc n)) m done = elim (throw-ne-ok done) [ ]
positive_ok name fraction m done = elim (throw-ne-ok done) [ ]
positive_ok name not_finite m done = elim (throw-ne-ok done) [ ]

parsed_ok :
    (number_of : String → Number) (raw : Option String) (fallback : ℕ) (name : String) (m : ℕ)
    → parse_positive_integer number_of raw fallback name ≡ ok m
    → 0 < m
unfolding parse_positive_integer
parsed_ok number_of raw fallback name m done = positive_ok name _ m done

checked_options_ok :
    (options accepted : HarnessOptions)
    → checked_options options ≡ ok accepted
    → (options ≡ accepted) × (options.burst_size ≤ options.insured_accounts)
unfolding checked_options
checked_options_ok options accepted done = ground arith

load_harness_options-IsPlannable :
    (number_of : String → Number) (parse_ether : String → Option ℤ) (env : String → Option String)
    (options : HarnessOptions)
    → load_harness_options number_of parse_ether env ≡ ok options
    → IsPlannable options
unfolding load_harness_options
load_harness_options-IsPlannable number_of parse_ether env options done =
    let (total, total_ok, done1) =
      bind_ok (positive_option number_of env 20 "STRESS_POLICIES_COUNT") _ options done in
    let (burst, burst_ok, done2) =
      bind_ok (positive_option number_of env 5 "STRESS_BURST_SIZE") _ options done1 in
    let (insured, insured_ok, done3) =
      bind_ok (positive_option number_of env 5 "STRESS_INSURED_ACCOUNTS") _ options done2 in
    let (coverage, coverage_ok, done4) =
      bind_ok (parse_coverage_wei parse_ether (env "STRESS_COVERAGE_ETH")) _ options done3 in
    let (premium, premium_ok, done5) =
      bind_ok (positive_option number_of env 125 "STRESS_PREMIUM_BPS") _ options done4 in
    let (rainfall, rainfall_ok, done6) =
      bind_ok (positive_option number_of env 30 "STRESS_RAINFALL_THRESHOLD_MM") _ options done5 in
    let (days, days_ok, done7) =
      bind_ok (positive_option number_of env 14 "STRESS_DURATION_DAYS") _ options done6 in
    let (fresh, fresh_ok, done8) =
      bind_ok (parse_boolean (env "STRESS_FORCE_DEPLOY") false "STRESS_FORCE_DEPLOY") _ options
        done7 in
    let (offset, offset_ok, checked) =
      bind_ok (positive_option number_of env 300 "STRESS_START_OFFSET_SECONDS") _ options done8 in
    let parsed : HarnessOptions = record {
      total_policies = total;
      burst_size = burst;
      insured_accounts = insured;
      coverage_wei = coverage;
      premium_bps = premium;
      rainfall_threshold_mm = rainfall;
      duration_days = days;
      region_code = trim (or_else (env "STRESS_REGION_CODE") "STRESS");
      requested_start_offset_seconds = offset;
      force_fresh_deployment = fresh;
    } in
    let (same, fits) = checked_options_ok parsed options checked in
    let some_size =
      parsed_ok number_of (env "STRESS_BURST_SIZE") 5 "STRESS_BURST_SIZE" burst burst_ok in
    let burst_same = ap (λ o. o.burst_size) same in
    let size_same : burst ≡ options.burst_size = burst_same in
    let insured_same : insured ≡ options.insured_accounts = ap (λ o. o.insured_accounts) same in
    (omega arith, omega arith)

length-insured_signers {ℓ} :
    {A : Type ℓ} (options : HarnessOptions) (signers insured : List A)
    → insured_signers options signers ≡ ok insured
    → length insured ≡ options.insured_accounts
unfolding insured_signers
length-insured_signers options signers insured chosen =
    elim (Bool-cases (ltb (length signers) (options.insured_accounts + 1))) [
      | inl few ↦
          let absurd : ⊥ = throw-ne-ok (rw (few, insured_signers) at chosen) in elim absurd [ ]
      | inr many ↦
          let same = ok_inj (rw (many, insured_signers) at chosen) in
          let there : options.insured_accounts + 1 ≤ length signers = grind arith in
          sym (ap length same)
          ∙ length-take options.insured_accounts (drop 1 signers)
          ∙ ap (λ n. min options.insured_accounts n) (length-drop 1 signers)
          ∙ omega arith
    ]

-- Where the options are accepted and there are signers enough, the planned bursts send as many
-- creations, in all, as policies are asked for; each burst sends at least one, at most as many as the
-- burst size, and one for each signer of a beginning of the list of insured signers.
pub bursts-creations {ℓ} :
    {A : Type ℓ} (number_of : String → Number) (parse_ether : String → Option ℤ)
    (env : String → Option String) (options : HarnessOptions) (signers insured : List A)
    → load_harness_options number_of parse_ether env ≡ ok options
    → insured_signers options signers ≡ ok insured
    → (creations (bursts options insured) ≡ options.total_policies)
      × All (IsBurst options.burst_size insured) (bursts options insured)
unfolding bursts
bursts-creations number_of parse_ether env options signers insured loaded chosen =
    let (some_size, fits) =
      load_harness_options-IsPlannable number_of parse_ether env options loaded in
    let there = length-insured_signers options signers insured chosen in
    let total = options.total_policies in
    let size = options.burst_size in
    let covered = total_bursts_enough total size some_size in
    let tight = total_bursts_tight total size some_size in
    let enough : size ≤ length insured = omega arith in
    (
      creations-bursts_from total size insured enough (total_bursts total size) 0 (omega arith)
          ∙ omega arith,
      bursts_from-IsBurst total size insured enough some_size (total_bursts total size) 0
          (omega arith),
    )
